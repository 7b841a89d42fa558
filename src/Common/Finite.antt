-- ===== src/Common/Finite.antt =====
-- Checking a property of every number below a bound by evaluation.
use Prim.Native.Nat.{ℕ, zero, suc, ◌+◌, ◌<◌}
use mathlib.Core.Path.{◌≡◌}
use mathlib.Core.Bool.{Bool, true, ◌&&◌}
use native.Mathlib.Omega.{arith}

-- The test on `start` and the `count - 1` numbers behind it.
unfoldable pub holds_on : (ℕ → Bool) → ℕ → ℕ → Bool
holds_on test start zero = true
holds_on test start (suc count) = test start && holds_on test (start + 1) count

holds_on-add :
    (test : ℕ → Bool) (count start k : ℕ)
    → k < count
    → holds_on test start count ≡ true
    → test (start + k) ≡ true
unfolding holds_on
holds_on-add test zero start k inside all = absurd (omega arith)
holds_on-add test (suc count) start zero inside all = ground arith
holds_on-add test (suc count) start (suc k) inside all =
    let there : test (start + 1 + k) ≡ true =
      holds_on-add test count (start + 1) k (omega arith) (ground arith) in
    let e : start + 1 + k ≡ start + suc k = omega arith in rw e at there

pub holds_below :
    (count : ℕ) (test : ℕ → Bool) (n : ℕ) → holds_on test 0 count ≡ true → n < count → test n ≡ true
holds_below count test n all inside =
    let e : 0 + n ≡ n = omega arith in rw e at (holds_on-add test count 0 n inside all)
