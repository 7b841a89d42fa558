-- ===== src/Terminal/Line/Grow.antt =====
-- The capacity grows until the line fits.
use epistemic_framework.Common.{
  ℕ, zero, suc, ◌+◌, ◌*◌, ◌/◌, ◌≤◌, ◌<◌, true, leb, ◌≡◌, refl, arith, ◌⊎◌, inl, inr, Bool-cases,
}
use epistemic_framework.Common.Outcome.{ok}
use epistemic_framework.Terminal.Line.{size_max, double_cap}

bounded :
    (old needed cap : ℕ) → old ≤ needed → (cap ≡ old * 2) ⊎ (cap ≤ 2 * needed) → cap ≤ 2 * needed
bounded old needed cap le (inl e) = omega arith
bounded old needed cap le (inr most) = most

-- For `needed` below half of SIZE_MAX, and with fuel for as many rounds as are missing: the loop ends with a capacity above
-- what is needed, which is the old one or at most twice what is needed, and its assertion holds.
pub double_cap_total :
    (fuel new_cap needed : ℕ)
    → 0 < new_cap
    → needed + 1 < fuel + new_cap
    → 0 < fuel
    → needed < size_max / 2
    → (cap : ℕ) × (double_cap fuel new_cap needed ≡ ok cap)
      × (needed < cap)
      × (new_cap ≤ cap)
      × ((cap ≡ new_cap) ⊎ (cap ≤ 2 * needed))
unfolding double_cap
double_cap_total zero new_cap needed some enough fuel small = absurd (omega arith)
double_cap_total (suc fuel) new_cap needed some enough more small =
    elim (Bool-cases (leb new_cap needed)) [
      | inr done ↦ (new_cap, rw done refl, ground arith, omega arith, inl refl)
      | inl grows ↦
          let fits : leb new_cap (size_max / 2) ≡ true = ground arith in
          let (cap, e, above, le, most) =
            double_cap_total fuel (new_cap * 2) needed (omega arith) (ground arith) (ground arith)
              small in
          (
            cap,
            rw (grows, fits, e) refl,
            above,
            omega arith,
            inr (bounded new_cap needed cap (ground arith) most),
          )
    ]
