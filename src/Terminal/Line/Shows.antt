-- ===== src/Terminal/Line/Shows.antt =====
-- What the line buffer stands for: the text in front of the cursor and the text behind it.
use epistemic_framework.Common.{
  ℕ, zero, suc, ◌+◌, ◌-◌, ◌/◌, ◌<◌, true, false, [], ◌∷◌, ◌++◌, append_assoc, ltb, leb, ◌==◌,
  if◌then◌else◌, length, length-append, get_or, replicate, Bytes, ◌≡◌, refl, sym, ◌∙◌, ap, arith,
}
use epistemic_framework.Common.Outcome.{ok}
use epistemic_framework.Terminal.Line.{
  line_init_cap, size_max, LineState, store, memmove, double_cap, line_state_init, line_ensure_cap,
  line_insert_char, line_state_reset,
}
use epistemic_framework.Terminal.Line.Grow.{double_cap_total}
use epistemic_framework.Terminal.Line.Memory.{store-append, get_or-append, first_or, memmove_up}

abbrev pub memory : Bytes → Bytes → Bytes → Bytes
memory before after rest = before ++ (after ++ (0 ∷ rest))

-- The state with `before` in front of the cursor and `after` behind it, then the NUL, and bytes that do not matter.
abbrev pub line : Bytes → Bytes → Bytes → LineState
line before after rest = record {
  buf = memory before after rest;
  len = length before + length after;
  cap = length (memory before after rest);
  cursor = length before;
}

abbrev pub Shows : Bytes → Bytes → LineState → Type 0
Shows before after ls = (rest : Bytes) × (ls ≡ line before after rest)

pub length-memory :
    (a b rest : Bytes) → length (memory a b rest) ≡ length a + length b + 1 + length rest
length-memory a b rest =
    omega (arith, length-append a (b ++ (0 ∷ rest)), length-append b (0 ∷ rest))

same_line :
    (buf a b rest : Bytes) (len cap cursor : ℕ)
    → buf ≡ memory a b rest
    → len ≡ length a + length b
    → cap ≡ length (memory a b rest)
    → cursor ≡ length a
    → Shows a b (record { buf = buf; len = len; cap = cap; cursor = cursor })
same_line buf a b rest len cap cursor e₁ e₂ e₃ e₄ = (rest, rw (e₁, e₂, e₃, e₄) refl)

length-replicate : (n x : ℕ) → length (replicate n x) ≡ n
length-replicate zero x = refl
length-replicate (suc n) x = ap suc (length-replicate n x)

memory-append : (a b rest more : Bytes) → memory a b rest ++ more ≡ memory a b (rest ++ more)
memory-append a b rest more =
    append_assoc a (b ++ (0 ∷ rest)) more ∙ ap (a ++◌) (append_assoc b (0 ∷ rest) more)

-- Where the block behind the cursor stands after the move that makes room.
room :
    (a b v : Bytes)
    → (if ltb (length a) (length a + length b)
        then memmove (length a + 1) (length a) (length a + length b - length a) (memory a b v)
        else memory a b v)
      ≡ a ++ (first_or 0 b ∷ (b ++ v))
room a [] v =
    let none_behind : ltb (length a) (length a + 0) ≡ false = ground arith in rw none_behind refl
room a (y ∷ b) v =
    let behind : ltb (length a) (length a + length (y ∷ b)) ≡ true = ground arith in
    let n : length a + length (y ∷ b) - length a ≡ length (y ∷ b) = omega arith in
    rw (behind, n) (memmove_up a (y ∷ b) v 0)

-- The NUL behind the longer text.
terminated :
    (a b w : Bytes) (x c : ℕ)
    → store (length a + length b + 1) 0 (a ++ (c ∷ (b ++ (x ∷ w)))) ≡ memory (a ++ (c ∷ [])) b w
terminated a b w x c =
    let front = (a ++ (c ∷ [])) ++ b in
    let e : a ++ (c ∷ (b ++ (x ∷ w))) ≡ front ++ (x ∷ w) =
      sym (append_assoc (a ++ (c ∷ [])) b (x ∷ w) ∙ append_assoc a (c ∷ []) (b ++ (x ∷ w))) in
    let n : length a + length b + 1 ≡ length front =
      omega (arith, length-append (a ++ (c ∷ [])) b, length-append a (c ∷ [])) in
    rw (e, n) (store-append front w x 0 ∙ append_assoc (a ++ (c ∷ [])) b (0 ∷ w))

nul_at : (a b w : Bytes) (n : ℕ) → n ≡ length a + length b → get_or (memory a b w) n 1 ≡ 0
nul_at a b w n e =
    let there : n ≡ length (a ++ b) = omega (arith, length-append a b) in
    let split : memory a b w ≡ (a ++ b) ++ (0 ∷ w) = sym (append_assoc a b (0 ∷ w)) in
    rw (split, there) (get_or-append (a ++ b) w 0 1)

module _ (junk : ℕ) where
  grown_by :
      (a b : Bytes) (k : ℕ)
      → length a + length b + 1 < size_max / 2
      → double_cap (length a + length b + 1 + 2) (length (memory a b [])) (length a + length b + 1)
        ≡ ok (length (memory a b []) + suc k)
      → line_ensure_cap junk (line a b []) (length a + length b + 1)
        ≡ ok (line a b (junk ∷ replicate k junk))
  grown_by a b k small e =
      let n = length a + length b in
      let cap = length (memory a b []) in
      let full : leb cap (n + 1) ≡ true = ground (arith, length-memory a b []) in
      let fits : ltb (n + 1) (size_max / 2) ≡ true = ground arith in
      let some_cap : (cap == 0) ≡ false = ground (arith, length-memory a b []) in
      let more : (cap + suc k) - cap ≡ suc k = omega arith in
      let w = junk ∷ replicate k junk in
      let total : cap + suc k ≡ length (memory a b w) =
        omega (arith, length-memory a b [], length-memory a b w, length-replicate k junk) in
      unfold line_ensure_cap in
      rw (full, fits, some_cap, e, more, memory-append a b [] w, total) refl

  -- Afterwards there is room for one more byte.
  grown :
      (a b rest : Bytes)
      → length a + length b + 1 < size_max / 2
      → (x : ℕ) × (rest' : Bytes) × (line_ensure_cap junk (line a b rest) (length a + length b + 1)
          ≡ ok (line a b (x ∷ rest')))
  grown a b [] small =
      let n = length a + length b in
      let cap = length (memory a b []) in
      let cap_is : cap ≡ n + 1 = omega (arith, length-memory a b []) in
      let (new_cap, e, above, _, _) =
        double_cap_total (n + 1 + 2) cap (n + 1) (omega arith) (omega arith) (omega arith) small in
      let k = new_cap - cap - 1 in
      let new_cap_is : new_cap ≡ cap + suc k = omega arith in
      (junk, replicate k junk, grown_by a b k small (e ∙ ap ok new_cap_is))
  grown a b (x ∷ rest) small =
      let fits : leb (length (memory a b (x ∷ rest))) (length a + length b + 1) ≡ false =
        ground (arith, length-memory a b (x ∷ rest)) in
      (x, rest, (unfold line_ensure_cap in rw fits refl))

  insert_line :
      (a b rest w : Bytes) (x c : ℕ)
      → line_ensure_cap junk (line a b rest) (length a + length b + 1) ≡ ok (line a b (x ∷ w))
      → line_insert_char junk (line a b rest) c ≡ ok (line (a ++ (c ∷ [])) b w)
  insert_line a b rest w x c grows =
      let n = length a + length b in
      let inside : leb (length a) n ≡ true = ground arith in
      let inside' : leb (length a + 1) (n + 1) ≡ true = ground arith in
      let stored = terminated a b w x c in
      let n' : n + 1 ≡ length (a ++ (c ∷ [])) + length b =
        omega (arith, length-append a (c ∷ [])) in
      let cap' : length (memory a b (x ∷ w)) ≡ length (memory (a ++ (c ∷ [])) b w) = omega (
        arith,
        length-append a (c ∷ []),
        length-memory a b (x ∷ w),
        length-memory (a ++ (c ∷ [])) b w,
      ) in
      let at : length a + 1 ≡ length (a ++ (c ∷ [])) = omega (arith, length-append a (c ∷ [])) in
      let nul : get_or (memory (a ++ (c ∷ [])) b w) (n + 1) 1 ≡ 0 =
        nul_at (a ++ (c ∷ [])) b w (n + 1) n' in
      unfold line_insert_char in
      rw
        (
          inside,
          grows,
          room a b (x ∷ w),
          store-append a (b ++ (x ∷ w)) (first_or 0 b) c,
          stored,
          nul,
          inside',
          n',
          cap',
          at,
        )
        refl

  -- An insertion in front of what is behind the cursor.
  pub line_insert_char-Shows :
      (a b : Bytes) (ls : LineState) (c : ℕ)
      → Shows a b ls
      → length a + length b + 1 < size_max / 2
      → (ls' : LineState) × (line_insert_char junk ls c ≡ ok ls') × Shows (a ++ (c ∷ [])) b ls'
  line_insert_char-Shows a b ls c (rest, shown) small =
      let (x, w, grows) = grown a b rest small in
      (line (a ++ (c ∷ [])) b w, rw shown (insert_line a b rest w x c grows), (w, refl))

pub line_state_init-Shows : (junk : ℕ) → Shows [] [] (line_state_init junk)
unfolding line_state_init
line_state_init-Shows junk =
    same_line _ [] [] (replicate (line_init_cap - 1) junk) 0 line_init_cap 0 refl refl
      (omega (arith, length-replicate 255 junk)) refl

reset_line : (a b rest : Bytes) → Shows [] [] (line_state_reset (line a b rest))
unfolding line_state_reset
reset_line [] [] rest = (rest, refl)
reset_line [] (y ∷ b) rest = (b ++ (0 ∷ rest), refl)
reset_line (y ∷ a) b rest = (a ++ (b ++ (0 ∷ rest)), refl)

pub line_state_reset-Shows :
    (a b : Bytes) (ls : LineState) → Shows a b ls → Shows [] [] (line_state_reset ls)
line_state_reset-Shows a b ls (rest, shown) = rw shown (reset_line a b rest)
