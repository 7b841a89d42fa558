-- ===== src/Bus/Ack.antt =====
-- `bus_ack`: the check of the file name, and the move of an event to `processed/`.
use epistemic_framework.Common.{
  ℕ, Bool, true, false, List, [], ◌∷◌, ◌++◌, ◌==◌, if◌then◌else◌, Lacks, Bytes, codes, str_eq,
  str_eq_iff, str_eq_refl, ne_of_str_eq, Option, none, some, ◌≡◌, ◌≢◌, refl, sym, ◌∙◌, ap, arith,
  ◌⊎◌, inl, inr, Bool-cases, Option-cases,
}
use epistemic_framework.Common.Outcome.{Outcome, ok, error, ◌>>=◌, ◌>>◌, require}
use epistemic_framework.Bus.Scan.{Entry, has_slash, is_bare_name}

-- The entries of the events directory and of `processed/`.
pub record Directories : Type 0 where
  pub pending : List Entry
  pub processed : List Entry

unfoldable pub find_entry : Bytes → List Entry → Option Entry
find_entry name [] = none
find_entry name (e ∷ es) =
    let later = find_entry name es in if str_eq e.name name then some e else later

unfoldable pub remove_entry : Bytes → List Entry → List Entry
remove_entry name [] = []
remove_entry name (e ∷ es) =
    let later = remove_entry name es in if str_eq e.name name then later else e ∷ later

-- `rename`: the target is replaced if it is there.
abbrev pub move_entry : Bytes → Directories → Option Entry → Outcome Directories
move_entry name d none = error
move_entry name d (some e) = ok (record {
  pending = remove_entry name d.pending;
  processed = remove_entry name d.processed ++ (e ∷ []);
})

-- The flags say whether `processed/` is there or can be made, and whether `rename` succeeds.
unfoldable pub bus_ack : Bool → Bool → Directories → Bytes → Outcome Directories
bus_ack processed renames d event_file = do
  require (is_bare_name event_file)
  require processed
  let found = find_entry event_file d.pending
  moved ← move_entry event_file d found
  require renames
  ok moved

-- A name that stays in its directory: not empty, no slash, neither `.` nor `..`.
abbrev pub IsBare : Bytes → Type 0
IsBare s = (s ≢ []) × Lacks b'/' s × (s ≢ codes "..") × (s ≢ codes ".")

slash_cases :
    (s : Bytes)
    → ((has_slash s ≡ false) × Lacks b'/' s) ⊎ ((has_slash s ≡ true) × (Lacks b'/' s → ⊥))
slash_cases [] = inl (refl, tt)
slash_cases (c ∷ s) = elim (slash_cases s) [
  | inl (e, h) ↦ elim (Bool-cases (c == b'/')) [
    | inl slash ↦ inr (rw slash refl, λ l. l.0 (ground arith))
    | inr other ↦ inl (rw (other, e) refl, ((λ eq. absurd (ground arith)), h))
  ]
  | inr (e, h) ↦ inr (ground arith, λ l. h l.1)
]

name_cases : (s t : Bytes) → ((str_eq s t ≡ false) × (s ≢ t)) ⊎ ((str_eq s t ≡ true) × (s ≡ t))
name_cases s t = elim (Bool-cases (str_eq s t)) [
  | inl same ↦ inr (same, (str_eq_iff s t).0 same)
  | inr other ↦ inl (other, λ e. absurd (ground (arith, other, (str_eq_iff s t).1 e)))
]

find-remove : (name : Bytes) (es : List Entry) → find_entry name (remove_entry name es) ≡ none
unfolding find_entry remove_entry
find-remove name [] = refl
find-remove name (e ∷ es) = elim (Bool-cases (str_eq e.name name)) [
  | inl same ↦ rw same (find-remove name es)
  | inr other ↦ rw (other, other) (find-remove name es)
]

find-append :
    (name : Bytes) (es : List Entry) (e : Entry)
    → e.name ≡ name
    → find_entry name es ≡ none
    → find_entry name (es ++ (e ∷ [])) ≡ some e
unfolding find_entry
find-append name [] e same h = rw (same, str_eq_refl name) refl
find-append name (x ∷ es) e same h = elim (Bool-cases (str_eq x.name name)) [
  | inl first ↦ absurd (ground (arith, rw first at h))
  | inr later ↦ rw later (find-append name es e same (rw later at h))
]

abbrev name_of : Option Entry → Bytes
name_of none = []
name_of (some e) = e.name

found_name :
    (name : Bytes) (es : List Entry) (e : Entry) → find_entry name es ≡ some e → e.name ≡ name
unfolding find_entry
found_name name [] e h = absurd (ground arith)
found_name name (x ∷ es) e h = elim (name_cases x.name name) [
  | inr (first, same) ↦ let at : some x ≡ some e = rw first at h in sym (ap name_of at) ∙ same
  | inl (later, _) ↦ found_name name es e (rw later at h)
]

find_other-remove :
    (name other : Bytes) (es : List Entry)
    → str_eq name other ≡ false
    → find_entry other (remove_entry name es) ≡ find_entry other es
unfolding find_entry remove_entry
find_other-remove name other [] ne = refl
find_other-remove name other (e ∷ es) ne = elim (name_cases e.name name) [
  | inr (first, same) ↦
      let differs : str_eq e.name other ≡ false = rw same ne in
      rw (first, differs) (find_other-remove name other es ne)
  | inl (later, _) ↦
      rw later
        (ap (λ r. if str_eq e.name other then some e else r) (find_other-remove name other es ne))
]

find_other-append :
    (other : Bytes) (es : List Entry) (e : Entry)
    → str_eq e.name other ≡ false
    → find_entry other (es ++ (e ∷ [])) ≡ find_entry other es
unfolding find_entry
find_other-append other [] e ne = rw ne refl
find_other-append other (x ∷ es) e ne =
    ap (λ r. if str_eq x.name other then some x else r) (find_other-append other es e ne)

not_empty : (c : ℕ) (s : Bytes) → ◌≢◌ {A = Bytes} (c ∷ s) []
not_empty c s = ne_of_str_eq (c ∷ s) [] (unfold str_eq in refl)

is_bare_name-IsBare :
    (s : Bytes) → ((is_bare_name s ≡ true) × IsBare s) ⊎ ((is_bare_name s ≡ false) × (IsBare s → ⊥))
unfolding is_bare_name
is_bare_name-IsBare [] = inr (refl, λ b. b.0 refl)
is_bare_name-IsBare (c ∷ s) = elim (slash_cases (c ∷ s)) [
  | inr (e, h) ↦ inr (ground arith, λ b. h b.1)
  | inl (e, h) ↦ elim (name_cases (c ∷ s) (codes "..")) [
    | inr (two, same) ↦ inr (ground arith, λ b. b.2 same)
    | inl (two, ne) ↦ elim (name_cases (c ∷ s) (codes ".")) [
      | inr (one, same) ↦ inr (ground arith, λ b. b.3 same)
      | inl (one, ne') ↦ inl (ground arith, (not_empty c s, h, ne, ne'))
    ]
  ]
]

-- The move of an event: it is gone from the pending ones and is found in `processed/`, and every
-- other name stands for what it stood for in both.
abbrev pub IsMoved : Bytes → Entry → Directories → Directories → Type 0
IsMoved name e d d' =
    (find_entry name d'.pending ≡ none)
    × (find_entry name d'.processed ≡ some e)
    × ((other : Bytes)
        → other ≢ name
        → (find_entry other d'.pending ≡ find_entry other d.pending)
          × (find_entry other d'.processed ≡ find_entry other d.processed))

distinct : (a b : Bytes) → b ≢ a → str_eq a b ≡ false
distinct a b ne = elim (name_cases a b) [ inl (e, _) ↦ e | inr (_, same) ↦ absurd (ne (sym same)) ]

remove_entry-IsMoved :
    (name : Bytes) (e : Entry) (d : Directories)
    → find_entry name d.pending ≡ some e
    → IsMoved name e d (record {
      pending = remove_entry name d.pending;
      processed = remove_entry name d.processed ++ (e ∷ []);
    })
remove_entry-IsMoved name e d h =
    let same = found_name name d.pending e h in
    (
      find-remove name d.pending,
      find-append name (remove_entry name d.processed) e same (find-remove name d.processed),
      λ other ne.
          let differs : str_eq name other ≡ false = distinct name other ne in
          let e_differs : str_eq e.name other ≡ false = rw same differs in
          (
            find_other-remove name other d.pending differs,
            find_other-append other (remove_entry name d.processed) e e_differs
                ∙ find_other-remove name other d.processed differs,
          ),
    )

-- An acknowledgement where `processed/` is there and `rename` succeeds: a name that is empty, has a
-- slash, or is one of the two dot names is refused; for any other name that stands for no pending entry
-- the function returns -1; otherwise the entry is gone from the pending ones and is found in
-- `processed/`, and every other name stands for what it stood for in both.
pub bus_ack_cases :
    (d : Directories) (name : Bytes)
    → ((IsBare name → ⊥) × (bus_ack true true d name ≡ error))
      ⊎ (IsBare name × (find_entry name d.pending ≡ none) × (bus_ack true true d name ≡ error))
      ⊎ (IsBare name
          × ((e : Entry) × (d' : Directories) × (find_entry name d.pending ≡ some e)
              × (bus_ack true true d name ≡ ok d')
              × IsMoved name e d d'))
bus_ack_cases d name = elim (is_bare_name-IsBare name) [
  | inr (bad, refused) ↦ inl (refused, unfold bus_ack in rw bad refl)
  | inl (good, bare) ↦ elim (Option-cases (find_entry name d.pending)) [
    | inl missing ↦ inr (inl (bare, missing, unfold bus_ack in rw (good, missing) refl))
    | inr (e, found) ↦ inr (
        inr (
          bare,
          (
            e,
            record {
              pending = remove_entry name d.pending;
              processed = remove_entry name d.processed ++ (e ∷ []);
            },
            found,
            (unfold bus_ack in rw (good, found) refl),
            remove_entry-IsMoved name e d found,
          ),
        ))
  ]
]
