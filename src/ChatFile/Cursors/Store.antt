-- ===== src/ChatFile/Cursors/Store.antt =====
-- The cursor file as a map from handles to indices.
use epistemic_framework.Common.{
  ℕ, suc, ◌<◌, true, false, not, ◌&&◌, List, [], ◌∷◌, ◌++◌, ltb, leb, if◌then◌else◌, length, take,
  take_whole, All, All-append, Bytes, str_eq, str_eq_iff, str_eq_refl, some, ◌≡◌, ◌≢◌, refl, sym,
  ◌∙◌, ap, arith, inl, inr, Bool-cases, if_holds,
}
use epistemic_framework.Common.Outcome.{ok}
use epistemic_framework.Common.Int.{ℤ, pos}
use epistemic_framework.ChatFile.Participants.{max_participants}
use epistemic_framework.ChatFile.Participants.RoundTrip.{IsInt}
use epistemic_framework.ChatFile.Cursors.{
  Cursor, chat_cursor_read, has_cursor, add_cursor, cursor_file, chat_cursor_write,
}
use epistemic_framework.ChatFile.Cursors.Lines.{
  IsKey, IsCursor, key_short, index_of, read-file, set_all, load-file,
}

module _ (handle : Bytes) (index : ℤ) where
  length-set_all : (cs : List Cursor) → length (set_all handle index cs) ≡ length cs
  length-set_all [] = refl
  length-set_all (c ∷ cs) = ap suc (length-set_all cs)

  set_all-IsCursor :
      (cs : List Cursor) → IsInt index → All IsCursor cs → All IsCursor (set_all handle index cs)
  set_all-IsCursor [] i h = tt
  set_all-IsCursor (c ∷ cs) i ((key, int), h) = elim (Bool-cases (str_eq c.handle handle)) [
    | inl same ↦ rw same ((key, i), set_all-IsCursor cs i h)
    | inr other ↦ rw other ((key, int), set_all-IsCursor cs i h)
  ]

  -- With the new entry at the end, the handle has the new index, if it had none or not.
  index_of-appended :
      (cs : List Cursor)
      → index_of handle
          (set_all handle index cs ++ (record { handle = handle; index = index } ∷ []))
        ≡ index
  index_of-appended [] = rw (str_eq_refl handle) refl
  index_of-appended (c ∷ cs) = elim (Bool-cases (str_eq c.handle handle)) [
    | inl same ↦ rw same refl
    | inr other ↦ rw other (index_of-appended cs)
  ]

  index_of-present :
      (cs : List Cursor)
      → has_cursor handle (set_all handle index cs) ≡ true
      → index_of handle (set_all handle index cs) ≡ index
  unfolding has_cursor
  index_of-present [] h = absurd (ground arith)
  index_of-present (c ∷ cs) h = elim (Bool-cases (str_eq c.handle handle)) [
    | inl same ↦ rw same refl
    | inr other ↦ rw other (index_of-present cs (rw other at h))
  ]

  index_of-other :
      (other : Bytes) (cs : List Cursor)
      → str_eq handle other ≡ false
      → index_of other (set_all handle index cs) ≡ index_of other cs
  index_of-other other [] ne = refl
  index_of-other other (c ∷ cs) ne = elim (Bool-cases (str_eq c.handle handle)) [
    | inl same ↦
        let differs : str_eq c.handle other ≡ false = rw ((str_eq_iff c.handle handle).0 same) ne in
        rw (same, differs) (index_of-other other cs ne)
    | inr unchanged ↦
        rw unchanged
          (ap (λ r. if str_eq c.handle other then c.index else r) (index_of-other other cs ne))
  ]

  index_of-added :
      (other : Bytes) (cs : List Cursor)
      → str_eq handle other ≡ false
      → index_of other (cs ++ (record { handle = handle; index = index } ∷ [])) ≡ index_of other cs
  index_of-added other [] ne = rw ne refl
  index_of-added other (c ∷ cs) ne =
      ap (λ r. if str_eq c.handle other then c.index else r) (index_of-added other cs ne)

  -- The new list of cursors: where the handle stands, and where all others stand.
  added-IsCursor :
      (cs : List Cursor)
      → IsKey handle
      → IsInt index
      → All IsCursor cs
      → All IsCursor (add_cursor handle index (set_all handle index cs))
  unfolding add_cursor
  added-IsCursor cs key int h =
      let short = (key_short handle key).1 in
      let whole : take 63 handle ≡ handle = take_whole 63 handle (omega arith) in
      let all = set_all-IsCursor cs int h in
      if_holds (All IsCursor)
        (not (has_cursor handle (set_all handle index cs))
          && ltb (length (set_all handle index cs)) max_participants)
        _ _ (λ _. rw whole (All-append IsCursor (set_all handle index cs) _ all ((key, int), tt)))
        (λ _. all)

  added_index :
      (cs : List Cursor)
      → IsKey handle
      → length cs < max_participants
      → index_of handle (add_cursor handle index (set_all handle index cs)) ≡ index
  unfolding add_cursor
  added_index cs key room =
      let short = (key_short handle key).1 in
      let whole : take 63 handle ≡ handle = take_whole 63 handle (omega arith) in
      let free : ltb (length (set_all handle index cs)) max_participants ≡ true =
        ground (arith, length-set_all cs) in
      if_holds (λ ds. index_of handle ds ≡ index)
        (not (has_cursor handle (set_all handle index cs))
          && ltb (length (set_all handle index cs)) max_participants)
        _ _ (λ _. rw whole (index_of-appended cs)) (λ present. index_of-present cs (ground arith))

  added_other :
      (other : Bytes) (cs : List Cursor)
      → IsKey handle
      → str_eq handle other ≡ false
      → index_of other (add_cursor handle index (set_all handle index cs)) ≡ index_of other cs
  unfolding add_cursor
  added_other other cs key ne =
      let short = (key_short handle key).1 in
      let whole : take 63 handle ≡ handle = take_whole 63 handle (omega arith) in
      if_holds (λ ds. index_of other ds ≡ index_of other cs)
        (not (has_cursor handle (set_all handle index cs))
          && ltb (length (set_all handle index cs)) max_participants)
        _ _
        (λ _.
          rw whole (index_of-added other (set_all handle index cs) ne) ∙ index_of-other other cs ne)
        (λ _. index_of-other other cs ne)

str_eq-distinct : (a b : Bytes) → b ≢ a → str_eq a b ≡ false
str_eq-distinct a b ne = elim (Bool-cases (str_eq a b)) [
  | inl e ↦ absurd (ne (sym ((str_eq_iff a b).0 e)))
  | inr e ↦ e
]

-- A cursor file of fewer than 256 entries, and a handle of 1 to 63 bytes on one line, without an equals sign
-- and without a hash in front: after a write of an index from 0 to INT_MAX, a read gives that index for the
-- handle, and for every other handle what it gave before.
pub chat_cursor_read-chat_cursor_write :
    (cs : List Cursor) (handle : Bytes) (n : ℕ)
    → All IsCursor cs
    → length cs < max_participants
    → IsKey handle
    → IsInt (pos n)
    → (file : Bytes) × (chat_cursor_write (some (cursor_file cs)) handle (pos n) ≡ ok file)
      × (chat_cursor_read (some file) handle ≡ pos n)
      × ((other : Bytes)
          → other ≢ handle
          → chat_cursor_read (some file) other ≡ chat_cursor_read (some (cursor_file cs)) other)
chat_cursor_read-chat_cursor_write cs handle n h room key int =
    let loaded = load-file handle (pos n) cs h room in
    let new = add_cursor handle (pos n) (set_all handle (pos n) cs) in
    let positive : leb 0 n ≡ true = ground arith in
    let all : All IsCursor new = added-IsCursor handle (pos n) cs key int h in
    (
      cursor_file new,
      unfold chat_cursor_write in rw (positive, loaded),
      read-file handle new all ∙ added_index handle (pos n) cs key room,
      λ other ne.
          read-file other new all
          ∙ added_other handle (pos n) other cs key (str_eq-distinct handle other ne)
          ∙ sym (read-file other cs h),
    )
