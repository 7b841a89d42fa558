-- ===== src/Remote/Shell.antt =====
-- How a POSIX shell splits a command into words, for commands whose bytes outside quotes are only
-- spaces, quotes and bytes behind a backslash. Any other byte outside quotes, which a shell might
-- treat specially, makes the reading fail.
use epistemic_framework.Common.{
  List, [], ◌∷◌, ◌++◌, append-nil, append_assoc, ◌==◌, if◌then◌else◌, Bytes, Option, none, some,
  ◌>>=◌, ◌≡◌, refl, ◌∙◌, ap, Bool-cases, inl, inr, ==_iff, sym,
}
use epistemic_framework.Remote.Escape.{quote, backslash, escaped_body, escaped}

pub data Quoting : Type 0 where
  unquoted quoted behind_backslash : Quoting

-- The word that is being read; `none` between words.
abbrev extend : Option Bytes → Bytes → Bytes
extend none s = s
extend (some w) s = w ++ s

unfoldable pub read_words : Quoting → Option Bytes → Bytes → Option (List Bytes)
read_words unquoted none [] = some []
read_words unquoted (some w) [] = some (w ∷ [])
read_words quoted word [] = none
read_words behind_backslash word [] = none
read_words quoted word (c ∷ s) =
    let close = read_words unquoted (some (extend word [])) s in
    let more = read_words quoted (some (extend word (c ∷ []))) s in
    if c == quote then close else more
read_words behind_backslash word (c ∷ s) = read_words unquoted (some (extend word (c ∷ []))) s
read_words unquoted none (c ∷ s) =
    let space = read_words unquoted none s in
    let open_quote = read_words quoted (some []) s in
    let escape = read_words behind_backslash (some []) s in
    if c == b' '
    then space
    else if c == quote
    then open_quote
    else if c == backslash
    then escape
    else none
read_words unquoted (some w) (c ∷ s) =
    let space = do ws ← read_words unquoted none s; some (w ∷ ws)
    in let open_quote = read_words quoted (some w) s in
      let escape = read_words behind_backslash (some w) s in
      if c == b' '
      then space
      else if c == quote
      then open_quote
      else if c == backslash
      then escape
      else none

abbrev pub shell_words : Bytes → Option (List Bytes)
shell_words = read_words unquoted none

-- Inside quotes, the quoted form of a text adds the text to the word and leaves the quotes.
pub read_words-escaped_body :
    (s rest w : Bytes)
    → read_words quoted (some w) (escaped_body s ++ rest) ≡ read_words unquoted (some (w ++ s)) rest
unfolding escaped_body read_words
read_words-escaped_body [] rest w = refl
read_words-escaped_body (c ∷ s) rest w = elim (Bool-cases (c == quote)) [
  | inl e ↦
      let same : (w ++ []) ++ (quote ∷ []) ++ s ≡ w ++ (c ∷ s) =
        rw ((==_iff c quote).0 e, append-nil, append_assoc) in
      rw e (
        read_words-escaped_body s rest ((w ++ []) ++ (quote ∷ []))
        ∙ ap (λ x. read_words unquoted (some x) rest) same)
  | inr e ↦ rw e (
      rw e (
        read_words-escaped_body s rest (w ++ (c ∷ []))
        ∙ ap (λ x. read_words unquoted (some x) rest) (append_assoc w (c ∷ []) s)))
]

-- A command of quoted words, with one space between them.
unfoldable pub quoted_command : Bytes → List Bytes → Bytes
quoted_command w [] = escaped w
quoted_command w (v ∷ vs) = escaped w ++ (b' ' ∷ quoted_command v vs)

pub shell_words-quoted_command :
    (w : Bytes) (ws : List Bytes) → shell_words (quoted_command w ws) ≡ some (w ∷ ws)
unfolding quoted_command read_words
shell_words-quoted_command w [] =
    ap (read_words quoted (some [])) (sym (append-nil (escaped_body w)))
    ∙ read_words-escaped_body w [] []
shell_words-quoted_command w (v ∷ vs) =
    read_words-escaped_body w (b' ' ∷ quoted_command v vs) [] ∙ rw (shell_words-quoted_command v vs)
