-- ===== src/Report/Quote.antt =====
-- The strings of verify/reporter.hpp as a reader of JSON takes them.
use jmpxx.Prelude.{
  ℕ, ◌≤◌, ◌<◌, ◌≡◌, refl, ap, ◌∙◌, inl, inr, Bool, true, false, ◌&&◌, ◌||◌, Option, none, some, [],
  ◌∷◌, ◌++◌, arith, ltb, leb, ◌==◌, if◌then◌else◌, ==_iff, Bool-cases,
}
use jmpxx.Prelude.Text.{String}
use mathlib.Core.List.{append_assoc}
use jmpxx.Report.{quote_chars, quote}

-- The character of an escape of one character.
abbrev pub unescape : ℕ → Option ℕ
unescape d =
    if d == b'"' || (d == b'\\' || d == b'/')
    then some d
    else if d == b'n'
    then some 10
    else if d == b't'
    then some 9
    else if d == b'r'
    then some 13
    else if d == b'f'
    then some 12
    else if d == b'b'
    then some 8
    else none

abbrev pub put_first : Option ℕ → Option (String × String) → Option (String × String)
put_first (some c) (some (s, rest)) = some (c ∷ s, rest)
put_first _ _ = none

-- The characters of a JSON string after its first quotation mark, and what follows the last: a control
-- character does not stand in one. The escapes by hexadecimal digits are left out.
unfoldable pub read_chars : String → Option (String × String)
read_chars [] = none
read_chars (c ∷ []) = if c == b'"' then some ([], []) else none
read_chars (c ∷ d ∷ s) =
    let next = read_chars (d ∷ s) in
    let after = read_chars s in
    if c == b'"'
    then some ([], d ∷ s)
    else if c == b'\\'
    then put_first (unescape d) after
    else if ltb c 32
    then none
    else put_first (some c) next

-- A text without control characters but newlines.
abbrev pub is_text : String → Bool
is_text [] = true
is_text (c ∷ s) = (leb 32 c || c == 10) && is_text s

read_chars-end : (rest : String) → read_chars (b'"' ∷ rest) ≡ some ([], rest)
unfolding read_chars
read_chars-end [] = refl
read_chars-end (d ∷ s) = refl

read_chars-escape :
    (d : ℕ) (s : String) → read_chars (b'\\' ∷ d ∷ s) ≡ put_first (unescape d) (read_chars s)
unfolding read_chars
read_chars-escape d s = refl

read_chars-control : (c : ℕ) (s : String) → c < 32 → read_chars (c ∷ s) ≡ none
unfolding read_chars
read_chars-control c [] h = ground (arith, h)
read_chars-control c (d ∷ s) h = ground (arith, h)

-- A character that is no control character and stands for itself.
read_chars-plain :
    (c : ℕ) (s : String)
    → (c == b'"') ≡ false
    → (c == b'\\') ≡ false
    → 32 ≤ c
    → read_chars (c ∷ s) ≡ put_first (some c) (read_chars s)
unfolding read_chars
read_chars-plain c [] no_quote no_escape h = rw no_quote
read_chars-plain c (d ∷ s) no_quote no_escape h =
    let no_control : ltb c 32 ≡ false = ground (arith, h) in rw (no_quote, no_escape, no_control)

-- What is read of the rest of the text, after one more character of it.
again :
    (c : ℕ) (s rest : String)
    → put_first (some c) (if is_text s then some (s, rest) else none)
      ≡ (if is_text s then some (c ∷ s, rest) else none)
again c s rest = elim (Bool-cases (is_text s)) [ inl e ↦ rw e | inr e ↦ rw e ]

read_chars-quote_chars :
    (s rest : String)
    → read_chars (quote_chars s ++ b'"' ∷ rest) ≡ (if is_text s then some (s, rest) else none)
read_chars-quote_chars [] rest = read_chars-end rest
read_chars-quote_chars (c ∷ s) rest =
    let ih = read_chars-quote_chars s rest in
    elim (Bool-cases (c == b'"')) [
      | inl met ↦
          rw ((==_iff c b'"').0 met)
            (read_chars-escape b'"' _ ∙ ap (put_first (some b'"')) ih ∙ again b'"' s rest)
      | inr no_quote ↦ elim (Bool-cases (c == b'\\')) [
        | inl met ↦
            rw ((==_iff c b'\\').0 met)
              (read_chars-escape b'\\' _ ∙ ap (put_first (some b'\\')) ih ∙ again b'\\' s rest)
        | inr no_escape ↦ elim (Bool-cases (c == b'\n')) [
          | inl met ↦
              rw ((==_iff c b'\n').0 met)
                (read_chars-escape b'n' _ ∙ ap (put_first (some b'\n')) ih ∙ again b'\n' s rest)
          | inr no_newline ↦ elim (Bool-cases (leb 32 c)) [
            | inl met ↦
                rw (no_quote, no_escape, no_newline, met)
                  (read_chars-plain c _ no_quote no_escape (ground (arith, met))
                    ∙ ap (put_first (some c)) ih
                    ∙ again c s rest)
            | inr control ↦
                rw (no_quote, no_escape, no_newline, control)
                  (read_chars-control c _ (ground (arith, control)))
          ]
        ]
      ]
    ]

-- A reader of JSON that has passed the first quotation mark.
abbrev pub read_string : String → Option (String × String)
read_string [] = none
read_string (c ∷ s) = if c == b'"' then read_chars s else none

-- A string that is quoted and followed by any text reads back as itself, with that text left, if it has
-- no control characters but newlines; otherwise it does not read as a JSON string.
pub quote_lem :
    (s rest : String) → read_string (quote s ++ rest) ≡ (if is_text s then some (s, rest) else none)
unfolding quote
quote_lem s rest =
    ap read_chars (append_assoc (quote_chars s) (b'"' ∷ []) rest) ∙ read_chars-quote_chars s rest
