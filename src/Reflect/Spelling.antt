-- ===== src/Reflect/Spelling.antt =====
-- include/jmpxx/reflect.hpp: slicing an enumerator's name out of a signature. A character is its code.
use mathlib.Core.Option
use jmpxx.Prelude.{
  ℕ, suc, ◌+◌, ◌≡◌, refl, ap, ◌∙◌, Bool, true, false, not, ◌&&◌, ◌||◌, Option, none, some, List, [],
  ◌∷◌, ◌++◌, arith, leb, ◌==◌, if◌then◌else◌, length, drop,
}

abbrev pub String : Type 0
String = List ℕ

abbrev pub is_prefix : String → String → Bool
is_prefix [] s = true
is_prefix (c ∷ p) [] = false
is_prefix (c ∷ p) (d ∷ s) = c == d && is_prefix p s

-- `find` and `rfind` of a pattern that is not empty; `none` is `npos`.
abbrev pub find : String → String → Option ℕ
find p [] = none
find p (c ∷ s) = if is_prefix p (c ∷ s) then some 0 else Option.map suc (find p s)

abbrev pub or_here : Bool → Option ℕ → Option ℕ
or_here here (some i) = some (suc i)
or_here true none = some 0
or_here false none = none

abbrev pub rfind : String → String → Option ℕ
rfind p [] = none
rfind p (c ∷ s) = or_here (is_prefix p (c ∷ s)) (rfind p s)

-- The codes of `;` and `]`, and of `V = ` and `::`.
abbrev pub is_end : ℕ → Bool
is_end c = c == 59 || c == 93

abbrev pub marker : String
marker = 86 ∷ 32 ∷ 61 ∷ 32 ∷ []

abbrev pub colons : String
colons = 58 ∷ 58 ∷ []

-- `substr(0, find_first_of(";]"))`.
abbrev pub cut : String → String
cut [] = []
cut (c ∷ s) = if is_end c then [] else c ∷ cut s

-- `remove_prefix(m + 4)`; `npos + 4` wraps to 3.
abbrev pub after_marker : Option ℕ → String → String
after_marker (some m) p = drop (m + 4) p
after_marker none p = drop 3 p

abbrev pub strip_scope : Option ℕ → String → String
strip_scope (some i) p = drop (i + 2) p
strip_scope none p = p

-- The parameter is `__PRETTY_FUNCTION__` at the value.
unfoldable pub enumerator_spelling : String → String
enumerator_spelling signature =
    let p = cut (after_marker (find marker signature) signature) in strip_scope (rfind colons p) p

-- `c >= lo && c <= hi`.
abbrev pub between : ℕ → ℕ → ℕ → Bool
between lo hi c = leb lo c && leb c hi

abbrev pub is_letter : ℕ → Bool
is_letter c = c == 95 || (between 97 122 c || between 65 90 c)

abbrev pub is_word : ℕ → Bool
is_word c = is_letter c || between 48 57 c

abbrev pub all_word : String → Bool
all_word [] = true
all_word (c ∷ s) = is_word c && all_word s

unfoldable pub is_identifier : String → Bool
is_identifier [] = false
is_identifier (c ∷ s) = is_letter c && all_word (c ∷ s)

-- Nothing in a string ends the name.
abbrev pub no_end : String → Bool
no_end [] = true
no_end (c ∷ s) = not (is_end c) && no_end s

cut-append :
    (s : String) (c : ℕ) (post : String)
    → no_end s ≡ true
    → is_end c ≡ true
    → cut (s ++ c ∷ post) ≡ s
cut-append [] c post h e = ground arith
cut-append (d ∷ s) c post h e = ground (arith, cut-append s c post (ground arith) e)

word_no_end : (s : String) → all_word s ≡ true → no_end s ≡ true
word_no_end [] h = refl
word_no_end (c ∷ s) h = ground (arith, word_no_end s (ground arith))

no_end-append : (s t : String) → no_end s ≡ true → no_end t ≡ true → no_end (s ++ t) ≡ true
no_end-append [] t h k = k
no_end-append (c ∷ s) t h k = ground (arith, no_end-append s t (ground arith) k)

-- A name has no scope of its own.
rfind-word : (s : String) → all_word s ≡ true → rfind colons s ≡ none
rfind-word [] h = refl
rfind-word (c ∷ s) h = ground (arith, rfind-word s (ground arith))

rfind-scope :
    (scope name : String)
    → all_word name ≡ true
    → rfind colons (scope ++ (colons ++ name)) ≡ some (length scope)
rfind-scope [] [] h = refl
rfind-scope [] (d ∷ name) h = ground (arith, rfind-word (d ∷ name) h)
rfind-scope (c ∷ scope) name h = ground (arith, rfind-scope scope name h)

drop-append : (s t : String) (n : ℕ) → drop (length s + n) (s ++ t) ≡ drop n t
drop-append [] t n = ap (λ k. drop k t) (let e : 0 + n ≡ n = omega arith in e)
drop-append (c ∷ s) t n =
    ap (λ k. drop k ((c ∷ s) ++ t))
      (let e : suc (length s) + n ≡ suc (length s + n) = omega arith in e)
    ∙ drop-append s t n

identifier-word : (s : String) → is_identifier s ≡ true → all_word s ≡ true
unfolding is_identifier
identifier-word [] h = refl
identifier-word (c ∷ s) h = ground arith

-- From a signature in which the first `V = ` is followed by a scope, the name and the end of the
-- value, whatever stands around them, the name is recovered.
pub enumerator_spelling-name :
    (pre scope name post : String) (c : ℕ)
    → find marker (pre ++ (marker ++ ((scope ++ (colons ++ name)) ++ c ∷ post))) ≡ some (length pre)
    → no_end scope ≡ true
    → is_identifier name ≡ true
    → is_end c ≡ true
    → enumerator_spelling (pre ++ (marker ++ ((scope ++ (colons ++ name)) ++ c ∷ post))) ≡ name
unfolding enumerator_spelling is_identifier
enumerator_spelling-name pre scope name post c found inner ident closed =
    ap (λ p. strip_scope (rfind colons p) p)
      (ap (λ o. cut (after_marker o (pre ++ (marker ++ (body ++ c ∷ post))))) found
        ∙ ap cut (drop-append pre (marker ++ (body ++ c ∷ post)) 4)
        ∙ cut-append body c post (no_end-append scope (colons ++ name) inner ended) closed)
    ∙ ap (λ o. strip_scope o body) (rfind-scope scope name word)
    ∙ drop-append scope (colons ++ name) 2
  where
    body : String
    body = scope ++ (colons ++ name)

    word : all_word name ≡ true
    word = identifier-word name ident

    ended : no_end (colons ++ name) ≡ true
    ended = word_no_end name word
