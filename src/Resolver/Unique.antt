-- ===== src/Resolver/Unique.antt =====
-- The meaning of a table for the resolver of reference_app/src/resolve.hpp, as a function of the key.
use jmpxx.Prelude.{
  ℕ, suc, ◌+◌, ◌≡◌, refl, sym, ap, ◌∙◌, Option, none, some, [], ◌∷◌, ◌++◌, arith, length, take,
  drop, take-append,
}
use jmpxx.Prelude.Text.{String, strchr}
use jmpxx.Resolver.{open_mark, close_mark, find}
use jmpxx.Resolver.Meaning.{Cut, Means, means, Expands, plain_text, spliced}

drop-append : (xs ys : String) (k : ℕ) → drop (length xs + k) (xs ++ ys) ≡ drop k ys
drop-append [] ys k = ap (λ n. drop n ys) (omega arith)
drop-append (x ∷ xs) ys k =
    (let same_place : suc (length xs) + k ≡ suc (length xs + k) = omega arith in
      ap (λ n. drop n (x ∷ (xs ++ ys))) same_place)
    ∙ drop-append xs ys k

abbrev pub index : Option ℕ → ℕ
index none = 0
index (some n) = n

-- The parts are functions of the text.
abbrev pub before_of : String → String
before_of text = take (index (find open_mark text)) text

abbrev pub after_open : String → String
after_open text = drop (index (find open_mark text) + 2) text

abbrev pub ref_of : String → String
ref_of text = take (index (strchr (after_open text) close_mark)) (after_open text)

abbrev pub rest_of : String → String
rest_of text = drop (index (strchr (after_open text) close_mark) + 1) (after_open text)

module _ {text before ref after : String} (c : Cut text before ref after) where
  pub before-eq : before_of text ≡ before
  before-eq =
      ap (λ n. take n text) (ap index c.first)
      ∙ ap (take (length before)) c.parts
      ∙ take-append before (open_mark ++ (ref ++ close_mark ∷ after))

  pub after_open-eq : after_open text ≡ ref ++ close_mark ∷ after
  after_open-eq =
      ap (λ n. drop (n + 2) text) (ap index c.first)
      ∙ ap (drop (length before + 2)) c.parts
      ∙ drop-append before (open_mark ++ (ref ++ close_mark ∷ after)) 2

  pub ref-eq : ref_of text ≡ ref
  ref-eq =
      ap (λ t. take (index (strchr t close_mark)) t) after_open-eq
      ∙ ap (λ n. take n (ref ++ close_mark ∷ after)) (ap index c.closed)
      ∙ take-append ref (close_mark ∷ after)

  pub rest-eq : rest_of text ≡ after
  rest-eq =
      ap (λ t. drop (index (strchr t close_mark) + 1) t) after_open-eq
      ∙ ap (λ n. drop (n + 1) (ref ++ close_mark ∷ after)) (ap index c.closed)
      ∙ drop-append ref (close_mark ∷ after) 1

abbrev pub value_or : Option String → String
value_or none = []
value_or (some s) = s

pub not_plain :
    (text before : String)
    → find open_mark text ≡ none
    → find open_mark text ≡ some (length before)
    → {A : Type 0} → A
not_plain text before h g = absurd (ground (arith, h, g))

module _ (lookup : String → Option String) where
  mutual
    Means-same : (k k' v v' : String) → k ≡ k' → Means lookup k v → Means lookup k' v' → v ≡ v'
    Means-same k k' v v' e (means _ raw _ l x) (means _ raw' _ l' x') =
        Expands-same raw raw' v v' (ap value_or (sym l ∙ ap lookup e ∙ l')) x x'

    Expands-same :
        (t t' v v' : String) → t ≡ t' → Expands lookup t v → Expands lookup t' v' → v ≡ v'
    Expands-same t t' v v' e (plain_text _ h) (plain_text _ h') = e
    Expands-same t t' v v' e (plain_text _ h) (spliced _ before ref after value rest c m x) =
        not_plain t before h (ap (find open_mark) e ∙ c.first)
    Expands-same t t' v v' e (spliced _ before ref after value rest c m x) (plain_text _ h) =
        not_plain t before (ap (find open_mark) e ∙ h) c.first
    Expands-same t t' v v' e (spliced _ before ref after value rest c m x)
          (spliced _ before' ref' after' value' rest' c' m' x') =
        ap (λ l. l ++ (value ++ rest)) (sym (before-eq c) ∙ ap before_of e ∙ before-eq c')
        ∙ ap (λ l. before' ++ (l ++ rest))
            (Means-same ref ref' value value' (sym (ref-eq c) ∙ ap ref_of e ∙ ref-eq c') m m')
        ∙ ap (λ l. before' ++ (value' ++ l))
            (Expands-same after after' rest rest' (sym (rest-eq c) ∙ ap rest_of e ∙ rest-eq c') x
              x')

  -- A key has at most one value.
  pub Means-unique : (key v v' : String) → Means lookup key v → Means lookup key v' → v ≡ v'
  Means-unique key v v' m m' = Means-same key key v v' refl m m'
