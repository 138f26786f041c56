-- ===== src/Prelude/Text.antt =====
-- C strings and the searches in them. A character is its code.
use jmpxx.Prelude.{
  ℕ, suc, ◌≡◌, refl, Bool, true, false, ◌&&◌, Option, none, some, List, [], ◌∷◌, ◌++◌, ◌==◌,
  if◌then◌else◌, arith, length, take, drop, Bool-cases, Option-cases, inl, inr, zero, ◌+◌,
}

abbrev pub String : Type 0
String = List ℕ

abbrev pub same : String → String → Bool
same [] [] = true
same (c ∷ s) (d ∷ t) = c == d && same s t
same _ _ = false

abbrev pub is_prefix : String → String → Bool
is_prefix [] s = true
is_prefix (c ∷ p) [] = false
is_prefix (c ∷ p) (d ∷ s) = c == d && is_prefix p s

-- `strchr`, as an offset.
abbrev pub strchr : String → ℕ → Option ℕ
strchr [] c = none
strchr (d ∷ s) c =
    let rest = strchr s c in
    if d == c then some 0 else (elim rest [ none ↦ none | some i ↦ some (suc i) ])

-- What a C string ends at.
abbrev pub until_nul : String → String
until_nul [] = []
until_nul (c ∷ s) = if c == 0 then [] else c ∷ until_nul s

pub same_self : (s : String) → same s s ≡ true
same_self [] = refl
same_self (c ∷ s) = ground (arith, same_self s)

pub same→eq : (s t : String) → same s t ≡ true → s ≡ t
same→eq [] [] h = refl
same→eq [] (d ∷ t) h = ground (arith, h)
same→eq (c ∷ s) [] h = ground (arith, h)
same→eq (c ∷ s) (d ∷ t) h = ground (arith, same→eq s t)

pub is_prefix→eq : (p s : String) → is_prefix p s ≡ true → s ≡ p ++ drop (length p) s
is_prefix→eq [] s h = refl
is_prefix→eq (c ∷ p) [] h = ground (arith, h)
is_prefix→eq (c ∷ p) (d ∷ s) h = ground (arith, is_prefix→eq p s)

-- What the search finds is where the text is cut.
pub strchr-some :
    (s : String) (c i : ℕ)
    → strchr s c ≡ some i
    → (s ≡ take i s ++ c ∷ drop (i + 1) s) × (length (take i s) ≡ i)
strchr-some [] c i h = ground (arith, h)
strchr-some (d ∷ s) c zero h = elim (Bool-cases (d == c)) [
  | inl met ↦ (ground (arith, met), refl)
  | inr other ↦ elim (Option-cases (strchr s c)) [
    | inl absent ↦ ground (arith, h, other, absent)
    | inr (j, e) ↦ ground (arith, h, other, e)
  ]
]
strchr-some (d ∷ s) c (suc i) h = elim (Bool-cases (d == c)) [
  | inl met ↦ ground (arith, h, met)
  | inr other ↦ elim (Option-cases (strchr s c)) [
    | inl absent ↦ ground (arith, h, other, absent)
    | inr (j, e) ↦ ground (arith, h, other, e, strchr-some s c i)
  ]
]
