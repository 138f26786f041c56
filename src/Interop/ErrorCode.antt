-- ===== src/Interop/ErrorCode.antt =====
-- include/jmpxx/interop/error_code.hpp: the bridge to std::error_code.
-- A category is known by its address. `std::make_unique` is a parameter: the address that it returns,
-- which is that of no category alive.
use jmpxx.Prelude.{
  ℕ, ◌≡◌, refl, inl, inr, Bool, Option, none, some, List, [], ◌∷◌, arith, ◌==◌, if◌then◌else◌,
  Bool-cases, Option-cases,
}
use jmpxx.Prelude.Int.{ℤ, pos, negsuc, eqb_ℤ, eqb_ℤ_iff, leb_ℤ}
use jmpxx.Core.Error.{Error}

-- `std::error_code`.
pub record ErrorCode : Type 0 where
  pub value : ℤ
  pub category : ℕ

-- The two maps; the category of a domain stores that domain.
pub record CategoryTable : Type 0 where
  pub by_domain : List (ℤ × ℕ)
  pub by_address : List (ℕ × ℤ)

-- The maps' `find`.
abbrev pub find_domain : List (ℤ × ℕ) → ℤ → Option ℕ
find_domain [] d = none
find_domain ((k, a) ∷ m) d = if eqb_ℤ k d then some a else find_domain m d

abbrev pub find_address : List (ℕ × ℤ) → ℕ → Option ℤ
find_address [] a = none
find_address ((k, d) ∷ m) a = if k == a then some d else find_address m a

-- `emplace` of a key that is already there changes nothing.
abbrev pub emplace_domain : ℤ → ℕ → List (ℤ × ℕ) → List (ℤ × ℕ)
emplace_domain d a m = elim (find_domain m d) [ some b ↦ m | none ↦ (d, a) ∷ m ]

abbrev pub emplace_address : ℕ → ℤ → List (ℕ × ℤ) → List (ℕ × ℤ)
emplace_address a d m = elim (find_address m a) [ some e ↦ m | none ↦ (a, d) ∷ m ]

unfoldable pub get : ℤ → ℕ → CategoryTable → ℕ × CategoryTable
get domain made t = elim (find_domain t.by_domain domain) [
  | some a ↦ (a, t)
  | none ↦ (
    made,
    record {
      by_domain = emplace_domain domain made t.by_domain;
      by_address = emplace_address made domain t.by_address;
    },
  )
]

unfoldable pub domain_of : ℕ → CategoryTable → ℤ
domain_of cat t = elim (find_address t.by_address cat) [ none ↦ negsuc 0 | some d ↦ d ]

unfoldable pub to_error_code : Error → ℕ → CategoryTable → ErrorCode × CategoryTable
unfolding get
to_error_code e made t =
    let (cat, t') = get e.domain made t in (record { value = e.code; category = cat }, t')

unfoldable pub is_jmpxx : ErrorCode → CategoryTable → Bool
unfolding domain_of
is_jmpxx ec t = leb_ℤ (pos 0) (domain_of ec.category t)

unfoldable pub from_error_code : ErrorCode → CategoryTable → Error
unfolding domain_of
from_error_code ec t =
    let domain = domain_of ec.category t in
    if leb_ℤ (pos 0) domain
    then record { code = ec.value; domain = domain }
    else record { code = ec.value; domain = pos 0 }

-- A domain's category is recognised, and as that domain's.
abbrev pub IsValid : CategoryTable → Type 0
IsValid t =
    (d : ℤ) (a : ℕ) → find_domain t.by_domain d ≡ some a → find_address t.by_address a ≡ some d

-- Asking for a category keeps the table valid, and the category is that domain's from then on: the
-- table recognises it, every category recognised before is recognised as before, and asking again
-- gives the same category and changes nothing.
pub get_lem :
    (domain : ℤ) (made : ℕ) (t : CategoryTable)
    → IsValid t
    → find_address t.by_address made ≡ none
    → let (cat, t') = get domain made t in
      IsValid t'
      × (domain_of cat t' ≡ domain)
      × ((a : ℕ) (d : ℤ)
          → find_address t.by_address a ≡ some d
          → find_address t'.by_address a ≡ some d)
      × ((made' : ℕ) → get domain made' t' ≡ (cat, t'))
unfolding get domain_of
get_lem domain made t v new = elim (Option-cases (find_domain t.by_domain domain)) [
  | inr (a, known) ↦
      rw (known, get)
        (v, ground (arith, v domain a known), λ b d h. h, λ made'. ground (arith, known))
  | inl absent ↦
      rw (absent, get, emplace_domain, emplace_address, new)
        (
          λ d a h. elim (Bool-cases (eqb_ℤ domain d)) [
            | inl same ↦ ground (arith, (eqb_ℤ_iff domain d).0 same)
            | inr other ↦ ground (arith, v d a)
          ],
          ground arith,
          λ a d h. ground arith,
          λ made'. ground (arith, (eqb_ℤ_iff domain domain).1 refl),
        )
]

-- The round trip of an error through an error code: with a domain that is not negative the error
-- comes back as it was and its code is recognised; with a negative domain the code is not recognised
-- and the error comes back with the domain 0.
pub from_error_code-to_error_code :
    (e : Error) (made : ℕ) (t : CategoryTable)
    → IsValid t
    → find_address t.by_address made ≡ none
    → let (ec, t') = to_error_code e made t in
      (from_error_code ec t'
        ≡ (if leb_ℤ (pos 0) e.domain then e else record { code = e.code; domain = pos 0 }))
      × (is_jmpxx ec t' ≡ leb_ℤ (pos 0) e.domain)
unfolding from_error_code to_error_code is_jmpxx
from_error_code-to_error_code e made t v new =
    let (valid, found, kept, again) = get_lem e.domain made t v new in
    (rw found refl, rw found refl)
