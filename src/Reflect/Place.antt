-- ===== src/Reflect/Place.antt =====
-- The insertion loop of `build_failures` in include/jmpxx/reflect.hpp, on the array and as a list.
use jmpxx.Prelude.{
  ℕ, suc, ◌+◌, ◌≡◌, refl, ap, ◌∙◌, inl, inr, true, false, List, [], ◌∷◌, arith, if◌then◌else◌,
  Bool-cases, length, set, get_or,
}
use jmpxx.Prelude.Int.{ltb_ℤ}
use jmpxx.Reflect.Scan.{FailureInfo, no_info}
use jmpxx.Reflect.Meta.{shift, place}

-- The second list after the first in reverse.
abbrev pub rev : List FailureInfo → List FailureInfo → List FailureInfo
rev [] ys = ys
rev (z ∷ zs) ys = rev zs (z ∷ ys)

get_or-rev :
    (zs ys : List FailureInfo) (i : ℕ)
    → get_or (rev zs ys) (length zs + i) no_info ≡ get_or ys i no_info
get_or-rev [] ys i = ap (λ n. get_or ys n no_info) (omega arith)
get_or-rev (z ∷ zs) ys i =
    ap (λ n. get_or (rev zs (z ∷ ys)) n no_info) (omega arith) ∙ get_or-rev zs (z ∷ ys) (suc i)

set-rev :
    (zs ys : List FailureInfo) (i : ℕ) (f : FailureInfo)
    → set (rev zs ys) (length zs + i) f ≡ rev zs (set ys i f)
set-rev [] ys i f = ap (λ n. set ys n f) (omega arith)
set-rev (z ∷ zs) ys i f =
    ap (λ n. set (rev zs (z ∷ ys)) n f) (omega arith) ∙ set-rev zs (z ∷ ys) (suc i) f

-- An insertion into a list that descends.
abbrev pub insert : FailureInfo → List FailureInfo → List FailureInfo
insert f [] = f ∷ []
insert f (z ∷ zs) = let rest = insert f zs in if ltb_ℤ f.value z.value then z ∷ rest else f ∷ z ∷ zs

-- The last of the reversed list, and the slot after it.
last-rev :
    (z : FailureInfo) (zs ys : List FailureInfo) → get_or (rev (z ∷ zs) ys) (length zs) no_info ≡ z
last-rev z zs ys =
    ap (λ n. get_or (rev zs (z ∷ ys)) n no_info) (omega arith) ∙ get_or-rev zs (z ∷ ys) 0

after-rev :
    (z y f : FailureInfo) (zs ys : List FailureInfo)
    → set (rev (z ∷ zs) (y ∷ ys)) (suc (length zs)) f ≡ rev (z ∷ zs) (f ∷ ys)
after-rev z y f zs ys =
    ap (λ n. set (rev zs (z ∷ y ∷ ys)) n f) (omega arith) ∙ set-rev zs (z ∷ y ∷ ys) 1 f

place_moves :
    (j : ℕ) (out : List FailureInfo) (f z : FailureInfo)
    → get_or out j no_info ≡ z
    → ltb_ℤ f.value z.value ≡ true
    → place (suc j) out f ≡ place j (set out (suc j) z) f
unfolding place shift
place_moves j out f z h less =
    (let moved : ltb_ℤ f.value (get_or out j no_info).value ≡ true =
        ap (λ (x : FailureInfo). ltb_ℤ f.value x.value) h ∙ less in
      rw (moved, shift) refl)
    ∙ ap (λ (x : FailureInfo). place j (set out (suc j) x) f) h

place_stays :
    (j : ℕ) (out : List FailureInfo) (f z : FailureInfo)
    → get_or out j no_info ≡ z
    → ltb_ℤ f.value z.value ≡ false
    → place (suc j) out f ≡ set out (suc j) f
unfolding place shift
place_stays j out f z h more =
    let stays : ltb_ℤ f.value (get_or out j no_info).value ≡ false =
      ap (λ (x : FailureInfo). ltb_ℤ f.value x.value) h ∙ more in
    rw (stays, shift) refl

pub place-rev :
    (zs ys : List FailureInfo) (y f : FailureInfo)
    → place (length zs) (rev zs (y ∷ ys)) f ≡ rev (insert f zs) ys
unfolding place shift
place-rev [] ys y f = refl
place-rev (z ∷ zs) ys y f = elim (Bool-cases (ltb_ℤ f.value z.value)) [
  | inl less ↦
      place_moves (length zs) (rev (z ∷ zs) (y ∷ ys)) f z (last-rev z zs (y ∷ ys)) less
      ∙ ap (λ l. place (length zs) l f) (after-rev z y z zs ys)
      ∙ place-rev zs (z ∷ ys) z f
      ∙ (let q : rev (z ∷ insert f zs) ys ≡ rev (insert f (z ∷ zs)) ys = rw less refl in q)
  | inr more ↦
      place_stays (length zs) (rev (z ∷ zs) (y ∷ ys)) f z (last-rev z zs (y ∷ ys)) more
      ∙ after-rev z y f zs ys
      ∙ (let q : rev (f ∷ z ∷ zs) ys ≡ rev (insert f (z ∷ zs)) ys = rw more refl in q)
]
