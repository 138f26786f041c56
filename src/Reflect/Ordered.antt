-- ===== src/Reflect/Ordered.antt =====
-- The failures that include/jmpxx/reflect.hpp builds by static reflection, their order, and the message
-- beside the name.
use mathlib.Core.List.{Perm, perm_middle, append-nil}
use mathlib.Core.List.Perm
use jmpxx.Prelude.{
  suc, ◌≡◌, refl, sym, ap, ◌∙◌, inl, inr, false, none, some, List, [], ◌∷◌, ◌++◌, arith, Bool-cases,
  length, replicate,
}
use jmpxx.Prelude.Int.{ℤ, eqb_ℤ, eqb_ℤ_iff, ltb_ℤ}
use jmpxx.Prelude.Text.{String, same, same→eq}
use jmpxx.Reflect.Scan.{FailureInfo, no_info}
use jmpxx.Reflect.Meta.{meta_name, meta_cast, meta_message, place_all, meta_failures}
use jmpxx.Reflect.Place.{rev, insert, place-rev}

-- No value of the list is above that of `f`.
pub data NoneAbove (f : FailureInfo) : List FailureInfo → Type 0 where
  none_above : NoneAbove f []
  one_below :
      (z : FailureInfo) (zs : List FailureInfo)
      → ltb_ℤ f.value z.value ≡ false
      → NoneAbove f zs
      → NoneAbove f (z ∷ zs)

pub data IsDescending : List FailureInfo → Type 0 where
  descending_nil : IsDescending []
  descending_cons :
      (z : FailureInfo) (zs : List FailureInfo)
      → NoneAbove z zs
      → IsDescending zs
      → IsDescending (z ∷ zs)

weaken-NoneAbove :
    (f z : FailureInfo) (zs : List FailureInfo)
    → ltb_ℤ f.value z.value ≡ false
    → NoneAbove z zs
    → NoneAbove f zs
weaken-NoneAbove f z [] h none_above = none_above
weaken-NoneAbove f z (x ∷ xs) h (one_below _ _ e a) =
    one_below x xs (ground (arith, h, e)) (weaken-NoneAbove f z xs h a)

insert-NoneAbove :
    (x f : FailureInfo) (zs : List FailureInfo)
    → ltb_ℤ x.value f.value ≡ false
    → NoneAbove x zs
    → NoneAbove x (insert f zs)
insert-NoneAbove x f [] h a = one_below f [] h none_above
insert-NoneAbove x f (z ∷ zs) h (one_below _ _ e a) = elim (Bool-cases (ltb_ℤ f.value z.value)) [
  | inl less ↦ rw less (one_below z (insert f zs) e (insert-NoneAbove x f zs h a))
  | inr more ↦ rw more (one_below f (z ∷ zs) h (one_below z zs e a))
]

insert-IsDescending :
    (f : FailureInfo) (zs : List FailureInfo) → IsDescending zs → IsDescending (insert f zs)
insert-IsDescending f [] descending_nil = descending_cons f [] none_above descending_nil
insert-IsDescending f (z ∷ zs) (descending_cons _ _ a s) =
    elim (Bool-cases (ltb_ℤ f.value z.value)) [
      | inl less ↦ rw less (
          descending_cons z (insert f zs) (insert-NoneAbove z f zs (ground (arith, less)) a)
            (insert-IsDescending f zs s))
      | inr more ↦ rw more (
          descending_cons f (z ∷ zs) (one_below z zs more (weaken-NoneAbove f z zs more a))
            (descending_cons z zs a s))
    ]

insert-Perm : (f : FailureInfo) (zs : List FailureInfo) → Perm (insert f zs) (f ∷ zs)
insert-Perm f [] = Perm.rfl
insert-Perm f (z ∷ zs) = elim (Bool-cases (ltb_ℤ f.value z.value)) [
  | inl less ↦ rw less (Perm.trans (Perm.cons z (insert-Perm f zs)) (Perm.swap f z zs))
  | inr more ↦ rw more Perm.rfl
]

length-insert : (f : FailureInfo) (zs : List FailureInfo) → length (insert f zs) ≡ suc (length zs)
length-insert f [] = refl
length-insert f (z ∷ zs) = elim (Bool-cases (ltb_ℤ f.value z.value)) [
  | inl less ↦ rw less (ap suc (length-insert f zs))
  | inr more ↦ rw more refl
]

-- All of a list, one after the other.
abbrev insert_all : List FailureInfo → List FailureInfo → List FailureInfo
insert_all zs [] = zs
insert_all zs (e ∷ es) = insert_all (insert e zs) es

insert_all-IsDescending :
    (zs es : List FailureInfo) → IsDescending zs → IsDescending (insert_all zs es)
insert_all-IsDescending zs [] s = s
insert_all-IsDescending zs (e ∷ es) s =
    insert_all-IsDescending (insert e zs) es (insert-IsDescending e zs s)

insert_all-Perm : (zs es : List FailureInfo) → Perm (insert_all zs es) (es ++ zs)
insert_all-Perm zs [] = Perm.rfl
insert_all-Perm zs (e ∷ es) =
    Perm.trans (insert_all-Perm (insert e zs) es)
      (Perm.trans (Perm.append_left es (insert-Perm e zs)) (perm_middle es zs))

place_all-rev :
    (zs es : List FailureInfo)
    → place_all (length zs) (rev zs (replicate (length es) no_info)) es ≡ rev (insert_all zs es) []
unfolding place_all
place_all-rev zs [] = refl
place_all-rev zs (e ∷ es) =
    ap (λ l. place_all (suc (length zs)) l es)
      (place-rev zs (replicate (length es) no_info) no_info e)
    ∙ ap (λ n. place_all n (rev (insert e zs) (replicate (length es) no_info)) es)
        (sym (length-insert e zs))
    ∙ place_all-rev (insert e zs) es

path_Perm : {xs ys : List FailureInfo} → xs ≡ ys → Perm xs ys
path_Perm {xs} {ys} e = rw e Perm.rfl

-- The array that is built is the enumerators, each as often as it is declared, and its values never
-- descend: read backwards, no value is above an earlier one. Every slot of it is written.
pub meta_failures_lem :
    (es : List FailureInfo)
    → (zs : List FailureInfo) × (meta_failures es ≡ rev zs []) × IsDescending zs × Perm zs es
unfolding meta_failures
meta_failures_lem es = (
  insert_all [] es,
  place_all-rev [] es,
  insert_all-IsDescending [] es descending_nil,
  Perm.trans (insert_all-Perm [] es) (path_Perm (append-nil es)),
)

-- No two enumerators have one value.
pub data AreDistinct : List FailureInfo → Type 0 where
  distinct_nil : AreDistinct []
  distinct_cons :
      (e : FailureInfo) (es : List FailureInfo)
      → meta_name es e.value ≡ none
      → AreDistinct es
      → AreDistinct (e ∷ es)

-- Where no two enumerators have one value, the message of a value is the name that `enum_name` gives
-- it, and the fixed text for a value that has none.
pub meta_message-meta_name :
    (es : List FailureInfo) (v : ℤ) (out : String)
    → AreDistinct es
    → meta_message es v out ≡ elim (meta_name es v) [ none ↦ out | some n ↦ n ]
unfolding meta_message meta_name
meta_message-meta_name [] v out distinct_nil = refl
meta_message-meta_name (e ∷ es) v out (distinct_cons _ _ once rest) =
    elim (Bool-cases (eqb_ℤ v e.value)) [
      | inl met ↦ rw met (
          meta_message-meta_name es v e.name rest
          ∙ ap (λ o. elim o [ none ↦ e.name | some n ↦ n ])
              (ap (meta_name es) ((eqb_ℤ_iff v e.value).0 met) ∙ once))
      | inr other ↦ rw other (meta_message-meta_name es v out rest)
    ]

-- Where no two enumerators have one value, the value that a name casts to has that name.
pub meta_cast-meta_name :
    (es : List FailureInfo) (name : String) (v : ℤ)
    → AreDistinct es
    → meta_cast es name ≡ some v
    → meta_name es v ≡ some name
unfolding meta_cast meta_name
meta_cast-meta_name [] name v distinct_nil h = ground (arith, h)
meta_cast-meta_name (e ∷ es) name v (distinct_cons _ _ once rest) h =
    elim (Bool-cases (same name e.name)) [
      | inl met ↦
          let found : e.value ≡ v = ground (arith, h, met) in
          (rw ((eqb_ℤ_iff v e.value).1 (sym found)) (ap some (sym (same→eq name e.name met))))
      | inr other ↦ later (meta_cast-meta_name es name v rest (ground (arith, h, other)))
    ]
  where
    later : meta_name es v ≡ some name → meta_name (e ∷ es) v ≡ some name
    later found = elim (Bool-cases (eqb_ℤ v e.value)) [
      | inl twice ↦
          ground (arith, sym found ∙ ap (meta_name es) ((eqb_ℤ_iff v e.value).0 twice) ∙ once)
      | inr new ↦ rw new found
    ]
