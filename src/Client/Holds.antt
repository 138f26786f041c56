-- ===== src/Client/Holds.antt =====
-- Bytes that stand at an offset of a buffer, for the reads of
-- reference_app/optee_ta/ta/manifest_ta.cpp.
use jmpxx.Prelude.{
  ℕ, ◌+◌, ◌≤◌, ◌<◌, ◌≡◌, refl, sym, ap, ◌∙◌, inl, inr, true, some, List, [], ◌∷◌, ◌++◌, arith, leb,
  Bool-cases, length, get_elem?, length-append, take, drop, take-append,
}
use jmpxx.Manifest.Reader.{u8, slice, plus, has}
use jmpxx.Manifest.Bounds.{plus_small}
use mathlib.Core.List.{append_assoc}

pub record Holds (buf : List ℕ) (at : ℕ) (bytes : List ℕ) : Type 0 where
  pub before : List ℕ
  pub after : List ℕ
  pub parts : buf ≡ before ++ (bytes ++ after)
  pub place : length before ≡ at

get_elem?-append_mid :
    (xs : List ℕ) (x : ℕ) (ys : List ℕ) → get_elem? (xs ++ x ∷ ys) (length xs) ≡ some x
get_elem?-append_mid [] x ys = refl
get_elem?-append_mid (z ∷ xs) x ys = get_elem?-append_mid xs x ys

drop-append : (xs ys : List ℕ) → drop (length xs) (xs ++ ys) ≡ ys
drop-append [] ys = refl
drop-append (x ∷ xs) ys = drop-append xs ys

length-parts : (xs ys zs : List ℕ) → length (xs ++ (ys ++ zs)) ≡ length xs + (length ys + length zs)
length-parts xs ys zs = omega (arith, length-append xs (ys ++ zs), length-append ys zs)

module _ {buf : List ℕ} {at : ℕ} where
  pub Holds-le : {xs : List ℕ} → Holds buf at xs → at + length xs ≤ length buf
  Holds-le {xs} h = omega (arith, ap length h.parts, h.place, length-parts h.before xs h.after)

  pub Holds-front : (xs ys : List ℕ) → Holds buf at (xs ++ ys) → Holds buf at xs
  Holds-front xs ys h = record {
    before = h.before;
    after = ys ++ h.after;
    parts = h.parts ∙ ap (λ l. h.before ++ l) (append_assoc xs ys h.after);
    place = h.place;
  }

  pub Holds-rest : (xs ys : List ℕ) → Holds buf at (xs ++ ys) → Holds buf (at + length xs) ys
  Holds-rest xs ys h = record {
    before = h.before ++ xs;
    after = h.after;
    parts =
        h.parts
        ∙ ap (λ l. h.before ++ l) (append_assoc xs ys h.after)
        ∙ sym (append_assoc h.before xs (ys ++ h.after));
    place = omega (arith, length-append h.before xs, h.place);
  }

  pub u8-Holds : (x : ℕ) (xs : List ℕ) → Holds buf at (x ∷ xs) → u8 buf at ≡ some x
  u8-Holds x xs h = rw (h.parts, sym h.place) (get_elem?-append_mid h.before x (xs ++ h.after))

  pub slice-Holds :
      (xs : List ℕ) (n : ℕ) → n ≡ length xs → Holds buf at xs → slice buf at n ≡ some xs
  slice-Holds xs n e h =
      let inside : at + n ≤ length buf = omega (arith, Holds-le h, e) in
      let cut : take n (drop at buf) ≡ xs =
        ap (λ k. take n (drop k buf)) (sym h.place)
        ∙ ap (λ l. take n (drop (length h.before) l)) h.parts
        ∙ ap (take n) (drop-append h.before (xs ++ h.after))
        ∙ ap (λ k. take k (xs ++ h.after)) e
        ∙ take-append xs h.after in
      elim (Bool-cases (leb (at + n) (length buf))) [
        | inl met ↦ rw (met, cut)
        | inr short ↦ absurd (ground (arith, short, inside))
      ]

module _ (word : ℕ) (buf : List ℕ) (small : length buf < word) where
  pub has_inside : (at n : ℕ) → at + n ≤ length buf → has word buf at n ≡ true
  unfolding has
  has_inside at n h = ground (arith, h, plus_small word at n (omega arith))

  pub plus_inside : (at n : ℕ) → at + n ≤ length buf → plus word at n ≡ at + n
  plus_inside at n h = plus_small word at n (omega arith)
