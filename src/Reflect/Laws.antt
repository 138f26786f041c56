-- ===== src/Reflect/Laws.antt =====
-- The laws of the scan for enumerators.
use jmpxx.Prelude.{
  ℕ, zero, suc, ◌+◌, ◌≤◌, ◌<◌, ◌≡◌, refl, sym, ap, ◌∙◌, ◌≢◌, ◌↔◌, inl, inr, true, false, ◌&&◌, some,
  List, [], ◌∷◌, arith, if◌then◌else◌, Bool-cases,
}
use jmpxx.Prelude.Int.{eqb_ℤ, eqb_ℤ_iff}
use jmpxx.Reflect.Spelling.{String}
use jmpxx.Reflect.Scan.{
  FailureInfo, Enum, upto, at, spelling, is_enumerator, same, name_in, scan_name, value_in,
  scan_value,
}

same_iff : (s t : String) → (same s t ≡ true) ↔ (s ≡ t)
same_iff [] [] = (λ h. refl, λ h. refl)
same_iff [] (d ∷ t) = (λ h. cc, λ h. cc)
same_iff (c ∷ s) [] = (λ h. cc, λ h. cc)
same_iff (c ∷ s) (d ∷ t) = ground (arith, same_iff s t)

module _ (e : Enum) where
  -- The failures of a stretch of the range, in order.
  abbrev pub infos : List ℕ → List FailureInfo
  infos [] = []
  infos (i ∷ is) =
      let rest = infos is in
      if is_enumerator e (e.cast (at e i))
      then record { value = at e i; name = spelling e (e.cast (at e i)) } ∷ rest
      else rest

  module _ (fits : (i : ℕ) → i < e.span → e.cast (at e i) ≡ at e i) where
    name_in-upto :
        (j n i : ℕ)
        → j + n ≤ e.span
        → j ≤ i
        → i < j + n
        → is_enumerator e (at e i) ≡ true
        → name_in e (at e i) (upto j n) ≡ spelling e (at e i)
    name_in-upto j zero i h low high named = absurd (omega arith)
    name_in-upto j (suc n) i h low high named =
        elim (Bool-cases (eqb_ℤ (at e i) (at e j) && is_enumerator e (e.cast (at e j)))) [
          | inl hit ↦ rw hit (
              ap (spelling e)
                (fits j (omega arith) ∙ sym ((eqb_ℤ_iff (at e i) (at e j)).0 (ground arith))))
          | inr miss ↦ rw miss (
              name_in-upto (j + 1) n i (omega arith) (omega (arith, other miss)) (omega arith)
                named)
        ]
      where
        other : (eqb_ℤ (at e i) (at e j) && is_enumerator e (e.cast (at e j))) ≡ false → i ≢ j
        other miss q = ground (
          arith,
          miss,
          ap (is_enumerator e) (fits j (omega arith) ∙ sym (ap (at e) q)),
          (eqb_ℤ_iff (at e i) (at e j)).1 (ap (at e) q),
        )

    value_in-upto :
        (j n i : ℕ)
        → ((k : ℕ)
            → k < e.span
            → is_enumerator e (at e k) ≡ true
            → spelling e (at e k) ≡ spelling e (at e i)
            → at e k ≡ at e i)
        → j + n ≤ e.span
        → j ≤ i
        → i < j + n
        → is_enumerator e (at e i) ≡ true
        → value_in e (spelling e (at e i)) (upto j n) ≡ some (at e i)
    value_in-upto j zero i one h low high named = absurd (omega arith)
    value_in-upto j (suc n) i one h low high named =
        elim (Bool-cases (
          is_enumerator e (e.cast (at e j))
          && same (spelling e (e.cast (at e j))) (spelling e (at e i)))) [
            | inl hit ↦ rw hit (
                ap some (
                  fits j (omega arith)
                  ∙ one j (omega arith) (ground (arith, fits j (omega arith))) (
                      ground (
                        arith,
                        fits j (omega arith),
                        same_iff (spelling e (e.cast (at e j))) (spelling e (at e i)),
                      ))))
            | inr miss ↦ rw miss (
                value_in-upto (j + 1) n i one (omega arith) (omega (arith, other miss))
                  (omega arith) named)
          ]
      where
        other :
            (is_enumerator e (e.cast (at e j))
                && same (spelling e (e.cast (at e j))) (spelling e (at e i)))
              ≡ false
            → i ≢ j
        other miss q = ground (
          arith,
          miss,
          ap (is_enumerator e) (fits j (omega arith) ∙ sym (ap (at e) q)),
          (same_iff (spelling e (e.cast (at e j))) (spelling e (at e i))).1
              (ap (spelling e) (fits j (omega arith) ∙ sym (ap (at e) q))),
        )

    -- In an enum whose range converts without change and whose enumerators have distinct names, the
    -- name of an enumerator in the range is its spelling, and casting that name gives the enumerator
    -- back.
    pub scan_value-scan_name :
        (i : ℕ)
        → ((k : ℕ)
            → k < e.span
            → is_enumerator e (at e k) ≡ true
            → spelling e (at e k) ≡ spelling e (at e i)
            → at e k ≡ at e i)
        → i < e.span
        → is_enumerator e (at e i) ≡ true
        → (scan_name e (at e i) ≡ spelling e (at e i))
          × (scan_value e (scan_name e (at e i)) ≡ some (at e i))
    unfolding scan_name scan_value
    scan_value-scan_name i one h named =
        let name = name_in-upto 0 e.span i (omega arith) (omega arith) (omega arith) named in
        (
          name,
          ap (scan_value e) name
              ∙ value_in-upto 0 e.span i one (omega arith) (omega arith) (omega arith) named,
        )
