-- ===== src/Reflect/Message.antt =====
-- The text of a value in the domain that is derived from an enum, and reads of its name table.
use jmpxx.Prelude.{
  ℕ, zero, suc, ◌+◌, ◌<◌, ◌≡◌, refl, ap, ◌∙◌, ◌≢◌, inl, inr, true, ◌&&◌, none, some, map, arith,
  if◌then◌else◌, Bool-cases, get_elem?,
}
use jmpxx.Prelude.Int.{ℤ, pos, negsuc, ltb_ℤ, leb_ℤ}
use jmpxx.Reflect.Spelling.{String}
use jmpxx.Reflect.Scan.{
  Enum, plus, upto, at, spelling, is_enumerator, enumerator_c_str, name_table, offset, message,
}

offset_inside : (l v : ℤ) (n : ℕ) → (leb_ℤ l v && ltb_ℤ v (plus l n)) ≡ true → offset v l < n
offset_inside (pos l) (pos v) n h = ground arith
offset_inside (pos l) (negsuc v) n h = ground arith
offset_inside (negsuc l) (pos v) n h = ground arith
offset_inside (negsuc l) (negsuc v) n h = ground arith

plus-offset : (l v : ℤ) (n : ℕ) → (leb_ℤ l v && ltb_ℤ v (plus l n)) ≡ true → plus l (offset v l) ≡ v
plus-offset (pos l) (pos v) n h = ground arith
plus-offset (pos l) (negsuc v) n h = ground arith
plus-offset (negsuc l) (pos v) n h = ground arith
plus-offset (negsuc l) (negsuc v) n h = ground arith

get_elem?-map-upto :
    {A : Type 0} (f : ℕ → A) (j n i : ℕ) → i < n → get_elem? (map f (upto j n)) i ≡ some (f (j + i))
get_elem?-map-upto f j zero i h = absurd (omega arith)
get_elem?-map-upto f j (suc n) zero h = ap (λ (k : ℕ). some (f k)) (omega arith)
get_elem?-map-upto f j (suc n) (suc i) h =
    get_elem?-map-upto f (j + 1) n i (omega arith) ∙ ap (λ (k : ℕ). some (f k)) (omega arith)

module _ (e : Enum) (unknown : String) where
  -- The message of a value never reads past the name table.
  pub message_defined : (v : ℤ) → message e unknown v ≢ none
  unfolding message name_table
  message_defined v = elim (Bool-cases (leb_ℤ e.lo v && ltb_ℤ v (plus e.lo e.span))) [
    | inl inside ↦
        let found =
          get_elem?-map-upto (λ i. enumerator_c_str e (e.cast (at e i))) 0 e.span (offset v e.lo)
            (offset_inside e.lo v e.span inside) in
        rw (inside, found) (λ q. cc)
    | inr outside ↦ rw outside (λ q. cc)
  ]

  -- In an enum whose range converts without change, the message of a value is its spelling if it is an
  -- enumerator in the range, and the fixed text otherwise.
  pub message_lem :
      ((i : ℕ) → i < e.span → e.cast (at e i) ≡ at e i)
      → (v : ℤ)
      → message e unknown v
        ≡ some (
            if leb_ℤ e.lo v && ltb_ℤ v (plus e.lo e.span) && is_enumerator e v
            then spelling e v
            else unknown)
  unfolding message name_table enumerator_c_str
  message_lem fits v = elim (Bool-cases (leb_ℤ e.lo v && ltb_ℤ v (plus e.lo e.span))) [
    | inr outside ↦ rw outside refl
    | inl inside ↦
        let i = offset v e.lo in
        let low = offset_inside e.lo v e.span inside in
        let found = get_elem?-map-upto (λ i. enumerator_c_str e (e.cast (at e i))) 0 e.span i low in
        let back : e.cast (at e (0 + i)) ≡ v =
          ap (λ (k : ℕ). e.cast (at e k)) (omega arith)
          ∙ fits i low
          ∙ plus-offset e.lo v e.span inside in
        elim (Bool-cases (is_enumerator e v)) [
          | inl named ↦ ground (arith, found, named, inside, back)
          | inr unnamed ↦ ground (arith, found, unnamed, inside, back)
        ]
  ]
