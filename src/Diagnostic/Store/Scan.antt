-- ===== src/Diagnostic/Store/Scan.antt =====
-- The newest-first scan of `store::find`, and writes to one slot of the arena.
use jmpxx.Prelude.{
  ℕ, zero, suc, ◌<◌, ◌≡◌, refl, ◌≢◌, inl, inr, none, some, List, [], ◌∷◌, arith, ◌==◌, Bool-cases,
  Option-cases, length, get_elem?, set, length-set, get_elem?-set_self, get_elem?-set_ne,
}
use jmpxx.Diagnostic.Store.{Record, update, find_below}

get_elem?-lt : {A : Type 0} (xs : List A) (i : ℕ) {a : A} → get_elem? xs i ≡ some a → i < length xs
get_elem?-lt [] i h = cc
get_elem?-lt (x ∷ xs) zero h = omega arith
get_elem?-lt (x ∷ xs) (suc i) h = omega (arith, get_elem?-lt xs i h)

module _ {L T : Type 0} where
  pub length-update :
      (rs : List (Record L T)) (i : ℕ) (f : Record L T → Record L T)
      → length (update rs i f) ≡ length rs
  length-update rs i f = elim (Option-cases (get_elem? rs i)) [
    | inl out ↦ ground arith
    | inr (r, e) ↦ ground (arith, length-set rs i (f r))
  ]

  pub update-eq-set :
      (rs : List (Record L T)) (i : ℕ) (f : Record L T → Record L T) (r : Record L T)
      → get_elem? rs i ≡ some r
      → update rs i f ≡ set rs i (f r)
  update-eq-set rs i f r h = ground arith

  pub get_elem?-update_self :
      (rs : List (Record L T)) (i : ℕ) (f : Record L T → Record L T) {r : Record L T}
      → get_elem? rs i ≡ some r
      → get_elem? (update rs i f) i ≡ some (f r)
  get_elem?-update_self rs i f {r} h =
      ground (arith, get_elem?-set_self rs i (f r) (get_elem?-lt rs i h))

  pub get_elem?-update_ne :
      (rs : List (Record L T)) (i j : ℕ) (f : Record L T → Record L T)
      → i ≢ j
      → get_elem? (update rs i f) j ≡ get_elem? rs j
  get_elem?-update_ne rs i j f ne = elim (Option-cases (get_elem? rs i)) [
    | inl out ↦ ground arith
    | inr (r, e) ↦ ground (arith, get_elem?-set_ne rs (f r) ne)
  ]

  -- What the scan returns is a live slot with the id.
  pub find_below_sound :
      (rs : List (Record L T)) (id n i : ℕ)
      → find_below rs id n ≡ some i
      → (r : Record L T) × (get_elem? rs i ≡ some r) × (r.id ≡ id) × (i < n)
  unfolding find_below
  find_below_sound rs id zero i h = cc
  find_below_sound rs id (suc n) i h = elim (Option-cases (get_elem? rs n)) [
    | inl out ↦
        let (r, e, same, lt) = find_below_sound rs id n i (ground arith) in
        (r, e, same, omega arith)
    | inr (q, e) ↦ elim (Bool-cases (q.id == id)) [
      | inl hit ↦ (q, ground arith, ground arith, ground arith)
      | inr miss ↦
          let (r, e', same, lt) = find_below_sound rs id n i (ground arith) in
          (r, e', same, omega arith)
    ]
  ]

  -- Where no newer slot has the id of slot `j`, the scan returns `j`.
  pub find_below_newest :
      (rs : List (Record L T)) (n j : ℕ) (r : Record L T)
      → get_elem? rs j ≡ some r
      → ((k : ℕ) (q : Record L T) → j < k → k < n → get_elem? rs k ≡ some q → q.id ≢ r.id)
      → j < n
      → find_below rs r.id n ≡ some j
  unfolding find_below
  find_below_newest rs zero j r e newer lt = absurd (omega arith)
  find_below_newest rs (suc n) j r e newer lt = elim (Bool-cases (j == n)) [
    | inl last ↦ ground arith
    | inr older ↦ elim (Option-cases (get_elem? rs n)) [
      | inl out ↦
          ground (arith, find_below_newest rs n j r e (λ k q a b. newer k q a (omega arith)))
      | inr (q, e') ↦
          ground
            (arith, newer n q, find_below_newest rs n j r e (λ k p a b. newer k p a (omega arith)))
    ]
  ]

  -- Where no live slot has the id, the scan finds nothing.
  pub find_below-none :
      (rs : List (Record L T)) (id n : ℕ)
      → ((k : ℕ) (q : Record L T) → k < n → get_elem? rs k ≡ some q → q.id ≢ id)
      → find_below rs id n ≡ none
  unfolding find_below
  find_below-none rs id zero absent = refl
  find_below-none rs id (suc n) absent = elim (Option-cases (get_elem? rs n)) [
    | inl out ↦ ground (arith, find_below-none rs id n (λ k q a. absent k q (omega arith)))
    | inr (q, e) ↦
        ground (arith, absent n q, find_below-none rs id n (λ k p a. absent k p (omega arith)))
  ]
