-- ===== src/Diagnostic/Store/Fresh.antt =====
-- While the handle counter has not wrapped, the live records have distinct handles, in the order in
-- which they were opened.
use jmpxx.Prelude.{
  ℕ, ◌+◌, ◌^◌, ◌≤◌, ◌<◌, ◌≡◌, refl, sym, ◌∙◌, ◌≢◌, ◌⊎◌, inl, inr, some, List, arith, ltb, leb, ◌==◌,
  Bool-cases, Option-cases, get_elem?,
}
use jmpxx.Diagnostic.Store.{
  Record, Store, max_inflight, initial, fresh, update, bump_id, open_record, find_index, hop,
  add_hop, truncate,
}
use jmpxx.Diagnostic.Store.Scan.{get_elem?-update_self, get_elem?-update_ne}

pub bump_id_next : (n : ℕ) → n + 1 < 2 ^ 32 → bump_id n ≡ n + 1
unfolding bump_id
bump_id_next n h = ground arith

module _ {L T : Type 0} where
  pub record IsFresh (s : Store L T) : Type 0 where
    pub rising :
        (i j : ℕ) (r q : Record L T)
        → i < j
        → j < s.depth
        → get_elem? s.records i ≡ some r
        → get_elem? s.records j ≡ some q
        → r.id < q.id
    pub below :
        (i : ℕ) (r : Record L T)
        → i < s.depth
        → get_elem? s.records i ≡ some r
        → (1 ≤ r.id) × (r.id < s.next_id)

  pub initial-IsFresh : (r : Record L T) → IsFresh (initial r)
  initial-IsFresh r = record {
    rising = λ i j p q lt h. absurd (omega arith);
    below = λ i p h. absurd (omega arith);
  }

  -- What a slot holds after a write: the old record's image at the index, the old one elsewhere.
  pub update_cases :
      (rs : List (Record L T)) (j : ℕ) (f : Record L T → Record L T) (i : ℕ) (r : Record L T)
      → get_elem? (update rs j f) i ≡ some r
      → (q : Record L T) × (get_elem? rs i ≡ some q) × (((j ≡ i) × (r ≡ f q)) ⊎ ((j ≢ i) × (r ≡ q)))
  update_cases rs j f i r e = elim (Bool-cases (j == i)) [
    | inr other ↦
        let ne : j ≢ i = ground arith in
        (r, sym (get_elem?-update_ne rs j i f ne) ∙ e, inr (ne, refl))
    | inl same ↦ elim (Option-cases (get_elem? rs i)) [
      | inl out ↦ absurd (ground arith)
      | inr (q, e') ↦ (q, e', inl (ground arith, ground (arith, get_elem?-update_self rs i f e')))
    ]
  ]

  -- A write that keeps the handle keeps the order of the handles.
  IsFresh-update :
      (s : Store L T) (j : ℕ) (f : Record L T → Record L T)
      → ((r : Record L T) → (f r).id ≡ r.id)
      → IsFresh s
      → IsFresh (record s { records = update s.records j f })
  IsFresh-update s j f keep h = record {
    rising = λ i k r q lt in_range e e'.
        let (r', er, cr) = update_cases s.records j f i r e in
        let (q', eq, cq) = update_cases s.records j f k q e' in
        ground (arith, keep r', keep q', h.rising i k r' q' lt in_range er eq);
    below = λ i r lt e.
        let (r', er, cr) = update_cases s.records j f i r e in
        ground (arith, keep r', h.below i r' lt er);
  }

  hop-id : (loc : L) (r : Record L T) → (hop loc r).id ≡ r.id
  unfolding hop
  hop-id loc r = ground arith

  pub add_hop-IsFresh : (id : ℕ) (loc : L) (s : Store L T) → IsFresh s → IsFresh (add_hop id loc s)
  unfolding add_hop
  add_hop-IsFresh id loc s h = elim (Option-cases (find_index id s)) [
    | inl absent ↦ rw (absent, add_hop) h
    | inr (i, e) ↦ rw (e, add_hop) (IsFresh-update s i (hop loc) (hop-id loc) h)
  ]

  pub truncate-IsFresh : (m : ℕ) (s : Store L T) → IsFresh s → IsFresh (truncate m s)
  unfolding truncate
  truncate-IsFresh m s h = elim (Bool-cases (ltb m s.depth)) [
    | inl cut ↦ rw cut (record {
      rising = λ i j r q lt in_range. h.rising i j r q lt (ground arith);
      below = λ i r lt. h.below i r (ground arith);
    })
    | inr stale ↦ rw stale h
  ]

  pub open_record-IsFresh :
      (origin : L) (trace : T) (s : Store L T)
      → s.next_id + 1 < 2 ^ 32
      → 1 ≤ s.next_id
      → IsFresh s
      → IsFresh (open_record origin trace s).1
  unfolding open_record
  open_record-IsFresh origin trace s room issued h = elim (Bool-cases (leb max_inflight s.depth)) [
    | inl full ↦ rw full (record {
      rising = h.rising;
      below = λ i r lt e. ground (arith, h.below i r lt e, bump_id_next s.next_id room);
    })
    | inr space ↦ rw space (record {
      rising = λ i j r q lt in_range e e'.
          let (r', er, cr) = update_cases s.records s.depth (fresh s.next_id origin trace) i r e in
          let (q', eq, cq) = update_cases s.records s.depth (fresh s.next_id origin trace) j q e' in
          ground (
            arith,
            (λ (inner : j < s.depth). h.rising i j r' q' lt inner er eq),
            (λ (inner : i < s.depth). h.below i r' inner er),
          );
      below = λ i r lt e.
          let (r', er, cr) = update_cases s.records s.depth (fresh s.next_id origin trace) i r e in
          ground
            (arith, (λ (inner : i < s.depth). h.below i r' inner er), bump_id_next s.next_id room);
    })
  ]
