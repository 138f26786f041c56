-- ===== src/Diagnostic/Store/Invariant.antt =====
-- The invariant of the arena, and what holds while the handle counter has not wrapped.
use jmpxx.Prelude.{
  ℕ, zero, suc, ◌^◌, ◌≤◌, ◌<◌, ◌≡◌, refl, sym, ◌∙◌, inl, inr, some, List, arith, ltb, leb, ◌==◌,
  Bool-cases, Option-cases, length, get_elem?, length-set, replicate,
}
use jmpxx.Diagnostic.Store.{
  Record, Store, max_chain, max_inflight, initial, fresh, update, bump_id, open_record, find_index,
  hop, add_hop, truncate,
}
use jmpxx.Diagnostic.Store.Scan.{length-update, get_elem?-update_self, get_elem?-update_ne}

get_elem?-replicate :
    {A : Type 0} (n i : ℕ) (a b : A) → get_elem? (replicate n a) i ≡ some b → a ≡ b
get_elem?-replicate zero i a b h = cc
get_elem?-replicate (suc n) zero a b h = ground arith
get_elem?-replicate (suc n) (suc i) a b h = get_elem?-replicate n i a b h

bump_id_bounds : (n : ℕ) → (1 ≤ bump_id n) × (bump_id n < 2 ^ 32)
unfolding bump_id
bump_id_bounds n = ground arith

module _ {L T : Type 0} where
  -- The chain of a slot fits its array.
  pub record IsChain (r : Record L T) : Type 0 where
    pub counted : r.hop_count ≤ max_chain
    pub sized : length r.hops ≡ max_chain

  pub record IsValid (s : Store L T) : Type 0 where
    pub size : length s.records ≡ max_inflight
    pub bounded : s.depth ≤ max_inflight
    pub issued : 1 ≤ s.next_id
    pub word : s.next_id < 2 ^ 32
    pub chains : (i : ℕ) (r : Record L T) → get_elem? s.records i ≡ some r → IsChain r

  pub initial-IsValid : (r : Record L T) → IsChain r → IsValid (initial r)
  initial-IsValid r c = record {
    size = refl;
    bounded = omega arith;
    issued = omega arith;
    word = omega arith;
    chains = λ i q e. rw (get_elem?-replicate max_inflight i r q e) at c;
  }

  hop-IsChain : (loc : L) (r : Record L T) → IsChain r → IsChain (hop loc r)
  unfolding hop
  hop-IsChain loc r c = ground (arith, length-set r.hops r.hop_count loc)

  -- A write to one slot keeps every chain, if it keeps the one written.
  chains-update :
      (rs : List (Record L T)) (j : ℕ) (f : Record L T → Record L T)
      → ((i : ℕ) (r : Record L T) → get_elem? rs i ≡ some r → IsChain r)
      → ((r : Record L T) → IsChain r → IsChain (f r))
      → (i : ℕ) (r : Record L T) → get_elem? (update rs j f) i ≡ some r
      → IsChain r
  chains-update rs j f all keep i r e = elim (Bool-cases (j == i)) [
    | inr other ↦ all i r (sym (get_elem?-update_ne rs j i f (ground arith)) ∙ e)
    | inl same ↦ elim (Option-cases (get_elem? rs i)) [
      | inl out ↦ all i r (ground arith)
      | inr (q, e') ↦
          let written : f q ≡ r = ground (arith, get_elem?-update_self rs i f e') in
          rw written at (keep q (all i q e'))
    ]
  ]

  pub open_record-IsValid :
      (origin : L) (trace : T) (s : Store L T) → IsValid s → IsValid (open_record origin trace s).1
  unfolding open_record
  open_record-IsValid origin trace s v = elim (Bool-cases (leb max_inflight s.depth)) [
    | inl full ↦ rw full (record {
      size = v.size;
      bounded = v.bounded;
      issued = (bump_id_bounds s.next_id).0;
      word = (bump_id_bounds s.next_id).1;
      chains = v.chains;
    })
    | inr room ↦ rw room (record {
      size = length-update s.records s.depth _ ∙ v.size;
      bounded = ground arith;
      issued = (bump_id_bounds s.next_id).0;
      word = (bump_id_bounds s.next_id).1;
      chains =
          chains-update s.records s.depth (fresh s.next_id origin trace) v.chains
            (λ r c. record { counted = omega arith; sized = c.sized });
    })
  ]

  pub add_hop-IsValid : (id : ℕ) (loc : L) (s : Store L T) → IsValid s → IsValid (add_hop id loc s)
  unfolding add_hop
  add_hop-IsValid id loc s v = elim (Option-cases (find_index id s)) [
    | inl absent ↦ rw (absent, add_hop) v
    | inr (i, e) ↦
        rw (e, add_hop)
          (record {
            size = length-update s.records i (hop loc) ∙ v.size;
            bounded = v.bounded;
            issued = v.issued;
            word = v.word;
            chains = chains-update s.records i (hop loc) v.chains (hop-IsChain loc);
          })
  ]

  pub truncate-IsValid : (m : ℕ) (s : Store L T) → IsValid s → IsValid (truncate m s)
  unfolding truncate
  truncate-IsValid m s v = elim (Bool-cases (ltb m s.depth)) [
    | inl cut ↦ rw cut (record {
      size = v.size;
      bounded = ground arith;
      issued = v.issued;
      word = v.word;
      chains = v.chains;
    })
    | inr stale ↦ rw stale v
  ]
