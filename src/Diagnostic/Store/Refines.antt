-- ===== src/Diagnostic/Store/Refines.antt =====
-- The arena implements the stack of contexts of Diagnostic/Store/Stack.
use mathlib.Core.List.{map-append}
use native.Mathlib.Numerals.{add-one}
use jmpxx.Prelude.{
  ℕ, zero, suc, ◌<◌, ◌≡◌, refl, sym, ap, ◌∙◌, ◌≢◌, inl, inr, false, none, some, List, [], ◌∷◌, map,
  arith, ltb, leb, Bool-cases, Option-cases, length, get_elem?, set, take, length-take, length-map,
  take-set_last, take-take, map-take, take-all, get_elem?-some,
}
use mathlib.Core.Option
use jmpxx.Diagnostic.Store.{
  Record, Store, max_chain, max_inflight, fresh, open_record, find_index, find, hop, add_hop,
  truncate,
}
use jmpxx.Diagnostic.Store.Scan.{update-eq-set, find_below_sound, find_below_newest}
use jmpxx.Diagnostic.Store.Invariant.{IsValid, IsChain}
use jmpxx.Diagnostic.Store.Fresh.{IsFresh}
use jmpxx.Diagnostic.Store.Stack.{context, live, push, extend, extend_at, lookup}

module _ {L T : Type 0} where
  pub length-live : (s : Store L T) → IsValid s → length (live s) ≡ s.depth
  length-live s v = omega (
    arith,
    v.size,
    v.bounded,
    length-map (take s.depth s.records) context,
    length-take s.depth s.records,
  )

  -- Opening a record pushes its context, and a full arena drops it.
  pub live-open_record :
      (origin : L) (trace : T) (s : Store L T)
      → IsValid s
      → live (open_record origin trace s).1
        ≡ push
            (record {
              id = s.next_id;
              origin = origin;
              chain = [];
              truncated = false;
              trace = trace;
            })
            (live s)
  unfolding open_record
  live-open_record origin trace s v = elim (Bool-cases (leb max_inflight s.depth)) [
    | inl full ↦ rw (length-live s v, full) refl
    | inr room ↦
        let (r, e) = get_elem?-some s.records s.depth (ground (arith, v.size)) in
        let f = fresh s.next_id origin trace in
        rw (length-live s v, room, add-one s.depth, update-eq-set s.records s.depth f r e)
          (ap (map context) (take-set_last s.records s.depth (f r) (ground (arith, v.size)))
            ∙ map-append context (take s.depth s.records) (f r ∷ []))
  ]

  -- Releasing to a mark cuts the stack to that height, and a mark above the top changes nothing.
  pub live-truncate : (m : ℕ) (s : Store L T) → IsValid s → live (truncate m s) ≡ take m (live s)
  unfolding truncate
  live-truncate m s v = elim (Bool-cases (ltb m s.depth)) [
    | inl cut ↦ rw cut (
        ap (map context) (sym (take-take s.records m s.depth (ground arith)))
        ∙ map-take context m (take s.depth s.records))
    | inr stale ↦ rw stale (sym (take-all m (live s) (ground (arith, length-live s v))))
  ]

  context-hop :
      (loc : L) (r : Record L T) → IsChain r → context (hop loc r) ≡ extend loc (context r)
  unfolding hop
  context-hop loc r c = elim (Bool-cases (leb max_chain r.hop_count)) [
    | inl cut ↦ rw (sized, cut) refl
    | inr room ↦
        rw
          (
            sized,
            room,
            add-one r.hop_count,
            take-set_last r.hops r.hop_count loc (ground (arith, c.sized)),
          )
          refl
  ]
    where
      sized : length (take r.hop_count r.hops) ≡ r.hop_count
      sized = omega (arith, c.sized, c.counted, length-take r.hop_count r.hops)

  -- A hop leaves alone the contexts with other handles.
  extend_at-absent :
      (id : ℕ) (loc : L) (rs : List (Record L T)) (n : ℕ)
      → ((k : ℕ) (q : Record L T) → k < n → get_elem? rs k ≡ some q → q.id ≢ id)
      → map (extend_at id loc) (map context (take n rs)) ≡ map context (take n rs)
  extend_at-absent id loc rs zero other = refl
  extend_at-absent id loc [] (suc n) other = refl
  extend_at-absent id loc (r ∷ rs) (suc n) other =
      ground
        (arith, other 0 r, extend_at-absent id loc rs n (λ k q lt. other (suc k) q (omega arith)))

  extend_at-present :
      (id : ℕ) (loc : L) (rs : List (Record L T)) (n i : ℕ) (r : Record L T)
      → IsChain r
      → r.id ≡ id
      → get_elem? rs i ≡ some r
      → ((k : ℕ) (q : Record L T) → k < n → get_elem? rs k ≡ some q → q.id ≡ id → k ≡ i)
      → i < n
      → map context (take n (set rs i (hop loc r)))
        ≡ map (extend_at id loc) (map context (take n rs))
  extend_at-present id loc rs zero i r c same e only lt = absurd (omega arith)
  extend_at-present id loc [] (suc n) i r c same e only lt = cc
  extend_at-present id loc (x ∷ rs) (suc n) zero r c same e only lt = ground (
    arith,
    context-hop loc r c,
    extend_at-absent id loc rs n
        (λ k q p at h. absurd (omega (arith, only (suc k) q (omega arith) at h))),
  )
  extend_at-present id loc (x ∷ rs) (suc n) (suc i) r c same e only lt = ground (
    arith,
    only 0 x,
    extend_at-present id loc rs n i r c same e
        (λ k q p at h. let up : suc k ≡ suc i = only (suc k) q (omega arith) at h in omega arith)
        (omega arith),
  )

  -- The slot of a live handle is the only one with it.
  only_slot :
      (s : Store L T) (i k : ℕ) (r q : Record L T)
      → IsFresh s
      → get_elem? s.records i ≡ some r
      → get_elem? s.records k ≡ some q
      → r.id ≡ q.id
      → i < s.depth
      → k < s.depth
      → k ≡ i
  only_slot s i k r q h e e' same lt lt' = ground (
    arith,
    (λ (a : i < k). h.rising i k r q a lt' e e'),
    (λ (a : k < i). h.rising k i q r a lt e' e),
  )

  -- The live records have no other handles than those that resolve.
  find_index_absent :
      (id : ℕ) (s : Store L T)
      → IsFresh s
      → find_index id s ≡ none
      → (k : ℕ) (q : Record L T) → k < s.depth
      → get_elem? s.records k ≡ some q
      → q.id ≢ id
  unfolding find_index
  find_index_absent id s h none_found k q lt e same = ground (
    arith,
    h.below k q lt e,
    find_below_newest s.records s.depth k q e
        (λ j p a b e'. λ same'. absurd (omega (arith, h.rising k j q p a b e e'))) lt,
  )

  find_index_sound :
      (id : ℕ) (s : Store L T) {i : ℕ}
      → find_index id s ≡ some i
      → (r : Record L T) × (get_elem? s.records i ≡ some r) × (r.id ≡ id) × (i < s.depth)
  unfolding find_index
  find_index_sound id s {i} e = find_below_sound s.records id s.depth i (ground arith)

  -- While the live records have distinct handles in their order, as before the counter wraps, a
  -- propagation hop extends the chain of the context with that handle, and no other.
  pub live-add_hop :
      (id : ℕ) (loc : L) (s : Store L T)
      → IsValid s
      → IsFresh s
      → live (add_hop id loc s) ≡ map (extend_at id loc) (live s)
  unfolding add_hop
  live-add_hop id loc s v h = elim (Option-cases (find_index id s)) [
    | inl absent ↦
        rw (absent, add_hop)
          (sym (extend_at-absent id loc s.records s.depth (find_index_absent id s h absent)))
    | inr (i, e) ↦
        let (r, er, same, lt) = find_index_sound id s e in
        rw (e, add_hop, update-eq-set s.records i (hop loc) r er)
          (extend_at-present id loc s.records s.depth i r (v.chains i r er) same er
            (λ k q a e' same'. only_slot s i k r q h er e' (same ∙ sym same') lt a) lt)
  ]

  lookup-take :
      (id : ℕ) (rs : List (Record L T)) (n i : ℕ) (r : Record L T)
      → r.id ≡ id
      → get_elem? rs i ≡ some r
      → ((k : ℕ) (q : Record L T) → k < n → get_elem? rs k ≡ some q → q.id ≡ id → k ≡ i)
      → i < n
      → lookup id (map context (take n rs)) ≡ some (context r)
  lookup-take id rs zero i r same e only lt = absurd (omega arith)
  lookup-take id [] (suc n) i r same e only lt = cc
  lookup-take id (x ∷ rs) (suc n) zero r same e only lt = ground arith
  lookup-take id (x ∷ rs) (suc n) (suc i) r same e only lt = ground (
    arith,
    only 0 x,
    lookup-take id rs n i r same e
        (λ k q p at h. let up : suc k ≡ suc i = only (suc k) q (omega arith) at h in omega arith)
        (omega arith),
  )

  lookup-take-none :
      (id : ℕ) (rs : List (Record L T)) (n : ℕ)
      → ((k : ℕ) (q : Record L T) → k < n → get_elem? rs k ≡ some q → q.id ≢ id)
      → lookup id (map context (take n rs)) ≡ none
  lookup-take-none id rs zero other = refl
  lookup-take-none id [] (suc n) other = refl
  lookup-take-none id (r ∷ rs) (suc n) other =
      ground (arith, other 0 r, lookup-take-none id rs n (λ k q lt. other (suc k) q (omega arith)))

  -- While the live records have distinct handles in their order, as before the counter wraps, a
  -- handle resolves to the context on the stack that has it, and to nothing else.
  pub find-eq-lookup :
      (id : ℕ) (s : Store L T) → IsFresh s → Option.map context (find id s) ≡ lookup id (live s)
  unfolding find
  find-eq-lookup id s h = elim (Option-cases (find_index id s)) [
    | inl absent ↦
        ground (arith, lookup-take-none id s.records s.depth (find_index_absent id s h absent))
    | inr (i, e) ↦
        let (r, er, same, lt) = find_index_sound id s e in
        ground (
          arith,
          lookup-take id s.records s.depth i r same er
              (λ k q a e' same'. only_slot s i k r q h er e' (same ∙ sym same') lt a) lt,
        )
  ]
