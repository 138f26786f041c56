-- ===== src/Diagnostic/Hops.antt =====
-- The causal chain of one failure as it propagates (store::add_hop, note_propagation).
use mathlib.Core.Option
use mathlib.Core.List.{append-nil, append_assoc}
use Prim.Native.Nat.{min}
use jmpxx.Prelude.{
  ℕ, zero, suc, ◌+◌, ◌-◌, ◌^◌, ◌≤◌, ◌<◌, ◌≡◌, refl, sym, ap, ◌∙◌, inl, inr, true, false, some, List,
  [], ◌∷◌, ◌++◌, map, arith, ltb, leb, ◌==◌, Bool-cases, Option-cases, length, get_elem?,
  length-append, take, length-take,
}
use jmpxx.Prelude.Int.{ℤ}
use jmpxx.Platform.Trace.{Trace}
use jmpxx.Diagnostic.Store.{
  Record, Store, max_chain, max_inflight, open_record, find_index, find, fresh, add_hop,
}
use jmpxx.Diagnostic.Store.Invariant.{IsValid, add_hop-IsValid, open_record-IsValid}
use jmpxx.Diagnostic.Store.Fresh.{IsFresh, add_hop-IsFresh, open_record-IsFresh}
use jmpxx.Diagnostic.Store.Stack.{Context, context, live, extend, extend_at, lookup}
use jmpxx.Diagnostic.Store.Refines.{live-add_hop, find-eq-lookup}
use jmpxx.Diagnostic.Rich.{RichError, rich_error, note_propagation, chain_length}
use jmpxx.Diagnostic.Threads.{find-open_record}

take-nil : {A : Type 0} (n : ℕ) → take n (let l : List A = [] in l) ≡ []
take-nil zero = refl
take-nil (suc n) = refl

module _ {L : Type 0} where
  -- A failure travels through the sites `locs`, each of which notes it.
  unfoldable pub note_all : RichError → List L → Store L Trace → Store L Trace
  note_all e [] s = s
  note_all e (loc ∷ locs) s = note_all e locs (note_propagation e loc s)

  extend_all : List L → Context L Trace → Context L Trace
  extend_all [] c = c
  extend_all (loc ∷ locs) c = extend_all locs (extend loc c)

  lookup-extend_at :
      (id : ℕ) (loc : L) (cs : List (Context L Trace))
      → lookup id (map (extend_at id loc) cs) ≡ Option.map (extend loc) (lookup id cs)
  lookup-extend_at id loc [] = refl
  lookup-extend_at id loc (c ∷ cs) = elim (Bool-cases (c.id == id)) [
    | inl hit ↦ ground arith
    | inr miss ↦ ground (arith, lookup-extend_at id loc cs)
  ]

  lookup-note_all :
      (e : RichError) (locs : List L) (s : Store L Trace) {c : Context L Trace}
      → IsValid s
      → IsFresh s
      → lookup e.origin (live s) ≡ some c
      → lookup e.origin (live (note_all e locs s)) ≡ some (extend_all locs c)
  unfolding note_all extend_all note_propagation
  lookup-note_all e [] s v h found = found
  lookup-note_all e (loc ∷ locs) s {c} v h found =
      lookup-note_all e locs (add_hop e.origin loc s) (add_hop-IsValid e.origin loc s v)
        (add_hop-IsFresh e.origin loc s h)
        (ap (lookup e.origin) (live-add_hop e.origin loc s v h)
          ∙ lookup-extend_at e.origin loc (live s)
          ∙ ap (Option.map (extend loc)) found)

  pub IsFresh-note_all :
      (e : RichError) (locs : List L) (s : Store L Trace) → IsFresh s → IsFresh (note_all e locs s)
  unfolding note_all note_propagation
  IsFresh-note_all e [] s h = h
  IsFresh-note_all e (loc ∷ locs) s h =
      IsFresh-note_all e locs (add_hop e.origin loc s) (add_hop-IsFresh e.origin loc s h)

  -- A full chain keeps its sites and is marked.
  extend_all_full :
      (locs : List L) (c : Context L Trace)
      → length c.chain ≡ max_chain
      → c.truncated ≡ true
      → ((extend_all locs c).chain ≡ c.chain) × ((extend_all locs c).truncated ≡ true)
  unfolding extend_all
  extend_all_full [] c full cut = (refl, cut)
  extend_all_full (loc ∷ locs) c full cut =
      ground (arith, extend_all_full locs (record c { truncated = true }) full refl)

  extend_all_lem :
      (locs : List L) (c : Context L Trace)
      → length c.chain ≤ max_chain
      → c.truncated ≡ false
      → ((extend_all locs c).chain ≡ c.chain ++ take (max_chain - length c.chain) locs)
        × ((extend_all locs c).truncated ≡ ltb max_chain (length c.chain + length locs))
  unfolding extend_all
  extend_all_lem [] c fits uncut = (
    sym (ap (λ l. c.chain ++ l) (take-nil (max_chain - length c.chain)) ∙ append-nil c.chain),
    ground arith,
  )
  extend_all_lem (loc ∷ locs) c fits uncut = elim (Bool-cases (leb max_chain (length c.chain))) [
    | inl full ↦
        let at_end : length c.chain ≡ max_chain = ground arith in
        let step : extend loc c ≡ record c { truncated = true } = ground arith in
        let (kept, marked) = extend_all_full locs (record c { truncated = true }) at_end refl in
        (
          ap (λ x. (extend_all locs x).chain) step
              ∙ kept
              ∙ sym (append-nil c.chain)
              ∙ ap (λ (n : ℕ). c.chain ++ take (max_chain - n) (loc ∷ locs)) (sym at_end),
          ap (λ x. (extend_all locs x).truncated) step ∙ marked ∙ ground arith,
        )
    | inr room ↦
        let longer : length (c.chain ++ loc ∷ []) ≡ length c.chain + 1 =
          omega (arith, length-append c.chain (loc ∷ [])) in
        let step : extend loc c ≡ record c { chain = c.chain ++ loc ∷ [] } = ground arith in
        let (grown, marked) =
          extend_all_lem locs (record c { chain = c.chain ++ loc ∷ [] }) (ground arith) uncut in
        let left : suc (max_chain - (length c.chain + 1)) ≡ max_chain - length c.chain =
          ground arith in
        (
          ap (λ x. (extend_all locs x).chain) step
              ∙ grown
              ∙ ap (λ (n : ℕ). (c.chain ++ loc ∷ []) ++ take (max_chain - n) locs) longer
              ∙ append_assoc c.chain (loc ∷ []) (take (max_chain - (length c.chain + 1)) locs)
              ∙ ap (λ (n : ℕ). c.chain ++ take n (loc ∷ locs)) left,
          ap (λ x. (extend_all locs x).truncated) step ∙ marked ∙ ground (arith, longer),
        )
  ]

  extend_all_rest :
      (locs : List L) (c : Context L Trace)
      → ((extend_all locs c).id ≡ c.id)
        × ((extend_all locs c).origin ≡ c.origin)
        × ((extend_all locs c).trace ≡ c.trace)
  unfolding extend_all
  extend_all_rest [] c = (refl, refl, refl)
  extend_all_rest (loc ∷ locs) c = ground (arith, extend_all_rest locs (extend loc c))

  IsValid-note_all :
      (e : RichError) (locs : List L) (s : Store L Trace) → IsValid s → IsValid (note_all e locs s)
  unfolding note_all note_propagation
  IsValid-note_all e [] s v = v
  IsValid-note_all e (loc ∷ locs) s v =
      IsValid-note_all e locs (add_hop e.origin loc s) (add_hop-IsValid e.origin loc s v)

  find_slot :
      (id : ℕ) (s : Store L Trace) {r : Record L Trace}
      → find id s ≡ some r
      → (i : ℕ) × (get_elem? s.records i ≡ some r)
  unfolding find
  find_slot id s e = elim (Option-cases (find_index id s)) [
    | inl absent ↦ cc absent
    | inr (i, at) ↦ (i, ground arith)
  ]

  -- The chain length that is reported is that of the context on the stack.
  chain_length_lem :
      (e : RichError) (s : Store L Trace) {c : Context L Trace}
      → IsValid s
      → IsFresh s
      → lookup e.origin (live s) ≡ some c
      → chain_length e s ≡ length c.chain
  unfolding chain_length
  chain_length_lem e s {c} v h found = elim (Option-cases (find e.origin s)) [
    | inl absent ↦ ground (arith, find-eq-lookup e.origin s h)
    | inr (r, got) ↦
        let (i, slot) = find_slot e.origin s got in
        let k = v.chains i r slot in
        let same : context r ≡ c = ground (arith, find-eq-lookup e.origin s h) in
        ground (
          arith,
          ap (λ (x : Context L Trace). length x.chain) same,
          length-take r.hop_count r.hops,
          k.counted,
          k.sized,
        )
  ]

  -- A failure created with room in the arena and propagated through the sites `locs`, before the
  -- handle counter wraps: its context has the creation site as origin and the first `max_chain`
  -- sites as its chain, in order, and is marked as cut exactly when there were more; and the
  -- reported chain length is the number of sites, up to `max_chain`.
  pub chain-note_all :
      (c d : ℤ) (origin : L) (trace : Trace) (locs : List L) (s : Store L Trace)
      → IsValid s
      → IsFresh s
      → s.next_id + 1 < 2 ^ 32
      → s.depth < max_inflight
      → let (e, t) = rich_error c d origin trace s in
        (lookup e.origin (live (note_all e locs t))
          ≡ some (record {
            id = e.origin;
            origin = origin;
            chain = take max_chain locs;
            truncated = ltb max_chain (length locs);
            trace = trace;
          }))
        × (chain_length e (note_all e locs t) ≡ min max_chain (length locs))
  unfolding rich_error
  chain-note_all c d origin trace locs s v h room space =
      let t = (open_record origin trace s).1 in
      let (r, got, id) = find-open_record origin trace s v space in
      let valid = open_record-IsValid origin trace s v in
      let fresh_t = open_record-IsFresh origin trace s room v.issued h in
      let start = context (fresh s.next_id origin trace r) in
      let e : RichError = record { code = c; domain = d; origin = s.next_id } in
      let found : lookup s.next_id (live t) ≡ some start =
        ground (arith, find-eq-lookup s.next_id t fresh_t) in
      let whole = lookup-note_all e locs t valid fresh_t found in
      let (chain, marked) = extend_all_lem locs start (omega arith) refl in
      let (same_id, same_origin, same_trace) = extend_all_rest locs start in
      let counted =
        chain_length_lem e (note_all e locs t) (IsValid-note_all e locs t valid)
          (IsFresh-note_all e locs t fresh_t) whole in
      rw id (ground arith, ground (arith, ap length chain, length-take max_chain locs))
