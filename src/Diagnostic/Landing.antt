-- ===== src/Diagnostic/Landing.antt =====
-- A landing scope releases exactly what was opened under it (diagnostics.hpp, class landing).
use mathlib.Core.List.{map-append}
use native.Mathlib.Numerals.{add-one}
use jmpxx.Prelude.{
  ℕ, zero, suc, ◌+◌, ◌^◌, ◌≤◌, ◌<◌, ◌≡◌, refl, sym, ap, ◌∙◌, ◌≢◌, inl, inr, none, some, List, [],
  ◌∷◌, ◌++◌, map, arith, ltb, leb, Bool-cases, Option-cases, length, get_elem?, set, take,
  length-take, length-map, take-set_last, take-take, map-take, take-all, get_elem?-some,
}
use jmpxx.Platform.Trace.{Trace}
use jmpxx.Diagnostic.Store.{
  Record, Store, max_inflight, fresh, open_record, find_index, find, hop, add_hop, mark, truncate,
}
use jmpxx.Diagnostic.Store.Scan.{update-eq-set, find_below-none}
use jmpxx.Diagnostic.Store.Invariant.{
  IsValid, open_record-IsValid, add_hop-IsValid, truncate-IsValid,
}
use jmpxx.Diagnostic.Store.Fresh.{IsFresh}
use jmpxx.Diagnostic.Issued.{issued, failures, count_up, run-issued, get_elem?-count_up}
use jmpxx.Diagnostic.Rich.{
  Act, fail_at, propagate, scope, Region, leave, next, run_act, run, rich_error, note_propagation,
}

-- The part of a record that a hop leaves alone.
abbrev pub ident : {L T : Type 0} → Record L T → ℕ × L
ident r = (r.id, r.origin)

-- The live records by their handles and origins, oldest first.
abbrev pub idents : {L T : Type 0} → Store L T → List (ℕ × L)
idents s = map ident (take s.depth s.records)

take-append : {A : Type 0} (xs ys : List A) (n : ℕ) → n ≤ length xs → take n (xs ++ ys) ≡ take n xs
take-append xs ys zero h = refl
take-append [] ys (suc n) h = absurd (omega arith)
take-append (x ∷ xs) ys (suc n) h = ap (λ l. x ∷ l) (take-append xs ys n (omega arith))

module _ {L T : Type 0} where
  length-idents : (s : Store L T) → IsValid s → length (idents s) ≡ s.depth
  length-idents s v = omega (
    arith,
    v.size,
    v.bounded,
    length-map (take s.depth s.records) ident,
    length-take s.depth s.records,
  )

  -- `t` has at least the records of `s`, with the oldest ones unchanged.
  record Grows (s t : Store L T) : Type 0 where
    valid : IsValid t
    deeper : s.depth ≤ t.depth
    prefix : take s.depth (idents t) ≡ idents s

  Grows-refl : (s : Store L T) → IsValid s → Grows s s
  Grows-refl s v = record {
    valid = v;
    deeper = omega arith;
    prefix = take-all s.depth (idents s) (omega (arith, length-idents s v));
  }

  Grows-trans : (s t u : Store L T) → Grows s t → Grows t u → Grows s u
  Grows-trans s t u g h = record {
    valid = h.valid;
    deeper = omega (arith, g.deeper, h.deeper);
    prefix =
        sym (take-take (idents u) s.depth t.depth g.deeper) ∙ ap (take s.depth) h.prefix ∙ g.prefix;
  }

  open_record-Grows :
      (origin : L) (trace : T) (s : Store L T) → IsValid s → Grows s (open_record origin trace s).1
  unfolding open_record
  open_record-Grows origin trace s v = elim (Bool-cases (leb max_inflight s.depth)) [
    | inl full ↦ record {
      valid = open_record-IsValid origin trace s v;
      deeper = rw full (omega arith);
      prefix = rw full (take-all s.depth (idents s) (omega (arith, length-idents s v)));
    }
    | inr room ↦
        let (r, e) = get_elem?-some s.records s.depth (ground (arith, v.size)) in
        let f = fresh s.next_id origin trace in
        record {
          valid = open_record-IsValid origin trace s v;
          deeper = rw room (omega arith);
          prefix =
              rw (room, add-one s.depth, update-eq-set s.records s.depth f r e)
                (ap (λ l. take s.depth (map ident l))
                    (take-set_last s.records s.depth (f r) (ground (arith, v.size)))
                  ∙ ap (take s.depth) (map-append ident (take s.depth s.records) (f r ∷ []))
                  ∙ take-append (idents s) (ident (f r) ∷ []) s.depth
                      (omega (arith, length-idents s v))
                  ∙ take-all s.depth (idents s) (omega (arith, length-idents s v)));
        }
  ]

  map-ident-set :
      (n i : ℕ) (rs : List (Record L T)) (r q : Record L T)
      → get_elem? rs i ≡ some r
      → ident q ≡ ident r
      → map ident (take n (set rs i q)) ≡ map ident (take n rs)
  map-ident-set zero i rs r q e same = refl
  map-ident-set (suc n) i [] r q e same = refl
  map-ident-set (suc n) zero (x ∷ rs) r q e same = ground arith
  map-ident-set (suc n) (suc i) (x ∷ rs) r q e same =
      ap (λ l. ident x ∷ l) (map-ident-set n i rs r q e same)

  ident-hop : (loc : L) (r : Record L T) → ident (hop loc r) ≡ ident r
  unfolding hop
  ident-hop loc r = ground arith

  idents-add_hop :
      (id : ℕ) (loc : L) (s : Store L T)
      → (idents (add_hop id loc s) ≡ idents s) × ((add_hop id loc s).depth ≡ s.depth)
  unfolding add_hop
  idents-add_hop id loc s = elim (Option-cases (find_index id s)) [
    | inl absent ↦ rw (absent, add_hop) (refl, refl)
    | inr (i, e) ↦ elim (Option-cases (get_elem? s.records i)) [
      | inl out ↦ ground arith
      | inr (r, er) ↦
          rw (e, add_hop, update-eq-set s.records i (hop loc) r er)
            (map-ident-set s.depth i s.records r (hop loc r) er (ident-hop loc r), refl)
    ]
  ]

  add_hop-Grows : (id : ℕ) (loc : L) (s : Store L T) → IsValid s → Grows s (add_hop id loc s)
  add_hop-Grows id loc s v =
      let (same, depth) = idents-add_hop id loc s in
      record {
        valid = add_hop-IsValid id loc s v;
        deeper = omega (arith, depth);
        prefix = rw same (take-all s.depth (idents s) (omega (arith, length-idents s v)));
      }

  -- Releasing to the mark that was taken before undoes the growth.
  truncate-Grows :
      (s t : Store L T)
      → IsValid s
      → Grows s t
      → ((truncate (mark s) t).depth ≡ s.depth) × (idents (truncate (mark s) t) ≡ idents s)
  unfolding truncate mark
  truncate-Grows s t v g = elim (Bool-cases (ltb s.depth t.depth)) [
    | inl cut ↦ rw cut (
      refl,
      ap (map ident) (sym (take-take t.records s.depth t.depth g.deeper))
          ∙ map-take ident s.depth (take t.depth t.records)
          ∙ g.prefix,
    )
    | inr level ↦
        let same : t.depth ≡ s.depth = ground (arith, g.deeper) in
        rw level (
          same,
          sym (take-all s.depth (idents t) (omega (arith, same, length-idents t g.valid)))
              ∙ g.prefix,
        )
  ]

module _ {L : Type 0} where
  scope-Grows : (s t : Store L Trace) → IsValid s → Grows s t → Grows s (truncate (mark s) t)
  scope-Grows s t v g =
      let (depth, same) = truncate-Grows s t v g in
      record {
        valid = truncate-IsValid (mark s) t g.valid;
        deeper = omega (arith, depth);
        prefix = rw same (take-all s.depth (idents s) (omega (arith, length-idents s v)));
      }

mutual
  unfolding run_act run rich_error note_propagation

  run_act-Grows : {L : Type 0} (a : Act L) (s : Store L Trace) → IsValid s → Grows s (run_act a s)
  run_act-Grows (fail_at c d loc trace) s v = open_record-Grows loc trace s v
  run_act-Grows (propagate e loc) s v = add_hop-Grows e.origin loc s v
  run_act-Grows (scope body) s v = scope-Grows s (run body s) v (run-Grows body s v)

  run-Grows : {L : Type 0} (b : Region L) (s : Store L Trace) → IsValid s → Grows s (run b s)
  run-Grows leave s v = Grows-refl s v
  run-Grows (next a b) s v =
      let g = run_act-Grows a s v in
      Grows-trans s (run_act a s) (run b (run_act a s)) g (run-Grows b (run_act a s) g.valid)

get_elem?-map-take :
    {A B : Type 0} (f : A → B) (n k : ℕ) (xs : List A) (a : A)
    → get_elem? xs k ≡ some a
    → k < n
    → get_elem? (map f (take n xs)) k ≡ some (f a)
get_elem?-map-take f zero k xs a e h = absurd (omega arith)
get_elem?-map-take f (suc n) k [] a e h = cc
get_elem?-map-take f (suc n) zero (x ∷ xs) a e h = ground arith
get_elem?-map-take f (suc n) (suc k) (x ∷ xs) a e h = get_elem?-map-take f n k xs a e (omega arith)

get_elem?-of_map-take :
    {A B : Type 0} (f : A → B) (n k : ℕ) (xs : List A) (b : B)
    → get_elem? (map f (take n xs)) k ≡ some b
    → (a : A) × (get_elem? xs k ≡ some a) × (f a ≡ b)
get_elem?-of_map-take f zero k xs b e = cc
get_elem?-of_map-take f (suc n) k [] b e = cc
get_elem?-of_map-take f (suc n) zero (x ∷ xs) b e = (x, refl, ground arith)
get_elem?-of_map-take f (suc n) (suc k) (x ∷ xs) b e = get_elem?-of_map-take f n k xs b e

module _ {L : Type 0} (body : Region L) (s : Store L Trace) (v : IsValid s) where
  -- Whatever a region does under a landing scope, nested scopes included, leaving the scope brings
  -- the arena back to the depth at its entry, with the handles and origins of the records that were
  -- live there, in order; and the arena's invariant holds.
  pub landing_restores :
      IsValid (run_act (scope body) s)
      × ((run_act (scope body) s).depth ≡ s.depth)
      × (idents (run_act (scope body) s) ≡ idents s)
  unfolding run_act
  landing_restores =
      let g = run-Grows body s v in
      (
        truncate-IsValid (mark s) (run body s) g.valid,
        (truncate-Grows s (run body s) v g).0,
        (truncate-Grows s (run body s) v g).1,
      )

  -- A number that is not the handle of a record live at the entry of a scope resolves to nothing
  -- after it.
  find-scope_none :
      (h : ℕ)
      → ((k : ℕ) (r : Record L Trace) → k < s.depth → get_elem? s.records k ≡ some r → r.id ≢ h)
      → find h (run_act (scope body) s) ≡ none
  unfolding find find_index
  find-scope_none h absent = ground (arith, find_below-none t.records h t.depth others)
    where
      t : Store L Trace
      t = run_act (scope body) s

      others :
          (k : ℕ) (q : Record L Trace) → k < t.depth → get_elem? t.records k ≡ some q → q.id ≢ h
      others k q lt e same =
          let (valid, depth, ids) = landing_restores in
          let at_t : get_elem? (idents t) k ≡ some (ident q) =
            get_elem?-map-take ident t.depth k t.records q e lt in
          let (r, er, eq) =
            get_elem?-of_map-take ident s.depth k s.records (ident q) (rw ids at at_t) in
          absurd (absent k r (omega (arith, depth)) er (ap (λ (p : ℕ × L). p.0) eq ∙ same))

  -- If the handles of the live records are in order at the entry of a scope, and the counter does not
  -- wrap under it, then the handles that the failures under the scope are given, those in nested
  -- scopes and those that find the arena full included, are the numbers from the counter's value at
  -- the entry on, one for each failure, and none of them resolves after the scope.
  pub landing_releases :
      IsFresh s
      → s.next_id + failures body < 2 ^ 32
      → (issued body s ≡ count_up s.next_id (failures body))
        × ((i h : ℕ)
            → get_elem? (issued body s) i ≡ some h
            → find h (run_act (scope body) s) ≡ none)
  landing_releases fresh room = (
    (run-issued body s room).0,
    λ i h e. find-scope_none h (λ k r lt er same.
        let later =
          get_elem?-count_up (failures body) s.next_id i h (rw (run-issued body s room).0 at e) in
        absurd (omega (arith, fresh.below k r lt er, same, later))),
  )
