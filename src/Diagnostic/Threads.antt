-- ===== src/Diagnostic/Threads.antt =====
-- Two threads, each with its own arena. A handle does not say on which thread it was issued.
use jmpxx.Prelude.{◌+◌, ◌<◌, ◌≡◌, Bool, true, some, arith, get_elem?-some}
use jmpxx.Prelude.Int.{ℤ}
use jmpxx.Platform.Trace.{Trace}
use jmpxx.Diagnostic.Store.{
  Record, Store, max_inflight, fresh, update, open_record, find_index, find,
}
use jmpxx.Diagnostic.Store.Scan.{get_elem?-update_self, find_below_newest}
use jmpxx.Diagnostic.Store.Invariant.{IsValid}
use jmpxx.Diagnostic.Rich.{rich_error, inspect, chain_length}

module _ {L : Type 0} where
  -- With room, the newest record is the one that its handle resolves to.
  pub find-open_record :
      (origin : L) (trace : Trace) (s : Store L Trace)
      → IsValid s
      → s.depth < max_inflight
      → (r : Record L Trace) × (find s.next_id (open_record origin trace s).1
          ≡ some (fresh s.next_id origin trace r))
        × ((open_record origin trace s).0 ≡ s.next_id)
  unfolding find find_index open_record
  find-open_record origin trace s v room =
      let (r, e) = get_elem?-some s.records s.depth (omega (arith, v.size)) in
      let f = fresh s.next_id origin trace in
      (
        r,
        ground (
          arith,
          v.issued,
          get_elem?-update_self s.records s.depth f e,
          find_below_newest (update s.records s.depth f) (s.depth + 1) s.depth (f r)
              (get_elem?-update_self s.records s.depth f e) (λ k q a b. absurd (omega arith))
              (omega arith),
        ),
        ground arith,
      )

  -- A failure created with room in the arena is inspected on its own thread with its own origin, an
  -- empty chain and, where traces are captured, its own trace.
  pub inspect-rich_error :
      (blank : L) (stacktrace : Bool) (c d : ℤ) (loc : L) (trace : Trace) (s : Store L Trace)
      → IsValid s
      → s.depth < max_inflight
      → let (e, t) = rich_error c d loc trace s in
        ((inspect blank stacktrace e t).available ≡ true)
        × ((inspect blank stacktrace e t).origin ≡ loc)
        × (chain_length e t ≡ 0)
  unfolding inspect chain_length rich_error
  inspect-rich_error blank stacktrace c d loc trace s v room =
      let (r, e, id) = find-open_record loc trace s v room in ground arith

  -- Two threads whose counters agree, as those of two threads that have each created as many
  -- failures do: a failure of the first, inspected on the second after that one has created a
  -- failure too, resolves to the second thread's origin.
  pub inspect_across :
      (blank : L) (stacktrace : Bool) (c d c' d' : ℤ) (here there : L) (trace trace' : Trace)
      (mine other : Store L Trace)
      → IsValid mine
      → IsValid other
      → mine.next_id ≡ other.next_id
      → mine.depth < max_inflight
      → other.depth < max_inflight
      → let moved = (rich_error c d here trace mine).0 in
        let t = (rich_error c' d' there trace' other).1 in
        ((inspect blank stacktrace moved t).available ≡ true)
        × ((inspect blank stacktrace moved t).origin ≡ there)
  unfolding inspect rich_error
  inspect_across blank stacktrace c d c' d' here there trace trace' mine other v w same room room' =
      let (r, e, id) = find-open_record here trace mine v room in
      let (r', e', id') = find-open_record there trace' other w room' in ground arith
