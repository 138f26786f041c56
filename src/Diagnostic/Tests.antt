-- ===== src/Diagnostic/Tests.antt =====
-- Runs of the diagnostic layer's theorems on concrete inputs. A location is a number.
use Prim.Native.Nat.{min}
use mathlib.Core.Option
use jmpxx.Prelude.{
  ℕ, ◌+◌, ◌^◌, ◌<◌, ◌≡◌, refl, true, false, none, some, List, [], ◌∷◌, map, arith, ltb, length,
  take, get_elem?, replicate,
}
use jmpxx.Prelude.Int.{pos}
use jmpxx.Core.Outcome.{done}
use jmpxx.Core.Hardening.{fast}
use jmpxx.Core.Transport.Refines.{embed, failed}
use jmpxx.Core.Propagation.Chain.{through}
use jmpxx.Platform.Trace.{Trace, zeroed}
use jmpxx.Diagnostic.Store.{Record, Store, max_chain, initial, open_record, find, add_hop}
use jmpxx.Diagnostic.Store.Invariant.{IsValid, initial-IsValid, open_record-IsValid}
use jmpxx.Diagnostic.Store.Fresh.{IsFresh, initial-IsFresh, open_record-IsFresh}
use jmpxx.Diagnostic.Store.Stack.{context, live, push, extend_at, lookup}
use jmpxx.Diagnostic.Store.Refines.{live-open_record, live-add_hop, find-eq-lookup}
use jmpxx.Diagnostic.Rich.{
  RichError, rich_error, inspect, chain_length, print, fail_at, scope, Region, leave, next, run_act,
}
use jmpxx.Diagnostic.Issued.{issued, failures, count_up}
use jmpxx.Diagnostic.Landing.{idents, landing_restores, landing_releases}
use jmpxx.Diagnostic.Threads.{inspect_across}
use jmpxx.Diagnostic.Propagate.{rich_hop, failing, propagate-failing}
use jmpxx.Diagnostic.Print.{report, print-eq-report}

abbrev blank : Record ℕ Trace
blank = record {
  id = 0;
  origin = 0;
  hops = replicate max_chain 0;
  hop_count = 0;
  hops_truncated = false;
  trace = zeroed;
}

abbrev start : Store ℕ Trace
start = initial blank

start-IsValid : IsValid start
start-IsValid = initial-IsValid blank (record { counted = omega arith; sized = refl })

start-IsFresh : IsFresh start
start-IsFresh = initial-IsFresh blank

-- One failure from the location 70 is live.
abbrev one : Store ℕ Trace
one = (open_record 70 zeroed start).1

one-IsValid : IsValid one
one-IsValid = open_record-IsValid 70 zeroed start start-IsValid

one-IsFresh : IsFresh one
one-IsFresh = open_record-IsFresh 70 zeroed start (omega arith) (omega arith) start-IsFresh

live-open_record_example :
    live (open_record 80 zeroed start).1
    ≡ push
        (record { id = 1; origin = 80; chain = []; truncated = false; trace = zeroed })
        (live start)
live-open_record_example = live-open_record 80 zeroed start start-IsValid

live-add_hop_example : live (add_hop 1 90 one) ≡ map (extend_at 1 90) (live one)
live-add_hop_example = live-add_hop 1 90 one one-IsValid one-IsFresh

find-eq-lookup_example : Option.map context (find 1 one) ≡ lookup 1 (live one)
find-eq-lookup_example = find-eq-lookup 1 one one-IsFresh

-- A region that fails twice, the second time in a scope of its own.
abbrev region : Region ℕ
region =
    next (fail_at (pos 5) (pos 1) 100 zeroed)
      (next (scope (next (fail_at (pos 6) (pos 1) 101 zeroed) leave)) leave)

landing_restores_example :
    IsValid (run_act (scope region) one)
    × ((run_act (scope region) one).depth ≡ one.depth)
    × (idents (run_act (scope region) one) ≡ idents one)
landing_restores_example = landing_restores region one one-IsValid

room_left : one.next_id + failures region < 2 ^ 32
unfolding open_record failures
room_left = omega arith

landing_releases_example :
    (issued region one ≡ count_up one.next_id (failures region))
    × ((i h : ℕ)
        → get_elem? (issued region one) i ≡ some h
        → find h (run_act (scope region) one) ≡ none)
landing_releases_example = landing_releases region one one-IsValid one-IsFresh room_left

inspect_across_example :
    let moved = (rich_error (pos 5) (pos 1) 111 zeroed start).0 in
    let t = (rich_error (pos 6) (pos 2) 222 zeroed start).1 in
    ((inspect 0 false moved t).available ≡ true) × ((inspect 0 false moved t).origin ≡ 222)
inspect_across_example =
    inspect_across 0 false (pos 5) (pos 1) (pos 6) (pos 2) 111 222 zeroed zeroed start start
      start-IsValid start-IsValid refl (omega arith) (omega arith)

propagate-failing_example :
    (e : RichError) × (t : Store ℕ Trace) × (through fast rich_hop
        (31 ∷ 32 ∷ [])
        (failing {V = ℕ} (pos 5) (pos 1) 30 zeroed)
        start
      ≡ (done (embed (failed e)), t))
    × (e.code ≡ pos 5)
    × (e.domain ≡ pos 1)
    × (lookup e.origin (live t)
        ≡ some (record {
          id = e.origin;
          origin = 30;
          chain = take max_chain (31 ∷ 32 ∷ []);
          truncated = ltb max_chain (length (let l : List ℕ = 31 ∷ 32 ∷ [] in l));
          trace = zeroed;
        }))
    × (chain_length e t ≡ min max_chain (length (let l : List ℕ = 31 ∷ 32 ∷ [] in l)))
propagate-failing_example =
    propagate-failing fast (pos 5) (pos 1) 30 zeroed (31 ∷ 32 ∷ []) start start-IsValid
      start-IsFresh (omega arith) (omega arith)

print-eq-report_example :
    print 0 false (record { code = pos 5; domain = pos 1; origin = 1 }) one
    ≡ report (record { code = pos 5; domain = pos 1; origin = 1 }) (lookup 1 (live one))
print-eq-report_example =
    print-eq-report 0 (record { code = pos 5; domain = pos 1; origin = 1 }) one one-IsFresh
