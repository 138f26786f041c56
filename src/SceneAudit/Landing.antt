-- ===== src/SceneAudit/Landing.antt =====
-- The audit of reference_app/godot_module/scene_audit.cpp, under its landing scope.
use jmpxx.Prelude.{
  ℕ, ◌+◌, ◌^◌, ◌<◌, ◌≡◌, refl, sym, ap, ◌∙◌, inl, inr, Bool, true, false, none, some, List, [], ◌∷◌,
  arith, Option-cases, length,
}
use Prim.Native.Nat.{min}
use mathlib.Core.Option
use jmpxx.Prelude.Int.{pos}
use jmpxx.Prelude.Text.{String}
use jmpxx.Platform.Trace.{Trace}
use jmpxx.Core.Outcome.{Outcome, done}
use jmpxx.Core.Hardening.{Hardening}
use jmpxx.Core.Transport.{Transport, value_or, error, has_value, require_error, read_val, read_err}
use jmpxx.Core.Propagation.{resume}
use jmpxx.Diagnostic.Store.{Record, Store, max_chain, max_inflight, find, mark, truncate}
use jmpxx.Diagnostic.Store.Invariant.{IsValid}
use jmpxx.Diagnostic.Store.Fresh.{IsFresh, open_record-IsFresh}
use jmpxx.Diagnostic.Store.Stack.{context}
use jmpxx.Diagnostic.Store.Refines.{find-eq-lookup}
use jmpxx.Diagnostic.Rich.{
  RichError, rich_error, note_propagation, inspect, shown, chain_length, Region, leave, next,
  fail_at, propagate, run_act, run,
}
use jmpxx.Diagnostic.Hops.{note_all, chain-note_all, IsFresh-note_all}
use jmpxx.Diagnostic.Landing.{landing_restores}
use jmpxx.SceneAudit.{
  Fault, fault_none, fault_code, fault_of, empty_tree, too_deep, duplicate_name, empty_name,
  reserved_prefix, Node, Audit, Sites, Report, domain, visit, report_of, audit,
}
use jmpxx.SceneAudit.Preorder.{preorder, size, Scan, clear, hit, scan}
use jmpxx.SceneAudit.Visit.{
  passed_sites, failure_of, Visits, visits_clear, visits_hit, visit-Visits,
}

fault_of-fault_code : (f : Fault) → fault_of (pos (fault_code f)) ≡ some f
fault_of-fault_code fault_none = refl
fault_of-fault_code empty_tree = refl
fault_of-fault_code too_deep = refl
fault_of-fault_code duplicate_name = refl
fault_of-fault_code empty_name = refl
fault_of-fault_code reserved_prefix = refl

some_same : {A : Type 0} {a b : A} → some a ≡ some b → a ≡ b
some_same h = cc

restored_same : {L : Type 0} (s : Store L Trace) → (truncate (mark s) s).depth ≡ s.depth
unfolding truncate mark
restored_same s = ground arith

module _ {L : Type 0} where
  inspect-some :
      (blank : L) (stacktrace : Bool) (e : RichError) (s : Store L Trace) (r : Record L Trace)
      → find e.origin s ≡ some r
      → inspect blank stacktrace e s ≡ shown stacktrace r
  unfolding inspect
  inspect-some blank stacktrace e s r got = rw (got, inspect)

  chain_length-some :
      (e : RichError) (s : Store L Trace) (r : Record L Trace)
      → find e.origin s ≡ some r
      → chain_length e s ≡ r.hop_count
  unfolding chain_length
  chain_length-some e s r got = rw (got, chain_length)

module _ {L : Type 0} (sites : Sites L) (trace : Trace) where
  -- What a failure and its propagation do to the store, as a region under the landing scope.
  passing : RichError → List L → Region L
  passing e [] = leave
  passing e (loc ∷ locs) = next (propagate e loc) (passing e locs)

  run-passing :
      (e : RichError) (locs : List L) (s : Store L Trace)
      → run (passing e locs) s ≡ note_all e locs s
  unfolding passing run run_act note_all
  run-passing e [] s = refl
  run-passing e (loc ∷ locs) s = run-passing e locs (note_propagation e loc s)

  -- The scope brings the store back to its depth.
  restored :
      (f : Fault) (locs : List L) (s : Store L Trace)
      → IsValid s
      → (truncate
          (mark s)
          (note_all (failure_of sites trace f s).0 locs (failure_of sites trace f s).1)).depth
        ≡ s.depth
  unfolding run_act
  restored f locs s v =
      let e = (failure_of sites trace f s).0 in
      let body =
        next (fail_at (pos (fault_code f)) (pos domain) sites.fault_site trace) (passing e locs) in
      let kept = (landing_restores body s v).1 in
      rw (run-passing e locs (failure_of sites trace f s).1) at kept

  -- The context of a failure that was propagated.
  inspected :
      (blank : L) (stacktrace : Bool) (f : Fault) (locs : List L) (s : Store L Trace)
      → IsValid s
      → IsFresh s
      → s.next_id + 1 < 2 ^ 32
      → s.depth < max_inflight
      → let (e, t) = failure_of sites trace f s in
        let ctx = inspect blank stacktrace e (note_all e locs t) in
        (ctx.available ≡ true)
        × (ctx.origin ≡ sites.fault_site)
        × (ctx.hop_count ≡ min max_chain (length locs))
  unfolding rich_error
  inspected blank stacktrace f locs s v fresh room space =
      let (e, t) = failure_of sites trace f s in
      let (found, counted) =
        chain-note_all (pos (fault_code f)) (pos domain) sites.fault_site trace locs s v fresh room
          space in
      let fresh_t = open_record-IsFresh sites.fault_site trace s room v.issued fresh in
      let same = find-eq-lookup e.origin (note_all e locs t) (IsFresh-note_all e locs t fresh_t) in
      elim (Option-cases (find e.origin (note_all e locs t))) [
        | inl absent ↦ absurd (ground (arith, same, found, absent))
        | inr (r, got) ↦
            let whole = some_same (sym (ap (Option.map context) got) ∙ same ∙ found) in
            let shows = inspect-some blank stacktrace e (note_all e locs t) r got in
            (
              ap (λ c. c.available) shows,
              ap (λ c. c.origin) shows ∙ ap (λ c. c.origin) whole,
              ap (λ c. c.hop_count) shows
                  ∙ sym (chain_length-some e (note_all e locs t) r got)
                  ∙ counted,
            )
      ]

  -- What script gets, by what the scan of the nodes finds.
  pub data Reported (n : ℕ) (h : Hardening) (max_depth : ℕ)
      : Scan → Report sites trace h max_depth → Type 0 where
    reported_clear :
        (seen : List String)
        → Reported n h max_depth (clear seen) (record {
          passed = true;
          fault = some fault_none;
          nodes = n;
          place = [];
          origin = none;
        })
    reported_hit :
        (f : Fault) (name : String) (d : ℕ)
        → Reported n h max_depth (hit f name d) (record {
          passed = false;
          fault = some f;
          nodes = 0;
          place = name;
          origin = some (sites.fault_site, min max_chain (length (passed_sites sites trace f d)));
        })

  module _ (h : Hardening) (max_depth : ℕ) (blank : L) (stacktrace : Bool) (s : Store L Trace)
      (v : IsValid s) (fresh : IsFresh s) (room : s.next_id + 1 < 2 ^ 32)
      (space : s.depth < max_inflight) where
    -- How an audit ends: with a report, and the store as deep as it was.
    pub record Audits (root : Node) : Type 0 where
      pub report : Report sites trace h max_depth
      pub after : Store L Trace
      pub ends : audit sites trace h max_depth blank stacktrace (some root) s ≡ (done report, after)
      pub released : after.depth ≡ s.depth
      pub reported : Reported (size root) h max_depth (scan max_depth [] (preorder 0 root)) report

    landed :
        (root : Node) (r : Scan) (x : Outcome (Transport ℕ RichError) × Audit L)
        → scan max_depth [] (preorder 0 root) ≡ r
        → visit sites trace h max_depth root 0 (record { seen = []; r_where = []; store = s }) ≡ x
        → Visits sites trace s 0 (size root) r x
        → Audits root
    unfolding audit report_of value_or error has_value require_error read_val read_err rich_error
        inspect truncate
    landed root r x found e (visits_clear seen place) = record {
      report = record {
        passed = true;
        fault = some fault_none;
        nodes = size root;
        place = [];
        origin = none;
      };
      after = truncate (mark s) s;
      ends =
          ap
            (λ y.
              let z = resume (report_of sites trace h max_depth blank stacktrace) y in
              (z.0, truncate (mark s) z.1.store))
            e;
      released = restored_same s;
      reported = rw found (reported_clear seen);
    }
    landed root r x found e (visits_hit f name d up seen deep) =
        let locs = passed_sites sites trace f up in
        let (e', t) = failure_of sites trace f s in
        let (available, origin, hops) = inspected blank stacktrace f locs s v fresh room space in
        let level : up ≡ d = omega (arith, deep) in
        record {
          report = record {
            passed = false;
            fault = some f;
            nodes = 0;
            place = name;
            origin = some (sites.fault_site, min max_chain (length (passed_sites sites trace f d)));
          };
          after = truncate (mark s) (note_all e' locs t);
          ends =
              ap
                (λ y.
                  let z = resume (report_of sites trace h max_depth blank stacktrace) y in
                  (z.0, truncate (mark s) z.1.store))
                e
              ∙ rw (fault_of-fault_code f, available, origin, hops, level);
          released = restored f locs s v;
          reported = rw found (reported_hit f name d);
        }

    -- An audit of a tree of fewer than 2 ^ 31 nodes, on a thread whose diagnostic store is valid and
    -- has room for a record, with the live handles in their order and a counter that the next failure
    -- does not wrap, finds the first fault of the nodes in their order, a parent before its children: a node
    -- that is too deep, or one with an empty name, a reserved one or one that was seen before. It tells
    -- the fault, the node's name, and the line of `fault` with the number of propagations, up to the
    -- limit of the chain. Where no node has a fault it tells the number of the nodes. The store is as
    -- deep afterwards as it was.
    pub audit_lem : (root : Node) → size root < 2 ^ 31 → Audits root
    audit_lem root small = landed root (scan max_depth [] (preorder 0 root)) _ refl refl (
        visit-Visits sites trace h max_depth root 0 (record { seen = []; r_where = []; store = s })
          small)
