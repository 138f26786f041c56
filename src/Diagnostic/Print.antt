-- ===== src/Diagnostic/Print.antt =====
-- The lines that `diagnostic::print` writes, against the stack of contexts of Diagnostic/Store/Stack.
use mathlib.Core.List.{append-nil}
use jmpxx.Prelude.{
  ◌≡◌, inl, inr, false, Option, none, some, List, [], ◌∷◌, ◌++◌, map, arith, if◌then◌else◌,
  Option-cases, take,
}
use jmpxx.Platform.Trace.{Trace}
use jmpxx.Diagnostic.Store.{Store, find}
use jmpxx.Diagnostic.Store.Fresh.{IsFresh}
use jmpxx.Diagnostic.Store.Stack.{Context, live, lookup}
use jmpxx.Diagnostic.Store.Refines.{find-eq-lookup}
use jmpxx.Diagnostic.Rich.{Line, no_context, origin_line, via, cut, RichError, print, inspect}

-- What is written of a context when traces are not captured.
abbrev pub report : {L : Type 0} → RichError → Option (Context L Trace) → List (Line L)
report e none = no_context e.code e.domain ∷ []
report e (some c) =
    origin_line c.origin ∷ (map via c.chain ++ (if c.truncated then cut ∷ [] else []))

module _ {L : Type 0} where
  -- While the handles are distinct, a print without traces writes the origin of the failure's own
  -- context, then each site of its chain in the order of propagation, then the mark of a cut chain;
  -- and for a failure whose handle names no context on the stack, its code and domain.
  pub print-eq-report :
      (blank : L) (e : RichError) (s : Store L Trace)
      → IsFresh s
      → print blank false e s ≡ report e (lookup e.origin (live s))
  unfolding print inspect
  print-eq-report blank e s h =
      rw (← find-eq-lookup e.origin s h) (elim (Option-cases (find e.origin s)) [
        | inl absent ↦ ground arith
        | inr (r, found) ↦ ground (arith, append-nil (map via (take r.hop_count r.hops)))
      ])
