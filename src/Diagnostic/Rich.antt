-- ===== src/Diagnostic/Rich.antt =====
-- include/jmpxx/diagnostics.hpp with the layer on: the rich error, its propagation hook, and what is
-- read of its context. `std::source_location` is the parameter `L`; `blank` is a zeroed one.
use jmpxx.Prelude.{
  ℕ, Bool, true, false, not, ◌&&◌, none, some, List, [], ◌∷◌, ◌++◌, map, if◌then◌else◌, take,
}
use jmpxx.Prelude.Int.{ℤ, pos, eqb_ℤ}
use jmpxx.Core.Error.{Error}
use jmpxx.Platform.Trace.{Trace, zeroed, is_empty}
use jmpxx.Diagnostic.Store.{Record, Store, open_record, find, add_hop, mark, truncate}

-- `origin` is the private handle `origin_`; 0 is none.
pub record RichError : Type 0 where
  pub code : ℤ
  pub domain : ℤ
  pub origin : ℕ

-- The defaulted constructor.
abbrev pub no_error : RichError
no_error = record { code = pos 0; domain = pos 0; origin = 0 }

-- Equality reads the in-band fields alone.
unfoldable pub rich_eq : RichError → RichError → Bool
rich_eq a b = eqb_ℤ a.code b.code && eqb_ℤ a.domain b.domain

-- `base()` and the conversion to the minimal error.
unfoldable pub base : RichError → Error
base e = record { code = e.code; domain = e.domain }

-- What a print writes, a line each.
pub data Line (L : Type 0) : Type 0 where
  no_context : ℤ → ℤ → Line L
  origin_line : L → Line L
  via : L → Line L
  cut : Line L
  frames : ℕ → Line L

-- `diagnostic::context`.
pub record Context (L : Type 0) : Type 0 where
  pub available : Bool
  pub origin : L
  pub hops : List L
  pub hop_count : ℕ
  pub hops_truncated : Bool
  pub trace : Trace
  pub trace_captured : Bool

module _ {L : Type 0} where
  -- The constructor from a code and a domain: the location and the trace are those of its site.
  unfoldable pub rich_error : ℤ → ℤ → L → Trace → Store L Trace → RichError × Store L Trace
  rich_error c d loc trace s =
      let (id, s') = open_record loc trace s in (record { code = c; domain = d; origin = id }, s')

  -- The constructor from a minimal error.
  unfoldable pub rich_of_error : Error → L → Trace → Store L Trace → RichError × Store L Trace
  unfolding rich_error
  rich_of_error e = rich_error e.code e.domain

  -- The overload of the hook for the rich policy.
  unfoldable pub note_propagation : RichError → L → Store L Trace → Store L Trace
  note_propagation e loc s = add_hop e.origin loc s

  -- With `stacktrace` off the record has no trace to hand on.
  abbrev pub shown : Bool → Record L Trace → Context L
  shown stacktrace r = record {
    available = true;
    origin = r.origin;
    hops = r.hops;
    hop_count = r.hop_count;
    hops_truncated = r.hops_truncated;
    trace = if stacktrace then r.trace else zeroed;
    trace_captured = if stacktrace then not (is_empty r.trace) else false;
  }

  unfoldable pub inspect : L → Bool → RichError → Store L Trace → Context L
  inspect blank stacktrace e s = elim (find e.origin s) [
    | none ↦ record {
      available = false;
      origin = blank;
      hops = [];
      hop_count = 0;
      hops_truncated = false;
      trace = zeroed;
      trace_captured = false;
    }
    | some r ↦ shown stacktrace r
  ]

  unfoldable pub chain_length : RichError → Store L Trace → ℕ
  chain_length e s = elim (find e.origin s) [ none ↦ 0 | some r ↦ r.hop_count ]

  unfoldable pub print : L → Bool → RichError → Store L Trace → List (Line L)
  unfolding inspect
  print blank stacktrace e s =
      let c = inspect blank stacktrace e s in
      if c.available
      then Line.origin_line c.origin
        ∷ (map Line.via (take c.hop_count c.hops)
            ++ ((if c.hops_truncated then Line.cut ∷ [] else [])
                ++ (if c.trace_captured then Line.frames c.trace.count ∷ [] else [])))
      else Line.no_context e.code e.domain ∷ []

-- What a thread does under its landing scopes: failures are created, propagated, and handled in
-- nested scopes.
mutual
  pub data Act (L : Type 0) : Type 0 where
    fail_at : ℤ → ℤ → L → Trace → Act L
    propagate : RichError → L → Act L
    scope : Region L → Act L

  pub data Region (L : Type 0) : Type 0 where
    leave : Region L
    next : Act L → Region L → Region L

-- The constructor of `landing` takes the mark, and its destructor releases to it.
unfoldable mutual
  pub run_act : {L : Type 0} → Act L → Store L Trace → Store L Trace
  run_act (fail_at c d loc trace) s = (rich_error c d loc trace s).1
  run_act (propagate e loc) s = note_propagation e loc s
  run_act (scope body) s = truncate (mark s) (run body s)

  pub run : {L : Type 0} → Region L → Store L Trace → Store L Trace
  run leave s = s
  run (next a body) s = run body (run_act a s)
