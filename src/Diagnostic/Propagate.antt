-- ===== src/Diagnostic/Propagate.antt =====
-- A rich error travels from its creation through propagation sites to the landing that reads it.
use Prim.Native.Nat.{min}
use jmpxx.Prelude.{◌+◌, ◌^◌, ◌<◌, ◌≡◌, refl, ap, ◌∙◌, some, List, [], ◌∷◌, ltb, length, take}
use jmpxx.Prelude.Int.{ℤ}
use jmpxx.Platform.Trace.{Trace}
use jmpxx.Core.Outcome.{done}
use jmpxx.Core.Hardening.{Hardening}
use jmpxx.Core.Transport.{Transport}
use jmpxx.Core.Transport.Refines.{failed, embed}
use jmpxx.Core.Propagation.{Fn}
use jmpxx.Core.Propagation.Chain.{through, noted, through_lem}
use jmpxx.Diagnostic.Store.{Store, max_chain, max_inflight}
use jmpxx.Diagnostic.Store.Invariant.{IsValid}
use jmpxx.Diagnostic.Store.Fresh.{IsFresh}
use jmpxx.Diagnostic.Store.Stack.{live, lookup}
use jmpxx.Diagnostic.Rich.{RichError, rich_error, note_propagation, chain_length}
use jmpxx.Diagnostic.Hops.{note_all, chain-note_all}

module _ {L : Type 0} where
  abbrev pub rich_hop : L → RichError → Store L Trace → Store L Trace
  rich_hop loc e s = note_propagation e loc s

  noted-eq-note_all :
      (e : RichError) (locs : List L) (s : Store L Trace)
      → noted rich_hop locs e s ≡ note_all e locs s
  unfolding noted note_all
  noted-eq-note_all e [] s = refl
  noted-eq-note_all e (loc ∷ locs) s = noted-eq-note_all e locs (note_propagation e loc s)

module _ {L V : Type 0} where
  -- `return jmpxx::fail(rich_error(c, d));` at the location `origin`.
  unfoldable pub failing : ℤ → ℤ → L → Trace → Fn (Store L Trace) (Transport V RichError)
  failing c d origin trace s =
      let (e, t) = rich_error c d origin trace s in (done (embed (failed e)), t)

  -- A failure created with room in the arena, before the handle counter wraps, and propagated
  -- through the sites `locs` arrives at the top with its code and domain, in every hardening mode;
  -- its context has the creation site as origin and the first `max_chain` sites as its chain,
  -- innermost first, marked as cut exactly when there were more; and the chain length that is
  -- reported is the number of sites, up to `max_chain`.
  pub propagate-failing :
      (h : Hardening) (c d : ℤ) (origin : L) (trace : Trace) (locs : List L) (s : Store L Trace)
      → IsValid s
      → IsFresh s
      → s.next_id + 1 < 2 ^ 32
      → s.depth < max_inflight
      → (e : RichError) × (t : Store L Trace) × (through h rich_hop locs
            (failing c d origin trace)
            s
          ≡ (done (embed (failed e)), t))
        × (e.code ≡ c)
        × (e.domain ≡ d)
        × (lookup e.origin (live t)
            ≡ some (record {
              id = e.origin;
              origin = origin;
              chain = take max_chain locs;
              truncated = ltb max_chain (length locs);
              trace = trace;
            }))
        × (chain_length e t ≡ min max_chain (length locs))
  unfolding failing rich_error
  propagate-failing h c d origin trace locs s v fresh room space =
      let e = (rich_error c d origin trace s).0 in
      let t = (rich_error c d origin trace s).1 in
      let (found, counted) = chain-note_all c d origin trace locs s v fresh room space in
      (
        e,
        note_all e locs t,
        through_lem h rich_hop locs (failing c d origin trace) s t (failed e) refl
            ∙ ap (λ x. (done (embed (failed e)), x)) (noted-eq-note_all e locs t),
        refl,
        refl,
        found,
        counted,
      )
