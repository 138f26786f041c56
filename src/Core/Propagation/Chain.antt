-- ===== src/Core/Propagation/Chain.antt =====
-- A failure that travels up a chain of calls, each of which propagates it at its own site.
use jmpxx.Prelude.{◌≡◌, List, [], ◌∷◌}
use jmpxx.Core.Outcome.{done}
use jmpxx.Core.Hardening.{Hardening}
use jmpxx.Core.Transport.{Transport}
use jmpxx.Core.Transport.Refines.{Result, ok, failed, embed}
use jmpxx.Core.Propagation.{Fn, pure, try_value}
use jmpxx.Core.Propagation.Laws.{try_value_lem}

module _ {S E L : Type 0} (hop : L → E → S → S) where
  -- Every site notes the failure, the innermost first.
  unfoldable pub noted : List L → E → S → S
  noted [] e s = s
  noted (loc ∷ locs) e s = noted locs e (hop loc e s)

module _ {S E V L : Type 0} (h : Hardening) (hop : L → E → S → S) where
  -- A function whose body is `JMPXX_TRY(v, callee()); return v;` at the site `loc`.
  unfoldable pub caller : L → Fn S (Transport V E) → Fn S (Transport V E)
  caller loc callee = try_value h (hop loc) (λ e. e) callee (λ v. pure (embed (ok v)))

  -- The calls around `callee`, the innermost site first.
  unfoldable pub through : List L → Fn S (Transport V E) → Fn S (Transport V E)
  through [] callee = callee
  through (loc ∷ locs) callee = through locs (caller loc callee)

  -- A value goes through every call unchanged and nothing is noted; a failure arrives at the top
  -- unchanged, with each site on its way noted once, the innermost first.
  pub through_lem :
      (locs : List L) (callee : Fn S (Transport V E)) (s t : S) (r : Result V E)
      → callee s ≡ (done (embed r), t)
      → through locs callee s
        ≡ (done (embed r), elim r [ ok v ↦ t | failed e ↦ noted hop locs e t ])
  unfolding through noted
  through_lem [] callee s t (ok v) q = q
  through_lem [] callee s t (failed e) q = q
  through_lem (loc ∷ locs) callee s t (ok v) q =
      through_lem locs (caller loc callee) s t (ok v)
        (unfold caller in try_value_lem h (hop loc) (λ e. e) callee s _ (ok v) q)
  through_lem (loc ∷ locs) callee s t (failed e) q =
      through_lem locs (caller loc callee) s (hop loc e t) (failed e)
        (unfold caller in try_value_lem h (hop loc) (λ e. e) callee s _ (failed e) q)
