-- ===== src/Core/Propagation/Laws.antt =====
-- What a propagation site does, whatever the hardening mode and the policy's hook.
use jmpxx.Prelude.{◌≡◌, refl, ap, ◌∙◌}
use jmpxx.Core.Outcome.{Outcome, done}
use jmpxx.Core.Hardening.{Hardening, unchecked, fast, extensive}
use jmpxx.Core.Transport.{Transport, and_then, assume_value}
use jmpxx.Core.Transport.Refines.{Result, ok, failed, embed}
use jmpxx.Core.Propagation.{Fn, resume, note_nothing, forward, try_value, try_void}

module _ {S E D : Type 0} (h : Hardening) (hop : E → S → S) (convert : E → D) where
  forward_lem :
      (V W : Type 0) (e : E) (t : S)
      → forward h hop convert {W = W} (embed {V = V} (failed e)) t
        ≡ (done (embed (failed (convert e))), hop e t)
  unfolding forward
  forward_lem V W = go h V W
    where
      go :
          (h : Hardening) (V W : Type 0) (e : E) (t : S)
          → forward h hop convert {W = W} (embed {V = V} (failed e)) t
            ≡ (done (embed (failed (convert e))), hop e t)
      go unchecked V W e t = refl
      go fast V W e t = refl
      go extensive V W e t = refl

  assume_value_lem : {V : Type 0} (v : V) → assume_value h (embed {E = E} (ok v)) ≡ done v
  unfolding assume_value
  assume_value_lem = go h
    where
      go : (h : Hardening) {V : Type 0} (v : V) → assume_value h (embed {E = E} (ok v)) ≡ done v
      go unchecked v = refl
      go fast v = refl
      go extensive v = refl

module _ {S E D V W : Type 0} (h : Hardening) (hop : E → S → S) (convert : E → D)
    (expr : Fn S (Transport V E)) (s : S) {t : S} where
  -- On a value the site runs the rest with it in the state that the expression left; on a failure
  -- it returns that failure, converted, notes it once, and runs nothing of the rest.
  pub try_value_lem :
      (rest : V → Fn S (Transport W D)) (r : Result V E)
      → expr s ≡ (done (embed r), t)
      → try_value h hop convert expr rest s
        ≡ (elim r [ ok v ↦ rest v t | failed e ↦ (done (embed (failed (convert e))), hop e t) ])
  unfolding try_value
  try_value_lem rest (ok v) e =
      ap (resume _) e ∙ ap (λ o. resume rest (o, t)) (assume_value_lem h hop convert v)
  try_value_lem rest (failed d) e = ap (resume _) e ∙ forward_lem h hop convert V W d t

  -- The same of the site that discards the value.
  pub try_void_lem :
      (rest : Fn S (Transport W D)) (r : Result V E)
      → expr s ≡ (done (embed r), t)
      → try_void h hop convert expr rest s
        ≡ (elim r [ ok v ↦ rest t | failed e ↦ (done (embed (failed (convert e))), hop e t) ])
  unfolding try_void
  try_void_lem rest (ok v) e = ap (resume _) e
  try_void_lem rest (failed d) e = ap (resume _) e ∙ forward_lem h hop convert V W d t

-- A propagation site of the minimal policy is `and_then`: over an expression that returns a value or
-- a failure it has the outcome of chaining the rest, and touches no state but the expression's.
pub try_value-eq-and_then :
    {S E V W : Type 0} (h : Hardening) (expr : Fn S (Transport V E)) (s : S) {t : S}
    (rest : V → Outcome (Transport W E)) (r : Result V E)
    → expr s ≡ (done (embed r), t)
    → try_value h note_nothing (λ e. e) expr (λ v t'. (rest v, t')) s ≡ (and_then rest (embed r), t)
unfolding and_then note_nothing
try_value-eq-and_then h expr s rest (ok v) e =
    try_value_lem h note_nothing (λ e. e) expr s (λ v t'. (rest v, t')) (ok v) e
try_value-eq-and_then h expr s rest (failed d) e =
    try_value_lem h note_nothing (λ e. e) expr s (λ v t'. (rest v, t')) (failed d) e
