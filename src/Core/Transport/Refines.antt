-- ===== src/Core/Transport/Refines.antt =====
-- The transport against what it promises: a value or an error, and never a third state.
use jmpxx.Prelude.{◌≡◌, refl, ◌≢◌, Bool, true, false, arith}
use jmpxx.Core.Outcome.{Outcome, done, undefined, ◌>>=◌}
use jmpxx.Core.Hardening.{Hardening, fast_enabled}
use jmpxx.Core.Transport.{
  Slot, val, err, dead, Transport, assume_value, assume_error, and_then, transform, or_else,
  transform_error,
}

-- The abstract view.
pub data Result (V E : Type 0) : Type 0 where
  ok : V → Result V E
  failed : E → Result V E

module _ {V E : Type 0} where
  abbrev pub embed : Result V E → Transport V E
  embed (ok v) = record { slot = val v; has = true }
  embed (failed e) = record { slot = err e; has = false }

  -- The flag says which member is alive.
  abbrev pub Matches : Bool → Slot V E → Type 0
  Matches true (val v) = Unit
  Matches false (err e) = Unit
  Matches _ _ = ⊥

  abbrev pub IsValid : Transport V E → Type 0
  IsValid t = Matches t.has t.slot

  matching :
      (b : Bool) (s : Slot V E)
      → Matches b s
      → (r : Result V E) × (embed r ≡ record { slot = s; has = b })
  matching true (val v) m = (ok v, refl)
  matching true (err e) m = absurd m
  matching true dead m = absurd m
  matching false (val v) m = absurd m
  matching false (err e) m = (failed e, refl)
  matching false dead m = absurd m

  -- A transport whose flag agrees with its union is exactly one of a value and an error.
  pub valid_view : (t : Transport V E) → IsValid t → (r : Result V E) × (embed r ≡ t)
  valid_view t v = matching t.has t.slot v

  pub embed-IsValid : (r : Result V E) → IsValid (embed r)
  embed-IsValid (ok v) = tt
  embed-IsValid (failed e) = tt

  -- A build with the checks never reaches a read without meaning, whatever the state of the flag,
  -- as long as the flag agrees with the union.
  pub assume-ne-undefined :
      (h : Hardening) (t : Transport V E)
      → fast_enabled h ≡ true
      → IsValid t
      → (assume_value h t ≢ undefined) × (assume_error h t ≢ undefined)
  unfolding assume_value assume_error
  assume-ne-undefined h t on v = let (r, e) = valid_view t v in rw (← e) (go r)
    where
      go :
          (r : Result V E)
          → (assume_value h (embed r) ≢ undefined) × (assume_error h (embed r) ≢ undefined)
      go (ok v) = (λ q. ground arith, λ q. ground arith)
      go (failed e) = (λ q. ground arith, λ q. ground arith)

-- The composition on the abstract view: a callable runs on its alternative alone, and the other
-- alternative goes through unchanged.
module _ {V W E : Type 0} where
  pub and_then-eq :
      (f : V → Outcome (Transport W E)) (v : V) (e : E)
      → (and_then f (embed (ok v)) ≡ f v)
        × (and_then f (embed (failed e)) ≡ done (embed (failed e)))
  unfolding and_then
  and_then-eq f v e = (refl, refl)

  pub transform-eq :
      (f : V → Outcome W) (v : V) (e : E)
      → (transform f (embed {E = E} (ok v)) ≡ (f v >>= λ w. done (embed (ok w))))
        × (transform f (embed (failed e)) ≡ done (embed (failed e)))
  unfolding transform
  transform-eq f v e = (refl, refl)

module _ {V E G : Type 0} where
  pub or_else-eq :
      (f : E → Outcome (Transport V G)) (v : V) (e : E)
      → (or_else f (embed (ok v)) ≡ done (embed (ok v))) × (or_else f (embed (failed e)) ≡ f e)
  unfolding or_else
  or_else-eq f v e = (refl, refl)

  pub transform_error-eq :
      (f : E → Outcome G) (v : V) (e : E)
      → (transform_error f (embed (ok v)) ≡ done (embed (ok v)))
        × (transform_error f (embed {V = V} (failed e)) ≡ (f e >>= λ g. done (embed (failed g))))
  unfolding transform_error
  transform_error-eq f v e = (refl, refl)
