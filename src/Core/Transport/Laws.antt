-- ===== src/Core/Transport/Laws.antt =====
-- The laws of the composition, on every transport whose flag agrees with its union.
use jmpxx.Prelude.{◌≡◌, refl, sym, ap, ◌∙◌, ◌↔◌, Bool, true, false, arith}
use jmpxx.Core.Outcome.{Outcome, done, trap, threw, undefined, ◌>>=◌}
use jmpxx.Core.Transport.{
  Transport, of_value, transport_eq, and_then, transform, or_else, transform_error,
}
use jmpxx.Core.Transport.Refines.{Result, ok, failed, embed, IsValid, valid_view}

>>=-assoc :
    {A B C : Type 0} (m : Outcome A) (f : A → Outcome B) (g : B → Outcome C)
    → (m >>= f >>= g) ≡ (m >>= λ a. f a >>= g)
>>=-assoc (done a) f g = refl
>>=-assoc trap f g = refl
>>=-assoc threw f g = refl
>>=-assoc undefined f g = refl

-- A statement about every valid transport follows from its two views.
on_views :
    {V E : Type 0} (P : Transport V E → Type 0)
    → ((v : V) → P (embed (ok v)))
    → ((e : E) → P (embed (failed e)))
    → (t : Transport V E) → IsValid t
    → P t
on_views P value_case error_case t valid = let (r, e) = valid_view t valid in rw (← e) (go r)
  where
    go : (r : Result _ _) → P (embed r)
    go (ok v) = value_case v
    go (failed e) = error_case e

module _ {V W X E : Type 0} where
  -- Chaining is associative: two steps in a row are one step that chains them.
  pub and_then_assoc :
      (f : V → Outcome (Transport W E)) (g : W → Outcome (Transport X E)) (t : Transport V E)
      → IsValid t
      → (and_then f t >>= and_then g) ≡ and_then (λ v. f v >>= and_then g) t
  unfolding and_then
  and_then_assoc f g =
      on_views (λ t. (and_then f t >>= and_then g) ≡ and_then (λ v. f v >>= and_then g) t)
        (λ v. refl) (λ e. refl)

  -- Mapping twice is mapping once by the composite.
  pub transform-transform :
      (f : V → Outcome W) (g : W → Outcome X) (t : Transport V E)
      → IsValid t
      → (transform f t >>= transform g) ≡ transform (λ v. f v >>= g) t
  unfolding transform
  transform-transform f g =
      on_views (λ t. (transform f t >>= transform g) ≡ transform (λ v. f v >>= g) t)
        (λ v. >>=-assoc (f v) _ _ ∙ sym (>>=-assoc (f v) g _)) (λ e. refl)

module _ {V E G H : Type 0} where
  -- Recovery is associative as chaining is.
  pub or_else_assoc :
      (f : E → Outcome (Transport V G)) (g : G → Outcome (Transport V H)) (t : Transport V E)
      → IsValid t
      → (or_else f t >>= or_else g) ≡ or_else (λ e. f e >>= or_else g) t
  unfolding or_else
  or_else_assoc f g =
      on_views (λ t. (or_else f t >>= or_else g) ≡ or_else (λ e. f e >>= or_else g) t) (λ v. refl)
        (λ e. refl)

module _ {V W E G : Type 0} where
  -- Mapping the value and mapping the error commute, where neither callable stops the program.
  pub transform-transform_error :
      (f : V → W) (g : E → G) (t : Transport V E)
      → IsValid t
      → (transform (λ v. done (f v)) t >>= transform_error (λ e. done (g e)))
        ≡ (transform_error (λ e. done (g e)) t >>= transform (λ v. done (f v)))
  unfolding transform transform_error
  transform-transform_error f g =
      on_views
        (λ t.
          (transform (λ v. done (f v)) t >>= transform_error (λ e. done (g e)))
          ≡ (transform_error (λ e. done (g e)) t >>= transform (λ v. done (f v))))
        (λ v. refl) (λ e. refl)

module _ {V W E : Type 0} where
  -- A mapping is a chaining whose step always succeeds.
  pub transform-eq-and_then :
      (f : V → Outcome W) (t : Transport V E)
      → transform f t ≡ and_then (λ v. f v >>= λ w. done (of_value w)) t
  unfolding transform and_then
  transform-eq-and_then f t = refl

module _ {V E : Type 0} (veq : V → V → Bool) (eeq : E → E → Bool) where
  -- With comparisons that decide equality of values and of errors, the comparison of two valid
  -- transports is defined and decides whether they hold the same alternative with equal contents.
  pub transport_eq_iff :
      ((a b : V) → (veq a b ≡ true) ↔ (a ≡ b))
      → ((a b : E) → (eeq a b ≡ true) ↔ (a ≡ b))
      → (a b : Transport V E) → IsValid a
      → IsValid b
      → (same : Bool) × (transport_eq veq eeq a b ≡ done same) × ((same ≡ true) ↔ (a ≡ b))
  unfolding transport_eq
  transport_eq_iff hv he a b va vb =
      let (r, er) = valid_view a va in let (q, eq) = valid_view b vb in rw (← er, ← eq) (go r q)
    where
      go :
          (r q : Result V E)
          → (same : Bool) × (transport_eq veq eeq (embed r) (embed q) ≡ done same)
            × ((same ≡ true) ↔ (embed r ≡ embed q))
      go (ok v) (ok w) = (
        veq v w,
        refl,
        (λ h. ap (λ x. embed (ok x)) ((hv v w).0 h), λ h. (hv v w).1 (ground arith)),
      )
      go (ok v) (failed e) = (false, refl, (λ h. cc, λ h. ground arith))
      go (failed e) (ok v) = (false, refl, (λ h. cc, λ h. ground arith))
      go (failed e) (failed d) = (
        eeq e d,
        refl,
        (λ h. ap (λ x. embed (failed x)) ((he e d).0 h), λ h. (he e d).1 (ground arith)),
      )
