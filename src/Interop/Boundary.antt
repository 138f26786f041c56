-- ===== src/Interop/Boundary.antt =====
-- include/jmpxx/interop/adapt.hpp, expected.hpp and exception.hpp: the bridges to optional-like
-- values, to std::expected and to thrown exceptions, for contents whose copies and moves do not throw.
use jmpxx.Prelude.{◌≡◌, refl, Bool, true, false, Option, none, some, if◌then◌else◌}
use jmpxx.Core.Outcome.{Outcome, done, trap, ◌>>=◌}
use jmpxx.Core.Hardening.{Hardening, unchecked, fast, extensive}
use jmpxx.Core.Transport.{Transport, fail, of_value, of_failure, assume_value, assume_error}
use jmpxx.Core.Transport.Refines.{Result, ok, failed, embed, IsValid, valid_view}

-- `std::expected`.
pub data Expected (V E : Type 0) : Type 0 where
  expected : V → Expected V E
  unexpected : E → Expected V E

-- How a call into exception-based code ends: `X` are the exceptions of other types than
-- `error_exception<E>`.
pub data Ran (X E V : Type 0) : Type 0 where
  returns : V → Ran X E V
  throws_error : E → Ran X E V
  throws_other : X → Ran X E V

module _ {V E : Type 0} where
  -- `o` is the optional-like value, `on_empty` makes the error.
  unfoldable pub from_optional : Option V → (Unit {0} → Outcome E) → Outcome (Transport V E)
  unfolding of_value of_failure
  from_optional (some v) on_empty = done (of_value v)
  from_optional none on_empty = on_empty tt >>= λ e. done (of_failure (fail e))

  unfoldable pub from_condition :
      Bool → (Unit {0} → Outcome V) → (Unit {0} → Outcome E) → Outcome (Transport V E)
  unfolding of_value of_failure
  from_condition true take_it on_absent = take_it tt >>= λ v. done (of_value v)
  from_condition false take_it on_absent = on_absent tt >>= λ e. done (of_failure (fail e))

  unfoldable pub to_expected : Hardening → Transport V E → Outcome (Expected V E)
  unfolding assume_value assume_error
  to_expected h t =
      if t.has
      then (assume_value h t >>= λ v. done (expected v))
      else (assume_error h t >>= λ e. done (unexpected e))

  unfoldable pub from_expected : Expected V E → Transport V E
  unfolding of_value of_failure
  from_expected (expected v) = of_value v
  from_expected (unexpected e) = of_failure (fail e)

  unfoldable pub value_or_throw : {X : Type 0} → Hardening → Transport V E → Outcome (Ran X E V)
  unfolding assume_value assume_error
  value_or_throw h t =
      if t.has
      then (assume_value h t >>= λ v. done (returns v))
      else (assume_error h t >>= λ e. done (throws_error e))

  -- `noexcept`: an exception of `make_error` terminates.
  abbrev pub mapped : {X : Type 0} → Ran X E E → Outcome (Transport V E)
  mapped (returns e) = done (of_failure (fail e))
  mapped _ = trap

  unfoldable pub catch_into_result :
      {X : Type 0} → Ran X E V → (Unit {0} → Ran X E E) → Outcome (Transport V E)
  unfolding of_value of_failure
  catch_into_result (returns v) make_error = done (of_value v)
  catch_into_result (throws_error e) make_error = done (of_failure (fail e))
  catch_into_result (throws_other x) make_error = mapped (make_error tt)

  expected_views :
      (h : Hardening) (r : Result V E)
      → (to_expected h (embed r) >>= λ x. done (from_expected x)) ≡ done (embed r)
  unfolding to_expected from_expected
  expected_views unchecked (ok v) = refl
  expected_views fast (ok v) = refl
  expected_views extensive (ok v) = refl
  expected_views unchecked (failed e) = refl
  expected_views fast (failed e) = refl
  expected_views extensive (failed e) = refl

  -- Out to std::expected and back, and the other way round, nothing is lost, in every hardening mode:
  -- a valid transport and an expected value come back as they were.
  pub expected_roundtrip :
      (h : Hardening) (t : Transport V E) (x : Expected V E)
      → IsValid t
      → ((to_expected h t >>= λ y. done (from_expected y)) ≡ done t)
        × (to_expected h (from_expected x) ≡ done x)
  unfolding to_expected from_expected
  expected_roundtrip h t x valid = (there, back h x)
    where
      there : (to_expected h t >>= λ y. done (from_expected y)) ≡ done t
      there = let (r, e) = valid_view t valid in rw (← e) (expected_views h r)

      back : (h : Hardening) (x : Expected V E) → to_expected h (from_expected x) ≡ done x
      back unchecked (expected v) = refl
      back fast (expected v) = refl
      back extensive (expected v) = refl
      back unchecked (unexpected e) = refl
      back fast (unexpected e) = refl
      back extensive (unexpected e) = refl
