-- ===== src/Core/Transport.antt =====
-- include/jmpxx/core/transport.hpp: class result, its accessors and its composition.
-- A union member is alive or not: a read of one that is not has no meaning (Core/Outcome).
-- `result<void, E>` is the transport whose values are `detail::unit`. The overloads of one function
-- for `&`, `const&` and `&&` differ in whether the alternative is copied or moved out; what copies
-- and moves do to objects is in Core/Lifetime.
pub mod Refines
pub mod Laws
use mathlib.Core.Bool.{xor}
use jmpxx.Prelude.{
  ℕ, zero, suc, ◌+◌, ◌-◌, ◌*◌, ◌/◌, ◌%◌, ◌^◌, ◌≤◌, ◌<◌, ◌≡◌, refl, sym, ap, ◌∙◌, ◌≢◌, ◌↔◌, ◌⊎◌, inl,
  inr, Bool, true, false, not, ◌&&◌, ◌||◌, Option, none, some, List, [], ◌∷◌, ◌++◌, map, arith, ltb,
  leb, ◌==◌, if◌then◌else◌, ltb→lt, lt→ltb, leb→le, ==_iff, tests, Bool-cases, Option-cases, length,
  get_elem?, set, length-append, length-set, get_elem?-set_self, get_elem?-set_ne, get_or, take,
  drop, replicate, take-append-drop, length-take, length-drop, length-replicate, length-map,
  take-set_last, take-take, map-take, take-all, get_elem?-some,
}
use jmpxx.Core.Outcome.{Outcome, done, trap, undefined, ◌>>=◌, ◌>>◌, require}
use jmpxx.Core.Hardening.{Hardening, fast_enabled}

-- The union: which member is alive.
pub data Slot (V E : Type 0) : Type 0 where
  val : V → Slot V E
  err : E → Slot V E
  dead : Slot V E

pub record Transport (V E : Type 0) : Type 0 where
  pub slot : Slot V E
  pub has : Bool

pub data Failure (E : Type 0) : Type 0 where
  fail : E → Failure E

module _ {V E : Type 0} where
  -- The constructors from a value (plain or in place), for `result<void, E>` from the unit.
  unfoldable pub of_value : V → Transport V E
  of_value v = record { slot = val v; has = true }

  -- The constructors from a failure.
  unfoldable pub of_failure : Failure E → Transport V E
  of_failure (fail e) = record { slot = err e; has = false }

  -- The reads of the union's members.
  unfoldable pub read_val : Slot V E → Outcome V
  read_val (val v) = done v
  read_val (err e) = undefined
  read_val dead = undefined

  unfoldable pub read_err : Slot V E → Outcome E
  read_err (val v) = undefined
  read_err (err e) = done e
  read_err dead = undefined

  unfoldable pub has_value : Transport V E → Bool
  has_value t = t.has

  unfoldable pub has_error : Transport V E → Bool
  has_error t = not t.has

  unfoldable pub require_value : Transport V E → Outcome (Unit {0})
  require_value t = require t.has

  unfoldable pub require_error : Transport V E → Outcome (Unit {0})
  require_error t = require (not t.has)

  -- `value()`, `operator*` and `operator->`.
  unfoldable pub value : Transport V E → Outcome V
  unfolding require_value read_val
  value t = do require_value t; read_val t.slot

  -- `error()`.
  unfoldable pub error : Transport V E → Outcome E
  unfolding require_error read_err
  error t = do require_error t; read_err t.slot

  unfoldable pub assume_value : Hardening → Transport V E → Outcome V
  unfolding require_value read_val fast_enabled
  assume_value h t = do (if fast_enabled h then require_value t else done tt); read_val t.slot

  unfoldable pub assume_error : Hardening → Transport V E → Outcome E
  unfolding require_error read_err fast_enabled
  assume_error h t = do (if fast_enabled h then require_error t else done tt); read_err t.slot

  unfoldable pub value_or : V → Transport V E → Outcome V
  unfolding read_val
  value_or alt t = if t.has then read_val t.slot else done alt

  unfoldable pub error_or : E → Transport V E → Outcome E
  unfolding read_err
  error_or alt t = if t.has then done alt else read_err t.slot

  -- `operator==` of two transports, of a transport and a value, and of a transport and a failure.
  module _ (veq : V → V → Bool) (eeq : E → E → Bool) where
    unfoldable pub transport_eq : Transport V E → Transport V E → Outcome Bool
    unfolding read_val read_err xor
    transport_eq a b =
        if xor a.has b.has
        then done false
        else if not a.has
        then (do done (eeq (← read_err a.slot) (← read_err b.slot)))
        else (do done (veq (← read_val a.slot) (← read_val b.slot)))

    unfoldable pub eq_value : Transport V E → V → Outcome Bool
    unfolding read_val
    eq_value a v = if a.has then (do done (veq (← read_val a.slot) v)) else done false

    unfoldable pub eq_failure : Transport V E → Failure E → Outcome Bool
    unfolding read_err
    eq_failure a (fail e) = if a.has then done false else do done (eeq (← read_err a.slot) e)

-- The callables may end in any way, so that it shows whether they were called.
module _ {V W E : Type 0} where
  unfoldable pub and_then : (V → Outcome (Transport W E)) → Transport V E → Outcome (Transport W E)
  unfolding read_val read_err of_failure
  and_then f t =
      if t.has
      then (do v ← read_val t.slot; f v)
      else (do e ← read_err t.slot; done (of_failure (fail e)))

  unfoldable pub transform : (V → Outcome W) → Transport V E → Outcome (Transport W E)
  unfolding read_val read_err of_value of_failure
  transform f t =
      if t.has
      then (do v ← read_val t.slot; w ← f v; done (of_value w))
      else (do e ← read_err t.slot; done (of_failure (fail e)))

module _ {V E G : Type 0} where
  unfoldable pub or_else : (E → Outcome (Transport V G)) → Transport V E → Outcome (Transport V G)
  unfolding read_val read_err of_value
  or_else f t =
      if t.has then (do v ← read_val t.slot; done (of_value v)) else (do e ← read_err t.slot; f e)

  unfoldable pub transform_error : (E → Outcome G) → Transport V E → Outcome (Transport V G)
  unfolding read_val read_err of_value of_failure
  transform_error f t =
      if t.has
      then (do v ← read_val t.slot; done (of_value v))
      else (do e ← read_err t.slot; g ← f e; done (of_failure (fail g)))
