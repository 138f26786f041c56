-- ===== src/Unwind/Escape.antt =====
-- include/jmpxx/unwind/escape.hpp: eject and escape_scope, and what the frames between them do.
use jmpxx.Prelude.{
  ℕ, ◌≤◌, ◌≡◌, Bool, true, false, not, Option, none, some, List, [], ◌∷◌, ◌++◌, ◌==◌, if◌then◌else◌,
  length, get_elem?, set, take, drop,
}
use jmpxx.Core.Transport.Refines.{Result, ok, failed}
use jmpxx.Unwind.{
  Carrier, no_scope, wrong_type, already_escaping, swallowed, terminated, Exit, returned, landing,
  stopped, dangling, World, Arm, resume, ◌>>=◌, pure, stop, payload_capacity,
}

-- An error type that the arm can carry: the address of its tag, its size, and its object
-- representation, which the compiler chooses.
pub record Payload (E : Type 0) : Type 0 where
  pub tag : ℕ
  pub size : ℕ
  pub encode : E → List ℕ
  pub decode : List ℕ → E

-- `valid_error_type`: it is trivially copyable, and fits the buffer.
pub record IsCarried {E : Type 0} (p : Payload E) : Type 0 where
  pub fits : p.size ≤ payload_capacity
  pub sized : (e : E) → length (p.encode e) ≡ p.size
  pub copied : (e : E) → p.decode (p.encode e) ≡ e

-- `copy_bytes` of a whole representation to the front of the buffer.
unfoldable pub copy_bytes : List ℕ → List ℕ → List ℕ
copy_bytes bytes buffer = bytes ++ drop (length bytes) buffer

unfoldable pub read_error : {E : Type 0} → Payload E → Carrier → E
read_error p car = p.decode (take p.size car.error)

abbrev pub put_carrier : {S : Type 0} → ℕ → Carrier → World S → World S
put_carrier a car w = record w {
  thread = record w.thread { carriers = set w.thread.carriers a car };
}

abbrev pub set_in_flight : {S : Type 0} → Bool → World S → World S
set_in_flight b w = record w { thread = record w.thread { in_flight = b } }

module _ {S : Type 0} where
  -- The carrier at an address.
  abbrev pub at : ℕ → Arm S Carrier
  at a w = elim (get_elem? w.thread.carriers a) [
    | none ↦ (dangling, w)
    | some car ↦ (returned car, w)
  ]

  -- The last steps of `eject`: store the payload, raise the flags, and start the unwind.
  abbrev pub launch : {E A : Type 0} → Payload E → E → ℕ → Carrier → Arm S A
  launch p e a car w = (
    landing a,
    set_in_flight true (
        put_carrier a (record car { error = copy_bytes (p.encode e) car.error; ejected = true }) w),
  )

  abbrev pub eject_to : {E A : Type 0} → Payload E → E → Option ℕ → Arm S A
  eject_to p e none = stop no_scope
  eject_to p e (some a) = at a >>= λ car w.
      if not (car.error_tag == p.tag)
      then (stopped wrong_type, w)
      else if w.thread.in_flight
      then (stopped already_escaping, w)
      else launch p e a car w

  unfoldable pub eject : {E A : Type 0} → Payload E → E → Arm S A
  unfolding copy_bytes
  eject p e w = eject_to p e w.thread.active w

  -- `scope_pop` and the end of the landing's frame.
  abbrev pub pop : ℕ → Arm S (Unit {0})
  pop a = at a >>= λ car w. (
    returned tt,
    record w {
      thread = record w.thread { carriers = take a w.thread.carriers; active = car.prev };
    },
  )

  -- What `escape_scope` does when its body, run under the carrier at `a`, has left.
  abbrev pub land : {E T : Type 0} → Payload E → ℕ → Exit T × World S → Exit (Result T E) × World S
  land p a (returned v, w) =
      (at a >>= λ car. if car.ejected then stop swallowed else (pop a >>= λ _. pure (ok v))) w
  land p a (landing b, w) =
      if b == a
      then (at a >>= λ car w'.
            (pop a >>= λ _. pure (failed (read_error p car))) (set_in_flight false w'))
          w
      else (pop a >>= λ _ w'. (landing b, w')) w
  land p a (stopped r, w) = (stopped r, w)
  land p a (dangling, w) = (dangling, w)

  -- `junk` is what the uninitialised buffer holds.
  abbrev pub enter : {E : Type 0} → Payload E → List ℕ → World S → World S
  enter p junk w = record w {
    thread = record w.thread {
      carriers =
          w.thread.carriers
          ++ record { prev = w.thread.active; error_tag = p.tag; ejected = false; error = junk }
            ∷ [];
      active = some (length w.thread.carriers);
    };
  }

  unfoldable pub escape_scope : {E T : Type 0} → Payload E → List ℕ → Arm S T → Arm S (Result T E)
  unfolding read_error
  escape_scope p junk body w = land p (length w.thread.carriers) (body (enter p junk w))

  -- A frame that owns an automatic object: its destructor runs when the frame returns and when an
  -- escape unwinds it. An exception that leaves a destructor terminates.
  abbrev pub after_cleanup : {A : Type 0} → ℕ → Exit (Unit {0}) × World S → Exit A × World S
  after_cleanup n (returned _, w) = (landing n, w)
  after_cleanup n (landing _, w) = (stopped terminated, w)
  after_cleanup n (stopped r, w) = (stopped r, w)
  after_cleanup n (dangling, w) = (dangling, w)

  abbrev pub leave_frame : {A : Type 0} → Arm S (Unit {0}) → Exit A × World S → Exit A × World S
  leave_frame dtor (returned a, w) = resume (λ _. pure a) (dtor w)
  leave_frame dtor (landing n, w) = after_cleanup n (dtor w)
  leave_frame dtor (stopped r, w) = (stopped r, w)
  leave_frame dtor (dangling, w) = (dangling, w)

  unfoldable pub frame : {A : Type 0} → Arm S (Unit {0}) → Arm S A → Arm S A
  frame dtor body w = leave_frame dtor (body w)
