-- ===== src/Unwind/Sound.antt =====
-- Functions below a landing either return with the thread as it was, or escape to that landing.
use jmpxx.Prelude.{ℕ, ◌≡◌, true, false, some, arith, get_elem?}
use jmpxx.Unwind.{
  Carrier, Stop, Exit, returned, landing, stopped, World, Arm, resume, ◌>>=◌, pure, gets, modify,
  stop,
}
use jmpxx.Unwind.Escape.{Payload, copy_bytes, put_carrier, set_in_flight, eject, leave_frame, frame}

-- The thread runs below the landing of the carrier `car` at the address `a`, and is not unwinding.
pub record Inside {E S : Type 0} (p : Payload E) (a : ℕ) (car : Carrier) (w : World S)
    : Type 0 where
  pub top : w.thread.active ≡ some a
  pub alive : get_elem? w.thread.carriers a ≡ some car
  pub typed : car.error_tag ≡ p.tag
  pub waiting : car.ejected ≡ false
  pub calm : w.thread.in_flight ≡ false

-- The world in which an escape with `e` runs towards `a`.
abbrev pub escaping : {E S : Type 0} → Payload E → E → ℕ → Carrier → World S → World S
escaping p e a car w =
    set_in_flight true
      (put_carrier a (record car { error = copy_bytes (p.encode e) car.error; ejected = true }) w)

-- How a function called in `w` may leave.
pub data Leaves {E S A : Type 0} (p : Payload E) (a : ℕ) (car : Carrier) (w : World S)
    : Exit A × World S → Type 0 where
  returns : (v : A) (s : S) → Leaves p a car w (returned v, record w { app = s })
  escapes :
      (e : E) (s : S) → Leaves p a car w (landing a, escaping p e a car (record w { app = s }))
  stops : (r : Stop) (w' : World S) → Leaves p a car w (stopped r, w')

-- A function that may be called below a landing for `E`.
pub record Behaves {E S A : Type 0} (p : Payload E) (m : Arm S A) : Type 0 where
  pub leaves : (a : ℕ) (car : Carrier) (w : World S) → Inside p a car w → Leaves p a car w (m w)

-- A destructor that only changes the program's own state.
pub record IsQuiet {S : Type 0} (m : Arm S (Unit {0})) : Type 0 where
  pub change : S → S
  pub quiet : (w : World S) → m w ≡ (returned tt, record w { app = change w.app })

module _ {E S : Type 0} (p : Payload E) where
  -- The program's own state does not matter to the thread's.
  pub Inside-app :
      {a : ℕ} {car : Carrier} {w : World S} (s : S)
      → Inside p a car w
      → Inside p a car (record w { app = s })
  Inside-app s h = record {
    top = h.top;
    alive = h.alive;
    typed = h.typed;
    waiting = h.waiting;
    calm = h.calm;
  }

  Leaves-app :
      {A : Type 0} {a : ℕ} {car : Carrier} {w : World S} (s : S) {x : Exit A × World S}
      → Leaves p a car (record w { app = s }) x
      → Leaves p a car w x
  Leaves-app s (returns v t) = returns v t
  Leaves-app s (escapes e t) = escapes e t
  Leaves-app s (stops r w') = stops r w'

  pub pure-Behaves : {A : Type 0} (v : A) → Behaves p (pure {S = S} v)
  pure-Behaves v = record { leaves = λ a car w h. returns v w.app }

  pub stop-Behaves : {A : Type 0} (r : Stop) → Behaves p (stop {S = S} {A = A} r)
  stop-Behaves r = record { leaves = λ a car w h. stops r w }

  pub gets-Behaves : {A : Type 0} (f : S → A) → Behaves p (gets f)
  gets-Behaves f = record { leaves = λ a car w h. returns (f w.app) w.app }

  pub modify-Behaves : (f : S → S) → Behaves p (modify f)
  modify-Behaves f = record { leaves = λ a car w h. returns tt (f w.app) }

  module _ {A B : Type 0} where
    resume-Leaves :
        {a : ℕ} {car : Carrier} {w : World S} (f : A → Arm S B)
        → ((v : A) → Behaves p (f v))
        → Inside p a car w
        → {x : Exit A × World S} → Leaves p a car w x
        → Leaves p a car w (resume f x)
    resume-Leaves {a} {car} {w} f hf h (returns v s) =
        Leaves-app s ((hf v).leaves a car (record w { app = s }) (Inside-app s h))
    resume-Leaves f hf h (escapes e s) = escapes e s
    resume-Leaves f hf h (stops r w') = stops r w'

    pub bind-Behaves :
        (m : Arm S A) (f : A → Arm S B)
        → Behaves p m
        → ((v : A) → Behaves p (f v))
        → Behaves p (m >>= f)
    bind-Behaves m f hm hf = record {
      leaves = λ a car w h. resume-Leaves f hf h (hm.leaves a car w h);
    }

  -- An eject escapes with its error to the landing.
  pub eject-escapes :
      {A : Type 0} (e : E) (a : ℕ) (car : Carrier) (w : World S)
      → Inside p a car w
      → eject {A = A} p e w ≡ (landing a, escaping p e a car w)
  unfolding eject
  eject-escapes e a car w h = rw h.top (ground (arith, h.alive, h.typed, h.calm))

  pub eject-Behaves : {A : Type 0} (e : E) → Behaves p (eject {S = S} {A = A} p e)
  eject-Behaves e = record {
    leaves = λ a car w h. rw (eject-escapes e a car w h) (escapes e w.app);
  }

  module _ {A : Type 0} (dtor : Arm S (Unit {0})) (q : IsQuiet dtor) where
    leave_frame-Leaves :
        {a : ℕ} {car : Carrier} {w : World S} {x : Exit A × World S}
        → Leaves p a car w x
        → Leaves p a car w (leave_frame dtor x)
    leave_frame-Leaves {w} (returns v s) =
        rw (q.quiet (record w { app = s })) (returns v (q.change s))
    leave_frame-Leaves {a} {car} {w} (escapes e s) =
        rw (q.quiet (escaping p e a car (record w { app = s }))) (escapes e (q.change s))
    leave_frame-Leaves (stops r w') = stops r w'

    -- A frame with a quiet destructor behaves as its body does.
    pub frame-Behaves : (body : Arm S A) → Behaves p body → Behaves p (frame dtor body)
    unfolding frame
    frame-Behaves body h = record { leaves = λ a car w i. leave_frame-Leaves (h.leaves a car w i) }
