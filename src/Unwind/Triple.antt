-- ===== src/Unwind/Triple.antt =====
-- Functions below a landing with a precondition on the program's state, a postcondition for their
-- returns and one for the faults that escape from them; frames whose destructors restore the state;
-- and what a landing scope around such a function yields.
use jmpxx.Prelude.{ℕ, ◌≡◌, refl, false, true, Bool, Option, none, some, List, if◌then◌else◌, length}
use jmpxx.Core.Transport.Refines.{Result, ok, failed}
use jmpxx.Unwind.{Carrier, Exit, returned, landing, World, Arm, resume, ◌>>=◌, pure, modify, gets}
use jmpxx.Unwind.Escape.{Payload, IsCarried, eject, frame, leave_frame, enter, land, escape_scope}
use jmpxx.Unwind.Sound.{Inside, Inside-app, escaping, eject-escapes}
use jmpxx.Unwind.Landing.{fresh, enter-Inside, land-returns, land-escapes}

-- How a call in `w` ends: it returns a value and a state of `Q`, or an error and a state of `R` escape.
pub data Ends {E S A : Type 0} (p : Payload E) (R : E → S → Type 0) (Q : A → S → Type 0) (a : ℕ)
    (car : Carrier) (w : World S) : Exit A × World S → Type 0 where
  fine : (v : A) (s : S) → Q v s → Ends p R Q a car w (returned v, record w { app = s })
  fault :
      (e : E) (s : S)
      → R e s
      → Ends p R Q a car w (landing a, escaping p e a car (record w { app = s }))

-- A call from a state of `P` below a landing ends so.
pub record Triple {E S A : Type 0} (p : Payload E) (R : E → S → Type 0) (P : S → Type 0)
    (Q : A → S → Type 0) (m : Arm S A) : Type 0 where
  pub run :
      (a : ℕ) (car : Carrier) (w : World S) → P w.app → Inside p a car w → Ends p R Q a car w (m w)

module _ {E S : Type 0} (p : Payload E) (R : E → S → Type 0) where
  module _ (P : S → Type 0) where
    pub pure-Triple :
        {A : Type 0} (Q : A → S → Type 0) (v : A)
        → ((s : S) → P s → Q v s)
        → Triple p R P Q (pure v)
    pure-Triple Q v g = record { run = λ a car w h i. fine v w.app (g w.app h) }

    pub gets-Triple :
        {A : Type 0} (Q : A → S → Type 0) (f : S → A)
        → ((s : S) → P s → Q (f s) s)
        → Triple p R P Q (gets f)
    gets-Triple Q f g = record { run = λ a car w h i. fine (f w.app) w.app (g w.app h) }

    pub modify-Triple :
        (Q : S → Type 0) (f : S → S) → ((s : S) → P s → Q (f s)) → Triple p R P (λ _. Q) (modify f)
    modify-Triple Q f g = record { run = λ a car w h i. fine tt (f w.app) (g w.app h) }

    pub eject-Triple :
        {A : Type 0} (Q : A → S → Type 0) (e : E)
        → ((s : S) → P s → R e s)
        → Triple p R P Q (eject p e)
    eject-Triple Q e g = record {
      run = λ a car w h i. rw (eject-escapes p e a car w i) (fault e w.app (g w.app h));
    }

    -- A fact may be read off the precondition.
    pub given-Triple :
        {A : Type 0} (Q : A → S → Type 0) (m : Arm S A)
        → ((s : S) → P s → Triple p R P Q m)
        → Triple p R P Q m
    given-Triple Q m h = record { run = λ a car w g i. (h w.app g).run a car w g i }

    -- The state may be named.
    pub exact-Triple :
        {A : Type 0} (Q : A → S → Type 0) (m : Arm S A)
        → ((s₀ : S) → P s₀ → Triple p R (λ s. s ≡ s₀) Q m)
        → Triple p R P Q m
    exact-Triple Q m h = record { run = λ a car w g i. (h w.app g).run a car w refl i }

    pub before-Triple :
        {A : Type 0} (P' : S → Type 0) (Q : A → S → Type 0) (m : Arm S A)
        → ((s : S) → P s → P' s)
        → Triple p R P' Q m
        → Triple p R P Q m
    before-Triple P' Q m f h = record { run = λ a car w g i. h.run a car w (f w.app g) i }

    module _ {A : Type 0} (Q : A → S → Type 0) where
      -- A test may be used in its branches.
      pub if-Triple :
          (b : Bool) (m n : Arm S A)
          → (b ≡ true → Triple p R P Q m)
          → (b ≡ false → Triple p R P Q n)
          → Triple p R P Q (if b then m else n)
      if-Triple true m n hm hn = hm refl
      if-Triple false m n hm hn = hn refl

      pub option-Triple :
          {B : Type 0} (o : Option B) (m : Arm S A) (f : B → Arm S A)
          → (o ≡ none → Triple p R P Q m)
          → ((b : B) → o ≡ some b → Triple p R P Q (f b))
          → Triple p R P Q (elim o [ none ↦ m | some b ↦ f b ])
      option-Triple none m f hm hf = hm refl
      option-Triple (some b) m f hm hf = hf b refl

    module _ {A B : Type 0} (M : A → S → Type 0) (Q : B → S → Type 0) (m : Arm S A)
        (f : A → Arm S B) where
      resume-Ends :
          ((v : A) → Triple p R (M v) Q (f v))
          → {a : ℕ} {car : Carrier} {w : World S} → Inside p a car w
          → {x : Exit A × World S} → Ends p R M a car w x
          → Ends p R Q a car w (resume f x)
      resume-Ends hf {a} {car} {w} i (fine v s h) =
          again ((hf v).run a car (record w { app = s }) h (Inside-app p s i))
        where
          again :
              {x : Exit B × World S}
              → Ends p R Q a car (record w { app = s }) x
              → Ends p R Q a car w x
          again (fine u t g) = fine u t g
          again (fault e t g) = fault e t g
      resume-Ends hf i (fault e s h) = fault e s h

      pub bind-Triple :
          Triple p R P M m → ((v : A) → Triple p R (M v) Q (f v)) → Triple p R P Q (m >>= f)
      bind-Triple hm hf = record { run = λ a car w h i. resume-Ends hf i (hm.run a car w h i) }

module _ {E S A : Type 0} (p : Payload E) (R R' : E → S → Type 0) (Q Q' : A → S → Type 0)
    (d : S → S) where
  leave-Ends :
      ((v : A) (s : S) → Q' v s → Q v (d s))
      → ((e : E) (s : S) → R' e s → R e (d s))
      → {a : ℕ} {car : Carrier} {w : World S} {x : Exit A × World S} → Ends p R' Q' a car w x
      → Ends p R Q a car w (leave_frame (modify d) x)
  leave-Ends hq hr (fine v s h) = fine v (d s) (hq v s h)
  leave-Ends hq hr (fault e s h) = fault e (d s) (hr e s h)

  -- A frame whose destructor `d` restores what the conditions say, on a return and on an escape.
  pub frame-Triple :
      (P : S → Type 0) (m : Arm S A)
      → ((v : A) (s : S) → Q' v s → Q v (d s))
      → ((e : E) (s : S) → R' e s → R e (d s))
      → Triple p R' P Q' m
      → Triple p R P Q (frame (modify d) m)
  unfolding frame
  frame-Triple P m hq hr hm = record { run = λ a car w h i. leave-Ends hq hr (hm.run a car w h i) }

module _ {E S A : Type 0} (p : Payload E) (R R' : E → S → Type 0) (Q Q' : A → S → Type 0) where
  convert-Ends :
      ((v : A) (s : S) → Q' v s → Q v s)
      → ((e : E) (s : S) → R' e s → R e s)
      → {a : ℕ} {car : Carrier} {w : World S} {x : Exit A × World S} → Ends p R' Q' a car w x
      → Ends p R Q a car w x
  convert-Ends hq hr (fine v s h) = fine v s (hq v s h)
  convert-Ends hq hr (fault e s h) = fault e s (hr e s h)

  -- The conditions may be replaced by others, which may depend on the state before the call.
  pub convert-Triple :
      (P P' : S → Type 0) (m : Arm S A)
      → ((s : S) → P s → P' s)
      → ((s₀ : S) → P s₀ → (v : A) (s : S) → Q' v s → Q v s)
      → ((s₀ : S) → P s₀ → (e : E) (s : S) → R' e s → R e s)
      → ((s₀ : S) → P s₀ → Triple p R' P' Q' m)
      → Triple p R P Q m
  convert-Triple P P' m hp hq hr hm = record {
    run = λ a car w h i.
        convert-Ends (hq w.app h) (hr w.app h) ((hm w.app h).run a car w (hp w.app h) i);
  }

module _ {E S A : Type 0} (p : Payload E) (R : E → S → Type 0) (P : S → Type 0)
    (Q Q' : A → S → Type 0) (m : Arm S A) (g : (v : A) (s : S) → Q' v s → Q v s) where
  pub after-Triple : Triple p R P Q' m → Triple p R P Q m
  after-Triple hm =
      convert-Triple p R R Q Q' P P m (λ s h. h) (λ s h. g) (λ s h e t r. r) (λ s h. hm)

-- What a landing scope yields, of a body with these conditions.
abbrev pub Yields : {E S T : Type 0} → (E → S → Type 0) → (T → S → Type 0) → Result T E → S → Type 0
Yields R Q (ok v) s = Q v s
Yields R Q (failed e) s = R e s

-- How a landing scope entered in `w` lands: with a result, the thread being as it was.
pub record Landed {E S T : Type 0} (R : E → S → Type 0) (Q : T → S → Type 0) (w : World S)
    (x : Exit (Result T E) × World S) : Type 0 where
  pub result : Result T E
  pub state : S
  pub lands : x ≡ (returned result, record w { app = state })
  pub yields : Yields R Q result state

module _ {E S T : Type 0} (p : Payload E) (R : E → S → Type 0) (P : S → Type 0) (Q : T → S → Type 0)
    (junk : List ℕ) (w : World S) where
  land-Landed :
      w.thread.in_flight ≡ false
      → IsCarried p
      → {x : Exit T × World S}
      → Ends p R Q (length w.thread.carriers) (fresh p junk w) (enter p junk w) x
      → Landed R Q w (land p (length w.thread.carriers) x)
  land-Landed calm c (fine v s h) = record {
    result = ok v;
    state = s;
    lands = land-returns p junk w v s;
    yields = h;
  }
  land-Landed calm c (fault e s h) = record {
    result = failed e;
    state = s;
    lands = land-escapes p junk w {T = T} e s calm c;
    yields = h;
  }

  pub scope-Landed :
      (body : Arm S T)
      → w.thread.in_flight ≡ false
      → IsCarried p
      → P w.app
      → Triple p R P Q body
      → Landed R Q w (escape_scope p junk body w)
  unfolding escape_scope
  scope-Landed body calm c h hb = land-Landed calm c (
      hb.run (length w.thread.carriers) (fresh p junk w) (enter p junk w) h
        (enter-Inside p junk w calm))
