-- ===== src/Unwind/Landing.antt =====
-- escape_scope: where its body's returns and escapes land, and what they leave of the thread.
use jmpxx.Prelude.{
  ℕ, ◌≡◌, refl, sym, ap, ◌∙◌, Bool, true, false, some, List, [], ◌∷◌, ◌++◌, arith, ◌==◌, length,
  get_elem?, take, drop, take-append, get_elem?-append_last, set-append_last,
}
use jmpxx.Core.Transport.Refines.{Result, ok, failed}
use jmpxx.Unwind.{
  Carrier, Stop, Exit, returned, landing, stopped, World, Arm, resume, modify, swallowed,
}
use jmpxx.Unwind.Escape.{
  Payload, IsCarried, copy_bytes, read_error, set_in_flight, eject, enter, land, escape_scope, at,
  pop, frame, leave_frame,
}
use jmpxx.Unwind.Sound.{Inside, escaping, Leaves, returns, escapes, stops, Behaves, eject-escapes}

-- How a landing scope entered in `w` may end: with a result, the thread being as it was, or the
-- program stops.
pub data Lands {E S T : Type 0} (w : World S) : Exit (Result T E) × World S → Type 0 where
  lands_ok : (v : T) (s : S) → Lands w (returned (ok v), record w { app = s })
  lands_failed : (e : E) (s : S) → Lands w (returned (failed e), record w { app = s })
  halts : (r : Stop) (w' : World S) → Lands w (stopped r, w')

module _ {E : Type 0} (p : Payload E) where
  -- What `eject` stored is what the landing reads.
  pub read_error-copy_bytes :
      (car : Carrier) (e : E)
      → IsCarried p
      → read_error p (record car { error = copy_bytes (p.encode e) car.error }) ≡ e
  unfolding read_error copy_bytes
  read_error-copy_bytes car e c =
      ap p.decode (
        ap (λ n. take n (copy_bytes (p.encode e) car.error)) (sym (c.sized e))
        ∙ take-append (p.encode e) (drop (length (p.encode e)) car.error))
      ∙ c.copied e

same_eqb : (n : ℕ) → (n == n) ≡ true
same_eqb n = ground arith

module _ {S : Type 0} where
  at-some :
      (a : ℕ) (car : Carrier) (w : World S)
      → get_elem? w.thread.carriers a ≡ some car
      → at a w ≡ (returned car, w)
  at-some a car w h = rw (h, at) refl

  pop-some :
      (a : ℕ) (car : Carrier) (w : World S)
      → get_elem? w.thread.carriers a ≡ some car
      → pop a w ≡ (
        returned tt,
        record w {
          thread = record w.thread { carriers = take a w.thread.carriers; active = car.prev };
        },
      )
  pop-some a car w h = ap (resume _) (at-some a car w h)

module _ {E S : Type 0} (p : Payload E) (junk : List ℕ) (w : World S) where
  -- The carrier of the scope.
  abbrev pub fresh : Carrier
  fresh = record { prev = w.thread.active; error_tag = p.tag; ejected = false; error = junk }

  -- The body of a scope runs inside its landing.
  pub enter-Inside :
      w.thread.in_flight ≡ false → Inside p (length w.thread.carriers) fresh (enter p junk w)
  enter-Inside calm = record {
    top = refl;
    alive = get_elem?-append_last w.thread.carriers fresh;
    typed = refl;
    waiting = refl;
    calm = calm;
  }

  -- A body that returns lands with its value.
  pub land-returns :
      {T : Type 0} (v : T) (s : S)
      → land {T = T} p (length w.thread.carriers) (returned v, record (enter p junk w) { app = s })
        ≡ (returned (ok v), record w { app = s })
  land-returns v s =
      ap (resume _) (at-some n fresh w' found)
      ∙ ap (resume _) (pop-some n fresh w' found)
      ∙ ap (λ l. (returned (ok v), record w' { thread = record w.thread { carriers = l } })) kept
    where
      n : ℕ
      n = length w.thread.carriers

      w' : World S
      w' = record (enter p junk w) { app = s }

      found : get_elem? w'.thread.carriers n ≡ some fresh
      found = get_elem?-append_last w.thread.carriers fresh

      kept : take n w'.thread.carriers ≡ w.thread.carriers
      kept = take-append w.thread.carriers (fresh ∷ [])

  abbrev pub stored : E → Carrier
  stored e = record fresh { error = copy_bytes (p.encode e) junk; ejected = true }

  -- An escape to the scope lands with its error.
  pub land-escapes :
      {T : Type 0} (e : E) (s : S)
      → w.thread.in_flight ≡ false
      → IsCarried p
      → land {T = T} p (length w.thread.carriers) (
        landing (length w.thread.carriers),
        escaping p e (length w.thread.carriers) fresh (record (enter p junk w) { app = s }),
      )
        ≡ (returned (failed e), record w { app = s })
  land-escapes e s calm c = rw (same_eqb n) (
      ap (resume _) (at-some n (stored e) w' found)
      ∙ ap (resume _) (pop-some n (stored e) (set_in_flight false w') found)
      ∙ ap (λ x. (returned (failed x), below (take n w'.thread.carriers) false))
          (read_error-copy_bytes p (record fresh { ejected = true }) e c)
      ∙ ap (λ l. (returned (failed e), below l false)) kept
      ∙ ap (λ b. (returned (failed e), below w.thread.carriers b)) (sym calm))
    where
      n : ℕ
      n = length w.thread.carriers

      w' : World S
      w' = escaping p e n fresh (record (enter p junk w) { app = s })

      below : List Carrier → Bool → World S
      below l b = record {
        thread = record { carriers = l; active = w.thread.active; in_flight = b };
        app = s;
      }

      written : w'.thread.carriers ≡ w.thread.carriers ++ stored e ∷ []
      written = set-append_last w.thread.carriers fresh (stored e)

      found : get_elem? w'.thread.carriers n ≡ some (stored e)
      found = ap (λ l. get_elem? l n) written ∙ get_elem?-append_last w.thread.carriers (stored e)

      kept : take n w'.thread.carriers ≡ w.thread.carriers
      kept = ap (take n) written ∙ take-append w.thread.carriers (stored e ∷ [])

module _ {E S T : Type 0} (p : Payload E) (junk : List ℕ) (body : Arm S T) where
  land-Lands :
      (w : World S)
      → w.thread.in_flight ≡ false
      → IsCarried p
      → {x : Exit T × World S}
      → Leaves p (length w.thread.carriers) (fresh p junk w) (enter p junk w) x
      → Lands w (land p (length w.thread.carriers) x)
  land-Lands w calm c (returns v s) = rw (land-returns p junk w v s) (lands_ok v s)
  land-Lands w calm c (escapes e s) =
      rw (land-escapes p junk w {T = T} e s calm c) (lands_failed e s)
  land-Lands w calm c (stops r w') = halts r w'

  -- A scope entered on a thread that is not unwinding, around a body that behaves, lands: with the
  -- body's value or an error, with the thread as it was before the scope, or the program stops. It
  -- never unwinds to another landing and never reads a carrier that is gone.
  pub escape_scope-Lands :
      (w : World S)
      → w.thread.in_flight ≡ false
      → IsCarried p
      → Behaves p body
      → Lands w (escape_scope p junk body w)
  unfolding escape_scope
  escape_scope-Lands w calm c h = land-Lands w calm c (
      h.leaves (length w.thread.carriers) (fresh p junk w) (enter p junk w)
        (enter-Inside p junk w calm))

  -- A scope is a function that may be called below the landing of another.
  pub escape_scope-Behaves :
      {F : Type 0} (q : Payload F)
      → IsCarried p
      → Behaves p body
      → Behaves q (escape_scope p junk body)
  escape_scope-Behaves q c h = record {
    leaves = λ a car w i. lands_leaves a car w (escape_scope-Lands w i.calm c h);
  }
    where
      lands_leaves :
          (a : ℕ) (car : Carrier) (w : World S) {x : Exit (Result T E) × World S}
          → Lands w x
          → Leaves q a car w x
      lands_leaves a car w (lands_ok v s) = returns (ok v) s
      lands_leaves a car w (lands_failed e s) = returns (failed e) s
      lands_leaves a car w (halts r w') = stops r w'

-- Frames whose destructors are given, the innermost first.
abbrev pub frames : {S A : Type 0} → List (S → S) → Arm S A → Arm S A
frames [] body = body
frames (d ∷ ds) body = frames ds (frame (modify d) body)

abbrev pub run_all : {S : Type 0} → List (S → S) → S → S
run_all [] s = s
run_all (d ∷ ds) s = run_all ds (d s)

module _ {E S : Type 0} (p : Payload E) (e : E) where
  frames-escaping :
      {A : Type 0} (ds : List (S → S)) (body : Arm S A) (a : ℕ) (car : Carrier) (w v : World S)
      → body v ≡ (landing a, escaping p e a car w)
      → frames ds body v ≡ (landing a, escaping p e a car (record w { app = run_all ds w.app }))
  unfolding frame
  frames-escaping [] body a car w v h = h
  frames-escaping (d ∷ ds) body a car w v h =
      frames-escaping ds (frame (modify d) body) a car (record w { app = d w.app }) v
        (ap (leave_frame (modify d)) h)

  -- An escape from below any number of frames that own objects lands in the scope with the error
  -- that was ejected, after every destructor has run, the innermost frame's first, and leaves the
  -- thread as it was before the scope.
  pub escape_scope-frames :
      {T : Type 0} (ds : List (S → S)) (junk : List ℕ) (w : World S)
      → w.thread.in_flight ≡ false
      → IsCarried p
      → escape_scope {T = T} p junk (frames ds (eject p e)) w
        ≡ (returned (failed e), record w { app = run_all ds w.app })
  unfolding escape_scope
  escape_scope-frames {T} ds junk w calm c =
      ap (land p (length w.thread.carriers)) (
        frames-escaping ds (eject p e) (length w.thread.carriers) (fresh p junk w) (enter p junk w)
          (enter p junk w)
          (eject-escapes p e (length w.thread.carriers) (fresh p junk w) (enter p junk w)
            (enter-Inside p junk w calm)))
      ∙ land-escapes p junk w {T = T} e (run_all ds w.app) calm c

-- A scope whose body returns although an escape to it was ejected below stops the program.
pub escape_scope-swallowed :
    {E S T : Type 0} (p : Payload E) (junk : List ℕ) (body : Arm S T) (w w' : World S) (v : T)
    (car : Carrier)
    → body (enter p junk w) ≡ (returned v, w')
    → get_elem? w'.thread.carriers (length w.thread.carriers) ≡ some car
    → car.ejected ≡ true
    → escape_scope p junk body w ≡ (stopped swallowed, w')
unfolding escape_scope
escape_scope-swallowed p junk body w w' v car h g raised =
    ap (land p (length w.thread.carriers)) h
    ∙ ap (resume _) (at-some (length w.thread.carriers) car w' g)
    ∙ rw raised refl
