-- ===== src/Core/Lifetime.antt =====
-- include/jmpxx/core/transport.hpp: the special members of class result on the objects in its union.
-- What the contained types do is the parameter: a copy or a move may throw, and a move leaves
-- something behind in its source.
pub mod Assign
pub mod Members
use jmpxx.Prelude.{
  ℕ, zero, suc, ◌+◌, ◌-◌, ◌*◌, ◌/◌, ◌%◌, ◌^◌, ◌≤◌, ◌<◌, ◌≡◌, refl, sym, ap, ◌∙◌, ◌≢◌, ◌↔◌, ◌⊎◌, inl,
  inr, Bool, true, false, not, ◌&&◌, ◌||◌, Option, none, some, List, [], ◌∷◌, ◌++◌, map, arith, ltb,
  leb, ◌==◌, if◌then◌else◌, ltb→lt, lt→ltb, leb→le, ==_iff, tests, Bool-cases, Option-cases, length,
  get_elem?, set, length-append, length-set, get_elem?-set_self, get_elem?-set_ne, get_or, take,
  drop, replicate, take-append-drop, length-take, length-drop, length-replicate, length-map,
  take-set_last, take-take, map-take, take-all, get_elem?-some,
}
use jmpxx.Core.Outcome.{Outcome, done, trap, threw, undefined}
use jmpxx.Core.Transport.{Slot, val, err, dead, Transport}

-- The operations of one contained type.
pub record Ops (A : Type 0) : Type 0 where
  -- copy construction; `none` throws
  pub copy : A → Option A
  -- move construction, with what is left in the source; `none` throws
  pub move : A → Option (A × A)
  -- copy assignment of the second to the first: the target after it, and whether it completed
  pub copy_assign : A → A → A × Bool
  -- move assignment: the target and the source after it, and whether it completed
  pub move_assign : A → A → A × A × Bool

-- `*this` and `o`, with how many contained objects were built and destroyed so far.
pub record World (V E : Type 0) : Type 0 where
  pub self : Transport V E
  pub other : Transport V E
  pub built : ℕ
  pub destroyed : ℕ

abbrev pub M : Type 0 → Type 0 → Type 0 → Type 0
M V E A = World V E → Outcome A × World V E

-- The end of an assignment that completed or threw.
abbrev pub assigned : Bool → Outcome (Unit {0})
assigned true = done tt
assigned false = threw

module _ {V E : Type 0} where
  abbrev pub resume : {A B : Type 0} → (A → M V E B) → Outcome A × World V E → Outcome B × World V E
  resume f (done a, w) = f a w
  resume f (trap, w) = (trap, w)
  resume f (threw, w) = (threw, w)
  resume f (undefined, w) = (undefined, w)

  infixl 5 ◌>>=◌ ◌>>◌
  abbrev pub ◌>>=◌ : {A B : Type 0} → M V E A → (A → M V E B) → M V E B
  ◌>>=◌ m f w = resume f (m w)

  abbrev pub ◌>>◌ : {B : Type 0} → M V E (Unit {0}) → M V E B → M V E B
  m >> k = m >>= λ _. k

  abbrev pub gets : {A : Type 0} → (World V E → A) → M V E A
  gets f w = (done (f w), w)

  -- The reads of the members, of `*this` or of `o`.
  abbrev pub slot_val : Slot V E → Outcome V
  slot_val (val v) = done v
  slot_val _ = undefined

  abbrev pub slot_err : Slot V E → Outcome E
  slot_err (err e) = done e
  slot_err _ = undefined

  abbrev pub get_val : (World V E → Transport V E) → M V E V
  get_val who w = (slot_val (who w).slot, w)

  abbrev pub get_err : (World V E → Transport V E) → M V E E
  get_err who w = (slot_err (who w).slot, w)

  abbrev pub put_self : Slot V E → M V E (Unit {0})
  put_self s w = (done tt, record w { self = record w.self { slot = s } })

  abbrev pub put_other : Slot V E → M V E (Unit {0})
  put_other s w = (done tt, record w { other = record w.other { slot = s } })

  abbrev pub set_has : Bool → M V E (Unit {0})
  set_has b w = (done tt, record w { self = record w.self { has = b } })

  -- One more object, or the exception of its constructor.
  abbrev pub build : {A : Type 0} → Option A → M V E A
  build none w = (threw, w)
  build (some a) w = (done a, record w { built = w.built + 1 })

  abbrev pub note_destroyed : M V E (Unit {0})
  note_destroyed w = (done tt, record w { destroyed = w.destroyed + 1 })

  -- A local object: its destructor runs however the body ends by returning or throwing.
  abbrev pub end_local : {A : Type 0} → Outcome A × World V E → Outcome A × World V E
  end_local (done a, w) = (done a, record w { destroyed = w.destroyed + 1 })
  end_local (threw, w) = (threw, record w { destroyed = w.destroyed + 1 })
  end_local (trap, w) = (trap, w)
  end_local (undefined, w) = (undefined, w)

  abbrev pub with_local : {A B : Type 0} → M V E A → (A → M V E B) → M V E B
  with_local make body = make >>= λ a w. end_local (body a w)

  -- `val_.~V()` and `err_.~E()`: the member must be alive.
  abbrev pub destroy_val : M V E (Unit {0})
  destroy_val = do v ← get_val (λ w. w.self); put_self dead; note_destroyed

  abbrev pub destroy_err : M V E (Unit {0})
  destroy_err = do e ← get_err (λ w. w.self); put_self dead; note_destroyed

  unfoldable pub destroy : M V E (Unit {0})
  destroy = do h ← gets (λ w. w.self.has); if h then destroy_val else destroy_err

  module _ (vs : Ops V) (es : Ops E) where
    -- `result(const result& o)` where a copy is not trivial: the flag, then the member.
    unfoldable pub copy_construct : M V E (Unit {0})
    copy_construct = do
      h ← gets (λ w. w.other.has)
      set_has h
      if h
          then (do v ← get_val (λ w. w.other); a ← build (vs.copy v); put_self (val a))
          else (do e ← get_err (λ w. w.other); a ← build (es.copy e); put_self (err a))

    -- Building by a move: the new object, and what the source is left with.
    abbrev pub move_val : V → M V E V
    move_val v = do p ← build (vs.move v); put_other (val p.1); gets (λ _. p.0)

    abbrev pub move_err : E → M V E E
    move_err e = do p ← build (es.move e); put_other (err p.1); gets (λ _. p.0)

    -- `result(result&& o)`.
    unfoldable pub move_construct : M V E (Unit {0})
    move_construct = do
      h ← gets (λ w. w.other.has)
      set_has h
      if h
          then (do v ← get_val (λ w. w.other); a ← move_val v; put_self (val a))
          else (do e ← get_err (λ w. w.other); a ← move_err e; put_self (err a))

    -- The cross-state transitions, from the object `incoming`.
    abbrev pub become_err : M V E E → M V E (Unit {0})
    become_err make =
        with_local make λ incoming. do
          destroy_val
          p ← build (es.move incoming)
          put_self (err p.0)
          set_has false

    abbrev pub become_val : M V E V → M V E (Unit {0})
    become_val make =
        with_local make
          λ incoming. do destroy_err; p ← build (vs.move incoming); put_self (val p.0); set_has true

    abbrev pub copy_assign_val : M V E (Unit {0})
    copy_assign_val = do
      a ← get_val (λ w. w.self)
      b ← get_val (λ w. w.other)
      put_self (val (vs.copy_assign a b).0)
      λ w. (assigned (vs.copy_assign a b).1, w)

    abbrev pub copy_assign_err : M V E (Unit {0})
    copy_assign_err = do
      a ← get_err (λ w. w.self)
      b ← get_err (λ w. w.other)
      put_self (err (es.copy_assign a b).0)
      λ w. (assigned (es.copy_assign a b).1, w)

    -- `assign_from(const result& o)`.
    unfoldable pub copy_assign_from : M V E (Unit {0})
    copy_assign_from = do
      h ← gets (λ w. w.self.has)
      h' ← gets (λ w. w.other.has)
      if h && h'
          then copy_assign_val
          else if not h && not h'
          then copy_assign_err
          else if h
          then become_err (do e ← get_err (λ w. w.other); build (es.copy e))
          else become_val (do v ← get_val (λ w. w.other); build (vs.copy v))

    abbrev pub move_assign_val : M V E (Unit {0})
    move_assign_val = do
      a ← get_val (λ w. w.self)
      b ← get_val (λ w. w.other)
      put_self (val (vs.move_assign a b).0)
      put_other (val (vs.move_assign a b).1)
      λ w. (assigned (vs.move_assign a b).2, w)

    abbrev pub move_assign_err : M V E (Unit {0})
    move_assign_err = do
      a ← get_err (λ w. w.self)
      b ← get_err (λ w. w.other)
      put_self (err (es.move_assign a b).0)
      put_other (err (es.move_assign a b).1)
      λ w. (assigned (es.move_assign a b).2, w)

    -- `assign_from(result&& o)`.
    unfoldable pub move_assign_from : M V E (Unit {0})
    move_assign_from = do
      h ← gets (λ w. w.self.has)
      h' ← gets (λ w. w.other.has)
      if h && h'
          then move_assign_val
          else if not h && not h'
          then move_assign_err
          else if h
          then become_err (do e ← get_err (λ w. w.other); move_err e)
          else become_val (do v ← get_val (λ w. w.other); move_val v)

    abbrev pub set_other : Transport V E → M V E (Unit {0})
    set_other t w = (done tt, record w { other = t })

    -- `operator=(U&& v)` and `operator=(failure<E2> f)`: assignment from a temporary transport, which
    -- is destroyed at the end of the expression. `make` constructs its contained object.
    unfoldable pub assign_value : Option V → M V E (Unit {0})
    unfolding move_assign_from
    assign_value make =
        with_local (build make)
          λ v. do set_other (record { slot = val v; has = true }); move_assign_from

    unfoldable pub assign_failure : Option E → M V E (Unit {0})
    unfolding move_assign_from
    assign_failure make =
        with_local (build make)
          λ e. do set_other (record { slot = err e; has = false }); move_assign_from
