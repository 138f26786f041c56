-- ===== src/Core/Propagation.antt =====
-- include/jmpxx/core/propagation.hpp and include/jmpxx/core/diagnostic_hook.hpp: the propagation
-- macros. A function of the program takes the thread's diagnostic state `S` and returns with it.
pub mod Laws
pub mod Chain
use jmpxx.Prelude.{
  ℕ, zero, suc, ◌+◌, ◌-◌, ◌*◌, ◌/◌, ◌%◌, ◌^◌, ◌≤◌, ◌<◌, ◌≡◌, refl, sym, ap, ◌∙◌, ◌≢◌, ◌↔◌, ◌⊎◌, inl,
  inr, Bool, true, false, not, ◌&&◌, ◌||◌, Option, none, some, List, [], ◌∷◌, ◌++◌, map, arith, ltb,
  leb, ◌==◌, if◌then◌else◌, ltb→lt, lt→ltb, leb→le, ==_iff, tests, Bool-cases, Option-cases, length,
  get_elem?, set, length-append, length-set, get_elem?-set_self, get_elem?-set_ne, get_or, take,
  drop, replicate, take-append-drop, length-take, length-drop, length-replicate, length-map,
  take-set_last, take-take, map-take, take-all, get_elem?-some,
}
use jmpxx.Core.Outcome.{Outcome, done, trap, threw, undefined}
use jmpxx.Core.Hardening.{Hardening}
use jmpxx.Core.Transport.{Transport, fail, of_failure, assume_value, assume_error}

abbrev pub Fn : Type 0 → Type 0 → Type 0
Fn S A = S → Outcome A × S

module _ {S : Type 0} where
  abbrev pub pure : {A : Type 0} → A → Fn S A
  pure a s = (done a, s)

  abbrev pub lift : {A : Type 0} → Outcome A → Fn S A
  lift o s = (o, s)

  abbrev pub modify : (S → S) → Fn S (Unit {0})
  modify f s = (done tt, f s)

  -- What is left after a step that ended so.
  abbrev pub resume : {A B : Type 0} → (A → Fn S B) → Outcome A × S → Outcome B × S
  resume f (done a, s) = f a s
  resume f (trap, s) = (trap, s)
  resume f (threw, s) = (threw, s)
  resume f (undefined, s) = (undefined, s)

  infixl 5 ◌>>=◌ ◌>>◌
  abbrev pub ◌>>=◌ : {A B : Type 0} → Fn S A → (A → Fn S B) → Fn S B
  ◌>>=◌ m f s = resume f (m s)

  abbrev pub ◌>>◌ : {B : Type 0} → Fn S (Unit {0}) → Fn S B → Fn S B
  m >> k = m >>= λ _. k

-- The default hook, which the minimal policy and every release build have.
unfoldable pub note_nothing : {E S : Type 0} → E → S → S
note_nothing e s = s

-- `hop` is the hook at this site, and `convert` builds the enclosing function's error from this one.
module _ {S E D : Type 0} (h : Hardening) (hop : E → S → S) (convert : E → D) where
  -- The `return` of the macros.
  unfoldable pub forward : {V W : Type 0} → Transport V E → Fn S (Transport W D)
  unfolding assume_error of_failure
  forward t = do
    noted ← lift (assume_error h t)
    modify (hop noted)
    e ← lift (assume_error h t)
    pure (of_failure (fail (convert e)))

  -- `JMPXX_TRY(name, expr)` before `rest`, and `JMPXX_TRYX(expr)` inside it.
  unfoldable pub try_value :
      {V W : Type 0} → Fn S (Transport V E) → (V → Fn S (Transport W D)) → Fn S (Transport W D)
  unfolding forward assume_value
  try_value expr rest = do
    t ← expr
    if t.has then (do v ← lift (assume_value h t); rest v) else forward t

  -- `JMPXX_TRYV(expr)` before `rest`.
  unfoldable pub try_void :
      {V W : Type 0} → Fn S (Transport V E) → Fn S (Transport W D) → Fn S (Transport W D)
  unfolding forward
  try_void expr rest = do t ← expr; if t.has then rest else forward t

-- `try_scope`: the boundary runs the body.
unfoldable pub try_scope : {S A : Type 0} → Fn S A → Fn S A
try_scope body = body
