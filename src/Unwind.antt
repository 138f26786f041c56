-- ===== src/Unwind.antt =====
-- include/jmpxx/unwind: the non-local unwind arm. A thread's landing scopes, and functions that may
-- escape to one of them.
-- A carrier is an automatic object of its landing's frame. Its address is its place among the
-- carriers that are alive on the thread, outermost first; `active` and `prev` hold such addresses.
pub mod Backend
pub mod Drive
pub mod Escape
pub mod Sound
pub mod Landing
pub mod Triple
pub mod Plain
mod Tests
use jmpxx.Prelude.{
  ℕ, zero, suc, ◌+◌, ◌-◌, ◌*◌, ◌/◌, ◌%◌, ◌^◌, ◌≤◌, ◌<◌, ◌≡◌, refl, sym, ap, ◌∙◌, ◌≢◌, ◌↔◌, ◌⊎◌, inl,
  inr, Bool, true, false, not, ◌&&◌, ◌||◌, Option, none, some, List, [], ◌∷◌, ◌++◌, map, arith, ltb,
  leb, ◌==◌, if◌then◌else◌, ltb→lt, lt→ltb, leb→le, ==_iff, tests, Bool-cases, Option-cases, length,
  get_elem?, set, length-append, length-set, get_elem?-set_self, get_elem?-set_ne, get_or, take,
  drop, replicate, take-append-drop, length-take, length-drop, length-replicate, length-map,
  take-set_last, take-take, map-take, take-all, get_elem?-some,
}

abbrev pub payload_capacity : ℕ
payload_capacity = 32

abbrev pub payload_align : ℕ
payload_align = 16

-- `error_tag` stands for the address of `type_tag<E>`; `error` is the payload buffer.
pub record Carrier : Type 0 where
  pub prev : Option ℕ
  pub error_tag : ℕ
  pub ejected : Bool
  pub error : List ℕ

-- The state of one thread: the carriers in its frames, `active()` and `escape_in_flight()`.
pub record Thread : Type 0 where
  pub carriers : List Carrier
  pub active : Option ℕ
  pub in_flight : Bool

abbrev pub idle : Thread
idle = record { carriers = []; active = none; in_flight = false }

-- Why the program stops: the `fail_fast` calls of the arm, and the language's own termination when
-- an exception leaves a destructor.
pub data Stop : Type 0 where
  no_scope wrong_type already_escaping swallowed terminated : Stop

-- How a function leaves: it returns, it is unwound towards the landing whose carrier has the address,
-- the program stops, or it has read a carrier that is not alive.
pub data Exit (A : Type 0) : Type 0 where
  returned : A → Exit A
  landing : ℕ → Exit A
  stopped : Stop → Exit A
  dangling : Exit A

-- What the thread and the rest of the program look like.
pub record World (S : Type 0) : Type 0 where
  pub thread : Thread
  pub app : S

abbrev pub Arm : Type 0 → Type 0 → Type 0
Arm S A = World S → Exit A × World S

module _ {S : Type 0} where
  abbrev pub resume : {A B : Type 0} → (A → Arm S B) → Exit A × World S → Exit B × World S
  resume f (returned a, w) = f a w
  resume f (landing n, w) = (landing n, w)
  resume f (stopped r, w) = (stopped r, w)
  resume f (dangling, w) = (dangling, w)

  abbrev pub pure : {A : Type 0} → A → Arm S A
  pure a w = (returned a, w)

  infixl 5 ◌>>=◌ ◌>>◌
  abbrev pub ◌>>=◌ : {A B : Type 0} → Arm S A → (A → Arm S B) → Arm S B
  ◌>>=◌ m f w = resume f (m w)

  abbrev pub ◌>>◌ : {B : Type 0} → Arm S (Unit {0}) → Arm S B → Arm S B
  m >> k = m >>= λ _. k

  abbrev pub stop : {A : Type 0} → Stop → Arm S A
  stop r w = (stopped r, w)

  abbrev pub gets : {A : Type 0} → (S → A) → Arm S A
  gets f w = (returned (f w.app), w)

  abbrev pub modify : (S → S) → Arm S (Unit {0})
  modify f w = (returned tt, record w { app = f w.app })
