-- ===== src/StoreCheck/Owners.antt =====
-- Calls below a landing that keep a property of the checker's state on every way out, and owners whose
-- destructors restore it (the classes open_file and visiting of
-- reference_app/embedded/src/store_check.cpp).
use jmpxx.Prelude.{ℕ, ◌≡◌, Bool, false, Option, none, some, List, if◌then◌else◌}
use jmpxx.Core.Error.{Error}
use jmpxx.Unwind.{Arm, ◌>>=◌, ◌>>◌, pure, modify, gets}
use jmpxx.Unwind.Escape.{Payload, frame}
use jmpxx.Unwind.Triple.{
  Triple, pure-Triple, gets-Triple, modify-Triple, if-Triple, option-Triple, bind-Triple,
  frame-Triple, convert-Triple,
}
use jmpxx.StoreCheck.Fields.{String, Board}

-- The names on the path and the number of open files.
abbrev pub At : List String → ℕ → Board → Type 0
At ns k b = (b.path ≡ ns) × (b.open_files ≡ k)

-- A call from a state of `P` below a landing returns in a state of `Q`, or its fault escapes from a state
-- of `P`.
abbrev pub Keeps :
    {A : Type 0} → Payload Error → (Board → Type 0) → (Board → Type 0) → Arm Board A → Type 0
Keeps p P Q m = Triple p (λ _. P) P (λ _. Q) m

module _ (p : Payload Error) (P : Board → Type 0) where
  pub pure-Keeps : {A : Type 0} (v : A) → Keeps p P P (pure v)
  pure-Keeps v = pure-Triple p (λ _. P) P (λ _. P) v (λ s h. h)

  pub gets-Keeps : {A : Type 0} (f : Board → A) → Keeps p P P (gets f)
  gets-Keeps f = gets-Triple p (λ _. P) P (λ _. P) f (λ s h. h)

  pub modify-Keeps :
      (Q : Board → Type 0) (f : Board → Board)
      → ((b : Board) → P b → Q (f b))
      → Keeps p P Q (modify f)
  modify-Keeps Q f g = modify-Triple p (λ _. P) P Q f g

  pub bind-Keeps :
      {A B : Type 0} (Q : Board → Type 0) (m : Arm Board A) (f : A → Arm Board B)
      → Keeps p P P m
      → ((v : A) → Keeps p P Q (f v))
      → Keeps p P Q (m >>= f)
  bind-Keeps Q m f hm hf = bind-Triple p (λ _. P) P (λ _. P) (λ _. Q) m f hm hf

  module _ {A : Type 0} (Q : Board → Type 0) where
    -- A branch may need that its test failed.
    pub cases-Keeps :
        (b : Bool) (m n : Arm Board A)
        → Keeps p P Q m
        → (b ≡ false → Keeps p P Q n)
        → Keeps p P Q (if b then m else n)
    cases-Keeps b m n hm hn = if-Triple p (λ _. P) P (λ _. Q) b m n (λ _. hm) hn

    pub if-Keeps :
        (b : Bool) (m n : Arm Board A)
        → Keeps p P Q m
        → Keeps p P Q n
        → Keeps p P Q (if b then m else n)
    if-Keeps b m n hm hn = cases-Keeps b m n hm (λ _. hn)

    pub option-Keeps :
        {B : Type 0} (o : Option B) (m : Arm Board A) (f : B → Arm Board A)
        → Keeps p P Q m
        → ((b : B) → Keeps p P Q (f b))
        → Keeps p P Q (elim o [ none ↦ m | some b ↦ f b ])
    option-Keeps o m f hm hf = option-Triple p (λ _. P) P (λ _. Q) o m f (λ _. hm) (λ b _. hf b)

  -- An owner: what its constructor does to the state, its destructor undoes on every way out.
  pub owner-Keeps :
      {A : Type 0} (Q : Board → Type 0) (d : Board → Board)
      → ((b : Board) → Q b → P (d b))
      → (ctor : Arm Board (Unit {0})) (body : Arm Board A) → Keeps p P Q ctor
      → Keeps p Q Q body
      → Keeps p P P (ctor >> frame (modify d) body)
  owner-Keeps Q d undo ctor body hc hb =
      bind-Triple p (λ _. P) P (λ _. Q) (λ _. P) ctor (λ _. frame (modify d) body) hc
        (λ _.
          frame-Triple p (λ _. P) (λ _. Q) (λ _. P) (λ _. Q) d Q body (λ v. undo) (λ e. undo) hb)

-- A fact about the state that does not change may be kept beside it.
pub with-Keeps :
    {A : Type 0} (p : Payload Error) (P : Board → Type 0) (F : Type 0) (m : Arm Board A)
    → (F → Keeps p P P m)
    → Keeps p (λ b. F × P b) (λ b. F × P b) m
with-Keeps p P F m h =
    convert-Triple p (λ _ b. F × P b) (λ _. P) (λ _ b. F × P b) (λ _. P) (λ b. F × P b) P m
      (λ s g. g.1) (λ s g v t k. (g.0, k)) (λ s g e t k. (g.0, k)) (λ s g. h g.0)
