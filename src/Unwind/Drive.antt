-- ===== src/Unwind/Drive.antt =====
-- include/jmpxx/unwind/backend.hpp on the Itanium ABI: the stop function and the forced unwind that
-- `eject` starts. The platform's `_Unwind_ForcedUnwind` is the parameter, with what its ABI says of it.
use jmpxx.Prelude.{
  ℕ, ◌≤◌, ◌≡◌, refl, ap, ◌∙◌, inl, inr, Bool, true, false, ◌||◌, List, [], ◌∷◌, arith, ltb, leb,
  if◌then◌else◌, Bool-cases,
}

-- A frame of the stack: its canonical frame address, and what its cleanup does to the program's state.
pub record StackFrame (S : Type 0) : Type 0 where
  pub cfa : ℕ
  pub cleanup : S → S

-- What the stop function does: it returns `_URC_NO_REASON`, or jumps into the landing.
pub data Verdict : Type 0 where
  no_reason jump : Verdict

-- Where the forced unwind ends: the landing resumes in a state, or the unwinder returns to its caller.
pub data Unwound (S : Type 0) : Type 0 where
  landed : S → Unwound S
  gave_up : S → Unwound S

-- What drives the unwind: the landing resumes, or the program stops.
pub data Driven (S : Type 0) : Type 0 where
  resumed : S → Driven S
  fail_fast : Driven S

-- `stop_function`, of the carrier's address, the frame's address and `_UA_END_OF_STACK`.
unfoldable pub stop_function : ℕ → ℕ → Bool → Verdict
stop_function marker cfa end_of_stack = if ltb marker cfa || end_of_stack then jump else no_reason

-- The platform's unwinder. It calls the stop function for each frame, innermost first and before the
-- frame's cleanup; it runs the cleanup and goes on when that returns, and calls the function once more
-- at the end of the stack, with the address 0 if there is no frame.
pub record Unwinder (S : Type 0) : Type 0 where
  pub forced_unwind : (ℕ → Bool → Verdict) → List (StackFrame S) → S → Unwound S
  pub jumps :
      (stop : ℕ → Bool → Verdict) (f : StackFrame S) (fs : List (StackFrame S)) (s : S)
      → stop f.cfa false ≡ jump
      → forced_unwind stop (f ∷ fs) s ≡ landed s
  pub goes_on :
      (stop : ℕ → Bool → Verdict) (f : StackFrame S) (fs : List (StackFrame S)) (s : S)
      → stop f.cfa false ≡ no_reason
      → forced_unwind stop (f ∷ fs) s ≡ forced_unwind stop fs (f.cleanup s)
  pub ends :
      (stop : ℕ → Bool → Verdict) (s : S) → stop 0 true ≡ jump → forced_unwind stop [] s ≡ landed s

module _ {S : Type 0} (u : Unwinder S) where
  abbrev pub after_unwind : Unwound S → Driven S
  after_unwind (landed s) = resumed s
  after_unwind (gave_up s) = fail_fast

  -- `drive_unwind` towards the carrier at `marker`.
  unfoldable pub drive_unwind : ℕ → List (StackFrame S) → S → Driven S
  drive_unwind marker fs s = after_unwind (u.forced_unwind (stop_function marker) fs s)

-- The stack grows down: an outer frame has the higher address.
pub data Above {S : Type 0} : ℕ → List (StackFrame S) → Type 0 where
  above_none : (at : ℕ) → Above at []
  above_one :
      (at : ℕ) (f : StackFrame S) (fs : List (StackFrame S))
      → at ≤ f.cfa
      → Above f.cfa fs
      → Above at (f ∷ fs)

-- The cleanups of the frames at the carrier's address or below it, the innermost first.
abbrev pub clean_below : {S : Type 0} → ℕ → List (StackFrame S) → S → S
clean_below marker [] s = s
clean_below marker (f ∷ fs) s =
    if leb f.cfa marker then clean_below marker fs (f.cleanup s) else clean_below marker fs s

module _ {S : Type 0} (u : Unwinder S) (marker : ℕ) where
  clean_below-none :
      (at : ℕ) (fs : List (StackFrame S)) (s : S)
      → ltb marker at ≡ true
      → Above at fs
      → clean_below marker fs s ≡ s
  clean_below-none at [] s h (above_none _) = refl
  clean_below-none at (f ∷ fs) s h (above_one _ _ _ low rest) =
      let beyond : leb f.cfa marker ≡ false = ground (arith, h, low) in
      rw beyond (clean_below-none f.cfa fs s (ground (arith, h, low)) rest)

  -- A forced unwind over a stack whose frames lie the higher the further out they are reaches the
  -- landing, after the cleanups of exactly the frames at the carrier's address or below it have run,
  -- the innermost first. It never fails fast, even where no frame lies above the carrier.
  pub drive_unwind_lem :
      (at : ℕ) (fs : List (StackFrame S)) (s : S)
      → Above at fs
      → drive_unwind u marker fs s ≡ resumed (clean_below marker fs s)
  unfolding drive_unwind stop_function
  drive_unwind_lem at [] s (above_none _) =
      ap (after_unwind u) (u.ends (stop_function marker) s (ground arith))
  drive_unwind_lem at (f ∷ fs) s (above_one _ _ _ low rest) = elim (Bool-cases (ltb marker f.cfa)) [
    | inl beyond ↦
        let out : leb f.cfa marker ≡ false = ground (arith, beyond) in
        ap (after_unwind u) (u.jumps (stop_function marker) f fs s (ground (arith, beyond)))
        ∙ (rw (out, clean_below-none f.cfa fs s beyond rest) refl)
    | inr below ↦
        let inside : leb f.cfa marker ≡ true = ground (arith, below) in
        ap (after_unwind u) (u.goes_on (stop_function marker) f fs s (ground (arith, below)))
        ∙ drive_unwind_lem f.cfa fs (f.cleanup s) rest
        ∙ (rw inside refl)
  ]
