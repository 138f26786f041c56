-- ===== src/Unwind/Tests.antt =====
-- Runs of the escape's theorems on concrete inputs. The program's own state is a log of numbers, and
-- an error is a number below 256 in a payload of two bytes.
use jmpxx.Prelude.{
  ℕ, ◌≡◌, refl, Bool, true, false, none, some, List, [], ◌∷◌, arith, get_elem?, get_or, replicate,
}
use jmpxx.Core.Transport.Refines.{failed}
use jmpxx.Unwind.{Carrier, idle, returned, World, Arm, payload_capacity}
use jmpxx.Unwind.Drive.{
  StackFrame, Verdict, jump, no_reason, Unwound, landed, gave_up, resumed, Unwinder, drive_unwind,
  Above, above_none, above_one, drive_unwind_lem,
}
use jmpxx.Unwind.Escape.{Payload, IsCarried, copy_bytes, eject, escape_scope, enter}
use jmpxx.Unwind.Sound.{eject-Behaves}
use jmpxx.Unwind.Landing.{Lands, frames, escape_scope-frames, escape_scope-Lands}

abbrev pair : Payload (ℕ × ℕ)
pair = record {
  tag = 1;
  size = 2;
  encode = λ e. e.0 ∷ e.1 ∷ [];
  decode = λ bytes. (get_or bytes 0 0, get_or bytes 1 0);
}

pair-IsCarried : IsCarried pair
pair-IsCarried = record { fits = omega arith; sized = λ e. refl; copied = λ e. refl }

abbrev junk : List ℕ
junk = replicate payload_capacity 170

abbrev quiet : World (List ℕ)
quiet = record { thread = idle; app = 9 ∷ [] }

-- Two frames with destructors that log 1 and 2.
abbrev dtors : List (List ℕ → List ℕ)
dtors = (λ l. 1 ∷ l) ∷ (λ l. 2 ∷ l) ∷ []

escape_scope-frames_example :
    escape_scope {T = ℕ} pair junk (frames dtors (eject pair (4, 5))) quiet
    ≡ (returned (failed (4, 5)), record quiet { app = 2 ∷ 1 ∷ 9 ∷ [] })
escape_scope-frames_example = escape_scope-frames pair (4, 5) dtors junk quiet refl pair-IsCarried

escape_scope-Lands_example :
    Lands {E = ℕ × ℕ} {T = ℕ} quiet (escape_scope pair junk (eject pair (4, 5)) quiet)
escape_scope-Lands_example =
    escape_scope-Lands pair junk (eject pair (4, 5)) quiet refl pair-IsCarried
      (eject-Behaves pair (4, 5))

-- A body that catches the escape and returns 3 all the same.
abbrev catching : World (List ℕ) → World (List ℕ)
catching w = (eject {A = ℕ} pair (4, 5) w).1

abbrev body : Arm (List ℕ) ℕ
body w = (returned 3, catching w)

abbrev raised : Carrier
raised = record { prev = none; error_tag = 1; ejected = true; error = 4 ∷ 5 ∷ replicate 30 170 }

raised-alive : get_elem? (catching (enter pair junk quiet)).thread.carriers 0 ≡ some raised
unfolding eject copy_bytes
raised-alive = refl

-- An unwinder by clauses, and a stack of two frames below the carrier at 30 and one above it.
abbrev walk : (ℕ → Bool → Verdict) → List (StackFrame (List ℕ)) → List ℕ → Unwound (List ℕ)
walk stop [] s = elim (stop 0 true) [ jump ↦ landed s | no_reason ↦ gave_up s ]
walk stop (f ∷ fs) s =
    let rest = walk stop fs (f.cleanup s) in
    elim (stop f.cfa false) [ jump ↦ landed s | no_reason ↦ rest ]

abbrev walker : Unwinder (List ℕ)
walker = record {
  forced_unwind = walk;
  jumps = λ stop f fs s h. rw (h, walk) refl;
  goes_on = λ stop f fs s h. rw (h, walk) refl;
  ends = λ stop s h. rw (h, walk) refl;
}

abbrev noting : ℕ → StackFrame (List ℕ)
noting n = record { cfa = n; cleanup = λ s. n ∷ s }

abbrev call_stack : List (StackFrame (List ℕ))
call_stack = noting 10 ∷ noting 20 ∷ noting 40 ∷ []

ascending : Above 0 call_stack
ascending = above_one 0 (noting 10) _ (omega arith) (
    above_one 10 (noting 20) _ (omega arith)
      (above_one 20 (noting 40) _ (omega arith) (above_none 40)))

drive_unwind_lem_example : drive_unwind walker 30 call_stack [] ≡ resumed (20 ∷ 10 ∷ [])
drive_unwind_lem_example = drive_unwind_lem walker 30 0 call_stack [] ascending
