-- ===== src/Core/Tests.antt =====
-- Runs of the core's theorems on concrete inputs.
use jmpxx.Prelude.{
  ℕ, ◌+◌, ◌/◌, ◌%◌, ◌≡◌, refl, true, none, some, List, [], ◌∷◌, ◌++◌, ◌==◌, if◌then◌else◌,
}
use jmpxx.Core.Outcome.{Outcome, done}
use jmpxx.Core.Hardening.{unchecked, fast, extensive, Macros, configure}
use jmpxx.Core.Transport.{Transport}
use jmpxx.Core.Transport.Refines.{ok, failed, embed}
use jmpxx.Core.Lifetime.{Ops, World, copy_assign_from, move_assign_from}
use jmpxx.Core.Lifetime.Assign.{
  NothrowMove, IsAssigned, copy_assign_from-IsAssigned, move_assign_from-IsAssigned,
}
use jmpxx.Core.Propagation.{Fn, try_value}
use jmpxx.Core.Propagation.Laws.{try_value_lem}
use jmpxx.Core.Propagation.Chain.{through, through_lem, noted}

-- Values and errors are numbers.
abbrev Plain : Type 0
Plain = Transport ℕ ℕ

abbrev seven : Plain
seven = embed (ok 7)

abbrev broken : Plain
broken = embed (failed 3)

-- A step that refuses odd numbers with the error 1.
abbrev halve : ℕ → Outcome Plain
halve n = if n % 2 == 0 then done (embed (ok (n / 2))) else done (embed (failed 1))

abbrev release : Macros
release = record { mode = some 2; hardened = none; ndebug = true }

configures : configure release ≡ some (extensive, 1)
unfolding configure
configures = refl

-- Contents whose copies throw at 9 and whose moves leave 0 behind.
abbrev contents : Ops ℕ
contents = record {
  copy = λ a. if a == 9 then none else some a;
  move = λ a. some (a, 0);
  copy_assign = λ a b. (b, true);
  move_assign = λ a b. (b, 0, true);
}

contents-NothrowMove : NothrowMove contents
contents-NothrowMove a e = cc

-- The target holds a value, the source an error that cannot be copied.
abbrev crossing : World ℕ ℕ
crossing = record { self = seven; other = embed (failed 9); built = 2; destroyed = 0 }

copy_assign_from-IsAssigned_example :
    IsAssigned crossing (copy_assign_from contents contents crossing)
copy_assign_from-IsAssigned_example =
    copy_assign_from-IsAssigned contents contents contents-NothrowMove contents-NothrowMove crossing
      tt tt

move_assign_from-IsAssigned_example :
    IsAssigned crossing (move_assign_from contents contents crossing)
move_assign_from-IsAssigned_example =
    move_assign_from-IsAssigned contents contents contents-NothrowMove contents-NothrowMove crossing
      tt tt

-- A thread whose state lists the errors that were noted.
abbrev note : ℕ → List ℕ → List ℕ
note e s = s ++ e ∷ []

abbrev fails : Fn (List ℕ) Plain
fails s = (done broken, s)

try_value_lem_example :
    try_value unchecked note (λ e. e + 10) fails (λ v s. (done seven, s)) (8 ∷ [])
    ≡ (done (embed (failed 13)), 8 ∷ 3 ∷ [])
try_value_lem_example =
    try_value_lem unchecked note (λ e. e + 10) fails (8 ∷ []) (λ v s. (done seven, s)) (failed 3)
      refl

-- The sites are numbers, and a note lists the site after the error.
abbrev note_at : ℕ → ℕ → List ℕ → List ℕ
note_at loc e s = s ++ e ∷ loc ∷ []

through_lem_example :
    through fast note_at (20 ∷ 30 ∷ []) fails [] ≡ (done broken, noted note_at (20 ∷ 30 ∷ []) 3 [])
through_lem_example = through_lem fast note_at (20 ∷ 30 ∷ []) fails [] [] (failed 3) refl
