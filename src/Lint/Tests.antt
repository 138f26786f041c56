-- ===== src/Lint/Tests.antt =====
-- Runs of the linter on two units.
use mathlib.Core.List.Perm
use jmpxx.Prelude.{ℕ, ◌≡◌, refl, false, none, some, List, [], ◌∷◌}
use jmpxx.Lint.{Site, Check, Match, run, run_all, less, insert, sort, finish, lint_from, lint}
use jmpxx.Lint.Report.{Reports, lint_lem}
use jmpxx.Lint.Exchange.{rearranged_none, rearranged_unit, lint_any_order}

abbrev at_line : ℕ → Site
at_line n = record { in_macro = false; file = 97 ∷ []; line = n; col = 1 }

abbrev nothing : Match
nothing = record { discard = none; manualprop = none; checkedvar = none; access = none }

-- A unit: an access to the variable 1, one to the variable 2, and a dropped result; 1 is checked afterwards.
abbrev unit : List Match
unit =
    record nothing { access = some (at_line 7, 1) }
    ∷ record nothing { access = some (at_line 9, 2) }
    ∷ record nothing { discard = some (at_line 3) }
    ∷ record nothing { checkedvar = some 1 }
    ∷ []

abbrev exchanged : List Match
exchanged =
    record nothing { access = some (at_line 9, 2) }
    ∷ record nothing { access = some (at_line 7, 1) }
    ∷ record nothing { discard = some (at_line 3) }
    ∷ record nothing { checkedvar = some 1 }
    ∷ []

-- A second unit, with no match at all: its report repeats that of the first, whose unchecked access
-- is reported once more.
abbrev units : List (List Match)
units = unit ∷ [] ∷ []

reports_of_units :
    lint units
    ≡ (record { file = 97 ∷ []; line = 3; col = 1; check = Check.discarded_result }
        ∷ record { file = 97 ∷ []; line = 9; col = 1; check = Check.unchecked_access }
        ∷ [])
      ∷ (record { file = 97 ∷ []; line = 3; col = 1; check = Check.discarded_result }
          ∷ record { file = 97 ∷ []; line = 9; col = 1; check = Check.unchecked_access }
          ∷ record { file = 97 ∷ []; line = 9; col = 1; check = Check.unchecked_access }
          ∷ [])
      ∷ []
unfolding lint lint_from run_all run finish sort insert less
reports_of_units = refl

lint_lem_example : Reports [] [] units (lint units)
lint_lem_example = lint_lem units

lint_any_order_example : lint (exchanged ∷ unit ∷ []) ≡ lint (unit ∷ unit ∷ [])
lint_any_order_example =
    lint_any_order (exchanged ∷ unit ∷ []) (unit ∷ unit ∷ [])
      (rearranged_unit _ _ _ _ (Perm.swap _ _ _) (rearranged_unit _ _ _ _ Perm.rfl rearranged_none))
