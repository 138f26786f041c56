-- ===== src/Lint.antt =====
-- lint/jmpxx_lint.cpp: what the linter makes of the matches. Which nodes match, and where they are, is
-- Clang's; a match is the parameter.
pub mod Order
pub mod Callback
pub mod Report
pub mod Exchange
mod Tests
use jmpxx.Prelude.{
  ℕ, zero, suc, ◌+◌, ◌-◌, ◌*◌, ◌/◌, ◌%◌, ◌^◌, ◌≤◌, ◌<◌, ◌≡◌, refl, sym, ap, ◌∙◌, ◌≢◌, ◌↔◌, ◌⊎◌, inl,
  inr, Bool, true, false, not, ◌&&◌, ◌||◌, Option, none, some, List, [], ◌∷◌, ◌++◌, map, arith, ltb,
  leb, ◌==◌, if◌then◌else◌, ltb→lt, lt→ltb, leb→le, ==_iff, tests, Bool-cases, Option-cases, length,
  get_elem?, set, length-append, length-set, get_elem?-set_self, get_elem?-set_ne, get_or, take,
  drop, replicate, take-append-drop, length-take, length-drop, length-replicate, length-map,
  take-set_last, take-take, map-take, take-all, get_elem?-some,
}
use jmpxx.Prelude.Text.{String, same}

-- A location as the linter asks for it: whether it is in a macro, and where it is spelled.
pub record Site : Type 0 where
  pub in_macro : Bool
  pub file : String
  pub line : ℕ
  pub col : ℕ

-- The three checks, by their names.
pub data Check : Type 0 where
  discarded_result manual_propagation unchecked_access : Check

-- "jmpxx-discarded-result" and so on are in the order of their first letters after "jmpxx-".
abbrev pub check_rank : Check → ℕ
check_rank discarded_result = 0
check_rank manual_propagation = 1
check_rank unchecked_access = 2

-- The message goes with the check.
pub record Finding : Type 0 where
  pub file : String
  pub line : ℕ
  pub col : ℕ
  pub check : Check

-- The nodes that a match has bound. A variable is the address of its declaration, which a later unit
-- may use again.
pub record Match : Type 0 where
  pub discard : Option Site
  pub manualprop : Option Site
  pub checkedvar : Option ℕ
  pub access : Option (Site × ℕ)

-- The callback's own state.
pub record Checks : Type 0 where
  pub findings : List Finding
  pub checked : List ℕ
  pub pending : List (Finding × ℕ)

-- `<` of `std::string`, of the characters as unsigned.
abbrev pub less_string : String → String → Bool
less_string s [] = false
less_string [] (d ∷ t) = true
less_string (c ∷ s) (d ∷ t) = let rest = less_string s t in if c == d then rest else ltb c d

-- `operator<` of `Finding`.
unfoldable pub less : Finding → Finding → Bool
less a b =
    if not (same a.file b.file)
    then less_string a.file b.file
    else if not (a.line == b.line)
    then ltb a.line b.line
    else if not (a.col == b.col)
    then ltb a.col b.col
    else ltb (check_rank a.check) (check_rank b.check)

-- `fill`: no finding where the location has no file.
abbrev pub fill : Check → Site → Option Finding
fill check s =
    if length s.file == 0
    then none
    else some (record { file = s.file; line = s.line; col = s.col; check = check })

-- A node that a check records unless it is in a macro.
abbrev pub record_at : Check → Option Site → Checks → Checks
record_at check none st = st
record_at check (some s) st = if s.in_macro then st else (elim (fill check s) [
  | none ↦ st
  | some f ↦ record st { findings = st.findings ++ f ∷ [] }
])

abbrev pub insert_checked : Option ℕ → Checks → Checks
insert_checked none st = st
insert_checked (some v) st = record st { checked = v ∷ st.checked }

abbrev pub defer : Option (Site × ℕ) → Checks → Checks
defer none st = st
defer (some (s, v)) st = if s.in_macro then st else (elim (fill unchecked_access s) [
  | none ↦ st
  | some f ↦ record st { pending = st.pending ++ (f, v) ∷ [] }
])

-- The callback `run`.
unfoldable pub run : Match → Checks → Checks
run m st = defer m.access (
    insert_checked m.checkedvar
      (record_at manual_propagation m.manualprop (record_at discarded_result m.discard st)))

unfoldable pub run_all : List Match → Checks → Checks
unfolding run
run_all [] st = st
run_all (m ∷ ms) st = run_all ms (run m st)

abbrev pub count : ℕ → List ℕ → Bool
count v [] = false
count v (w ∷ ws) = w == v || count v ws

-- The first loop of `onEndOfTranslationUnit`.
abbrev pub unchecked : List ℕ → List (Finding × ℕ) → List Finding
unchecked checked [] = []
unchecked checked ((f, v) ∷ ps) =
    let rest = unchecked checked ps in if count v checked then rest else f ∷ rest

-- `std::sort`, as insertion.
unfoldable pub insert : Finding → List Finding → List Finding
unfolding less
insert f [] = f ∷ []
insert f (g ∷ gs) = let rest = insert f gs in if less g f then g ∷ rest else f ∷ g ∷ gs

unfoldable pub sort : List Finding → List Finding
unfolding insert
sort [] = []
sort (f ∷ fs) = insert f (sort fs)

-- `onEndOfTranslationUnit`: it prints the findings in their order. They stay, as do the deferred
-- accesses and the checked variables.
unfoldable pub finish : Checks → Checks
unfolding sort
finish st = record st { findings = sort (st.findings ++ unchecked st.checked st.pending) }

abbrev pub start : Checks
start = record { findings = []; checked = []; pending = [] }

-- `tool.run`: the matches of one translation unit after the other, with one `Checks` for all of them;
-- what is printed at the end of each.
unfoldable pub lint_from : Checks → List (List Match) → List (List Finding)
unfolding run_all finish
lint_from st [] = []
lint_from st (ms ∷ units) = let st' = finish (run_all ms st) in st'.findings ∷ lint_from st' units

unfoldable pub lint : List (List Match) → List (List Finding)
unfolding lint_from
lint units = lint_from start units
