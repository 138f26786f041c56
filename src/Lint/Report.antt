-- ===== src/Lint/Report.antt =====
-- The report of lint/jmpxx_lint.cpp against what each match asks for.
use mathlib.Core.List.{append_assoc, append-nil, Perm}
use jmpxx.Prelude.{
  ℕ, ◌≡◌, refl, sym, ap, ◌∙◌, inl, inr, ◌||◌, Option, none, some, List, [], ◌∷◌, ◌++◌, arith, ◌==◌,
  if◌then◌else◌, Bool-cases, Option-cases,
}
use jmpxx.Lint.{
  Site, Check, Finding, Match, Checks, run, run_all, count, unchecked, sort, finish, start,
  lint_from, lint,
}
use jmpxx.Lint.Order.{IsSorted, sort-IsSorted, sort-Perm}
use jmpxx.Lint.Callback.{
  recorded, all_recorded, all_accesses, asked_access, each, at_site, checked_vars, run-findings,
  run-pending, run-count,
}

run_all-findings :
    (ms : List Match) (st : Checks) → (run_all ms st).findings ≡ st.findings ++ all_recorded ms
unfolding run_all
run_all-findings [] st = sym (append-nil st.findings)
run_all-findings (m ∷ ms) st =
    run_all-findings ms (run m st)
    ∙ ap (λ l. l ++ all_recorded ms) (run-findings m st)
    ∙ append_assoc st.findings (recorded m) (all_recorded ms)

run_all-pending :
    (vars : List ℕ) (ms : List Match) (st : Checks)
    → unchecked vars (run_all ms st).pending ≡ unchecked vars st.pending ++ all_accesses vars ms
unfolding run_all
run_all-pending vars [] st = sym (append-nil (unchecked vars st.pending))
run_all-pending vars (m ∷ ms) st =
    run_all-pending vars ms (run m st)
    ∙ ap (λ l. l ++ all_accesses vars ms) (run-pending m st vars)
    ∙ append_assoc (unchecked vars st.pending) (asked_access vars m.access) (all_accesses vars ms)

count_one : (u v : ℕ) (vs : List ℕ) → count v (u ∷ vs) ≡ count v (u ∷ []) || count v vs
count_one u v vs = elim (Bool-cases (u == v)) [ inl met ↦ rw met refl | inr other ↦ rw other refl ]

pub count_vars :
    (v : ℕ) (m : Match) (ms : List Match)
    → count v (checked_vars (m ∷ ms))
      ≡ count v (elim m.checkedvar [ none ↦ [] | some u ↦ u ∷ [] ]) || count v (checked_vars ms)
count_vars v m ms = elim (Option-cases m.checkedvar) [
  | inl absent ↦ rw absent refl
  | inr (u, e) ↦ rw e (count_one u v (checked_vars ms))
]

run_all-count :
    (v : ℕ) (ms : List Match) (st : Checks)
    → count v (run_all ms st).checked ≡ count v (checked_vars ms) || count v st.checked
unfolding run_all
run_all-count v [] st = refl
run_all-count v (m ∷ ms) st =
    ground (arith, run_all-count v ms (run m st), run-count m st v, count_vars v m ms)

unchecked_same :
    (vars ws : List ℕ) (ps : List (Finding × ℕ))
    → ((v : ℕ) → count v vars ≡ count v ws)
    → unchecked vars ps ≡ unchecked ws ps
unchecked_same vars ws [] h = refl
unchecked_same vars ws ((f, v) ∷ ps) h = elim (Bool-cases (count v vars)) [
  | inl met ↦ rw (met, sym (h v) ∙ met) (unchecked_same vars ws ps h)
  | inr other ↦ rw (other, sym (h v) ∙ other) (ap (λ l. f ∷ l) (unchecked_same vars ws ps h))
]

each-append :
    (f : Match → List Finding) (ms ns : List Match) → each f (ms ++ ns) ≡ each f ms ++ each f ns
each-append f [] ns = refl
each-append f (m ∷ ms) ns =
    ap (λ l. f m ++ l) (each-append f ms ns) ∙ sym (append_assoc (f m) (each f ms) (each f ns))

pub each_same :
    (f g : Match → List Finding) (ms : List Match)
    → ((m : Match) → f m ≡ g m)
    → each f ms ≡ each g ms
each_same f g [] h = refl
each_same f g (m ∷ ms) h = ap (λ l. l ++ each f ms) (h m) ∙ ap (λ l. g m ++ l) (each_same f g ms h)

pub access_same :
    (vars ws : List ℕ) (o : Option (Site × ℕ))
    → ((v : ℕ) → count v vars ≡ count v ws)
    → asked_access vars o ≡ asked_access ws o
access_same vars ws none h = refl
access_same vars ws (some (s, v)) h =
    ap (λ b. if b then [] else at_site Check.unchecked_access s) (h v)

-- What the callback keeps when it has seen the matches of some units, and has last reported `last`.
record Seen (seen : List Match) (last : List Finding) (st : Checks) : Type 0 where
  findings : st.findings ≡ last
  checked : (v : ℕ) → count v st.checked ≡ count v (checked_vars seen)
  pending : (vars : List ℕ) → unchecked vars st.pending ≡ all_accesses vars seen

count_vars-append :
    (v : ℕ) (ms ns : List Match)
    → count v (checked_vars (ms ++ ns)) ≡ count v (checked_vars ms) || count v (checked_vars ns)
count_vars-append v [] ns = refl
count_vars-append v (m ∷ ms) ns =
    ground (arith, count_vars v m (ms ++ ns), count_vars v m ms, count_vars-append v ms ns)

-- The report that the next unit asks for: that of the unit before, its own dropped results and
-- hand-written forwards, and the accesses of all units so far whose variables no unit has found
-- checked so far.
abbrev pub asked_next : List Match → List Finding → List Match → List Finding
asked_next seen last ms =
    last ++ (all_recorded ms ++ all_accesses (checked_vars (seen ++ ms)) (seen ++ ms))

-- What a run reports for its units.
pub data Reports
    : List Match → List Finding → List (List Match) → List (List Finding) → Type 0 where
  reports_none : (seen : List Match) (last : List Finding) → Reports seen last [] []
  reports_unit :
      (seen : List Match) (last : List Finding) (ms : List Match) (units : List (List Match))
      (report : List Finding) (reports : List (List Finding))
      → IsSorted report
      → Perm report (asked_next seen last ms)
      → Reports (seen ++ ms) report units reports
      → Reports seen last (ms ∷ units) (report ∷ reports)

module _ (seen : List Match) (last : List Finding) (ms : List Match) (st : Checks)
    (h : Seen seen last st) where
  all_seen : (v : ℕ) → count v (run_all ms st).checked ≡ count v (checked_vars (seen ++ ms))
  all_seen v = ground (arith, run_all-count v ms st, h.checked v, count_vars-append v seen ms)

  all_pending :
      (vars : List ℕ) → unchecked vars (run_all ms st).pending ≡ all_accesses vars (seen ++ ms)
  all_pending vars =
      run_all-pending vars ms st
      ∙ ap (λ l. l ++ all_accesses vars ms) (h.pending vars)
      ∙ sym (each-append (λ m. asked_access vars m.access) seen ms)

  finish-sort : (finish (run_all ms st)).findings ≡ sort (asked_next seen last ms)
  unfolding finish
  finish-sort =
      let vars = (run_all ms st).checked in
      ap (λ l. sort (l ++ unchecked vars (run_all ms st).pending))
        (run_all-findings ms st ∙ ap (λ l. l ++ all_recorded ms) h.findings)
      ∙ ap (λ l. sort ((last ++ all_recorded ms) ++ l))
          (all_pending vars
            ∙ each_same _ _ (seen ++ ms)
                (λ m. access_same vars (checked_vars (seen ++ ms)) m.access all_seen))
      ∙ ap sort (append_assoc last (all_recorded ms) _)

  finish-Seen : Seen (seen ++ ms) (finish (run_all ms st)).findings (finish (run_all ms st))
  unfolding finish
  finish-Seen = record { findings = refl; checked = all_seen; pending = all_pending }

lint_from-Reports :
    (units : List (List Match)) (seen : List Match) (last : List Finding) (st : Checks)
    → Seen seen last st
    → Reports seen last units (lint_from st units)
unfolding lint_from
lint_from-Reports [] seen last st h = reports_none seen last
lint_from-Reports (ms ∷ units) seen last st h =
    let asked = asked_next seen last ms in
    reports_unit seen last ms units _ _ (rw (finish-sort seen last ms st h) (sort-IsSorted asked))
      (rw (finish-sort seen last ms st h) (sort-Perm asked))
      (lint_from-Reports units (seen ++ ms) _ _ (finish-Seen seen last ms st h))

-- The report of every translation unit is sorted, and is, each as often as it is asked for, the
-- report of the unit before it again, then a finding for each dropped result and each hand-written
-- forward outside macros of the unit, and for each narrow access outside macros of this unit and,
-- once more, of those before it, whose variable no match of this unit or of one before it has found
-- checked. So a unit's report is what its own matches ask for if it is the first, and repeats the
-- reports before it if it is not.
pub lint_lem : (units : List (List Match)) → Reports [] [] units (lint units)
unfolding lint
lint_lem units =
    lint_from-Reports units [] [] start
      (record { findings = refl; checked = λ v. refl; pending = λ vars. refl })
