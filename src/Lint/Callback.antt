-- ===== src/Lint/Callback.antt =====
-- What the callback of lint/jmpxx_lint.cpp keeps of each match.
use mathlib.Core.List.{append_assoc, append-nil}
use jmpxx.Prelude.{
  ℕ, ◌≡◌, refl, sym, ap, ◌∙◌, inl, inr, ◌||◌, Option, none, some, List, [], ◌∷◌, ◌++◌, arith, ◌==◌,
  if◌then◌else◌, Bool-cases, length,
}
use jmpxx.Lint.{
  Site, Check, Finding, Match, Checks, record_at, insert_checked, defer, run, count, unchecked,
}

-- What a node outside macros, in a file, is reported as.
abbrev pub at_site : Check → Site → List Finding
at_site check s =
    if s.in_macro
    then []
    else if length s.file == 0
    then []
    else record { file = s.file; line = s.line; col = s.col; check = check } ∷ []

abbrev pub asked : Check → Option Site → List Finding
asked check none = []
asked check (some s) = at_site check s

-- An access is reported unless its variable is among those that are checked anywhere in the unit.
abbrev pub asked_access : List ℕ → Option (Site × ℕ) → List Finding
asked_access vars none = []
asked_access vars (some (s, v)) = if count v vars then [] else at_site Check.unchecked_access s

-- The variables that some match of the unit has found checked.
abbrev pub checked_vars : List Match → List ℕ
checked_vars [] = []
checked_vars (m ∷ ms) = elim m.checkedvar [ none ↦ checked_vars ms | some v ↦ v ∷ checked_vars ms ]

abbrev pub recorded : Match → List Finding
recorded m = asked Check.discarded_result m.discard ++ asked Check.manual_propagation m.manualprop

-- What each match asks for, one after the other.
abbrev pub each : (Match → List Finding) → List Match → List Finding
each f [] = []
each f (m ∷ ms) = f m ++ each f ms

abbrev pub all_recorded : List Match → List Finding
all_recorded = each recorded

abbrev pub all_accesses : List ℕ → List Match → List Finding
all_accesses vars = each (λ m. asked_access vars m.access)

unchecked-append :
    (vars : List ℕ) (ps qs : List (Finding × ℕ))
    → unchecked vars (ps ++ qs) ≡ unchecked vars ps ++ unchecked vars qs
unchecked-append vars [] qs = refl
unchecked-append vars ((f, v) ∷ ps) qs = elim (Bool-cases (count v vars)) [
  | inl met ↦ rw met (unchecked-append vars ps qs)
  | inr other ↦ rw other (ap (λ l. f ∷ l) (unchecked-append vars ps qs))
]

record_at-findings :
    (check : Check) (o : Option Site) (st : Checks)
    → record_at check o st ≡ record st { findings = st.findings ++ asked check o }
record_at-findings check none st =
    ap (λ l. record st { findings = l }) (sym (append-nil st.findings))
record_at-findings check (some s) st = elim (Bool-cases s.in_macro) [
  | inl inside ↦ rw inside (ap (λ l. record st { findings = l }) (sym (append-nil st.findings)))
  | inr outside ↦ elim (Bool-cases (length s.file == 0)) [
    | inl nameless ↦
        rw (outside, nameless) (ap (λ l. record st { findings = l }) (sym (append-nil st.findings)))
    | inr named ↦ rw (outside, named) refl
  ]
]

insert_checked-findings :
    (o : Option ℕ) (st : Checks) → (insert_checked o st).findings ≡ st.findings
insert_checked-findings none st = refl
insert_checked-findings (some v) st = refl

insert_checked-pending : (o : Option ℕ) (st : Checks) → (insert_checked o st).pending ≡ st.pending
insert_checked-pending none st = refl
insert_checked-pending (some v) st = refl

-- What deferring an access does to the state.
record Deferred (vars : List ℕ) (o : Option (Site × ℕ)) (st st' : Checks) : Type 0 where
  findings : st'.findings ≡ st.findings
  checked : st'.checked ≡ st.checked
  pending : unchecked vars st'.pending ≡ unchecked vars st.pending ++ asked_access vars o

quiet_access :
    (vars : List ℕ) (s : Site) (v : ℕ)
    → at_site Check.unchecked_access s ≡ []
    → asked_access vars (some (s, v)) ≡ []
quiet_access vars s v h = elim (Bool-cases (count v vars)) [
  | inl met ↦ rw met refl
  | inr other ↦ rw other h
]

same_state :
    (vars : List ℕ) (o : Option (Site × ℕ)) (st : Checks)
    → asked_access vars o ≡ []
    → Deferred vars o st st
same_state vars o st h = record {
  findings = refl;
  checked = refl;
  pending =
      sym (ap (λ l. unchecked vars st.pending ++ l) h ∙ append-nil (unchecked vars st.pending));
}

one_more :
    (vars : List ℕ) (f : Finding) (v : ℕ)
    → unchecked vars ((f, v) ∷ []) ≡ (if count v vars then [] else f ∷ [])
one_more vars f v = elim (Bool-cases (count v vars)) [
  | inl met ↦ rw met refl
  | inr other ↦ rw other refl
]

along :
    (vars : List ℕ) (o : Option (Site × ℕ)) (st x y : Checks)
    → x ≡ y
    → Deferred vars o st y
    → Deferred vars o st x
along vars o st x y e h = rw e h

defer-Deferred :
    (vars : List ℕ) (o : Option (Site × ℕ)) (st : Checks) → Deferred vars o st (defer o st)
defer-Deferred vars none st = same_state vars none st refl
defer-Deferred vars (some (s, v)) st = elim (Bool-cases s.in_macro) [
  | inl inside ↦
      along vars (some (s, v)) st _ st (rw inside refl)
        (same_state vars (some (s, v)) st (quiet_access vars s v (rw inside refl)))
  | inr outside ↦ elim (Bool-cases (length s.file == 0)) [
    | inl nameless ↦
        along vars (some (s, v)) st _ st (rw (outside, nameless) refl)
          (same_state vars (some (s, v)) st (quiet_access vars s v (rw (outside, nameless) refl)))
    | inr named ↦
        let f : Finding = record {
          file = s.file;
          line = s.line;
          col = s.col;
          check = Check.unchecked_access;
        } in
        along vars (some (s, v)) st _ (record st { pending = st.pending ++ (f, v) ∷ [] })
          (rw (outside, named) refl)
          (record {
            findings = refl;
            checked = refl;
            pending =
                unchecked-append vars st.pending ((f, v) ∷ [])
                ∙ ap (λ l. unchecked vars st.pending ++ l)
                    (one_more vars f v ∙ (rw (outside, named) refl));
          })
  ]
]

module _ (m : Match) (st : Checks) where
  before-eq :
      record_at Check.manual_propagation m.manualprop
        (record_at Check.discarded_result m.discard st)
      ≡ record st { findings = st.findings ++ recorded m }
  before-eq =
      ap (record_at Check.manual_propagation m.manualprop)
        (record_at-findings Check.discarded_result m.discard st)
      ∙ record_at-findings Check.manual_propagation m.manualprop _
      ∙ ap (λ l. record st { findings = l })
          (append_assoc st.findings (asked Check.discarded_result m.discard)
            (asked Check.manual_propagation m.manualprop))

  pub run-findings : (run m st).findings ≡ st.findings ++ recorded m
  unfolding run
  run-findings =
      (defer-Deferred [] m.access (insert_checked m.checkedvar _)).findings
      ∙ insert_checked-findings m.checkedvar _
      ∙ ap (λ s. s.findings) before-eq

  pub run-pending :
      (vars : List ℕ)
      → unchecked vars (run m st).pending ≡ unchecked vars st.pending ++ asked_access vars m.access
  unfolding run
  run-pending vars =
      (defer-Deferred vars m.access (insert_checked m.checkedvar _)).pending
      ∙ ap (λ ps. unchecked vars ps ++ asked_access vars m.access)
          (insert_checked-pending m.checkedvar _ ∙ ap (λ s. s.pending) before-eq)

  insert-count :
      (v : ℕ) (o : Option ℕ) (s : Checks)
      → count v (insert_checked o s).checked
        ≡ count v (elim o [ none ↦ [] | some u ↦ u ∷ [] ]) || count v s.checked
  insert-count v none s = refl
  insert-count v (some u) s = ground arith

  pub run-count :
      (v : ℕ)
      → count v (run m st).checked
        ≡ count v (elim m.checkedvar [ none ↦ [] | some u ↦ u ∷ [] ]) || count v st.checked
  unfolding run
  run-count v =
      ap (count v) (defer-Deferred [] m.access (insert_checked m.checkedvar _)).checked
      ∙ insert-count v m.checkedvar _
      ∙ ap (λ s. count v (elim m.checkedvar [ none ↦ [] | some u ↦ u ∷ [] ]) || count v s.checked)
          before-eq
