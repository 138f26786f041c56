-- ===== src/Lint/Exchange.antt =====
-- The order in which the matches of a unit come (lint/jmpxx_lint.cpp).
use mathlib.Core.List.{Permᴰ}
use mathlib.Core.Logic.{∥∥₁_elim}
use mathlib.Core.List.{append_assoc, Perm, perm_append_comm, Perm-prop}
use mathlib.Core.List.Perm
use jmpxx.Prelude.{ℕ, ◌≡◌, refl, sym, ap, ◌∙◌, ◌||◌, none, some, List, [], ◌∷◌, ◌++◌, arith}
use jmpxx.Lint.{Match, Finding, count, lint}
use jmpxx.Lint.Order.{IsSorted-eq_of_Perm}
use jmpxx.Lint.Callback.{recorded, all_accesses, asked_access, each, checked_vars}
use jmpxx.Lint.Report.{
  Reports, reports_none, reports_unit, asked_next, lint_lem, count_vars, each_same, access_same,
}

path_Perm : {xs ys : List Finding} → xs ≡ ys → Perm xs ys
path_Perm {xs} {ys} e = rw e Perm.rfl

exchange_vars :
    (v : ℕ) (m n : Match) (ms : List Match)
    → count v (checked_vars (m ∷ n ∷ ms)) ≡ count v (checked_vars (n ∷ m ∷ ms))
exchange_vars v m n ms =
    ground (
      arith,
      count_vars v m (n ∷ ms),
      count_vars v n ms,
      count_vars v n (m ∷ ms),
      count_vars v m ms,
    )

count_vars_same :
    {ms ns : List Match}
    → Permᴰ ms ns
    → (v : ℕ) → count v (checked_vars ms) ≡ count v (checked_vars ns)
count_vars_same Permᴰ.nil v = refl
count_vars_same (Permᴰ.cons {a = m} {b = n} {l₁ = ms} {l₂ = ns} e p) v =
    ap (λ k. count v (checked_vars (k ∷ ms))) e
    ∙ count_vars v n ms
    ∙ ap (λ b. count v (elim n.checkedvar [ none ↦ [] | some u ↦ u ∷ [] ]) || b)
        (count_vars_same p v)
    ∙ sym (count_vars v n ns)
count_vars_same (Permᴰ.swap {a = m} {b = n} {a' = m'} {b' = n'} {l = ms} e d) v =
    exchange_vars v m n ms
    ∙ ap (λ k. count v (checked_vars (k ∷ m ∷ ms))) d
    ∙ ap (λ k. count v (checked_vars (m' ∷ k ∷ ms))) e
count_vars_same (Permᴰ.trans p q) v = count_vars_same p v ∙ count_vars_same q v

each-Perm :
    (f : Match → List Finding) {ms ns : List Match} → Permᴰ ms ns → Perm (each f ms) (each f ns)
each-Perm f Permᴰ.nil = Perm.rfl
each-Perm f (Permᴰ.cons {a = m} {b = n} {l₁ = ms} {l₂ = ns} e p) =
    Perm.trans (path_Perm (ap (λ k. f k ++ each f ms) e)) (Perm.append_left (f n) (each-Perm f p))
each-Perm f (Permᴰ.swap {a = m} {b = n} {a' = m'} {b' = n'} {l = ms} e d) =
    Perm.trans (path_Perm (sym (append_assoc (f m) (f n) (each f ms)))) (
      Perm.trans (Perm.append_right (each f ms) (perm_append_comm (f m) (f n))) (
        path_Perm (
          append_assoc (f n) (f m) (each f ms)
          ∙ ap (λ k. f k ++ (f m ++ each f ms)) d
          ∙ ap (λ k. f m' ++ (f k ++ each f ms)) e)))
each-Perm f (Permᴰ.trans p q) = Perm.trans (each-Perm f p) (each-Perm f q)

each_any :
    (f : Match → List Finding) (ms ns : List Match) → Perm ms ns → Perm (each f ms) (each f ns)
each_any f ms ns p = ∥∥₁_elim p Perm-prop (λ d. each-Perm f d)

accesses_any :
    (ms ns : List Match)
    → Perm ms ns
    → Perm (all_accesses (checked_vars ms) ms) (all_accesses (checked_vars ns) ns)
accesses_any ms ns p = ∥∥₁_elim p Perm-prop (λ d.
    Perm.trans (each-Perm (λ m. asked_access (checked_vars ms) m.access) d) (
      path_Perm (
        each_same _ _ ns
          (λ m. access_same (checked_vars ms) (checked_vars ns) m.access (count_vars_same d)))))

asked_next-Perm :
    (seen seen' : List Match) (last last' : List Finding) (ms ns : List Match)
    → Perm seen seen'
    → last ≡ last'
    → Perm ms ns
    → Perm (asked_next seen last ms) (asked_next seen' last' ns)
asked_next-Perm seen seen' last last' ms ns p e q =
    Perm.trans (path_Perm (ap (λ l. asked_next seen l ms) e)) (
      Perm.append_left last' (
        Perm.append (each_any recorded ms ns q)
          (accesses_any (seen ++ ms) (seen' ++ ns) (Perm.append p q))))

-- The same units, with the matches of each in another order.
pub data Rearranged : List (List Match) → List (List Match) → Type 0 where
  rearranged_none : Rearranged [] []
  rearranged_unit :
      (ms ns : List Match) (units units' : List (List Match))
      → Perm ms ns
      → Rearranged units units'
      → Rearranged (ms ∷ units) (ns ∷ units')

Reports-eq :
    (seen seen' : List Match) (last last' : List Finding) (units units' : List (List Match))
    (reports reports' : List (List Finding))
    → Perm seen seen'
    → last ≡ last'
    → Rearranged units units'
    → Reports seen last units reports
    → Reports seen' last' units' reports'
    → reports ≡ reports'
Reports-eq seen seen' last last' [] [] [] [] p e rearranged_none (reports_none _ _)
      (reports_none _ _) =
    refl
Reports-eq seen seen' last last' (ms ∷ units) (ns ∷ units') (r ∷ rs) (r' ∷ rs') p e
      (rearranged_unit _ _ _ _ q rest) (reports_unit _ _ _ _ _ _ s t more)
      (reports_unit _ _ _ _ _ _ s' t' more') =
    let same_report = IsSorted-eq_of_Perm r r' s s' (
      Perm.trans t
        (Perm.trans (asked_next-Perm seen seen' last last' ms ns p e q) (Perm.symm t'))) in
    ap (λ x. x ∷ rs) same_report
    ∙ ap (λ l. r' ∷ l)
        (Reports-eq (seen ++ ms) (seen' ++ ns) r r' units units' rs rs' (Perm.append p q)
          same_report rest more more')
Reports-eq seen seen' last last' [] [] [] (r' ∷ rs') p e h a b = elim b [ ]
Reports-eq seen seen' last last' [] [] (r ∷ rs) reports' p e h a b = elim a [ ]
Reports-eq seen seen' last last' [] (ns ∷ units') reports reports' p e h a b = elim h [ ]
Reports-eq seen seen' last last' (ms ∷ units) [] reports reports' p e h a b = elim h [ ]
Reports-eq seen seen' last last' (ms ∷ units) (ns ∷ units') [] reports' p e h a b = elim a [ ]
Reports-eq seen seen' last last' (ms ∷ units) (ns ∷ units') (r ∷ rs) [] p e h a b = elim b [ ]

-- No report of a run depends on the order in which the matches of its units are found.
pub lint_any_order :
    (units units' : List (List Match)) → Rearranged units units' → lint units ≡ lint units'
lint_any_order units units' h =
    Reports-eq [] [] [] [] units units' (lint units) (lint units') Perm.rfl refl h (lint_lem units)
      (lint_lem units')
