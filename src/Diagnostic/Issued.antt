-- ===== src/Diagnostic/Issued.antt =====
-- The handles that the failures under a landing scope are given (the counter of
-- include/jmpxx/diagnostic/store.hpp).
use native.Mathlib.Nat.{suc-add}
use jmpxx.Prelude.{
  ℕ, zero, suc, ◌+◌, ◌^◌, ◌≤◌, ◌<◌, ◌≡◌, refl, sym, ap, ◌∙◌, inl, inr, some, List, [], ◌∷◌, ◌++◌,
  arith, Option-cases, get_elem?,
}
use jmpxx.Platform.Trace.{Trace}
use jmpxx.Diagnostic.Store.{Store, open_record, find_index, add_hop, mark, truncate}
use jmpxx.Diagnostic.Store.Fresh.{bump_id_next}
use jmpxx.Diagnostic.Rich.{
  Act, fail_at, propagate, scope, Region, leave, next, run_act, run, rich_error, note_propagation,
}

-- The handles that the failures of a region are given, in their order.
unfoldable mutual
  pub issued_act : {L : Type 0} → Act L → Store L Trace → List ℕ
  issued_act (fail_at c d loc trace) s = (rich_error c d loc trace s).0.origin ∷ []
  issued_act (propagate e loc) s = []
  issued_act (scope body) s = issued body s

  pub issued : {L : Type 0} → Region L → Store L Trace → List ℕ
  issued leave s = []
  issued (next a b) s = issued_act a s ++ issued b (run_act a s)

unfoldable mutual
  pub act_failures : {L : Type 0} → Act L → ℕ
  act_failures (fail_at c d loc trace) = 1
  act_failures (propagate e loc) = 0
  act_failures (scope body) = failures body

  pub failures : {L : Type 0} → Region L → ℕ
  failures leave = 0
  failures (next a b) = act_failures a + failures b

abbrev pub count_up : ℕ → ℕ → List ℕ
count_up from zero = []
count_up from (suc n) = from ∷ count_up (from + 1) n

count_up-add : (m n from : ℕ) → count_up from (m + n) ≡ count_up from m ++ count_up (from + m) n
count_up-add zero n from =
    let start : from ≡ from + 0 = omega arith in
    let none_more : 0 + n ≡ n = omega arith in
    ap (count_up from) none_more ∙ ap (λ k. count_up k n) start
count_up-add (suc m) n from =
    let moved : (from + 1) + m ≡ from + suc m = omega arith in
    rw suc-add (
      ap (λ l. from ∷ l)
        (count_up-add m n (from + 1) ∙ ap (λ k. count_up (from + 1) m ++ count_up k n) moved))

module _ {L : Type 0} where
  open_record-next_id :
      (loc : L) (trace : Trace) (s : Store L Trace)
      → s.next_id + 1 < 2 ^ 32
      → ((open_record loc trace s).0 ≡ s.next_id)
        × ((open_record loc trace s).1.next_id ≡ s.next_id + 1)
  unfolding open_record
  open_record-next_id loc trace s room = ground (arith, bump_id_next s.next_id room)

  add_hop-next_id : (id : ℕ) (loc : L) (s : Store L Trace) → (add_hop id loc s).next_id ≡ s.next_id
  unfolding add_hop
  add_hop-next_id id loc s = elim (Option-cases (find_index id s)) [
    | inl absent ↦ rw (absent, add_hop) refl
    | inr (i, e) ↦ rw (e, add_hop) refl
  ]

  truncate-next_id : (m : ℕ) (s : Store L Trace) → (truncate m s).next_id ≡ s.next_id
  unfolding truncate
  truncate-next_id m s = ground arith

pub get_elem?-count_up : (n from i h : ℕ) → get_elem? (count_up from n) i ≡ some h → from ≤ h
get_elem?-count_up zero from i h e = ground (arith, e)
get_elem?-count_up (suc n) from zero h e = ground (arith, e)
get_elem?-count_up (suc n) from (suc i) h e = omega (arith, get_elem?-count_up n (from + 1) i h e)

mutual
  unfolding run_act run rich_error note_propagation issued_act issued act_failures failures

  run_act-issued :
      {L : Type 0} (a : Act L) (s : Store L Trace)
      → s.next_id + act_failures a < 2 ^ 32
      → (issued_act a s ≡ count_up s.next_id (act_failures a))
        × ((run_act a s).next_id ≡ s.next_id + act_failures a)
  run_act-issued (fail_at c d loc trace) s room =
      let (id, later) = open_record-next_id loc trace s room in (ap (λ n. n ∷ []) id, later)
  run_act-issued (propagate e loc) s room = (refl, add_hop-next_id e.origin loc s ∙ omega arith)
  run_act-issued (scope body) s room =
      let (ids, later) = run-issued body s room in
      (ids, truncate-next_id (mark s) (run body s) ∙ later)

  pub run-issued :
      {L : Type 0} (b : Region L) (s : Store L Trace)
      → s.next_id + failures b < 2 ^ 32
      → (issued b s ≡ count_up s.next_id (failures b))
        × ((run b s).next_id ≡ s.next_id + failures b)
  run-issued leave s room = (refl, omega arith)
  run-issued (next a b) s room =
      let (ids, later) = run_act-issued a s (omega (arith, room)) in
      let (ids', later') = run-issued b (run_act a s) (omega (arith, room, later)) in
      (
        ap (λ l. l ++ issued b (run_act a s)) ids
            ∙ ap (λ l. count_up s.next_id (act_failures a) ++ l)
                (ids' ∙ ap (λ k. count_up k (failures b)) later)
            ∙ sym (count_up-add (act_failures a) (failures b) s.next_id),
        omega (arith, later, later'),
      )
