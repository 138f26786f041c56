-- ===== src/SceneAudit/Visit.antt =====
-- The recursion of reference_app/godot_module/scene_audit.cpp over the tree, against the scan of its nodes.
use jmpxx.Prelude.{
  ℕ, zero, suc, ◌+◌, ◌^◌, ◌<◌, ◌≡◌, refl, sym, inl, inr, true, Option, none, some, List, [], ◌∷◌,
  ◌++◌, arith, ltb, Bool-cases,
}
use mathlib.Core.Path.{subst}
use jmpxx.Prelude.Int.{pos}
use jmpxx.Prelude.Text.{String, is_prefix}
use jmpxx.Platform.Trace.{Trace}
use jmpxx.Core.Outcome.{Outcome, done}
use jmpxx.Core.Hardening.{Hardening}
use jmpxx.Core.Transport.{Transport}
use jmpxx.Core.Transport.Refines.{ok, failed, embed}
use jmpxx.Core.Propagation.{Fn, ◌>>=◌, try_value, try_void}
use jmpxx.Core.Propagation.Laws.{try_value_lem, try_void_lem}
use jmpxx.Diagnostic.Store.{Store}
use jmpxx.Diagnostic.Rich.{RichError, rich_error, note_propagation}
use jmpxx.Diagnostic.Hops.{note_all}
use jmpxx.SceneAudit.{
  Fault, fault_code, too_deep, duplicate_name, empty_name, reserved_prefix, Node, Nodes, node, leaf,
  child, Audit, Sites, has, tmp_prefix, set_where, domain, fail_with, check_name, visit, visit_all,
  hop, add_int,
}
use jmpxx.SceneAudit.Preorder.{
  preorder, preorder_all, size, size_all, name_fault, Scan, clear, hit, judged, scan, then_scan,
  scan-append,
}

module _ {L : Type 0} (sites : Sites L) (trace : Trace) where
  -- The sites that a fault passes `n` levels up, the innermost first: a name is propagated once where
  -- it is checked.
  abbrev pub base_sites : Fault → List L
  base_sites too_deep = []
  base_sites _ = sites.name_site ∷ []

  abbrev pub passed_sites : Fault → ℕ → List L
  passed_sites f zero = base_sites f
  passed_sites f (suc n) = passed_sites f n ++ sites.child_site ∷ []

  -- The failure of a fault, and the store with its record.
  abbrev pub failure_of : Fault → Store L Trace → RichError × Store L Trace
  failure_of f s = rich_error (pos (fault_code f)) (pos domain) sites.fault_site trace s

  -- How a visit at `depth` with the store `s` ends, by what the scan of its nodes finds: with the number
  -- `n`, or with the failure of the fault, after its propagation from where it is.
  pub data Visits (s : Store L Trace) (depth n : ℕ)
      : Scan → Outcome (Transport ℕ RichError) × Audit L → Type 0 where
    visits_clear :
        (seen : List String) (place : String)
        → Visits s depth n
            (clear seen)
            (done (embed (ok n)), record { seen = seen; r_where = place; store = s })
    visits_hit :
        (f : Fault) (name : String) (d up : ℕ) (seen : List String)
        → d ≡ depth + up
        → Visits s depth n (hit f name d) (
          done (embed (failed (failure_of f s).0)),
          record {
            seen = seen;
            r_where = name;
            store = note_all (failure_of f s).0 (passed_sites f up) (failure_of f s).1;
          },
        )

  note_all-append :
      (e : RichError) (locs : List L) (loc : L) (s : Store L Trace)
      → note_all e (locs ++ loc ∷ []) s ≡ note_propagation e loc (note_all e locs s)
  unfolding note_all
  note_all-append e [] loc s = refl
  note_all-append e (l ∷ locs) loc s = note_all-append e locs loc (note_propagation e l s)

  module _ (h : Hardening) (max_depth : ℕ) where
    -- The check of a name.
    data Names (a : Audit L) (name : String)
        : Option Fault → Outcome (Transport String RichError) × Audit L → Type 0 where
      names_fine : Names a name none (done (embed (ok name)), record a { seen = name ∷ a.seen })
      names_fault :
          (f : Fault)
          → base_sites f ≡ sites.name_site ∷ []
          → Names a name (some f) (
            done (embed (failed (failure_of f a.store).0)),
            record a { store = (failure_of f a.store).1 },
          )

    check_name-Names :
        (name : String) (a : Audit L)
        → Names a name (name_fault a.seen name) (check_name sites trace h max_depth name a)
    unfolding check_name fail_with
    check_name-Names [] a = names_fault empty_name refl
    check_name-Names (c ∷ cs) a = elim (Bool-cases (is_prefix tmp_prefix (c ∷ cs))) [
      | inl reserved ↦ rw reserved (names_fault reserved_prefix refl)
      | inr other ↦ elim (Bool-cases (has (c ∷ cs) a.seen)) [
        | inl twice ↦ rw (other, twice) (names_fault duplicate_name refl)
        | inr once ↦ rw (other, once) names_fine
      ]
    ]

    -- The name of a node is fine, and its children are visited; or it is not.
    named :
        (name : String) (depth n : ℕ) (seen : List String) (s : Store L Trace)
        (below : Fn (Audit L) (Transport ℕ RichError)) (f : Option Fault)
        (x : Outcome (Transport String RichError) × Audit L) (rest : Scan)
        → let a : Audit L = record { seen = seen; r_where = name; store = s } in
          check_name sites trace h max_depth name a ≡ x
          → Names a name f x
          → Visits s depth n rest (below (record a { seen = name ∷ seen }))
          → Visits s depth n (judged f rest name depth) (
              try_void h
                (hop sites trace h max_depth sites.name_site)
                (λ e. e)
                (check_name sites trace h max_depth name)
                below
                a)
    unfolding note_all
    named name depth n seen s below none x rest e names_fine v =
        rw
          (try_void_lem h (hop sites trace h max_depth sites.name_site) (λ e. e)
            (check_name sites trace h max_depth name) _ below (ok name) e)
          v
    named name depth n seen s below (some f) x rest e (names_fault _ base) v =
        rw
          (try_void_lem h (hop sites trace h max_depth sites.name_site) (λ e. e)
            (check_name sites trace h max_depth name) _ below (failed (failure_of f s).0) e)
          (along f base (visits_hit f name depth 0 seen (omega arith)))
      where
        along :
            (f : Fault)
            → base_sites f ≡ sites.name_site ∷ []
            → Visits s depth n (hit f name depth) (
              done (embed (failed (failure_of f s).0)),
              record {
                seen = seen;
                r_where = name;
                store = note_all (failure_of f s).0 (base_sites f) (failure_of f s).1;
              },
            )
            → Visits s depth n (hit f name depth) (
              done (embed (failed (failure_of f s).0)),
              record {
                seen = seen;
                r_where = name;
                store = note_propagation (failure_of f s).0 sites.name_site (failure_of f s).1;
              },
            )
        along f base v =
            subst
              (λ locs. Visits s depth n (hit f name depth) (
                done (embed (failed (failure_of f s).0)),
                record {
                  seen = seen;
                  r_where = name;
                  store = note_all (failure_of f s).0 locs (failure_of f s).1;
                },
              ))
              base v

    -- A child is visited, and the others after it; or its failure is propagated.
    step :
        (depth counted below_size rest_size : ℕ) (s : Store L Trace) (a : Audit L)
        (nodes : List (String × ℕ)) (r : Scan) (first : Fn (Audit L) (Transport ℕ RichError))
        (rest : ℕ → Fn (Audit L) (Transport ℕ RichError))
        (x : Outcome (Transport ℕ RichError) × Audit L)
        → counted + below_size + rest_size < 2 ^ 31
        → first a ≡ x
        → Visits s (depth + 1) below_size r x
        → ((seen : List String) (place : String)
            → Visits s depth
                (counted + below_size + rest_size)
                (scan max_depth seen nodes)
                (rest (counted + below_size) (record { seen = seen; r_where = place; store = s })))
        → Visits s depth (counted + below_size + rest_size) (then_scan max_depth r nodes) (
            try_value h
              (hop sites trace h max_depth sites.child_site)
              (λ e. e)
              first
              (λ below. add_int counted below >>= λ sum. rest sum)
              a)
    step depth counted below_size rest_size s a nodes r first rest x small e
          (visits_clear seen place) after =
        let sum : ltb (counted + below_size) (2 ^ 31) ≡ true = ground (arith, small) in
        rw
          (
            try_value_lem h (hop sites trace h max_depth sites.child_site) (λ e. e) first a
                (λ below. add_int counted below >>= λ sum. rest sum) (ok below_size) e,
            sum,
          )
          (after seen place)
    step depth counted below_size rest_size s a nodes r first rest x small e
          (visits_hit f name d up seen deep) after =
        rw
          (
            try_value_lem h (hop sites trace h max_depth sites.child_site) (λ e. e) first a
                (λ below. add_int counted below >>= λ sum. rest sum) (failed (failure_of f s).0) e,
            sym (
                note_all-append (failure_of f s).0 (passed_sites f up) sites.child_site
                  (failure_of f s).1),
          )
          (visits_hit f name d (suc up) seen (omega (arith, deep)))

    same_size :
        {s : Store L Trace} {depth : ℕ} {r : Scan} {x : Outcome (Transport ℕ RichError) × Audit L}
        (m n : ℕ)
        → m ≡ n
        → Visits s depth m r x
        → Visits s depth n r x
    same_size {s} {depth} {r} {x} m n e v = subst (λ k. Visits s depth k r x) e v

    mutual
      unfolding visit fail_with note_all

      pub visit-Visits :
          (nd : Node) (depth : ℕ) (a : Audit L)
          → size nd < 2 ^ 31
          → Visits a.store depth
              (size nd)
              (scan max_depth a.seen (preorder depth nd))
              (visit sites trace h max_depth nd depth a)
      visit-Visits (node name children) depth a small = elim (Bool-cases (ltb max_depth depth)) [
        | inl deep ↦ rw deep (visits_hit too_deep name depth 0 a.seen (omega arith))
        | inr shallow ↦ rw shallow (
            named name depth (1 + size_all children) a.seen a.store
              (visit_all sites trace h max_depth children depth 1) (name_fault a.seen name) _
              (scan max_depth (name ∷ a.seen) (preorder_all (depth + 1) children)) refl
              (check_name-Names name (set_where name a))
              (visit_all-Visits children depth 1
                (record { seen = name ∷ a.seen; r_where = name; store = a.store }) small))
      ]

      visit_all-Visits :
          (cs : Nodes) (depth counted : ℕ) (a : Audit L)
          → counted + size_all cs < 2 ^ 31
          → Visits a.store depth
              (counted + size_all cs)
              (scan max_depth a.seen (preorder_all (depth + 1) cs))
              (visit_all sites trace h max_depth cs depth counted a)
      visit_all-Visits leaf depth counted a small =
          same_size counted (counted + 0) (omega arith) (visits_clear a.seen a.r_where)
      visit_all-Visits (child c cs) depth counted a small =
          same_size (counted + size c + size_all cs) (counted + (size c + size_all cs))
            (omega arith)
            (subst
              (λ r.
                Visits a.store depth (counted + size c + size_all cs) r
                  (visit_all sites trace h max_depth (child c cs) depth counted a))
              (sym (
                scan-append max_depth a.seen (preorder (depth + 1) c)
                  (preorder_all (depth + 1) cs)))
              (step depth counted (size c) (size_all cs) a.store a (preorder_all (depth + 1) cs)
                (scan max_depth a.seen (preorder (depth + 1) c))
                (visit sites trace h max_depth c (depth + 1))
                (visit_all sites trace h max_depth cs depth) _ (omega (arith, small)) refl
                (visit-Visits c (depth + 1) a (omega (arith, small)))
                (λ seen place.
                  visit_all-Visits cs depth (counted + size c)
                    (record { seen = seen; r_where = place; store = a.store })
                    (omega (arith, small)))))
