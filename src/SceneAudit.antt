-- ===== src/SceneAudit.antt =====
-- reference_app/godot_module/scene_audit.cpp and scene_audit.h, with the diagnostic layer on. A node of
-- the engine is its name and its children, and the names that are seen are a list. The locations of the
-- module's sites and the trace of a failure's creation are parameters.
pub mod Preorder
pub mod Visit
pub mod Landing
mod Tests
use jmpxx.Prelude.{
  ℕ, zero, suc, ◌+◌, ◌-◌, ◌*◌, ◌/◌, ◌%◌, ◌^◌, ◌≤◌, ◌<◌, ◌≡◌, refl, sym, ap, ◌∙◌, ◌≢◌, ◌↔◌, ◌⊎◌, inl,
  inr, Bool, true, false, not, ◌&&◌, ◌||◌, Option, none, some, List, [], ◌∷◌, ◌++◌, map, arith, ltb,
  leb, ◌==◌, if◌then◌else◌, ltb→lt, lt→ltb, leb→le, ==_iff, tests, Bool-cases, Option-cases, length,
  get_elem?, set, length-append, length-set, get_elem?-set_self, get_elem?-set_ne, get_or, take,
  drop, replicate, take-append-drop, length-take, length-drop, length-replicate, length-map,
  take-set_last, take-take, map-take, take-all, get_elem?-some, take-append,
}
use jmpxx.Prelude.Int.{ℤ, pos, ltb_ℤ}
use jmpxx.Prelude.Text.{String, same, is_prefix}
use jmpxx.Platform.Trace.{Trace}
use jmpxx.Core.Outcome.{Outcome, done, trap, threw, undefined}
use jmpxx.Core.Hardening.{Hardening}
use jmpxx.Core.Transport.{Transport, has_value, value_or, error}
use jmpxx.Core.Transport.Refines.{ok, failed, embed}
use jmpxx.Core.Propagation.{Fn, pure, lift, modify, resume, ◌>>=◌, ◌>>◌, try_value, try_void}
use jmpxx.Diagnostic.Store.{Store, mark, truncate}
use jmpxx.Diagnostic.Rich.{RichError, rich_error, note_propagation, inspect}

pub data Fault : Type 0 where
  fault_none empty_tree too_deep duplicate_name empty_name reserved_prefix : Fault

abbrev pub fault_code : Fault → ℕ
fault_code fault_none = 0
fault_code empty_tree = 1
fault_code too_deep = 2
fault_code duplicate_name = 3
fault_code empty_name = 4
fault_code reserved_prefix = 5

-- `static_cast<Fault>` of a code that the module has written.
abbrev pub fault_of : ℤ → Option Fault
fault_of (pos n) =
    if n == 0
    then some fault_none
    else if n == 1
    then some empty_tree
    else if n == 2
    then some too_deep
    else if n == 3
    then some duplicate_name
    else if n == 4
    then some empty_name
    else if n == 5
    then some reserved_prefix
    else none
fault_of _ = none

mutual
  pub data Node : Type 0 where
    node : String → Nodes → Node

  pub data Nodes : Type 0 where
    leaf : Nodes
    child : Node → Nodes → Nodes

-- `CLAMP(p_depth, 1, 64)`.
unfoldable pub set_max_depth : ℤ → ℤ
set_max_depth p_depth =
    if ltb_ℤ p_depth (pos 1) then pos 1 else if ltb_ℤ (pos 64) p_depth then pos 64 else p_depth

-- What an audit keeps beside the engine's tree: the names it has seen, where it is, and the thread's
-- diagnostic store.
pub record Audit (L : Type 0) : Type 0 where
  pub seen : List String
  pub r_where : String
  pub store : Store L Trace

-- The lines of `fault`, of the propagation in `visit` of a name and of the one of a child.
pub record Sites (L : Type 0) : Type 0 where
  pub fault_site : L
  pub name_site : L
  pub child_site : L

abbrev pub has : String → List String → Bool
has name [] = false
has name (n ∷ ns) = same n name || has name ns

-- "tmp_".
abbrev pub tmp_prefix : String
tmp_prefix = b't' ∷ b'm' ∷ b'p' ∷ b'_' ∷ []

abbrev pub insert_name : {L : Type 0} → String → Audit L → Audit L
insert_name name a = record a { seen = name ∷ a.seen }

abbrev pub set_where : {L : Type 0} → String → Audit L → Audit L
set_where name a = record a { r_where = name }

-- The sum of two `int`s, of which one past the largest has no meaning.
abbrev pub add_int : {S : Type 0} → ℕ → ℕ → Fn S ℕ
add_int m n s = if ltb (m + n) (2 ^ 31) then (done (m + n), s) else (undefined, s)

-- The domain 0x6a78.
abbrev pub domain : ℕ
domain = 27256

module _ {L : Type 0} (sites : Sites L) (trace : Trace) (h : Hardening) (max_depth : ℕ) where
  -- The hook of the rich policy at a site.
  abbrev pub hop : L → RichError → Audit L → Audit L
  hop loc e a = record a { store = note_propagation e loc a.store }

  -- `return jmpxx::fail(fault(f));`.
  unfoldable pub fail_with : {V : Type 0} → Fault → Fn (Audit L) (Transport V RichError)
  fail_with f a =
      let (e, t) = rich_error (pos (fault_code f)) (pos domain) sites.fault_site trace a.store in
      (done (embed (failed e)), record a { store = t })

  unfoldable pub check_name : String → Fn (Audit L) (Transport String RichError)
  unfolding fail_with
  check_name [] a = fail_with empty_name a
  check_name (c ∷ cs) a =
      if is_prefix tmp_prefix (c ∷ cs)
      then fail_with reserved_prefix a
      else if has (c ∷ cs) a.seen
      then fail_with duplicate_name a
      else (done (embed (ok (c ∷ cs))), insert_name (c ∷ cs) a)

  unfoldable mutual
    unfolding check_name

    pub visit : Node → ℕ → Fn (Audit L) (Transport ℕ RichError)
    visit (node name children) depth =
        let below = visit_all children depth 1 in
        if ltb max_depth depth
        then (modify (set_where name) >> fail_with too_deep)
        else (modify (set_where name)
            >> try_void h (hop sites.name_site) (λ e. e) (check_name name) below)

    -- The loop over the children; the number is `counted`.
    pub visit_all : Nodes → ℕ → ℕ → Fn (Audit L) (Transport ℕ RichError)
    visit_all leaf depth counted = pure (embed (ok counted))
    visit_all (child c cs) depth counted =
        let rest = visit_all cs depth in
        try_value h (hop sites.child_site) (λ e. e) (visit c (depth + 1))
          (λ below. add_int counted below >>= λ sum. rest sum)

  -- The dictionary that script gets; the line and the number of hops are those of a context that is
  -- available.
  pub record Report : Type 0 where
    pub passed : Bool
    pub fault : Option Fault
    pub nodes : ℕ
    pub place : String
    pub origin : Option (L × ℕ)

  -- What is made of the result; `blank` is a zeroed location.
  unfoldable pub report_of : L → Bool → Transport ℕ RichError → Fn (Audit L) Report
  report_of blank stacktrace counted = do
    n ← lift (value_or 0 counted)
    if has_value counted
        then pure (record {
          passed = true;
          fault = some fault_none;
          nodes = n;
          place = [];
          origin = none;
        })
        else (do
          e ← lift (error counted)
          λ a.
              let ctx = inspect blank stacktrace e a.store in
              (
                done (record {
                  passed = false;
                  fault = fault_of e.code;
                  nodes = n;
                  place = a.r_where;
                  origin = if ctx.available then some (ctx.origin, ctx.hop_count) else none;
                }),
                a,
              ))

  -- The landing scope is the whole function; the result is with the store after it.
  unfoldable pub audit : L → Bool → Option Node → Store L Trace → Outcome Report × Store L Trace
  unfolding report_of visit
  audit blank stacktrace none s = (
    done (record { passed = false; fault = some empty_tree; nodes = 0; place = []; origin = none }),
    truncate (mark s) s,
  )
  audit blank stacktrace (some root) s =
      let (o, a) =
        (visit root 0 >>= report_of blank stacktrace)
          (record { seen = []; r_where = []; store = s }) in
      (o, truncate (mark s) a.store)
