-- ===== src/Resolver/Program.antt =====
-- reference_app/src/config_resolve.cpp: the program that resolves every value of a table with one
-- resolver. What toml++ makes of the file is the parameter `parsed`.
use jmpxx.Prelude.{
  ℕ, suc, ◌≡◌, refl, ap, ◌∙◌, false, Option, none, some, List, [], ◌∷◌, ◌==◌, if◌then◌else◌,
}
use jmpxx.Prelude.Int.{ℤ}
use jmpxx.Prelude.Text.{String}
use jmpxx.Core.Error.{Error}
use jmpxx.Core.Transport.Refines.{Result, ok, failed}
use jmpxx.Unwind.{World, returned, Arm, resume, ◌>>=◌, ◌>>◌, pure, modify, gets}
use jmpxx.Unwind.Escape.{Payload, IsCarried}
use jmpxx.Unwind.Triple.{Yields}
use jmpxx.Resolver.{Keys, resolve_key}
use jmpxx.Resolver.Meaning.{Means, Blame}
use jmpxx.Resolver.Sound.{resolve_key_lem}

-- The `values` table: its keys in the order of the iteration, and its strings.
pub record Values : Type 0 where
  pub keys : List String
  pub strings : String → Option String

-- The file does not parse, has no table of values, or has one.
pub data Parsed : Type 0 where
  unparsed no_values : Parsed
  values : Values → Parsed

pub data Line : Type 0 where
  resolved_line : String → String → Line
  failed_line : String → ℤ → String → ℤ → Line

-- What the program prints of the values, the failures it counts and its exit status.
pub record Report : Type 0 where
  pub lines : List Line
  pub failures : ℕ
  pub status : ℕ

-- A resolver that has just been constructed.
abbrev pub new_resolver : Keys
new_resolver = record { resolving = []; error_key = [] }

abbrev pub line_of : String → Result String Error → String → Line
line_of name (ok v) key = resolved_line name v
line_of name (failed e) key = failed_line name e.code key e.domain

-- `++failures` for one that fails.
abbrev pub count_failure : Result String Error → ℕ → ℕ
count_failure (ok v) n = n
count_failure (failed e) n = suc n

module _ (p : Payload Error) (junk : List ℕ) where
  -- The loop over the keys.
  unfoldable pub resolve_all : (String → Option String) → List String → Arm Keys (List Line × ℕ)
  resolve_all lookup [] = pure ([], 0)
  resolve_all lookup (name ∷ names) = do
    resolved ← resolve_key p lookup junk name
    key ← gets (λ s. s.error_key)
    rest ← resolve_all lookup names
    pure (line_of name resolved key ∷ rest.0, count_failure resolved rest.1)

  unfoldable pub main : Option Parsed → Arm Keys Report
  main none = pure (record { lines = []; failures = 0; status = 2 })
  main (some unparsed) = pure (record { lines = []; failures = 0; status = 1 })
  main (some no_values) = pure (record { lines = []; failures = 0; status = 1 })
  main (some (values t)) = do
    modify (λ _. new_resolver)
    out ← resolve_all t.strings t.keys
    pure (record { lines = out.0; failures = out.1; status = if out.1 == 0 then 0 else 1 })

-- The lines report the keys in their order, each with its value or with what is to blame, and that
-- many of them are failures.
pub data Reports (lookup : String → Option String) : List String → List Line → ℕ → Type 0 where
  reports_none : Reports lookup [] [] 0
  reports_value :
      (key v : String) (keys : List String) (ls : List Line) (n : ℕ)
      → Means lookup key v
      → Reports lookup keys ls n
      → Reports lookup (key ∷ keys) (resolved_line key v ∷ ls) n
  reports_failure :
      (key at : String) (e : Error) (keys : List String) (ls : List Line) (n : ℕ)
      → Blame lookup key e at
      → Reports lookup keys ls n
      → Reports lookup (key ∷ keys) (failed_line key e.code at e.domain ∷ ls) (suc n)

module _ (p : Payload Error) (junk : List ℕ) (lookup : String → Option String) where
  report_one :
      (key : String) (keys : List String) (r : Result String Error) (s : Keys) (ls : List Line)
      (n : ℕ)
      → Yields
          (λ e s. (s.resolving ≡ []) × Blame lookup key e s.error_key)
          (λ v s. (s.resolving ≡ []) × Means lookup key v)
          r
          s
      → Reports lookup keys ls n
      → Reports lookup (key ∷ keys) (line_of key r s.error_key ∷ ls) (count_failure r n)
  report_one key keys (ok v) s ls n h g = reports_value key v keys ls n h.1 g
  report_one key keys (failed e) s ls n h g = reports_failure key s.error_key e keys ls n h.1 g

  clean :
      (key : String) (r : Result String Error) (s : Keys)
      → Yields
          (λ e s. (s.resolving ≡ []) × Blame lookup key e s.error_key)
          (λ v s. (s.resolving ≡ []) × Means lookup key v)
          r
          s
      → s.resolving ≡ []
  clean key (ok v) s h = h.0
  clean key (failed e) s h = h.0

  resolve_all_lem :
      (names : List String) (w : World Keys)
      → w.thread.in_flight ≡ false
      → IsCarried p
      → w.app.resolving ≡ []
      → (ls : List Line) × (n : ℕ) × (s : Keys) × (resolve_all p junk lookup names w
          ≡ (returned (ls, n), record w { app = s }))
        × Reports lookup names ls n
  unfolding resolve_all
  resolve_all_lem [] w calm c idle = ([], 0, w.app, refl, reports_none)
  resolve_all_lem (name ∷ names) w calm c idle =
      let l = resolve_key_lem p lookup name junk w calm c idle in
      let rest =
        resolve_all_lem names (record w { app = l.state }) calm c
          (clean name l.result l.state l.yields) in
      (
        line_of name l.result l.state.error_key ∷ rest.0,
        count_failure l.result rest.1,
        rest.2,
        ap (resume _) l.lands ∙ ap (resume _) rest.3,
        report_one name names l.result l.state rest.0 rest.1 l.yields rest.4,
      )

  -- Run on a table, on a thread that is not unwinding, the program reports every key of the table in
  -- order, with the value that the table gives it or with what is to blame, whatever the keys before
  -- it did; it counts the failures, and its status is 0 if there is none and 1 otherwise.
  pub main_lem :
      (names : List String) (w : World Keys)
      → w.thread.in_flight ≡ false
      → IsCarried p
      → (ls : List Line) × (n : ℕ) × (s : Keys) × (main p junk
            (some (values (record { keys = names; strings = lookup })))
            w
          ≡ (
            returned (record { lines = ls; failures = n; status = if n == 0 then 0 else 1 }),
            record w { app = s },
          ))
        × Reports lookup names ls n
  unfolding main
  main_lem names w calm c =
      let out = resolve_all_lem names (record w { app = new_resolver }) calm c refl in
      (out.0, out.1, out.2, ap (resume _) out.3, out.4)
