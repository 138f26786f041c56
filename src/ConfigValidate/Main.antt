-- ===== src/ConfigValidate/Main.antt =====
-- reference_app/src/config_validate.cpp: the program, up to the text that it prints.
use jmpxx.Prelude.{ℕ, Bool, not, Option, if◌then◌else◌}
use jmpxx.Prelude.Int.{ℤ}
use jmpxx.Core.Error.{Error}
use jmpxx.Core.Hardening.{Hardening}
use jmpxx.Core.Transport.{value, error, has_value}
use jmpxx.Core.Propagation.{Fn, ◌>>=◌, pure, lift}
use jmpxx.Erased.{ErasedError}
use jmpxx.Interop.Boundary.{Expected, from_expected}
use jmpxx.ConfigValidate.Program.{
  String, policy, access, Table, Config, Limits, load, field_string, validate, check_limits,
}

-- What the program says: `A` are the parsed policies and `X` the policy parser's errors.
pub data Report (A X : Type 0) : Type 0 where
  usage : Report A X
  not_loaded : Error → Report A X
  bad_server : Error → Report A X
  bad_limits : ErasedError → Report A X
  no_policy : Error → Report A X
  bad_policy : X → Report A X
  valid : Config → Limits → A → Report A X

abbrev pub exit_status : {A X : Type 0} → Report A X → ℕ
exit_status usage = 2
exit_status (valid c l a) = 0
exit_status _ = 1

-- `named` says whether a file was given, `parsed` and `line` are what its parse came to, `dom` is the
-- domain of the limits' errors.
unfoldable pub report :
    {S A X : Type 0}
    → Hardening
    → ℕ
    → (String → Expected A X)
    → Bool
    → Option Table
    → ℤ
    → Fn S (Report A X)
unfolding has_value value error from_expected
report h dom parse_policy named parsed line = if not named then pure usage else (do
  table ← lift (load parsed line)
  if not (has_value table) then (do e ← lift (error table); pure (not_loaded e)) else (do
    t ← lift (value table)
    cfg ← validate h t
    if not (has_value cfg) then (do e ← lift (error cfg); pure (bad_server e)) else (do
      lim ← check_limits h dom t
      if not (has_value lim) then (do e ← lift (error lim); pure (bad_limits e)) else (do
        json ← lift (field_string t policy access)
        if not (has_value json) then (do e ← lift (error json); pure (no_policy e)) else (do
          text ← lift (value json)
          let pol = from_expected (parse_policy text)
          if not (has_value pol) then (do e ← lift (error pol); pure (bad_policy e)) else (do
            c ← lift (value cfg)
            l ← lift (value lim)
            a ← lift (value pol)
            pure (valid c l a)))))))
