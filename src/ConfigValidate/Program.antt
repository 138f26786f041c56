-- ===== src/ConfigValidate/Program.antt =====
-- reference_app/src/config_validate.cpp and limits_check.hpp: the fields, the sections and the program.
-- The parsed document (toml++) and the policy parser (glaze) are parameters.
use jmpxx.Prelude.{ℕ, Bool, true, false, not, ◌||◌, Option, none, some, List, if◌then◌else◌}
use jmpxx.Prelude.Int.{ℤ, pos, ltb_ℤ, to_unsigned, to_signed}
use jmpxx.Core.Error.{Error}
use jmpxx.Core.Outcome.{Outcome, done}
use jmpxx.Core.Hardening.{Hardening}
use jmpxx.Core.Transport.{Transport, fail, of_value, of_failure}
use jmpxx.Core.Propagation.{Fn, pure, lift, note_nothing, try_value}
use jmpxx.Erased.{ErasedError}
use jmpxx.Interop.Boundary.{from_optional, from_condition}

abbrev pub String : Type 0
String = List ℕ

-- The names of the sections and keys that the program reads.
pub data Section : Type 0 where
  server limits policy : Section

pub data Key : Type 0 where
  host port workers max_connections timeout_ms access : Key

-- What the program asks of a parsed document.
pub record Table : Type 0 where
  pub string_at : Section → Key → Option String
  pub int_at : Section → Key → Option ℤ
  pub is_table : Section → Bool

-- The domains and the codes.
abbrev pub dom_parse : ℤ
dom_parse = pos 1

abbrev pub dom_schema : ℤ
dom_schema = pos 2

abbrev pub missing : Error
missing = record { code = pos 1; domain = dom_schema }

abbrev pub out_of_range : Error
out_of_range = record { code = pos 3; domain = dom_schema }

pub record Config : Type 0 where
  pub host : String
  pub port : ℤ
  pub workers : ℤ

pub record Limits : Type 0 where
  pub max_connections : ℤ
  pub timeout_ms : ℤ

abbrev pub outside : ℤ → ℤ → ℤ → Bool
outside lo hi v = ltb_ℤ v lo || ltb_ℤ hi v

-- `static_cast<int>`.
abbrev pub to_int : ℤ → ℤ
to_int v = to_signed (to_unsigned v)

-- `parsed` is the document, or the line of the parse error.
unfoldable pub load : Option Table → ℤ → Outcome (Transport Table Error)
unfolding from_condition
load (some t) line =
    from_condition true (λ _. done t) (λ _. done (record { code = pos 0; domain = dom_parse }))
load none line =
    from_condition false (λ _. Outcome.undefined)
      (λ _. done (record { code = line; domain = dom_parse }))

unfoldable pub field_string : Table → Section → Key → Outcome (Transport String Error)
unfolding from_optional
field_string t section key = from_optional (t.string_at section key) (λ _. done missing)

-- `reflect::as_erased` of an enumerator, in the domain at the address `dom`.
abbrev pub as_erased : ℕ → ℕ → ErasedError
as_erased dom code = record { value = pos code; domain = some dom }

module _ {S : Type 0} (h : Hardening) where
  unfoldable pub field_int : Table → Section → Key → ℤ → ℤ → Fn S (Transport ℤ Error)
  unfolding try_value from_optional of_value of_failure
  field_int t section key lo hi =
      try_value h note_nothing (λ e. e)
        (lift (from_optional (t.int_at section key) (λ _. done missing)))
        (λ v.
          if outside lo hi v
          then pure (of_failure (fail out_of_range))
          else pure (of_value (to_int v)))

  unfoldable pub validate : Table → Fn S (Transport Config Error)
  unfolding field_int field_string of_value
  validate t =
      try_value h note_nothing (λ e. e) (lift (field_string t server host))
        λ host.
          try_value h note_nothing (λ e. e) (field_int t server port (pos 1) (pos 65535))
            λ port.
              try_value h note_nothing (λ e. e) (field_int t server workers (pos 1) (pos 1024))
                λ workers. pure (of_value (record { host = host; port = port; workers = workers }))

  unfoldable pub read_limit : ℕ → Table → Key → ℤ → ℤ → Fn S (Transport ℤ ErasedError)
  unfolding of_value of_failure
  read_limit dom t key lo hi = elim (t.int_at limits key) [
    | none ↦ pure (of_failure (fail (as_erased dom 2)))
    | some v ↦
        if outside lo hi v
        then pure (of_failure (fail (as_erased dom 3)))
        else pure (of_value (to_int v))
  ]

  unfoldable pub check_limits : ℕ → Table → Fn S (Transport Limits ErasedError)
  unfolding read_limit of_value of_failure
  check_limits dom t =
      if not (t.is_table limits)
      then pure (of_failure (fail (as_erased dom 1)))
      else (try_value h note_nothing (λ e. e)
          (read_limit dom t max_connections (pos 1) (pos 1000000))
          λ connections.
            try_value h note_nothing (λ e. e) (read_limit dom t timeout_ms (pos 1) (pos 600000))
              λ timeout.
                pure (of_value (record { max_connections = connections; timeout_ms = timeout })))
