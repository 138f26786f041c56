-- ===== src/ConfigValidate/Tests.antt =====
-- Runs of the validator, and of the selection of a backend, on concrete inputs.
use jmpxx.Prelude.{ℕ, ◌≡◌, ◌↔◌, ◌⊎◌, true, false, some, [], ◌∷◌}
use jmpxx.Prelude.Int.{pos}
use jmpxx.Core.Error.{Error}
use jmpxx.Core.Outcome.{done}
use jmpxx.Core.Hardening.{fast}
use jmpxx.Core.Transport.Refines.{Result, ok, failed, embed}
use jmpxx.ConfigValidate.Program.{
  server, host, port, workers, Table, missing, out_of_range, Config, outside, validate,
}
use jmpxx.ConfigValidate.Server.{validate_lem}

-- The port is out of range.
abbrev document : Table
document = record {
  string_at = λ section key. some (97 ∷ []);
  int_at = λ section key. elim key [ port ↦ some (pos 70000) | _ ↦ some (pos 8) ];
  is_table = λ section. true;
}

validate_lem_example :
    (r : Result Config Error) × (validate fast document (let n : ℕ = 0 in n) ≡ (done (embed r), 0))
    × ((c : Config)
        → (r ≡ ok c) ↔ (
            (document.string_at server host ≡ some c.host)
            × (document.int_at server port ≡ some c.port)
            × (outside (pos 1) (pos 65535) c.port ≡ false)
            × (document.int_at server workers ≡ some c.workers)
            × (outside (pos 1) (pos 1024) c.workers ≡ false)))
    × ((e : Error) → r ≡ failed e → (e ≡ missing) ⊎ (e ≡ out_of_range))
validate_lem_example = validate_lem fast document 0
