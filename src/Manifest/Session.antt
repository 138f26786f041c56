-- ===== src/Manifest/Session.antt =====
-- The entry points of reference_app/optee_ta/ta/manifest_ta.cpp that a client's invocations reach. The
-- status codes and the parameter types of the kit are the parameter `kit`.
use jmpxx.Prelude.{
  ℕ, ◌+◌, ◌*◌, ◌%◌, ◌^◌, Bool, not, Option, none, some, List, [], ◌∷◌, ◌++◌, ltb, ◌==◌,
  if◌then◌else◌, length, take,
}
use jmpxx.Prelude.Int.{to_unsigned}
use jmpxx.Prelude.Text.{String, until_nul}
use jmpxx.Core.Error.{Error}
use jmpxx.Core.Transport.Refines.{Result, ok, failed}
use jmpxx.Unwind.{
  Thread, Exit, returned, landing, stopped, dangling, Arm, ◌>>=◌, pure, modify, gets,
}
use jmpxx.Unwind.Escape.{Payload}
use jmpxx.Manifest.Verify.{Instance, max_name, verify_manifest}

pub record Kit : Type 0 where
  pub success : ℕ
  pub bad_parameters : ℕ
  pub not_supported : ℕ
  pub short_buffer : ℕ
  pub layout_types : ℕ
  pub verify_types : ℕ

-- The parameters of an invocation: the first as a value and as a memory, `none` for a null buffer, the
-- value of the second, and the memory of the third, which is as long as its size says.
pub record Params : Type 0 where
  pub layout : ℕ × ℕ
  pub buffer : Option (List ℕ)
  pub verdict : ℕ × ℕ
  pub out : List ℕ

-- The status that is returned, and the parameters after the call.
pub record Reply : Type 0 where
  pub status : ℕ
  pub params : Params

-- An invocation.
pub record Request : Type 0 where
  pub cmd : ℕ
  pub types : ℕ
  pub params : Params

-- TA_MANIFEST_CMD_VERIFY and TA_MANIFEST_CMD_LAYOUT.
abbrev pub cmd_verify : ℕ
cmd_verify = 0

abbrev pub cmd_layout : ℕ
cmd_layout = 1

-- The size and the alignment of `error`, the size of `result<int, error>`, and the version 0.1.5.
abbrev pub layout_value : ℕ × ℕ
layout_value = (8 + 12 * 256 + 4 * 65536, 105)

abbrev pub verdict_value : Result ℕ Error → ℕ × ℕ
verdict_value (ok n) = (0, n % 2 ^ 32)
verdict_value (failed e) = (to_unsigned e.code, to_unsigned e.domain)

-- The characters of `g_fault_name` before the first NUL, of the first `max_name`.
abbrev pub reported_name : Instance → String
reported_name s = until_nul (take max_name s.fault_name)

-- The secure world as the trusted application sees it: what the thread-local variables of each TEE
-- thread hold, and the instance, which all of them share and which is kept alive between invocations.
pub record Secure : Type 0 where
  pub threads : ℕ → Thread
  pub app : Instance

-- The thread `i` enters.
unfoldable pub enter : {A : Type 0} → ℕ → Arm Instance A → Secure → Exit A × Secure
enter i body m =
    let (x, w) = body (record { thread = m.threads i; app = m.app }) in
    (x, record { threads = λ j. if j == i then w.thread else m.threads j; app = w.app })

abbrev pub add_reply : Reply → Exit (List Reply) × Secure → Exit (List Reply) × Secure
add_reply r (returned rs, m) = (returned (r ∷ rs), m)
add_reply r (landing a, m) = (landing a, m)
add_reply r (stopped why, m) = (stopped why, m)
add_reply r (dangling, m) = (dangling, m)

-- What comes after an invocation, if it has returned.
abbrev pub follow_reply :
    Exit Reply × Secure → (Secure → Exit (List Reply) × Secure) → Exit (List Reply) × Secure
follow_reply (returned r, m) k = add_reply r (k m)
follow_reply (landing a, m) k = (landing a, m)
follow_reply (stopped why, m) k = (stopped why, m)
follow_reply (dangling, m) k = (dangling, m)

module _ (kit : Kit) where
  -- What follows the verdict: the name, a NUL and the length of the path go to the third parameter.
  unfoldable pub deliver : Params → Instance → Reply
  deliver ps s =
      let name = reported_name s in
      if ltb (length ps.out) (length name + 2)
      then record { status = kit.short_buffer; params = ps }
      else record {
        status = kit.success;
        params = record ps { out = name ++ 0 ∷ length s.path % 256 ∷ [] };
      }

  module _ (p : Payload Error) (available : ℕ → Bool) (sha256 : List ℕ → List ℕ) (word : ℕ)
      (junk : List ℕ) where
    -- The command that verifies the buffer.
    unfoldable pub verify_command : Params → Option (List ℕ) → Arm Instance Reply
    verify_command ps none = pure (record { status = kit.bad_parameters; params = ps })
    verify_command ps (some []) = pure (record { status = kit.bad_parameters; params = ps })
    verify_command ps (some (b ∷ bs)) = do
      verdict ← verify_manifest p available sha256 word (b ∷ bs) junk
      gets (deliver (record ps { verdict = verdict_value verdict }))

    unfoldable pub invoke_command : ℕ → ℕ → Params → Arm Instance Reply
    invoke_command cmd types ps =
        if cmd == cmd_layout
        then (if not (types == kit.layout_types)
            then pure (record { status = kit.bad_parameters; params = ps })
            else pure
                (record { status = kit.success; params = record ps { layout = layout_value } }))
        else if not (cmd == cmd_verify)
        then pure (record { status = kit.not_supported; params = ps })
        else if not (types == kit.verify_types)
        then pure (record { status = kit.bad_parameters; params = ps })
        else verify_command ps ps.buffer

    -- The invocations of the instance, one after the other, each on the thread that enters with it.
    unfoldable pub serve : List (ℕ × Request) → Secure → Exit (List Reply) × Secure
    serve [] m = (returned [], m)
    serve ((i, r) ∷ rs) m =
        follow_reply (enter i (invoke_command r.cmd r.types r.params) m) (serve rs)

-- `TA_CreateEntryPoint`.
unfoldable pub create : Arm Instance (Unit {0})
create = modify (λ s. record s { path = [] })
