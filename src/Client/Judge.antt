-- ===== src/Client/Judge.antt =====
-- What reference_app/optee_ta/ta/manifest_ta.cpp does with a manifest of entries, as a program over the
-- entries themselves: no byte is read. The owners and the faults are the trusted application's.
use jmpxx.Prelude.{ℕ, zero, suc, ◌+◌, Bool, Option, none, some, List, [], ◌∷◌, ◌==◌, if◌then◌else◌}
use jmpxx.Prelude.Text.{String, same}
use jmpxx.Core.Error.{Error}
use jmpxx.Core.Transport.Refines.{Result}
use jmpxx.Unwind.{Arm, ◌>>◌, pure, modify, gets, dangling}
use jmpxx.Unwind.Escape.{Payload, frame, escape_scope}
use jmpxx.Manifest.Verify.{
  length_implausible, digest_mismatch, reference_missing, Instance, max_depth, pop_name, deepen,
  free_digest, count_entry, reset, fail, visiting, allocate,
}
use jmpxx.Client.Builder.{Spec, ref_text}
use jmpxx.Client.Layout.{image_of}

-- The first entry with a name.
unfoldable pub named : String → List Spec → Option Spec
named want [] = none
named want (e ∷ es) = let rest = named want es in if same e.name want then some e else rest

module _ (p : Payload Error) (available : ℕ → Bool) (sha256 : List ℕ → List ℕ)
    (es : List Spec) where
  unfoldable pub judge_reference :
      (Spec → Arm Instance (Unit {0})) → ℕ → String → Arm Instance (Unit {0})
  judge_reference next depth [] = pure tt
  judge_reference next depth (c ∷ ref) = elim (named (c ∷ ref) es) [
    | none ↦ fail p reference_missing (c ∷ ref) depth
    | some e ↦ next e
  ]

  unfoldable pub judge_image : Spec → ℕ → Arm Instance (Unit {0})
  judge_image e depth =
      if same (sha256 (image_of e)) e.digest
      then modify count_entry
      else fail p digest_mismatch e.name depth

  unfoldable pub judge_body : (Spec → Arm Instance (Unit {0})) → Spec → ℕ → Arm Instance (Unit {0})
  judge_body next e depth =
      if e.declared == 0
      then fail p length_implausible e.name depth
      else (judge_reference next depth (ref_text e.ref) >> judge_image e depth)

  -- The fuel is that of the verification.
  unfoldable pub judge_entry : ℕ → Spec → ℕ → Arm Instance (Unit {0})
  judge_entry zero e depth = λ w. (dangling, w)
  judge_entry (suc fuel) e depth = do
    modify (deepen depth)
    visiting p e.name depth
    frame (modify pop_name) (do
      allocate p available depth
      frame (modify free_digest)
          (judge_body (λ target. judge_entry fuel target (depth + 1)) e depth))

  unfoldable pub judge_manifest : List ℕ → Spec → Arm Instance (Result ℕ Error)
  judge_manifest junk e = do
    modify reset
    escape_scope p junk (do judge_entry (max_depth + 2) e 0; gets (λ s. s.entries_verified))
