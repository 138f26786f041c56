-- ===== src/StoreCheck/Runs.antt =====
-- The runs of reference_app/embedded/src/store_check.cpp: which verdicts they pass.
use jmpxx.Prelude.{
  ℕ, ◌+◌, ◌<◌, ◌≡◌, refl, ap, ◌∙◌, ◌↔◌, inl, inr, Bool, true, false, not, ◌&&◌, List, [], arith,
  ◌==◌, if◌then◌else◌, ==_iff, Bool-cases,
}
use Prim.Native.String.{String}
use jmpxx.Prelude.Int.{ℤ, pos, eqb_ℤ, eqb_ℤ_iff}
use jmpxx.Prelude.Text.{same, same→eq, same_self}
use jmpxx.Core.Error.{Error}
use jmpxx.Core.Transport.Refines.{Result, ok, failed}
use jmpxx.Unwind.{World, returned, resume}
use jmpxx.Unwind.Escape.{Payload, IsCarried}
use jmpxx.Unwind.Triple.{Yields}
use jmpxx.StoreCheck.Fields.{Board}
use jmpxx.StoreCheck.Check.{Filesystem}
use jmpxx.StoreCheck.Owners.{At}
use jmpxx.StoreCheck.Steps.{Escapes}
use jmpxx.StoreCheck.Sound.{Valid, check_image_lem}
use jmpxx.StoreCheck.Image.{Bench, expect, judge, run, clear_record, has_value, code_or}

-- The verdict that a run wants: a number where no fault is wanted, and otherwise the fault, with the
-- record that it names.
abbrev pub AsWanted : ℕ → List ℕ → Result ℕ Error → Board → Type 0
AsWanted want name (ok n) b = want ≡ 0
AsWanted want name (failed e) b = (0 < want) × (e.code ≡ pos want) × (b.fault_record ≡ name)

abbrev miss : Bool → ℕ
miss true = 0
miss false = 1

failures-expect :
    (h : Bool) (what : String) (c : Bench) → (expect h what c).failures ≡ c.failures + miss h
unfolding expect
failures-expect true what c = omega arith
failures-expect false what c = refl

failures-expect₂ :
    (h h' : Bool) (what what' : String) (c : Bench)
    → (expect h' what' (expect h what c)).failures ≡ c.failures + miss h + miss h'
failures-expect₂ h h' what what' c =
    failures-expect h' what' (expect h what c) ∙ ap (λ n. n + miss h') (failures-expect h what c)

-- The failures that a run adds when the path is empty.
abbrev added : ℕ → List ℕ → Result ℕ Error → Board → ℕ
added want name r b =
    if want == 0
    then miss (has_value r)
    else miss (not (has_value r))
      + miss (not (has_value r) && eqb_ℤ (code_or r (pos 0)) (pos want))
      + miss (same b.fault_record name)

failures-judge :
    (entry : List ℕ) (want : ℕ) (name : List ℕ) (r : Result ℕ Error) (b : Board) (c : Bench)
    → b.path ≡ []
    → (judge entry want name r b c).failures ≡ c.failures + added want name r b
unfolding judge
failures-judge entry want name r b c empty = elim (Bool-cases (want == 0)) [
  | inl met ↦ rw (met, empty) (failures-expect₂ (has_value r) true _ _ _ ∙ omega arith)
  | inr other ↦
      rw (other, empty)
        (failures-expect₂ (same b.fault_record name) true _ _ _
          ∙ ap (λ n. n + miss (same b.fault_record name) + 0)
              (failures-expect₂ (not (has_value r)) _ _ _ _)
          ∙ omega arith)
]

added_none :
    (want : ℕ) (name : List ℕ) (r : Result ℕ Error) (b : Board)
    → (added want name r b ≡ 0) ↔ AsWanted want name r b
added_none want name (ok n) b = elim (Bool-cases (want == 0)) [
  | inl met ↦ (λ _. (==_iff want 0).0 met, λ _. ground (arith, met))
  | inr other ↦ (λ h. ground (arith, h, other), λ h. ground (arith, h, other))
]
added_none want name (failed e) b = elim (Bool-cases (want == 0)) [
  | inl met ↦ (λ h. ground (arith, h, met), λ h. ground (arith, h.0, met))
  | inr other ↦ elim (Bool-cases (eqb_ℤ e.code (pos want))) [
    | inr wrong ↦ (
      λ h. ground (arith, h, other, wrong),
      λ h. ground (arith, (eqb_ℤ_iff e.code (pos want)).1 h.1, wrong),
    )
    | inl right ↦ elim (Bool-cases (same b.fault_record name)) [
      | inr unnamed ↦ (
        λ h. ground (arith, h, other, right, unnamed),
        λ h. ground (arith, (ap (λ l. same l name) h.2 ∙ same_self name), unnamed),
      )
      | inl named ↦ (
        λ _. (
          ground (arith, other),
          (eqb_ℤ_iff e.code (pos want)).0 right,
          same→eq b.fault_record name named,
        ),
        λ _. ground (arith, other, right, named),
      )
    ]
  ]
]

judge_lem :
    (entry : List ℕ) (want : ℕ) (name : List ℕ) (r : Result ℕ Error) (b : Board) (c : Bench)
    → b.path ≡ []
    → ((judge entry want name r b c).failures ≡ c.failures) ↔ AsWanted want name r b
judge_lem entry want name r b c empty =
    let sum = failures-judge entry want name r b c empty in
    (
      λ h. (added_none want name r b).0 (omega (arith, h, sum)),
      λ h. sum ∙ omega (arith, (added_none want name r b).1 h),
    )

module _ (p : Payload Error) (strtol : List ℕ → ℤ) (fs : Filesystem) (junk : List ℕ) where
  -- How a run in `w` ends.
  pub record Runs (entry : List ℕ) (want : ℕ) (name : List ℕ) (c : Bench) (w : World Board)
      : Type 0 where
    pub result : Result ℕ Error
    pub state : Board
    pub after : Bench
    pub lands :
        run p strtol fs junk entry want name c w ≡ (returned after, record w { app = state })
    pub idle : At [] w.app.open_files state
    pub means :
        Yields
          (Escapes [] w.app.open_files)
          (λ n. Valid p strtol fs w.app.open_files entry n)
          result
          state
    pub passes : (after.failures ≡ c.failures) ↔ AsWanted want name result state

  -- A run with no record on the path, on a thread that is not unwinding, ends, whatever the image holds,
  -- with no record on the path and every opened file closed. It counts no failure exactly if the
  -- check has come to what is wanted: to a number where no fault is wanted, and otherwise to that
  -- fault, with the record that is named. A number is that of a chain of sound records.
  pub run-AsWanted :
      (entry : List ℕ) (want : ℕ) (name : List ℕ) (c : Bench) (w : World Board)
      → w.thread.in_flight ≡ false
      → IsCarried p
      → w.app.path ≡ []
      → Runs entry want name c w
  unfolding run
  run-AsWanted entry want name c w calm carried empty =
      let l =
        check_image_lem p strtol fs junk entry (record w { app = clear_record w.app }) calm carried
          empty in
      let idle = released l.result l.state l.yields in
      record {
        result = l.result;
        state = l.state;
        after = judge entry want name l.result l.state c;
        lands = ap (resume (λ r w. (returned (judge entry want name r w.app c), w))) l.lands;
        idle = idle;
        means = l.yields;
        passes = judge_lem entry want name l.result l.state c idle.0;
      }
    where
      released :
          (r : Result ℕ Error) (s : Board)
          → Yields
              (Escapes [] w.app.open_files)
              (λ n. Valid p strtol fs w.app.open_files entry n)
              r
              s
          → At [] w.app.open_files s
      released (ok n) s h = h.0
      released (failed e) s h = h.0
