-- ===== src/StoreCheck/Image.antt =====
-- The demonstration of reference_app/embedded/src/store_check.cpp: the staging of an image, the runs of
-- the checker on it, and what they expect. The filesystem (littlefs) on the flash is the parameter.
use jmpxx.Prelude.{
  ℕ, ◌+◌, Bool, true, false, not, ◌&&◌, Option, none, some, List, [], ◌∷◌, ◌++◌, ◌==◌,
  if◌then◌else◌, length,
}
use Prim.Native.String.{String}
use jmpxx.Prelude.Codes.{codes}
use jmpxx.Prelude.Int.{ℤ, pos, negsuc, eqb_ℤ}
use jmpxx.Prelude.Text.{same}
use jmpxx.Core.Error.{Error}
use jmpxx.Core.Transport.Refines.{Result, ok, failed}
use jmpxx.Unwind.{Arm, ◌>>=◌, ◌>>◌, pure, modify, gets}
use jmpxx.Unwind.Escape.{Payload}
use jmpxx.StoreCheck.Fields.{Board, Fault, fault_code}
use jmpxx.StoreCheck.Check.{Filesystem, record_path, check_image}

-- The calls that write the image. A file that is created is opened, and is written to until it is closed;
-- `none` is an error.
pub record Storage (S : Type 0) : Type 0 where
  pub format : S → S
  pub mount : S → S
  pub unmount : S → S
  pub mkdir : List ℕ → S → S
  pub create : List ℕ → S → Option S
  pub write : List ℕ → S → S
  pub close : S → S

module _ {S : Type 0} (st : Storage S) where
  unfoldable pub put_record : List ℕ → List ℕ → S → S
  put_record name body s = elim (st.create (record_path name) s) [
    | none ↦ s
    | some opened ↦ st.close (st.write body opened)
  ]

  unfoldable pub put_records : List (List ℕ × List ℕ) → S → S
  unfolding put_record
  put_records [] s = s
  put_records ((name, body) ∷ rest) s = put_records rest (put_record name body s)

-- The records that `stage_image` puts, in its order.
abbrev pub staged : List (List ℕ × List ℕ)
staged =
    (codes "boot", codes "RCRD1\nname=ab\nsum=195\nref=net\n")
    ∷ (codes "net", codes "RCRD1\nhost=aa\nsum=194\nref=leaf\n")
    ∷ (codes "leaf", codes "RCRD1\nvalue=abc\nsum=294\n")
    ∷ (codes "bad_boot", codes "RCRD1\nname=ab\nsum=195\nref=bad_leaf\n")
    ∷ (codes "bad_leaf", codes "RCRD1\nvalue=abc\nsum=1\n")
    ∷ (codes "dangling", codes "RCRD1\nname=ab\nsum=195\nref=absent\n")
    ∷ (codes "loop_a", codes "RCRD1\nname=ab\nsum=195\nref=loop_b\n")
    ∷ (codes "loop_b", codes "RCRD1\nname=ab\nsum=195\nref=loop_a\n")
    ∷ (codes "corrupt", codes "XXXX1\nvalue=abc\nsum=294\n")
    ∷ []

-- `erase` is the `memset` of the flash.
unfoldable pub stage_image : {S : Type 0} → Storage S → (S → S) → S → S
unfolding put_records
stage_image st erase s =
    let mounted = st.mount (st.format (erase s)) in
    st.unmount (put_records st staged (st.mkdir (codes "/records") mounted))

unfoldable pub fault_text : ℤ → String
fault_text (pos n) =
    if n == 1
    then "the image did not mount"
    else if n == 2
    then "a record could not be read"
    else if n == 3
    then "a record header is not RCRD"
    else if n == 4
    then "a record declares an unsupported schema version"
    else if n == 5
    then "a field is malformed"
    else if n == 6
    then "a record checksum does not match"
    else if n == 7
    then "a referenced record is absent"
    else if n == 8
    then "the references form a cycle"
    else if n == 9
    then "the reference nesting is too deep"
    else "unknown fault"
fault_text (negsuc n) = "unknown fault"

pub data Line : Type 0 where
  checked : List ℕ → ℤ → ℕ → Line
  fault_at : List ℕ → ℤ → ℤ → List ℕ → String → Line
  expectation_failed : String → Line
  passed : Bool → Line

-- `g_failures`, and the lines that are printed after the banner.
pub record Bench : Type 0 where
  pub failures : ℕ
  pub lines : List Line

abbrev pub print : Line → Bench → Bench
print line c = record c { lines = c.lines ++ line ∷ [] }

unfoldable pub expect : Bool → String → Bench → Bench
expect holds what c =
    if holds
    then c
    else record { failures = c.failures + 1; lines = c.lines ++ expectation_failed what ∷ [] }

abbrev pub clear_record : Board → Board
clear_record b = record b { fault_record = [] }

abbrev pub value_or : Result ℕ Error → ℤ → ℤ
value_or (ok n) d = pos n
value_or (failed e) d = d

abbrev pub has_value : Result ℕ Error → Bool
has_value (ok n) = true
has_value (failed e) = false

-- `r.has_value() ? d : r.error().code`, and the same of the domain.
abbrev pub code_or : Result ℕ Error → ℤ → ℤ
code_or (ok n) d = d
code_or (failed e) d = e.code

abbrev pub domain_or : Result ℕ Error → ℤ → ℤ
domain_or (ok n) d = d
domain_or (failed e) d = e.domain

-- What `run` makes of the result, in the state that the check leaves.
unfoldable pub judge : List ℕ → ℕ → List ℕ → Result ℕ Error → Board → Bench → Bench
unfolding fault_text
judge entry expected_fault expected_record r b c =
    if expected_fault == 0
    then expect (length b.path == 0) "the reference path is empty after a valid image" (
        expect (has_value r) "a valid image validates"
          (print (checked entry (value_or r (negsuc 0)) b.deepest) c))
    else expect (length b.path == 0) "the reference path is empty after an escape" (
        expect (same b.fault_record expected_record) "the offending record is named" (
          expect (not (has_value r) && eqb_ℤ (code_or r (pos 0)) (pos expected_fault))
            "the fault is the expected one"
            (expect (not (has_value r)) "a bad image reports a fault" (
              print
                (fault_at entry (code_or r (pos 0)) (domain_or r (negsuc 0)) b.fault_record
                  (fault_text (code_or r (pos 0))))
                c))))

module _ (p : Payload Error) (strtol : List ℕ → ℤ) (fs : Filesystem) (junk : List ℕ) where
  unfoldable pub run : List ℕ → ℕ → List ℕ → Bench → Arm Board Bench
  unfolding judge
  run entry expected_fault expected_record c = do
    modify clear_record
    r ← check_image p strtol fs junk entry
    gets (λ b. judge entry expected_fault expected_record r b c)

  unfoldable pub runs : List (List ℕ × ℕ × List ℕ) → Bench → Arm Board Bench
  unfolding run
  runs [] c = pure c
  runs ((entry, expected_fault, expected_record) ∷ rest) c = do
    c₁ ← run entry expected_fault expected_record c
    runs rest c₁

-- The runs of `main`, in its order.
abbrev pub expectations : List (List ℕ × ℕ × List ℕ)
expectations =
    (codes "boot", 0, [])
    ∷ (codes "bad_boot", fault_code Fault.checksum_mismatch, codes "bad_leaf")
    ∷ (codes "dangling", fault_code Fault.reference_missing, codes "absent")
    ∷ (codes "loop_a", fault_code Fault.reference_cycle, codes "loop_a")
    ∷ (codes "corrupt", fault_code Fault.header_bad, codes "corrupt")
    ∷ (codes "absent", fault_code Fault.record_unreadable, codes "absent")
    ∷ (codes "boot", 0, [])
    ∷ []

-- `main`: the image is staged, the filesystem is what `view` says of it, and the status follows the
-- failures.
unfoldable pub main :
    {S : Type 0}
    → Payload Error
    → (List ℕ → ℤ)
    → Storage S
    → (S → S)
    → (S → Filesystem)
    → List ℕ
    → S
    → Arm Board (ℕ × Bench)
unfolding stage_image runs
main p strtol st erase view junk s = do
  c ←
      runs p strtol (view (stage_image st erase s)) junk expectations
        (record { failures = 0; lines = [] })
  pure (if c.failures == 0 then (0, print (passed true) c) else (1, print (passed false) c))
