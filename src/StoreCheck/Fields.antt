-- ===== src/StoreCheck/Fields.antt =====
-- reference_app/embedded/src/store_check.cpp: the state of the checker, its faults, and the fields of
-- one record. A character is its code.
use jmpxx.Prelude.{
  ℕ, ◌+◌, ◌-◌, ◌%◌, ◌^◌, Bool, false, ◌||◌, Option, none, some, List, [], ◌∷◌, ltb, leb, ◌==◌,
  if◌then◌else◌, length, take, drop,
}
use jmpxx.Prelude.Int.{ℤ, pos}
pub use jmpxx.Prelude.Text.{String, same, is_prefix, strchr, until_nul}
use jmpxx.Core.Error.{Error}
use jmpxx.Unwind.{Arm, ◌>>=◌, ◌>>◌, pure, modify}
use jmpxx.Unwind.Escape.{Payload, eject}

pub data Fault : Type 0 where
  mount_failed record_unreadable header_bad version_unsupported field_malformed checksum_mismatch
        reference_missing reference_cycle nesting_too_deep :
      Fault

abbrev pub fault_code : Fault → ℕ
fault_code mount_failed = 1
fault_code record_unreadable = 2
fault_code header_bad = 3
fault_code version_unsupported = 4
fault_code field_malformed = 5
fault_code checksum_mismatch = 6
fault_code reference_missing = 7
fault_code reference_cycle = 8
fault_code nesting_too_deep = 9

abbrev pub max_name : ℕ
max_name = 32

abbrev pub max_path : ℕ
max_path = 8

-- The globals: the names on the reference path, the newest first, the counters, the record that a
-- fault names; and how many file handles are open in the filesystem.
pub record Board : Type 0 where
  pub path : List String
  pub open_files : ℕ
  pub records_checked : ℕ
  pub deepest : ℕ
  pub fault_record : String

unfoldable pub note_record : String → Board → Board
note_record name b = record b { fault_record = take (max_name - 1) name }

-- The values that the loop over the lines keeps; `declared` starts at -1.
pub record Fields : Type 0 where
  pub sum : ℕ
  pub declared : ℤ
  pub ref : Option String

-- `sum += static_cast<unsigned char>(value[i])`, an `unsigned`.
abbrev pub add_bytes : ℕ → String → ℕ
add_bytes sum [] = sum
add_bytes sum (c ∷ s) = add_bytes ((sum + c) % 2 ^ 32) s

-- Where the lines start that the loop visits: the first, if there is any text, and after every
-- newline that is not the last character.
abbrev pub from_here : String → List String → List String
from_here [] starts = []
from_here (c ∷ s) starts = (c ∷ s) ∷ starts

abbrev pub after_newlines : String → List String
after_newlines [] = []
after_newlines (c ∷ s) = let rest = after_newlines s in if c == 10 then from_here s rest else rest

abbrev pub line_starts : String → List String
line_starts s = from_here s (after_newlines s)

-- "sum=" and "ref=".
abbrev pub sum_key : String
sum_key = 115 ∷ 117 ∷ 109 ∷ 61 ∷ []

abbrev pub ref_key : String
ref_key = 114 ∷ 101 ∷ 102 ∷ 61 ∷ []

-- How long the value at `from` is, up to the newline at `end` or to the end of the text.
abbrev pub value_length : Option ℕ → ℕ → String → ℕ
value_length (some end) from line = end - from
value_length none from line = length line - from

-- `end && eq > end`.
abbrev pub past : ℕ → Option ℕ → Bool
past eq none = false
past eq (some end) = ltb end eq

module _ (p : Payload Error) (strtol : String → ℤ) where
  unfoldable pub fail_with : {A : Type 0} → Fault → String → ℕ → Arm Board A
  unfolding note_record
  fail_with f name depth = do
    modify (note_record name)
    eject p (record { code = pos (fault_code f); domain = pos depth })

  -- One line, whose `=` is at `eq`.
  abbrev pub field_at : String → ℕ → String → ℕ → Fields → Arm Board Fields
  field_at name depth line eq st =
      let value = drop (eq + 1) line in
      let vlen = value_length (strchr line 10) (eq + 1) line in
      if is_prefix sum_key line
      then pure (record st { declared = strtol value })
      else if is_prefix ref_key line
      then (if vlen == 0 || leb max_name vlen
          then fail_with field_malformed name depth
          else pure (record st { ref = some (take vlen value) }))
      else pure (record st { sum = add_bytes st.sum (take vlen value) })

  unfoldable pub field : String → ℕ → String → Fields → Arm Board Fields
  field name depth line st = elim (strchr line 61) [
    | none ↦ fail_with field_malformed name depth
    | some eq ↦
        if past eq (strchr line 10)
        then fail_with field_malformed name depth
        else field_at name depth line eq st
  ]

  unfoldable pub fields : String → ℕ → List String → Fields → Arm Board Fields
  unfolding field
  fields name depth [] st = pure st
  fields name depth (line ∷ lines) st = field name depth line st >>= fields name depth lines
