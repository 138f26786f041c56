-- ===== src/StoreCheck/Check.antt =====
-- reference_app/embedded/src/store_check.cpp: the recursive check of the records of an image. The
-- filesystem (littlefs) is the parameter.
use jmpxx.Prelude.{
  ℕ, zero, suc, ◌+◌, ◌-◌, Bool, false, not, ◌||◌, Option, none, some, List, [], ◌∷◌, ◌++◌, ltb, leb,
  ◌==◌, if◌then◌else◌, length, get_or, take, drop,
}
use jmpxx.Prelude.Int.{ℤ, pos, negsuc, ltb_ℤ, to_unsigned}
use jmpxx.Core.Error.{Error}
use jmpxx.Core.Transport.Refines.{Result}
use jmpxx.Unwind.{Arm, ◌>>=◌, ◌>>◌, pure, modify, gets, dangling}
use jmpxx.Unwind.Escape.{Payload, frame, escape_scope}
use jmpxx.StoreCheck.Fields.{
  String, mount_failed, record_unreadable, header_bad, version_unsupported, field_malformed,
  checksum_mismatch, reference_missing, reference_cycle, nesting_too_deep, max_path, Board, same,
  is_prefix, until_nul, line_starts, fail_with, fields,
}

-- What the code asks of the filesystem: whether it mounts, whether a file opens and exists, and what a
-- read returns, `none` for an error.
pub record Filesystem : Type 0 where
  pub mounts : Bool
  pub opens : String → Bool
  pub exists : String → Bool
  pub read : String → ℕ → Option (List ℕ)

-- `snprintf(path, 64, "/records/%s", name)`.
abbrev pub record_path : String → String
record_path name = take 63 ((47 ∷ 114 ∷ 101 ∷ 99 ∷ 111 ∷ 114 ∷ 100 ∷ 115 ∷ 47 ∷ []) ++ name)

abbrev pub on_path : String → List String → Bool
on_path name [] = false
on_path name (n ∷ ns) = same n name || on_path name ns

-- "RCRD"
abbrev pub header : String
header = 82 ∷ 67 ∷ 82 ∷ 68 ∷ []

abbrev pub push_name : String → Board → Board
push_name name b = record b { path = name ∷ b.path }

-- `--g_path_len`.
abbrev pub pop_name : Board → Board
pop_name b = record b { path = drop 1 b.path }

abbrev pub deepen : ℕ → Board → Board
deepen depth b = if ltb b.deepest depth then record b { deepest = depth } else b

-- The destructor of `open_file`.
abbrev pub close_file : Board → Board
close_file b = record b { open_files = b.open_files - 1 }

abbrev pub count_record : Board → Board
count_record b = record b { records_checked = b.records_checked + 1 }

abbrev pub reset_counters : Board → Board
reset_counters b = record b { records_checked = 0; deepest = 0 }

module _ (p : Payload Error) (strtol : String → ℤ) (fs : Filesystem) where
  -- The constructor of `visiting`.
  unfoldable pub visiting : String → ℕ → Arm Board (Unit {0})
  visiting name depth = do
    path ← gets (λ b. b.path)
    if on_path name path
        then fail_with p strtol reference_cycle name depth
        else if leb max_path (length path)
        then fail_with p strtol nesting_too_deep name depth
        else modify (push_name name)

  -- The constructor of `open_file`.
  unfoldable pub open_file : String → String → ℕ → Arm Board (Unit {0})
  open_file path name depth =
      if fs.opens path
      then modify (λ b. record b { open_files = b.open_files + 1 })
      else fail_with p strtol record_unreadable name depth

  -- The read into the buffer of 192, of which one is kept for the terminator.
  unfoldable pub read_record : String → ℕ → Arm Board (List ℕ)
  read_record name depth = elim (fs.read (record_path name) 191) [
    | none ↦ fail_with p strtol record_unreadable name depth
    | some buf ↦
        if ltb (length buf) 12 then fail_with p strtol record_unreadable name depth else pure buf
  ]

  -- The header, the version, the fields and the checksum of the record; the result is its reference.
  unfoldable pub check_content : String → ℕ → List ℕ → Arm Board (Option String)
  unfolding fields
  check_content name depth buf =
      if not (is_prefix header buf)
      then fail_with p strtol header_bad name depth
      else if not (get_or buf 4 0 == 49)
      then fail_with p strtol version_unsupported name depth
      else (do
        st ←
            fields p strtol name depth (line_starts (until_nul (drop 6 buf)))
              (record { sum = 0; declared = negsuc 0; ref = none })
        if ltb_ℤ st.declared (pos 0)
            then fail_with p strtol field_malformed name depth
            else if not (to_unsigned st.declared == st.sum)
            then fail_with p strtol checksum_mismatch name depth
            else (do modify count_record; pure st.ref))

  -- Following the reference by `next`.
  abbrev pub follow : (String → Arm Board (Unit {0})) → ℕ → Option String → Arm Board (Unit {0})
  follow next depth none = pure tt
  follow next depth (some ref) =
      if fs.exists (record_path ref)
      then next ref
      else fail_with p strtol reference_missing ref depth

  -- What happens under the two owners, the marker and the file.
  abbrev pub under_file : (String → Arm Board (Unit {0})) → String → ℕ → Arm Board (Unit {0})
  under_file next name depth = do
    buf ← read_record name depth
    ref ← check_content name depth buf
    follow next depth ref

  abbrev pub under_marker : (String → Arm Board (Unit {0})) → String → ℕ → Arm Board (Unit {0})
  under_marker next name depth = do
    open_file (record_path name) name depth
    frame (modify close_file) (under_file next name depth)

  -- The first argument is fuel: one for every record on the path, and one more. Without it the model
  -- has no meaning to give.
  unfoldable pub check_record : ℕ → String → ℕ → Arm Board (Unit {0})
  check_record zero name depth = λ w. (dangling, w)
  check_record (suc fuel) name depth = do
    modify (deepen depth)
    visiting name depth
    frame (modify pop_name) (under_marker (λ ref. check_record fuel ref (depth + 1)) name depth)

  -- The body of the landing scope; unmounting does not touch what is modelled.
  unfoldable pub check_body : String → Arm Board ℕ
  check_body entry =
      if fs.mounts
      then (do
        modify reset_counters
        check_record (max_path + 1) entry 0
        gets (λ b. b.records_checked))
      else fail_with p strtol mount_failed entry 0

  unfoldable pub check_image : List ℕ → String → Arm Board (Result ℕ Error)
  check_image junk entry = escape_scope p junk (check_body entry)
