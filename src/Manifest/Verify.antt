-- ===== src/Manifest/Verify.antt =====
-- The state of the trusted application of reference_app/optee_ta/ta/manifest_ta.cpp, its owners, and
-- the verification of a manifest by descent. The kit's allocation of a hash operation and SHA-256 are
-- the parameters: `available` says of the n-th allocation whether it succeeds.
use jmpxx.Prelude.{
  ℕ, zero, suc, ◌+◌, ◌-◌, Bool, false, not, ◌||◌, Option, none, some, List, [], ◌∷◌, ◌++◌, ltb,
  ◌==◌, if◌then◌else◌, length, set, take, drop,
}
use jmpxx.Prelude.Int.{pos}
use jmpxx.Prelude.Text.{String, same}
use jmpxx.Core.Error.{Error}
use jmpxx.Core.Transport.Refines.{Result}
use jmpxx.Unwind.{Arm, ◌>>=◌, ◌>>◌, pure, modify, gets, dangling}
use jmpxx.Unwind.Escape.{Payload, eject, frame, escape_scope}
use jmpxx.Manifest.Reader.{u8, u32, slice, plus, has}
use jmpxx.Manifest.Find.{digest_bytes, find_entry}

pub data Fault : Type 0 where
  manifest_truncated header_bad version_unsupported entry_malformed length_implausible
        digest_mismatch reference_missing reference_cycle nesting_too_deep digest_unavailable :
      Fault

abbrev pub fault_code : Fault → ℕ
fault_code manifest_truncated = 1
fault_code header_bad = 2
fault_code version_unsupported = 3
fault_code entry_malformed = 4
fault_code length_implausible = 5
fault_code digest_mismatch = 6
fault_code reference_missing = 7
fault_code reference_cycle = 8
fault_code nesting_too_deep = 9
fault_code digest_unavailable = 10

abbrev pub max_depth : ℕ
max_depth = 6

abbrev pub max_name : ℕ
max_name = 24

abbrev pub max_image_bytes : ℕ
max_image_bytes = 1048576

-- The globals of the instance: the array `g_fault_name`, the counters and the names on the reference
-- path, the newest first; the hash operations that are allocated, and the calls that allocated.
pub record Instance : Type 0 where
  pub fault_name : List ℕ
  pub entries_verified : ℕ
  pub deepest : ℕ
  pub path : List String
  pub digests : ℕ
  pub allocations : ℕ

-- The first `max_name` characters of the name and a NUL go over the front of the array.
unfoldable pub note_name : String → Instance → Instance
note_name name s = record s {
  fault_name =
      (take max_name name ++ 0 ∷ []) ++ drop (suc (length (take max_name name))) s.fault_name;
}

-- "root", "digest" and "MFST".
abbrev pub root : String
root = 114 ∷ 111 ∷ 111 ∷ 116 ∷ []

abbrev pub digest_name : String
digest_name = 100 ∷ 105 ∷ 103 ∷ 101 ∷ 115 ∷ 116 ∷ []

abbrev pub magic : String
magic = 77 ∷ 70 ∷ 83 ∷ 84 ∷ []

abbrev pub on_path : String → List String → Bool
on_path name [] = false
on_path name (n ∷ ns) = same n name || on_path name ns

abbrev pub push_name : String → Instance → Instance
push_name name s = record s { path = name ∷ s.path }

-- `--g_path_len`.
abbrev pub pop_name : Instance → Instance
pop_name s = record s { path = drop 1 s.path }

abbrev pub deepen : ℕ → Instance → Instance
deepen depth s = if ltb s.deepest depth then record s { deepest = depth } else s

-- `TEE_FreeOperation`, in the destructor of `digest`.
abbrev pub free_digest : Instance → Instance
free_digest s = record s { digests = s.digests - 1 }

abbrev pub count_entry : Instance → Instance
count_entry s = record s { entries_verified = s.entries_verified + 1 }

abbrev pub reset : Instance → Instance
reset s = record s { fault_name = set s.fault_name 0 0; entries_verified = 0; deepest = 0 }

-- A read of the buffer; one outside it has no meaning.
abbrev pub reading : {A : Type 0} → Option A → Arm Instance A
reading none = λ w. (dangling, w)
reading (some a) = pure a

-- The write to `g_path`, an array of `max_depth + 1`; one past its end has no meaning.
unfoldable pub enter_path : String → Arm Instance (Unit {0})
enter_path name = do
  n ← gets (λ s. length s.path)
  if ltb n (max_depth + 1) then modify (push_name name) else λ w. (dangling, w)

module _ (p : Payload Error) where
  unfoldable pub fail : {A : Type 0} → Fault → String → ℕ → Arm Instance A
  fail f name depth = do
    modify (note_name name)
    eject p (record { code = pos (fault_code f); domain = pos depth })

  -- The constructor of `visiting`.
  unfoldable pub visiting : String → ℕ → Arm Instance (Unit {0})
  visiting name depth = do
    path ← gets (λ s. s.path)
    if on_path name path
        then fail reference_cycle name depth
        else if ltb max_depth (length path)
        then fail nesting_too_deep name depth
        else enter_path name

  module _ (available : ℕ → Bool) where
    -- The constructor of `digest`.
    unfoldable pub allocate : ℕ → Arm Instance (Unit {0})
    allocate depth = do
      granted ← gets (λ s. available s.allocations)
      modify (λ s. record s { allocations = s.allocations + 1 })
      if granted
          then modify (λ s. record s { digests = s.digests + 1 })
          else fail digest_unavailable digest_name depth

    module _ (sha256 : List ℕ → List ℕ) (word : ℕ) (buf : List ℕ) where
      -- The descent into the entry that `ref` names, by `next`.
      unfoldable pub descend :
          (String → ℕ → Arm Instance (Unit {0})) → ℕ → String → Arm Instance (Unit {0})
      descend next depth ref = if length ref == 0 then pure tt else (do
        target ← reading (find_entry word buf ref)
        elim target [ none ↦ fail reference_missing ref depth | some at ↦ next ref at ])

      -- The check of the image at `at` against the digest `expected`.
      unfoldable pub check_image : String → ℕ → ℕ → ℕ → List ℕ → Arm Instance (Unit {0})
      check_image name depth at declared expected =
          if has word buf at declared
          then (do
            image ← reading (slice buf at declared)
            if same (sha256 image) expected
                then modify count_entry
                else fail digest_mismatch name depth)
          else fail manifest_truncated name depth

      -- What follows the length and the digest of an entry.
      unfoldable pub check_reference :
          (String → ℕ → Arm Instance (Unit {0}))
          → String
          → ℕ
          → ℕ
          → ℕ
          → List ℕ
          → Arm Instance (Unit {0})
      check_reference next name depth at declared expected = do
        ref_len ← reading (u8 buf at)
        if has word buf (plus word at 1) ref_len
            then (do
              ref ← reading (slice buf (plus word at 1) ref_len)
              if declared == 0 || ltb max_image_bytes declared
                  then fail length_implausible name depth
                  else (do
                    descend next depth ref
                    check_image name depth (plus word (plus word at 1) ref_len) declared expected))
            else fail manifest_truncated name depth

      -- What happens under the two owners, the marker and the hash.
      unfoldable pub under_digest :
          (String → ℕ → Arm Instance (Unit {0})) → String → ℕ → ℕ → Arm Instance (Unit {0})
      under_digest next name body depth =
          if has word buf body (4 + digest_bytes + 1)
          then (do
            declared ← reading (u32 buf body)
            expected ← reading (slice buf (plus word body 4) digest_bytes)
            check_reference next name depth (plus word (plus word body 4) digest_bytes) declared
                expected)
          else fail manifest_truncated name depth

      abbrev pub under_marker :
          (String → ℕ → Arm Instance (Unit {0})) → String → ℕ → ℕ → Arm Instance (Unit {0})
      under_marker next name body depth = do
        allocate depth
        frame (modify free_digest) (under_digest next name body depth)

      -- The first argument is fuel: one for every entry that the path has room for, and one more.
      unfoldable pub verify_entry : ℕ → String → ℕ → ℕ → Arm Instance (Unit {0})
      verify_entry zero name body depth = λ w. (dangling, w)
      verify_entry (suc fuel) name body depth = do
        modify (deepen depth)
        visiting name depth
        frame (modify pop_name)
            (under_marker (λ ref at. verify_entry fuel ref at (depth + 1)) name body depth)

      -- The name of the first entry, and its verification.
      unfoldable pub verify_first : Arm Instance ℕ
      verify_first =
          if has word buf 6 1
          then (do
            first_len ← reading (u8 buf 6)
            if first_len == 0 || not (has word buf 7 first_len)
                then fail entry_malformed root 0
                else (do
                  first ← reading (slice buf 7 first_len)
                  verify_entry (max_depth + 2) first (plus word 7 first_len) 0
                  gets (λ s. s.entries_verified)))
          else fail manifest_truncated root 0

      -- The body of the landing scope.
      unfoldable pub verify_body : Arm Instance ℕ
      verify_body =
          if has word buf 0 6
          then (do
            mark ← reading (slice buf 0 4)
            version ← reading (u8 buf 4)
            count ← reading (u8 buf 5)
            if not (same mark magic)
                then fail header_bad root 0
                else if not (version == 1)
                then fail version_unsupported root 0
                else if count == 0
                then fail entry_malformed root 0
                else verify_first)
          else fail manifest_truncated root 0

      unfoldable pub verify_manifest : List ℕ → Arm Instance (Result ℕ Error)
      verify_manifest junk = do modify reset; escape_scope p junk verify_body
