-- ===== src/StoreCheck/Tests.antt =====
-- Runs of the record checker on concrete images. An error is carried as two tagged numbers.
use jmpxx.Prelude.{
  ℕ, ◌+◌, ◌-◌, ◌*◌, ◌≡◌, refl, Bool, true, false, Option, none, some, List, [], ◌∷◌, arith, ◌==◌,
  if◌then◌else◌, get_or, take, drop, replicate, length-replicate,
}
use jmpxx.Prelude.Int.{ℤ, pos}
use jmpxx.Core.Transport.Refines.{ok, failed}
use jmpxx.Unwind.{idle, returned, World, payload_capacity}
use jmpxx.Unwind.Escape.{eject, frame, escape_scope, copy_bytes, read_error}
use jmpxx.Unwind.Plain.{plain, plain-IsCarried}
use jmpxx.StoreCheck.Fields.{String, Board, fail_with, fields}
use jmpxx.StoreCheck.Check.{
  Filesystem, visiting, open_file, read_record, check_content, check_record, check_body,
  check_image,
}
use jmpxx.Prelude.Text.{same}
use jmpxx.Unwind.{Exit}
use jmpxx.Unwind.Triple.{Landed}
use jmpxx.StoreCheck.Steps.{Escapes}
use jmpxx.StoreCheck.Sound.{Valid, check_image_lem}
use jmpxx.StoreCheck.Flash.{erased, flash_prog, flash_erase, Wrote, flash_lem}
use jmpxx.StoreCheck.Image.{
  Storage, put_record, put_records, stage_image, fault_text, Bench, expect, judge, run, runs, main,
}
use jmpxx.StoreCheck.Runs.{Runs, run-AsWanted}

-- "RCRD1\n", "k=a\n" and "sum=97\n"; and the same with the header cut off.
abbrev leaf : List ℕ
leaf = 82 ∷ 67 ∷ 82 ∷ 68 ∷ 49 ∷ 10 ∷ 107 ∷ 61 ∷ 97 ∷ 10 ∷ 115 ∷ 117 ∷ 109 ∷ 61 ∷ 57 ∷ 55 ∷ 10 ∷ []

-- "RCRD1\n" and "ref=b\nsum=0\n".
abbrev branch : List ℕ
branch =
    82 ∷ 67 ∷ 82 ∷ 68 ∷ 49 ∷ 10 ∷ 114 ∷ 101 ∷ 102 ∷ 61 ∷ 98 ∷ 10 ∷ 115 ∷ 117 ∷ 109 ∷ 61 ∷ 48 ∷ 10
    ∷ []

-- The record "a" refers to "b", which is a leaf with a sum of 97.
abbrev image : Filesystem
image = record {
  mounts = true;
  opens = λ path. true;
  exists = λ path. true;
  read = λ path n. some (if get_or path 9 0 == 97 then branch else leaf);
}

-- The same image in which "b" has no header.
abbrev damaged : Filesystem
damaged = record image {
  read = λ path n. some (if get_or path 9 0 == 97 then branch else drop 1 leaf);
}

-- `strtol` of the values that occur, "0" and "97".
abbrev strtol : String → ℤ
strtol s = if get_or s 0 0 == 48 then pos 0 else pos 97

abbrev board : Board
board = record { path = []; open_files = 0; records_checked = 0; deepest = 0; fault_record = [] }

abbrev quiet : World Board
quiet = record { thread = idle; app = board }

junk : List ℕ
junk = replicate payload_capacity 0

valid_image : (check_image plain strtol image junk (97 ∷ []) quiet).0 ≡ returned (ok 2)
unfolding check_image check_body check_record escape_scope visiting open_file frame read_record
    check_content fields
valid_image = refl

-- The fault is in the record "b", at the depth 1.
damaged_image :
    (check_image plain strtol damaged junk (97 ∷ []) quiet).0
    ≡ returned (failed (record { code = pos 3; domain = pos 1 }))
unfolding check_image check_body check_record escape_scope visiting open_file frame read_record
    check_content fields fail_with eject copy_bytes read_error
damaged_image = refl

check_image_lem_example :
    Landed
      (Escapes [] 0)
      (λ n. Valid plain strtol damaged 0 (97 ∷ []) n)
      quiet
      (check_image plain strtol damaged junk (97 ∷ []) quiet)
check_image_lem_example =
    check_image_lem plain strtol damaged junk (97 ∷ []) quiet refl plain-IsCarried refl

abbrev bench : Bench
bench = record { failures = 0; lines = [] }

run-AsWanted_example : Runs plain strtol damaged junk (97 ∷ []) 3 (98 ∷ []) bench quiet
run-AsWanted_example =
    run-AsWanted plain strtol damaged junk (97 ∷ []) 3 (98 ∷ []) bench quiet refl plain-IsCarried
      refl

flash_lem_example :
    Wrote 3 16 (1 ∷ 2 ∷ []) erased (flash_prog 3 16 (1 ∷ 2 ∷ []) erased)
    × Wrote 3 0 (replicate 512 255) erased (flash_erase 3 erased)
flash_lem_example =
    flash_lem 3 16 (1 ∷ 2 ∷ []) erased (length-replicate {A = ℕ} 16384 255) (omega arith)
      (omega arith)

-- A filesystem as the list of its files, the one that is open for writing first.
abbrev Files : Type 0
Files = List (List ℕ × List ℕ)

abbrev overwrite : List ℕ → Files → Files
overwrite body [] = []
overwrite body ((path, _) ∷ files) = (path, body) ∷ files

abbrev find : List ℕ → Files → Option (List ℕ)
find path [] = none
find path ((p, body) ∷ files) =
    let rest = find path files in if same p path then some body else rest

abbrev storage : Storage Files
storage = record {
  format = λ files. [];
  mount = λ files. files;
  unmount = λ files. files;
  mkdir = λ path files. files;
  create = λ path files. some ((path, []) ∷ files);
  write = overwrite;
  close = λ files. files;
}

abbrev present : Option (List ℕ) → Bool
present none = false
present (some body) = true

abbrev view : Files → Filesystem
view files = record {
  mounts = true;
  opens = λ path. present (find path files);
  exists = λ path. present (find path files);
  read = λ path n. elim (find path files) [ none ↦ none | some body ↦ some (take n body) ];
}

abbrev decimal : ℕ → List ℕ → ℕ
decimal n [] = n
decimal n (c ∷ s) = let rest = decimal (n * 10 + (c - 48)) s in if c == 10 then n else rest

abbrev status : Exit (ℕ × Bench) → Option (ℕ × ℕ)
status (returned (n, c)) = some (n, c.failures)
status _ = none

passes :
    status (main plain (λ s. pos (decimal 0 s)) storage (λ files. files) view junk [] quiet).0
    ≡ some (0, 0)
unfolding main runs run judge expect fault_text stage_image put_records put_record check_image
    check_body check_record escape_scope visiting open_file frame read_record check_content fields
    fail_with eject copy_bytes read_error
passes = refl
