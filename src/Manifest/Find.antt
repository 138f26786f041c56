-- ===== src/Manifest/Find.antt =====
-- `find_entry` of reference_app/optee_ta/ta/manifest_ta.cpp. The result `none` is a read outside the
-- buffer, which the code makes nowhere.
use jmpxx.Prelude.{ℕ, zero, suc, ◌+◌, not, Option, none, some, List, if◌then◌else◌}
use jmpxx.Prelude.Text.{String, same}
use jmpxx.Manifest.Reader.{◌>>=◌, u8, u32, slice, plus, has}

-- One entry as the loop walks over it: its name, where its body starts and where the next entry does.
pub record Walked : Type 0 where
  pub name : String
  pub body : ℕ
  pub next : ℕ

abbrev pub digest_bytes : ℕ
digest_bytes = 32

module _ (word : ℕ) (buf : List ℕ) where
  -- The fields after the name. The inner `none` is an entry that the buffer does not hold whole.
  unfoldable pub walk_body : String → ℕ → Option (Option Walked)
  walk_body name body =
      if has word buf body (4 + digest_bytes + 1)
      then (do
        declared ← u32 buf body
        ref_len ← u8 buf (plus word (plus word body 4) digest_bytes)
        let ref = plus word (plus word (plus word body 4) digest_bytes) 1
        let image = plus word ref ref_len
        if not (has word buf ref ref_len)
            then some none
            else if not (has word buf image declared)
            then some none
            else some (some (record { name = name; body = body; next = plus word image declared })))
      else some none

  unfoldable pub walk_entry : ℕ → Option (Option Walked)
  walk_entry at =
      if has word buf at 1
      then (do
        name_len ← u8 buf at
        if has word buf (plus word at 1) name_len
            then (do
              name ← slice buf (plus word at 1) name_len
              walk_body name (plus word (plus word at 1) name_len))
            else some none)
      else some none

  -- The loop; the number is of the entries that are left.
  unfoldable pub find_from : String → ℕ → ℕ → Option (Option ℕ)
  find_from want zero at = some none
  find_from want (suc count) at = do
    walked ← walk_entry at
    elim walked [
      | none ↦ some none
      | some e ↦
          let rest = find_from want count e.next in
          if same e.name want then some (some e.body) else rest
    ]

  unfoldable pub find_entry : String → Option (Option ℕ)
  find_entry want =
      if has word buf 0 6 then (do count ← u8 buf 5; find_from want count 6) else some none
