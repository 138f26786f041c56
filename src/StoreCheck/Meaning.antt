-- ===== src/StoreCheck/Meaning.antt =====
-- What a valid record is, as text: the independent description for
-- reference_app/embedded/src/store_check.cpp. The filesystem and `strtol` are parameters.
use jmpxx.Prelude.{
  ℕ, suc, ◌≤◌, ◌<◌, ◌≡◌, ◌≢◌, ◌⊎◌, true, Option, none, some, List, [], ◌∷◌, ◌++◌, length, drop,
}
use jmpxx.Prelude.Int.{ℤ, pos, negsuc, to_unsigned}
use jmpxx.StoreCheck.Fields.{String, max_name, Fields, add_bytes, strchr, until_nul, line_starts}
use jmpxx.StoreCheck.Check.{Filesystem, record_path, header}

-- "sum" and "ref".
abbrev pub sum_name : String
sum_name = 115 ∷ 117 ∷ 109 ∷ []

abbrev pub ref_name : String
ref_name = 114 ∷ 101 ∷ 102 ∷ []

-- The text does not have the character.
abbrev pub Lacks : ℕ → String → Type 0
Lacks c s = strchr s c ≡ none

-- A text starts with a line `key=value`; what is after it is nothing or starts with a newline.
pub record Splits (text key value after : String) : Type 0 where
  pub parts : text ≡ key ++ 61 ∷ (value ++ after)
  pub key_ends : Lacks 61 key
  pub key_in_line : Lacks 10 key
  pub value_in_line : Lacks 10 value
  pub line_ends : (after ≡ []) ⊎ ((rest : String) × (after ≡ 10 ∷ rest))

-- What a line makes of the values that are kept: the checksum that is declared, the reference, or one
-- more value in the sum.
pub data Takes (strtol : String → ℤ) (st : Fields) (text : String) : Fields → Type 0 where
  takes_sum :
      (value after : String)
      → Splits text sum_name value after
      → Takes strtol st text (record st { declared = strtol (value ++ after) })
  takes_ref :
      (value after : String)
      → Splits text ref_name value after
      → 0 < length value
      → length value < max_name
      → Takes strtol st text (record st { ref = some value })
  takes_value :
      (key value after : String)
      → Splits text key value after
      → key ≢ sum_name
      → key ≢ ref_name
      → Takes strtol st text (record st { sum = add_bytes st.sum value })

pub data TakesAll (strtol : String → ℤ) : Fields → List String → Fields → Type 0 where
  takes_none : (st : Fields) → TakesAll strtol st [] st
  takes_line :
      (st st' st'' : Fields) (text : String) (texts : List String)
      → Takes strtol st text st'
      → TakesAll strtol st' texts st''
      → TakesAll strtol st (text ∷ texts) st''

-- The values before the first line.
abbrev pub blank : Fields
blank = record { sum = 0; declared = negsuc 0; ref = none }

-- The bytes are a record's: the header, the version, lines whose checksum is declared and right, and
-- the reference among them.
pub record Sound (strtol : String → ℤ) (buf : List ℕ) (ref : Option String) : Type 0 where
  pub starts : buf ≡ header ++ 49 ∷ drop 5 buf
  pub read : Fields
  pub takes : TakesAll strtol blank (line_starts (until_nul (drop 6 buf))) read
  pub checksum : ℕ
  pub declares : read.declared ≡ pos checksum
  pub sums : to_unsigned (pos checksum) ≡ read.sum
  pub refers : read.ref ≡ ref

-- The record can be read, and is sound.
pub record Stored (strtol : String → ℤ) (fs : Filesystem) (name : String) (ref : Option String)
    : Type 0 where
  pub buf : List ℕ
  pub opens : fs.opens (record_path name) ≡ true
  pub reads : fs.read (record_path name) 191 ≡ some buf
  pub long : 12 ≤ length buf
  pub sound : Sound strtol buf ref

-- The record and those on the chain of references from it are stored; there are `n` with it.
pub data Checked (strtol : String → ℤ) (fs : Filesystem) : String → ℕ → Type 0 where
  checked_last : (name : String) → Stored strtol fs name none → Checked strtol fs name 1
  checked_after :
      (name ref : String) (n : ℕ)
      → Stored strtol fs name (some ref)
      → fs.exists (record_path ref) ≡ true
      → Checked strtol fs ref n
      → Checked strtol fs name (suc n)
