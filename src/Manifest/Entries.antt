-- ===== src/Manifest/Entries.antt =====
-- What a manifest holds, as bytes: the independent description for
-- reference_app/optee_ta/ta/manifest_ta.cpp. The model's `word` is the number of values of `size_t`.
use jmpxx.Prelude.{ℕ, suc, ◌+◌, ◌%◌, ◌≤◌, ◌<◌, ◌≡◌, false, List, [], ◌∷◌, ◌++◌, length, drop}
use jmpxx.Prelude.Text.{String, same}
use jmpxx.Manifest.Reader.{little_endian}
use jmpxx.Manifest.Verify.{max_image_bytes}

-- The body of an entry: a length of four bytes, a digest, a reference after its length. The image
-- starts at `image`.
pub record Body (buf : List ℕ) (at declared : ℕ) (digest : List ℕ) (ref : String) (image : ℕ)
    : Type 0 where
  pub size_bytes : List ℕ
  pub layout : drop at buf ≡ size_bytes ++ (digest ++ (length ref ∷ (ref ++ drop image buf)))
  pub four : length size_bytes ≡ 4
  pub size : little_endian size_bytes ≡ declared
  pub digest_size : length digest ≡ 32

-- An entry: a name after its length, and the body. The next entry is looked for `declared` bytes after
-- the image's start, a sum of `size_t`.
pub record Entry (word : ℕ) (buf : List ℕ) (at : ℕ) (name : String) (body next : ℕ) : Type 0 where
  pub named : drop at buf ≡ length name ∷ (name ++ drop body buf)
  pub declared : ℕ
  pub digest : List ℕ
  pub ref : String
  pub image : ℕ
  pub holds : Body buf body declared digest ref image
  pub follows : next ≡ (image + declared) % word

-- Of the `count` entries from `at` on, the first with the name has its body at `body`.
pub data Named (word : ℕ) (buf : List ℕ) (want : String) : ℕ → ℕ → ℕ → Type 0 where
  named_here :
      (count at body next : ℕ)
      → Entry word buf at want body next
      → Named word buf want (suc count) at body
  named_later :
      (count at body next found : ℕ) (name : String)
      → Entry word buf at name body next
      → same name want ≡ false
      → Named word buf want count next found
      → Named word buf want (suc count) at found

-- The manifest names the entry: its header has the number of the entries, which start at 6.
pub record Lists (word : ℕ) (buf : List ℕ) (want : String) (body : ℕ) : Type 0 where
  pub count : ℕ
  pub counted : drop 5 buf ≡ count ∷ drop 6 buf
  pub among : Named word buf want count 6 body

-- The image of the entry is whole, of a plausible length, and has the digest that the entry declares.
pub record Genuine (sha256 : List ℕ → List ℕ) (buf : List ℕ) (at declared : ℕ) (digest : List ℕ)
    : Type 0 where
  pub image : List ℕ
  pub whole : drop at buf ≡ image ++ drop (at + declared) buf
  pub sized : length image ≡ declared
  pub some_bytes : 0 < declared
  pub not_too_many : declared ≤ max_image_bytes
  pub matches : sha256 image ≡ digest

-- The entry with the body is genuine, and so are the entries on the chain of references from it, which
-- is of `n` entries with it.
pub data Verified (sha256 : List ℕ → List ℕ) (word : ℕ) (buf : List ℕ) : ℕ → ℕ → Type 0 where
  verified_last :
      (at declared image : ℕ) (digest : List ℕ)
      → Body buf at declared digest [] image
      → Genuine sha256 buf image declared digest
      → Verified sha256 word buf at 1
  verified_after :
      (at declared image target n c : ℕ) (digest ref : List ℕ)
      → Body buf at declared digest (c ∷ ref) image
      → Lists word buf (c ∷ ref) target
      → Verified sha256 word buf target n
      → Genuine sha256 buf image declared digest
      → Verified sha256 word buf at (n + 1)

-- The manifest has its header and a first entry with a name, which is verified with its chain.
pub record Accepted (sha256 : List ℕ → List ℕ) (word : ℕ) (buf : List ℕ) (n : ℕ) : Type 0 where
  pub count : ℕ
  pub first : String
  pub rest : List ℕ
  pub start : buf ≡ 77 ∷ 70 ∷ 83 ∷ 84 ∷ 1 ∷ count ∷ length first ∷ (first ++ rest)
  pub some_entry : 0 < count
  pub some_name : 0 < length first
  pub chain : Verified sha256 word buf (7 + length first) n
