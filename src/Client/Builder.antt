-- ===== src/Client/Builder.antt =====
-- The builder of manifests of reference_app/optee_ta/host/verify_client.c. A manifest under construction
-- is the first `len` bytes of the array; `none` is a copy that leaves one of the arrays.
use jmpxx.Prelude.{
  ℕ, ◌+◌, ◌/◌, ◌%◌, Option, none, some, List, [], ◌∷◌, ◌++◌, leb, if◌then◌else◌, length, take,
  replicate,
}
use jmpxx.Prelude.Text.{String}
use jmpxx.Manifest.Reader.{◌>>=◌}

abbrev pub digest_bytes : ℕ
digest_bytes = 32

abbrev pub capacity : ℕ
capacity = 4096

-- The arguments of `entry` after the builder.
pub record Spec : Type 0 where
  pub name : String
  pub declared : ℕ
  pub digest : List ℕ
  pub ref : Option String

unfoldable pub put : List ℕ → List ℕ → Option (List ℕ)
put b bytes = if leb (length b + length bytes) capacity then some (b ++ bytes) else none

abbrev pub put_u8 : List ℕ → ℕ → Option (List ℕ)
put_u8 b v = put b (v % 256 ∷ [])

abbrev pub raw_u32 : ℕ → List ℕ
raw_u32 v = v % 256 ∷ v / 256 % 256 ∷ v / 65536 % 256 ∷ v / 16777216 % 256 ∷ []

abbrev pub put_u32 : List ℕ → ℕ → Option (List ℕ)
put_u32 b v = put b (raw_u32 v)

unfoldable pub begin : ℕ → String → ℕ → Option (List ℕ)
begin count magic version = do b ← put [] (take 4 magic); b ← put_u8 b version; put_u8 b count

-- "IMG0" with its terminator.
abbrev pub image : List ℕ
image = 73 ∷ 77 ∷ 71 ∷ 48 ∷ 0 ∷ []

-- `ref ? ref : ""`.
abbrev pub ref_text : Option String → String
ref_text none = []
ref_text (some ref) = ref

abbrev pub put_ref : List ℕ → Option String → Option (List ℕ)
put_ref b none = some b
put_ref b (some ref) = put b ref

-- The copy of the first `n` bytes of `image`.
abbrev pub put_image : List ℕ → ℕ → Option (List ℕ)
put_image b n = if leb n (length image) then put b (take n image) else none

unfoldable pub entry : List ℕ → Spec → Option (List ℕ)
entry b e = do
  b ← put_u8 b (length e.name)
  b ← put b e.name
  b ← put_u32 b e.declared
  b ← put b (take digest_bytes e.digest)
  b ← put_u8 b (length (ref_text e.ref))
  b ← put_ref b e.ref
  put_image b e.declared

-- The calls of `entry` for a manifest, one after the other.
unfoldable pub entries : List ℕ → List Spec → Option (List ℕ)
entries b [] = some b
entries b (e ∷ es) = do b ← entry b e; entries b es

-- The digest of "IMG0", and the one that is wrong: its first bytes and zeros.
abbrev pub digest_img0 : List ℕ
digest_img0 =
    21 ∷ 53 ∷ 112 ∷ 223 ∷ 89 ∷ 114 ∷ 64 ∷ 236 ∷ 0 ∷ 185 ∷ 188 ∷ 44 ∷ 246 ∷ 138 ∷ 99 ∷ 88 ∷ 31 ∷ 132
    ∷ 78 ∷ 129 ∷ 37 ∷ 190 ∷ 100 ∷ 102 ∷ 23 ∷ 158 ∷ 199 ∷ 147 ∷ 36 ∷ 56 ∷ 187 ∷ 22 ∷ []

abbrev pub digest_wrong : List ℕ
digest_wrong = 222 ∷ 173 ∷ 190 ∷ 239 ∷ replicate 28 0
