-- ===== src/Manifest/Reader.antt =====
-- The class `reader` of reference_app/optee_ta/ta/manifest_ta.cpp: the reads of the buffer, which are
-- `none` outside it. The model's `word` is the number of values of `size_t`.
use jmpxx.Prelude.{
  ℕ, ◌+◌, ◌*◌, ◌%◌, Bool, true, ◌&&◌, Option, none, some, List, [], ◌∷◌, ltb, leb, if◌then◌else◌,
  length, get_elem?, take, drop,
}

-- The numbers of the buffer are the values of `uint8_t`.
abbrev pub are_bytes : List ℕ → Bool
are_bytes [] = true
are_bytes (b ∷ bs) = ltb b 256 && are_bytes bs

infixl 5 ◌>>=◌
abbrev pub ◌>>=◌ : {A B : Type 0} → Option A → (A → Option B) → Option B
o >>= f = elim o [ none ↦ none | some a ↦ f a ]

-- `u8` at an offset.
abbrev pub u8 : List ℕ → ℕ → Option ℕ
u8 buf at = get_elem? buf at

-- The bytes that `len` of them from the pointer `base_ + at` are.
abbrev pub slice : List ℕ → ℕ → ℕ → Option (List ℕ)
slice buf at len = if leb (at + len) (length buf) then some (take len (drop at buf)) else none

abbrev pub little_endian : List ℕ → ℕ
little_endian [] = 0
little_endian (b ∷ bs) = b + 256 * little_endian bs

-- `u32` at an offset.
abbrev pub u32 : List ℕ → ℕ → Option ℕ
u32 buf at = elim (slice buf at 4) [ none ↦ none | some bs ↦ some (little_endian bs) ]

module _ (word : ℕ) where
  -- `pos_ + n`, as `size_t`.
  unfoldable pub plus : ℕ → ℕ → ℕ
  plus at n = (at + n) % word

  unfoldable pub has : List ℕ → ℕ → ℕ → Bool
  unfolding plus
  has buf at n = leb (plus at n) (length buf)
