-- ===== src/StoreCheck/Flash.antt =====
-- The flash driver of reference_app/embedded/src/store_check.cpp. The array is the list of its bytes;
-- `none` is a copy outside it.
use mathlib.Core.List.{append_assoc}
use native.Mathlib.Nat.{mod-eq_of_lt}
use jmpxx.Prelude.{
  ℕ, zero, suc, ◌+◌, ◌-◌, ◌*◌, ◌%◌, ◌^◌, ◌≤◌, ◌<◌, ◌≡◌, refl, sym, ap, ◌∙◌, ◌⊎◌, inl, inr, true,
  Option, none, some, List, [], ◌∷◌, ◌++◌, arith, leb, if◌then◌else◌, length, length-append, take,
  drop, replicate, take-append-drop, length-take, length-drop, length-replicate, take-append,
}

abbrev pub block_size : ℕ
block_size = 512

abbrev pub block_count : ℕ
block_count = 32

-- `g_flash`, once it is set to what an erased flash holds.
abbrev pub erased : List ℕ
erased = replicate (block_size * block_count) 255

-- `block * block_size`, as `lfs_size_t`, and the offset.
abbrev pub place : ℕ → ℕ → ℕ
place block off = (block * block_size) % 2 ^ 32 + off

-- `memcpy` from the array, and to it.
abbrev pub copy_from : List ℕ → ℕ → ℕ → Option (List ℕ)
copy_from flash at size =
    if leb (at + size) (length flash) then some (take size (drop at flash)) else none

abbrev pub copy_to : List ℕ → ℕ → List ℕ → Option (List ℕ)
copy_to flash at buf =
    if leb (at + length buf) (length flash)
    then some (take at flash ++ (buf ++ drop (at + length buf) flash))
    else none

unfoldable pub flash_read : ℕ → ℕ → ℕ → List ℕ → Option (List ℕ)
flash_read block off size flash = copy_from flash (place block off) size

unfoldable pub flash_prog : ℕ → ℕ → List ℕ → List ℕ → Option (List ℕ)
flash_prog block off buf flash = copy_to flash (place block off) buf

unfoldable pub flash_erase : ℕ → List ℕ → Option (List ℕ)
flash_erase block flash = copy_to flash (place block 0) (replicate block_size 255)

place_inside : (block off : ℕ) → block < block_count → place block off ≡ block * 512 + off
place_inside block off h = ap (λ n. n + off) (mod-eq_of_lt (omega (arith, h)))

length-take_inside : (n : ℕ) (xs : List ℕ) → n ≤ length xs → length (take n xs) ≡ n
length-take_inside n xs h = omega (arith, h, length-take n xs)

drop-append_long :
    (xs ys : List ℕ) (n : ℕ) → length xs ≤ n → drop n (xs ++ ys) ≡ drop (n - length xs) ys
drop-append_long [] ys n h = ap (λ k. drop k ys) (omega arith)
drop-append_long (x ∷ xs) ys zero h = absurd (omega arith)
drop-append_long (x ∷ xs) ys (suc n) h =
    drop-append_long xs ys n (omega arith) ∙ ap (λ k. drop k ys) (omega arith)

take-append_short : (xs ys : List ℕ) (n : ℕ) → n ≤ length xs → take n (xs ++ ys) ≡ take n xs
take-append_short xs ys zero h = refl
take-append_short [] ys (suc n) h = absurd (omega arith)
take-append_short (x ∷ xs) ys (suc n) h = ap (λ l. x ∷ l) (take-append_short xs ys n (omega arith))

drop-append_short : (xs ys : List ℕ) (n : ℕ) → n ≤ length xs → drop n (xs ++ ys) ≡ drop n xs ++ ys
drop-append_short xs ys zero h = refl
drop-append_short [] ys (suc n) h = absurd (omega arith)
drop-append_short (x ∷ xs) ys (suc n) h = drop-append_short xs ys n (omega arith)

take-drop_before :
    (xs ys : List ℕ) (at n : ℕ)
    → at + n ≤ length xs
    → take n (drop at (xs ++ ys)) ≡ take n (drop at xs)
take-drop_before xs ys at n h =
    ap (take n) (drop-append_short xs ys at (omega arith))
    ∙ take-append_short (drop at xs) ys n (omega (arith, length-drop at xs))

module _ (flash bytes : List ℕ) (at : ℕ) (fits : at + length bytes ≤ length flash) where
  -- The array with the bytes at the place.
  abbrev with_bytes : List ℕ
  with_bytes = take at flash ++ (bytes ++ drop (at + length bytes) flash)

  abbrev front : List ℕ
  front = take at flash

  length-with_bytes : length with_bytes ≡ length flash
  length-with_bytes = omega (
    arith,
    fits,
    length-append (take at flash) (bytes ++ drop (at + length bytes) flash),
    length-append bytes (drop (at + length bytes) flash),
    length-take_inside at flash (omega (arith, fits)),
    length-drop (at + length bytes) flash,
  )

  take-with_bytes : take (length bytes) (drop at with_bytes) ≡ bytes
  take-with_bytes =
      let first = length-take_inside at flash (omega (arith, fits)) in
      let none_left : at - length (take at flash) ≡ 0 = omega (arith, first) in
      ap (take (length bytes)) (
        drop-append_long (take at flash) (bytes ++ drop (at + length bytes) flash) at
          (omega (arith, first))
        ∙ ap (λ k. drop k (bytes ++ drop (at + length bytes) flash)) none_left)
      ∙ take-append bytes _

  before-with_bytes : (a n : ℕ) → a + n ≤ at → take n (drop a with_bytes) ≡ take n (drop a flash)
  before-with_bytes a n h =
      let first = length-take_inside at flash (omega (arith, fits)) in
      take-drop_before (take at flash) (bytes ++ drop (at + length bytes) flash) a n
        (omega (arith, h, first))
      ∙ sym (take-drop_before (take at flash) (drop at flash) a n (omega (arith, h, first)))
      ∙ ap (λ l. take n (drop a l)) (take-append-drop at flash)

  after-with_bytes :
      (a n : ℕ) → at + length bytes ≤ a → take n (drop a with_bytes) ≡ take n (drop a flash)
  after-with_bytes a n h =
      let end = at + length bytes in
      let front_size : length (take at flash ++ bytes) ≡ end = omega (
        arith,
        length-append (take at flash) bytes,
        length-take_inside at flash (omega (arith, fits)),
      ) in
      let whole_size : length (take end flash) ≡ end = length-take_inside end flash fits in
      ap (take n) (
        ap (drop a) (sym (append_assoc (take at flash) bytes (drop end flash)))
        ∙ drop-append_long (take at flash ++ bytes) (drop end flash) a
            (omega (arith, h, front_size))
        ∙ ap (λ k. drop (a - k) (drop end flash)) (front_size ∙ sym whole_size)
        ∙ sym (drop-append_long (take end flash) (drop end flash) a (omega (arith, h, whole_size)))
        ∙ ap (drop a) (take-append-drop end flash))

-- What a write of the bytes at a place of a block leaves of the flash.
pub record Wrote (block off : ℕ) (bytes flash : List ℕ) (o : Option (List ℕ)) : Type 0 where
  pub flash' : List ℕ
  pub writes : o ≡ some flash'
  pub sized : length flash' ≡ length flash
  pub reads_back : flash_read block off (length bytes) flash' ≡ some bytes
  pub keeps :
      (block' off' size : ℕ)
      → block' < block_count
      → off' + size ≤ block_size
      → (block' * 512 + off' + size ≤ block * 512 + off)
        ⊎ (block * 512 + off + length bytes ≤ block' * 512 + off')
      → flash_read block' off' size flash' ≡ flash_read block' off' size flash

copy_to-Wrote :
    (block off : ℕ) (bytes flash : List ℕ)
    → length flash ≡ block_size * block_count
    → block < block_count
    → off + length bytes ≤ block_size
    → Wrote block off bytes flash (copy_to flash (place block off) bytes)
unfolding flash_read
copy_to-Wrote block off bytes flash whole in_flash in_block =
    let at = place block off in
    let here = place_inside block off in_flash in
    let fits : at + length bytes ≤ length flash = omega (arith, here, whole, in_flash, in_block) in
    let fits? : leb (at + length bytes) (length flash) ≡ true = ground (arith, fits) in
    let same_size = length-with_bytes flash bytes at fits in
    record {
      flash' = with_bytes flash bytes at fits;
      writes = rw fits?;
      sized = same_size;
      reads_back = rw (same_size, fits?) (ap some (take-with_bytes flash bytes at fits));
      keeps = λ block' off' size in_flash' in_block' apart.
          let there = place_inside block' off' in_flash' in
          let fits' : leb (place block' off' + size) (length flash) ≡ true =
            ground (arith, there, whole, in_flash', in_block') in
          rw (same_size, fits')
            (ap some (elim apart [
              | inl before ↦
                  before-with_bytes flash bytes at fits (place block' off') size
                    (omega (arith, before, here, there))
              | inr after ↦
                  after-with_bytes flash bytes at fits (place block' off') size
                    (omega (arith, after, here, there))
            ]));
    }

-- Within a block of a whole flash the driver's calls leave no array. What is programmed is read back, an
-- erased block reads as 255s, and a read of a range apart from it gives what it gave before.
pub flash_lem :
    (block off : ℕ) (buf flash : List ℕ)
    → length flash ≡ block_size * block_count
    → block < block_count
    → off + length buf ≤ block_size
    → Wrote block off buf flash (flash_prog block off buf flash)
      × Wrote block 0 (replicate block_size 255) flash (flash_erase block flash)
unfolding flash_prog flash_erase
flash_lem block off buf flash whole in_flash in_block = (
  copy_to-Wrote block off buf flash whole in_flash in_block,
  copy_to-Wrote block 0 (replicate block_size 255) flash whole in_flash
      (omega (arith, length-replicate {A = ℕ} block_size 255)),
)
