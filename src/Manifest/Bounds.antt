-- ===== src/Manifest/Bounds.antt =====
-- The reads of reference_app/optee_ta/ta/manifest_ta.cpp, by where they are and what they read.
use jmpxx.Prelude.{
  ℕ, zero, suc, ◌+◌, ◌≤◌, ◌<◌, ◌≡◌, refl, sym, ap, ◌∙◌, Bool, true, false, Option, some, List, [],
  ◌∷◌, ◌++◌, arith, leb, if◌then◌else◌, length, take, drop, take-append-drop, length-take,
  length-drop,
}
use native.Mathlib.Nat.{mod-eq_of_lt}
use jmpxx.Manifest.Reader.{◌>>=◌, are_bytes, u8, u32, slice, little_endian, plus, has}

-- A read that gives a value of `Q`.
pub data Safe {A : Type 0} (Q : A → Type 0) : Option A → Type 0 where
  safe : (a : A) → Q a → Safe Q (some a)

module _ {A : Type 0} (Q : A → Type 0) where
  pub bind-Safe :
      {B : Type 0} (M : B → Type 0) (f : B → Option A) {o : Option B}
      → Safe M o
      → ((b : B) → M b → Safe Q (f b))
      → Safe Q (o >>= f)
  bind-Safe M f (safe b m) h = h b m

  pub if-Safe :
      (b : Bool) (m n : Option A)
      → (b ≡ true → Safe Q m)
      → (b ≡ false → Safe Q n)
      → Safe Q (if b then m else n)
  if-Safe true m n hm hn = hm refl
  if-Safe false m n hm hn = hn refl

  pub found-Safe : {o : Option A} → Safe Q o → Safe (λ a. Q a × (o ≡ some a)) o
  found-Safe (safe a q) = safe a (q, refl)

drop-nil : (n : ℕ) → drop {A = ℕ} n [] ≡ []
drop-nil zero = refl
drop-nil (suc n) = refl

drop_same : (xs : List ℕ) (m n : ℕ) → m ≡ n → drop m xs ≡ drop n xs
drop_same xs m n = ap (λ k. drop k xs)

drop-drop : (xs : List ℕ) (m n : ℕ) → drop n (drop m xs) ≡ drop (m + n) xs
drop-drop [] m n = ap (drop n) (drop-nil m) ∙ drop-nil n ∙ sym (drop-nil (m + n))
drop-drop (x ∷ xs) zero n = ap (λ k. drop k (x ∷ xs)) (omega arith)
drop-drop (x ∷ xs) (suc m) n =
    drop-drop xs m n ∙ drop_same (x ∷ xs) (suc (m + n)) (suc m + n) (omega arith)

module _ (buf : List ℕ) where
  -- Bytes that are in the buffer.
  abbrev pub Bytes : ℕ → ℕ → List ℕ → Type 0
  Bytes at n v = (drop at buf ≡ v ++ drop (at + n) buf) × (length v ≡ n)

  pub take-Bytes : (at n : ℕ) → at + n ≤ length buf → Bytes at n (take n (drop at buf))
  take-Bytes at n h = (
    sym (take-append-drop n (drop at buf))
        ∙ ap (λ l. take n (drop at buf) ++ l) (drop-drop buf at n),
    ground (arith, h, length-take n (drop at buf), length-drop at buf),
  )

  pub slice-Safe :
      (at here n : ℕ) → here ≡ at → at + n ≤ length buf → Safe (Bytes at n) (slice buf here n)
  slice-Safe at here n e h = rw e (
      if-Safe (Bytes at n) (leb (at + n) (length buf)) _ _
        (λ _. safe (take n (drop at buf)) (take-Bytes at n h))
        (λ short. absurd (ground (arith, h, short))))

  -- What a length is read from.
  abbrev pub Encodes : ℕ → ℕ → Type 0
  Encodes at n =
      (bs : List ℕ) × (drop at buf ≡ bs ++ drop (at + 4) buf)
      × (length bs ≡ 4)
      × (little_endian bs ≡ n)

  pub u32-Safe : (at : ℕ) → at + 4 ≤ length buf → Safe (Encodes at) (u32 buf at)
  u32-Safe at h =
      bind-Safe (Encodes at) (Bytes at 4) _ (slice-Safe at at 4 refl h)
        (λ v g. safe (little_endian v) (v, g.0, g.1, refl))

-- A byte that is read.
abbrev pub Byte : List ℕ → ℕ → ℕ → Type 0
Byte buf at b = (b < 256) × (drop at buf ≡ b ∷ drop (at + 1) buf)

u8_here-Safe :
    (buf : List ℕ) (at : ℕ)
    → are_bytes buf ≡ true
    → at < length buf
    → Safe (Byte buf at) (u8 buf at)
u8_here-Safe [] at bytes h = absurd (omega arith)
u8_here-Safe (b ∷ bs) zero bytes h = safe b (ground (arith, bytes), refl)
u8_here-Safe (b ∷ bs) (suc at) bytes h =
    shift (u8_here-Safe bs at (ground (arith, bytes)) (omega arith))
  where
    shift : {o : Option ℕ} → Safe (Byte bs at) o → Safe (Byte (b ∷ bs) (suc at)) o
    shift (safe c q) =
        safe c (
          q.0,
          q.1 ∙ ap (λ l. c ∷ l) (drop_same (b ∷ bs) (suc (at + 1)) (suc at + 1) (omega arith)),
        )

pub u8-Safe :
    (buf : List ℕ) (at here : ℕ)
    → are_bytes buf ≡ true
    → here ≡ at
    → at < length buf
    → Safe (Byte buf at) (u8 buf here)
u8-Safe buf at here bytes e h = rw e (u8_here-Safe buf at bytes h)

pub plus_small : (word at n : ℕ) → at + n < word → plus word at n ≡ at + n
unfolding plus
plus_small word at n h = mod-eq_of_lt h

pub plus-plus : (word at m n : ℕ) → at + m + n < word → plus word (plus word at m) n ≡ at + m + n
plus-plus word at m n h =
    ap (λ k. plus word k n) (plus_small word at m (omega arith)) ∙ plus_small word (at + m) n h

module _ (word : ℕ) (buf : List ℕ) where
  pub has-plus : (at n : ℕ) → has word buf at n ≡ true → plus word at n ≤ length buf
  unfolding has
  has-plus at n h = ground (arith, h)

  pub has-le : (at n : ℕ) → has word buf at n ≡ true → at + n < word → at + n ≤ length buf
  has-le at n h small = omega (arith, has-plus at n h, plus_small word at n small)
