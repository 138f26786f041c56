-- ===== src/Client/Layout.antt =====
-- The bytes that `entry` of reference_app/optee_ta/host/verify_client.c writes.
use jmpxx.Prelude.{
  ℕ, ◌+◌, ◌%◌, ◌≤◌, ◌<◌, ◌≡◌, refl, sym, ap, ◌∙◌, inl, inr, Option, none, some, List, [], ◌∷◌, ◌++◌,
  arith, leb, Bool-cases, length, take, take-all,
}
use jmpxx.Prelude.Text.{String}
use jmpxx.Manifest.Reader.{◌>>=◌}
use jmpxx.Client.Builder.{
  Spec, digest_bytes, capacity, put, raw_u32, put_ref, put_image, ref_text, image, entry, entries,
  begin,
}
use mathlib.Core.List.{append_assoc, append-nil}
use native.Mathlib.Nat.{mod-eq_of_lt}

-- The arguments that the layout has room for.
pub record Fits (e : Spec) : Type 0 where
  pub name_fits : length e.name < 256
  pub ref_fits : length (ref_text e.ref) < 256
  pub digest_fits : length e.digest ≡ digest_bytes

pub data AllFit : List Spec → Type 0 where
  fit_none : AllFit []
  fit_one : (e : Spec) (es : List Spec) → Fits e → AllFit es → AllFit (e ∷ es)

-- The image that an entry carries.
abbrev pub image_of : Spec → List ℕ
image_of e = take e.declared image

abbrev pub body_bytes : Spec → List ℕ
body_bytes e =
    raw_u32 e.declared ++ (e.digest ++ (length (ref_text e.ref) ∷ (ref_text e.ref ++ image_of e)))

abbrev pub entry_bytes : Spec → List ℕ
entry_bytes e = length e.name ∷ (e.name ++ body_bytes e)

abbrev pub entries_bytes : List Spec → List ℕ
entries_bytes [] = []
entries_bytes (e ∷ es) = entry_bytes e ++ entries_bytes es

bind-some :
    {A B : Type 0} (f : A → Option B) (o : Option A) {c : B}
    → (o >>= f) ≡ some c
    → (a : A) × (o ≡ some a) × (f a ≡ some c)
bind-some f none h = cc
bind-some f (some a) h = (a, refl, h)

some_injective : {A : Type 0} {a b : A} → some a ≡ some b → a ≡ b
some_injective h = cc

put-some : (b bytes c : List ℕ) → put b bytes ≡ some c → c ≡ b ++ bytes
unfolding put
put-some b bytes c h = elim (Bool-cases (leb (length b + length bytes) capacity)) [
  | inl met ↦ ground (arith, met, h)
  | inr full ↦ ground (arith, full, h)
]

put_ref-some :
    (b : List ℕ) (ref : Option String) (c : List ℕ) → put_ref b ref ≡ some c → c ≡ b ++ ref_text ref
put_ref-some b none c h = sym (some_injective h) ∙ sym (append-nil b)
put_ref-some b (some ref) c h = put-some b ref c h

put_image-some :
    (b : List ℕ) (n : ℕ) (c : List ℕ) → put_image b n ≡ some c → (c ≡ b ++ take n image) × (n ≤ 5)
put_image-some b n c h = elim (Bool-cases (leb n (length image))) [
  | inl met ↦ (put-some b (take n image) c (rw met at h), ground (arith, met))
  | inr full ↦ ground (arith, full, h)
]

-- An entry that is written follows what was there, and its image is no longer than the array.
pub entry-some :
    (b : List ℕ) (e : Spec) (c : List ℕ)
    → Fits e
    → entry b e ≡ some c
    → (c ≡ b ++ entry_bytes e) × (e.declared ≤ 5)
unfolding entry
entry-some b e c fits h =
    let (b₁, e₁, h₁) = bind-some _ _ h in
    let (b₂, e₂, h₂) = bind-some _ _ h₁ in
    let (b₃, e₃, h₃) = bind-some _ _ h₂ in
    let (b₄, e₄, h₄) = bind-some _ _ h₃ in
    let (b₅, e₅, h₅) = bind-some _ _ h₄ in
    let (b₆, e₆, h₆) = bind-some _ _ h₅ in
    let (e₇, few) = put_image-some b₆ e.declared c h₆ in
    let whole =
      rw
        (
          put_ref-some b₅ e.ref b₆ e₆,
          put-some _ _ b₅ e₅,
          put-some _ _ b₄ e₄,
          put-some _ _ b₃ e₃,
          put-some _ _ b₂ e₂,
          put-some _ _ b₁ e₁,
        )
        at e₇ in
    (
      whole
          ∙ simp (
            append_assoc,
            take-all digest_bytes e.digest (omega (arith, fits.digest_fits)),
            mod-eq_of_lt fits.name_fits,
            mod-eq_of_lt fits.ref_fits,
          ),
      few,
    )

-- Entries that are written: they fit, and their images are no longer than the array.
pub data Written : List Spec → Type 0 where
  written_none : Written []
  written_one :
      (e : Spec) (es : List Spec) → Fits e → e.declared ≤ 5 → Written es → Written (e ∷ es)

pub entries-some :
    (b : List ℕ) (es : List Spec) (c : List ℕ)
    → AllFit es
    → entries b es ≡ some c
    → (c ≡ b ++ entries_bytes es) × Written es
unfolding entries
entries-some b [] c fit_none h = (sym (some_injective h) ∙ sym (append-nil b), written_none)
entries-some b (e ∷ es) c (fit_one _ _ fits rest) h =
    let (b₁, e₁, h₁) = bind-some _ _ h in
    let (one, few) = entry-some b e b₁ fits e₁ in
    let (more, small) = entries-some b₁ es c rest h₁ in
    (
      more
          ∙ ap (λ l. l ++ entries_bytes es) one
          ∙ append_assoc b (entry_bytes e) (entries_bytes es),
      written_one e es fits few small,
    )

pub begin-some :
    (count : ℕ) (magic : String) (version : ℕ) (c : List ℕ)
    → begin count magic version ≡ some c
    → c ≡ take 4 magic ++ version % 256 ∷ count % 256 ∷ []
unfolding begin
begin-some count magic version c h =
    let (b₁, e₁, h₁) = bind-some _ _ h in
    let (b₂, e₂, h₂) = bind-some _ _ h₁ in
    let last = put-some b₂ _ c h₂ in
    let whole = rw (put-some _ _ b₂ e₂, put-some [] _ b₁ e₁) at last in
    whole ∙ append_assoc (take 4 magic) (version % 256 ∷ []) (count % 256 ∷ [])
