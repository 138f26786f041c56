-- ===== src/Client/Found.antt =====
-- `find_entry` of reference_app/optee_ta/ta/manifest_ta.cpp on the bytes of entries.
use jmpxx.Prelude.{
  ℕ, ◌+◌, ◌≤◌, ◌<◌, ◌≡◌, refl, sym, ap, ◌∙◌, inl, inr, true, Option, none, some, List, [], ◌∷◌,
  ◌++◌, arith, Bool-cases, length, length-append, length-take,
}
use jmpxx.Prelude.Text.{String, same, same→eq}
use jmpxx.Manifest.Reader.{u8, u32, slice, little_endian, plus, has}
use jmpxx.Manifest.Find.{walk_body, walk_entry, find_from, find_entry}
use jmpxx.Client.Builder.{Spec, raw_u32, ref_text, image}
use jmpxx.Client.Holds.{
  Holds, Holds-le, Holds-front, Holds-rest, u8-Holds, slice-Holds, has_inside, plus_inside,
}
use mathlib.Core.List.{append-nil}
use jmpxx.Client.Judge.{named}
use jmpxx.Client.Layout.{
  Fits, Written, written_none, written_one, image_of, body_bytes, entry_bytes, entries_bytes,
}

little_endian-raw_u32 : (v : ℕ) → v ≤ 5 → little_endian (raw_u32 v) ≡ v
little_endian-raw_u32 v h = omega (arith, h)

length-image_of : (e : Spec) → e.declared ≤ 5 → length (image_of e) ≡ e.declared
length-image_of e h = omega (arith, h, length-take e.declared image)

-- What the reads of a body give that stands in the buffer.
pub record BodyReads (buf : List ℕ) (body : ℕ) (e : Spec) : Type 0 where
  pub inside : body + 37 + length (ref_text e.ref) + e.declared ≤ length buf
  pub reads_declared : u32 buf body ≡ some e.declared
  pub reads_digest : slice buf (body + 4) 32 ≡ some e.digest
  pub reads_ref_len : u8 buf (body + 36) ≡ some (length (ref_text e.ref))
  pub reads_ref : slice buf (body + 37) (length (ref_text e.ref)) ≡ some (ref_text e.ref)
  pub reads_image : slice buf (body + 37 + length (ref_text e.ref)) e.declared ≡ some (image_of e)

pub Holds-BodyReads :
    (buf : List ℕ) (body : ℕ) (e : Spec)
    → Fits e
    → e.declared ≤ 5
    → Holds buf body (body_bytes e)
    → BodyReads buf body e
Holds-BodyReads buf body e fits few h =
    let n : ℕ = length (ref_text e.ref) in
    let h₁ : Holds buf (body + 4) (e.digest ++ (n ∷ (ref_text e.ref ++ image_of e))) =
      Holds-rest (raw_u32 e.declared) _ h in
    let h₂ : Holds buf (body + 36) (n ∷ (ref_text e.ref ++ image_of e)) =
      moved (omega (arith, fits.digest_fits)) (Holds-rest e.digest _ h₁) in
    let h₃ : Holds buf (body + 37) (ref_text e.ref ++ image_of e) =
      moved (omega arith) (Holds-rest (n ∷ []) (ref_text e.ref ++ image_of e) h₂) in
    let h₄ : Holds buf (body + 37 + n) (image_of e) = Holds-rest (ref_text e.ref) (image_of e) h₃ in
    let size = length-image_of e few in
    record {
      inside = omega (arith, Holds-le h₄, size);
      reads_declared =
          ap (λ o. elim o [ none ↦ none | some bs ↦ some (little_endian bs) ])
            (slice-Holds (raw_u32 e.declared) 4 refl (Holds-front (raw_u32 e.declared) _ h))
          ∙ ap some (little_endian-raw_u32 e.declared few);
      reads_digest = slice-Holds e.digest 32 (sym fits.digest_fits) (Holds-front e.digest _ h₁);
      reads_ref_len = u8-Holds n _ h₂;
      reads_ref = slice-Holds (ref_text e.ref) n refl (Holds-front (ref_text e.ref) _ h₃);
      reads_image = slice-Holds (image_of e) e.declared (sym size) h₄;
    }
  where
    moved : {at there : ℕ} {xs : List ℕ} → at ≡ there → Holds buf at xs → Holds buf there xs
    moved {xs} same_place g = record {
      before = g.before;
      after = g.after;
      parts = g.parts;
      place = g.place ∙ same_place;
    }

module _ (word : ℕ) (buf : List ℕ) (small : length buf < word) where
  -- The sums that the walk over a body makes.
  pub record BodyPlaces (body : ℕ) (e : Spec) : Type 0 where
    pub digest_at : plus word body 4 ≡ body + 4
    pub ref_len_at : plus word (body + 4) 32 ≡ body + 36
    pub ref_at : plus word (body + 36) 1 ≡ body + 37
    pub image_at :
        plus word (body + 37) (length (ref_text e.ref)) ≡ body + 37 + length (ref_text e.ref)
    pub next_at :
        plus word (body + 37 + length (ref_text e.ref)) e.declared
        ≡ body + 37 + length (ref_text e.ref) + e.declared
    pub has_fields : has word buf body 37 ≡ true
    pub has_ref : has word buf (body + 37) (length (ref_text e.ref)) ≡ true
    pub has_image : has word buf (body + 37 + length (ref_text e.ref)) e.declared ≡ true

  pub BodyReads-BodyPlaces : (body : ℕ) (e : Spec) → BodyReads buf body e → BodyPlaces body e
  BodyReads-BodyPlaces body e r =
      let n : ℕ = length (ref_text e.ref) in
      record {
        digest_at = plus_inside word buf small body 4 (omega (arith, r.inside));
        ref_len_at =
            plus_inside word buf small (body + 4) 32 (omega (arith, r.inside)) ∙ omega arith;
        ref_at = plus_inside word buf small (body + 36) 1 (omega (arith, r.inside)) ∙ omega arith;
        image_at = plus_inside word buf small (body + 37) n (omega (arith, r.inside));
        next_at = plus_inside word buf small (body + 37 + n) e.declared (omega (arith, r.inside));
        has_fields = has_inside word buf small body 37 (omega (arith, r.inside));
        has_ref = has_inside word buf small (body + 37) n (omega (arith, r.inside));
        has_image = has_inside word buf small (body + 37 + n) e.declared (omega (arith, r.inside));
      }

  walk_body-entry :
      (name : String) (body : ℕ) (e : Spec)
      → BodyReads buf body e
      → walk_body word buf name body
        ≡ some (
            some (record {
              name = name;
              body = body;
              next = body + 37 + length (ref_text e.ref) + e.declared;
            }))
  unfolding walk_body
  walk_body-entry name body e r =
      let b = BodyReads-BodyPlaces body e r in
      rw (
        b.has_fields, r.reads_declared, b.digest_at, b.ref_len_at, r.reads_ref_len, b.ref_at,
        b.image_at, b.has_ref, b.has_image, b.next_at,
      )

  -- The walk over an entry that stands at `at`.
  pub walk_entry-entry :
      (at : ℕ) (e : Spec)
      → Fits e
      → e.declared ≤ 5
      → Holds buf at (entry_bytes e)
      → (walk_entry word buf at
          ≡ some (
              some (record {
                name = e.name;
                body = at + 1 + length e.name;
                next = at + length (entry_bytes e);
              })))
        × Holds buf (at + 1 + length e.name) (body_bytes e)
  unfolding walk_entry
  walk_entry-entry at e fits few h =
      let n : ℕ = length e.name in
      let h₁ = Holds-rest (n ∷ []) (e.name ++ body_bytes e) h in
      let h₂ = Holds-rest e.name (body_bytes e) h₁ in
      let r = Holds-BodyReads buf (at + 1 + n) e fits few h₂ in
      let le : at + 1 + n + 37 ≤ length buf = omega (arith, r.inside) in
      (
        rw
            (
              has_inside word buf small at 1 (omega (arith, le)),
              u8-Holds n _ h,
              plus_inside word buf small at 1 (omega (arith, le)),
              has_inside word buf small (at + 1) n (omega (arith, le)),
              slice-Holds e.name n refl (Holds-front e.name _ h₁),
              plus_inside word buf small (at + 1) n (omega (arith, le)),
            )
            (walk_body-entry e.name (at + 1 + n) e r
              ∙ ap (λ k. some (some (record { name = e.name; body = at + 1 + n; next = k })))
                  (size e fits few)),
        h₂,
      )
    where
      size :
          (e : Spec)
          → Fits e
          → e.declared ≤ 5
          → at + 1 + length e.name + 37 + length (ref_text e.ref) + e.declared
            ≡ at + length (entry_bytes e)
      size e fits few = omega (
        arith,
        length-append e.name (body_bytes e),
        length-append e.digest (length (ref_text e.ref) ∷ (ref_text e.ref ++ image_of e)),
        length-append (ref_text e.ref) (image_of e),
        length-image_of e few,
        fits.digest_fits,
      )

  -- What a search finds: nothing, or the body of the first entry with the name.
  pub data Finds (want : String) : Option ℕ → Option Spec → Type 0 where
    finds_none : Finds want none none
    finds_some :
        (body : ℕ) (e : Spec)
        → e.name ≡ want
        → Fits e
        → e.declared ≤ 5
        → BodyReads buf body e
        → Finds want (some body) (some e)

  pub find_from-entries :
      (want : String) (at : ℕ) (es : List Spec)
      → Written es
      → Holds buf at (entries_bytes es)
      → (o : Option ℕ) × (find_from word buf want (length es) at ≡ some o)
        × Finds want o (named want es)
  unfolding find_from named
  find_from-entries want at [] written_none h = (none, refl, finds_none)
  find_from-entries want at (e ∷ es) (written_one _ _ fits few more) h =
      let (walks, holds) =
        walk_entry-entry at e fits few (Holds-front (entry_bytes e) (entries_bytes es) h) in
      let (o, finds, right) =
        find_from-entries want (at + length (entry_bytes e)) es more
          (Holds-rest (entry_bytes e) (entries_bytes es) h) in
      elim (Bool-cases (same e.name want)) [
        | inl met ↦ (
          some (at + 1 + length e.name),
          rw (walks, met),
          rw met (
              finds_some (at + 1 + length e.name) e (same→eq e.name want met) fits few
                (Holds-BodyReads buf _ e fits few holds)),
        )
        | inr other ↦ (o, rw (walks, other, finds), rw other right)
      ]

  -- The search in a manifest whose header tells the number of its entries.
  pub find_entry-entries :
      (want : String) (mark : List ℕ) (version : ℕ) (es : List Spec)
      → length mark ≡ 4
      → buf ≡ mark ++ version ∷ length es ∷ entries_bytes es
      → Written es
      → (o : Option ℕ) × (find_entry word buf want ≡ some o) × Finds want o (named want es)
  unfolding find_entry
  find_entry-entries want mark version es four e written =
      let h : Holds buf 4 (version ∷ length es ∷ entries_bytes es) = record {
        before = mark;
        after = [];
        parts = e ∙ ap (λ l. mark ++ l) (sym (append-nil _));
        place = four;
      } in
      let h₁ = Holds-rest (version ∷ []) (length es ∷ entries_bytes es) h in
      let h₂ = Holds-rest (length es ∷ []) (entries_bytes es) h₁ in
      let (o, finds, right) = find_from-entries want 6 es written h₂ in
      (
        o,
        rw (
          has_inside word buf small 0 6 (omega (arith, Holds-le h₂)),
          u8-Holds (length es) _ h₁,
          finds,
        ),
        right,
      )
