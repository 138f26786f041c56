-- ===== src/Client/Parsed.antt =====
-- The verification of reference_app/optee_ta/ta/manifest_ta.cpp on the manifests that
-- reference_app/optee_ta/host/verify_client.c builds.
use jmpxx.Prelude.{
  ℕ, zero, suc, ◌+◌, ◌≤◌, ◌<◌, ◌≡◌, refl, sym, ap, ◌∙◌, inl, inr, Bool, false, Option, none, some,
  List, [], ◌∷◌, ◌++◌, arith, ltb, ◌==◌, Bool-cases, length,
}
use jmpxx.Prelude.Text.{String}
use jmpxx.Core.Error.{Error}
use jmpxx.Unwind.{Arm, ◌>>=◌, ◌>>◌, modify, gets}
use jmpxx.Unwind.Escape.{Payload, frame, escape_scope}
use jmpxx.Manifest.Verify.{
  reference_missing, Instance, max_depth, max_image_bytes, magic, pop_name, deepen, free_digest,
  reset, fail, visiting, allocate, reading, descend, check_image, check_reference, under_digest,
  verify_entry, verify_first, verify_body, verify_manifest,
}
use mathlib.Core.List.{append_assoc, append-nil}
use native.Mathlib.Nat.{mod-eq_of_lt}
use jmpxx.Client.Builder.{Spec, ref_text, begin, entries}
use jmpxx.Client.Layout.{
  Fits, AllFit, Written, written_one, body_bytes, entries_bytes, entries-some, begin-some,
}
use jmpxx.Client.Holds.{
  Holds, Holds-front, Holds-rest, u8-Holds, slice-Holds, has_inside, plus_inside,
}
use jmpxx.Client.Found.{
  BodyReads, Holds-BodyReads, BodyReads-BodyPlaces, Finds, finds_none, finds_some,
  find_entry-entries,
}
use jmpxx.Client.Judge.{
  named, judge_reference, judge_image, judge_body, judge_entry, judge_manifest,
}

positive : (n : ℕ) → (suc n == 0) ≡ false
positive n = ground arith

-- A read that succeeds.
read_on :
    {A B : Type 0} (o : Option A) (f : A → Arm Instance B) {a : A}
    → o ≡ some a
    → (reading o >>= f) ≡ f a
read_on o f e = ap (λ x. reading x >>= f) e

module _ (p : Payload Error) (available : ℕ → Bool) (sha256 : List ℕ → List ℕ) (word : ℕ)
    (buf : List ℕ) (small : length buf < word) (mark : List ℕ) (version : ℕ) (es : List Spec)
    (four : length mark ≡ 4) (layout : buf ≡ mark ++ version ∷ length es ∷ entries_bytes es)
    (written : Written es) where
  check_image-judge :
      (body : ℕ) (e : Spec) (depth : ℕ)
      → BodyReads buf body e
      → check_image p available sha256 word buf e.name depth
          (body + 37 + length (ref_text e.ref))
          e.declared
          e.digest
        ≡ judge_image p available sha256 es e depth
  unfolding check_image judge_image
  check_image-judge body e depth r =
      let b = BodyReads-BodyPlaces word buf small body e r in rw (b.has_image, r.reads_image)

  module _ (next : String → ℕ → Arm Instance (Unit {0})) (next' : Spec → Arm Instance (Unit {0}))
      (agree : (body : ℕ) (e : Spec)
        → Fits e
        → e.declared ≤ 5
        → BodyReads buf body e
        → next e.name body ≡ next' e) where
    descend-judge :
        (depth : ℕ) (ref : String)
        → descend p available sha256 word buf next depth ref
          ≡ judge_reference p available sha256 es next' depth ref
    unfolding descend judge_reference
    descend-judge depth [] = refl
    descend-judge depth (c ∷ ref) =
        let (o, finds, right) =
          find_entry-entries word buf small (c ∷ ref) mark version es four layout written in
        rw (positive (length ref), finds) (target o (named (c ∷ ref) es) right)
      where
        target :
            (o : Option ℕ) (t : Option Spec)
            → Finds word buf small (c ∷ ref) o t
            → (elim o [
              | none ↦ fail p {A = Unit {0}} reference_missing (c ∷ ref) depth
              | some at ↦ next (c ∷ ref) at
            ])
              ≡ (elim t [
                | none ↦ fail p {A = Unit {0}} reference_missing (c ∷ ref) depth
                | some e ↦ next' e
              ])
        target none none finds_none = refl
        target none (some e) x = elim x [ ]
        target (some at) none x = elim x [ ]
        target (some at) (some e) (finds_some _ _ met fits few r) =
            ap (λ n. next n at) (sym met) ∙ agree at e fits few r

    check_reference-judge :
        (body : ℕ) (e : Spec) (depth : ℕ)
        → e.declared ≤ 5
        → BodyReads buf body e
        → check_reference p available sha256 word buf next e.name depth
            (body + 36)
            e.declared
            e.digest
          ≡ judge_body p available sha256 es next' e depth
    unfolding check_reference judge_body
    check_reference-judge body e depth few r =
        let b = BodyReads-BodyPlaces word buf small body e r in
        let modest : ltb max_image_bytes e.declared ≡ false = ground (arith, few) in
        read_on _ _ r.reads_ref_len
        ∙ rw (b.ref_at, b.has_ref)
            (read_on _ _ r.reads_ref
              ∙ rw
                  (
                    b.image_at,
                    modest,
                    descend-judge depth (ref_text e.ref),
                    check_image-judge body e depth r,
                  )
                  (elim (Bool-cases (e.declared == 0)) [
                    | inl empty ↦ rw empty
                    | inr other ↦ rw other
                  ]))

    under_digest-judge :
        (body : ℕ) (e : Spec) (depth : ℕ)
        → e.declared ≤ 5
        → BodyReads buf body e
        → under_digest p available sha256 word buf next e.name body depth
          ≡ judge_body p available sha256 es next' e depth
    unfolding under_digest
    under_digest-judge body e depth few r =
        let b = BodyReads-BodyPlaces word buf small body e r in
        rw b.has_fields (
          read_on _ _ r.reads_declared
          ∙ rw b.digest_at (
              read_on _ _ r.reads_digest
              ∙ rw b.ref_len_at (check_reference-judge body e depth few r)))

  verify_entry-judge :
      (fuel : ℕ) (body : ℕ) (e : Spec) (depth : ℕ)
      → e.declared ≤ 5
      → BodyReads buf body e
      → verify_entry p available sha256 word buf fuel e.name body depth
        ≡ judge_entry p available sha256 es fuel e depth
  unfolding verify_entry judge_entry
  verify_entry-judge zero body e depth few r = refl
  verify_entry-judge (suc fuel) body e depth few r =
      ap
        (λ m.
          modify (deepen depth)
          >> (visiting p e.name depth
              >> frame (modify pop_name)
                  (allocate p available depth >> frame (modify free_digest) m)))
        (under_digest-judge
          (λ ref at. verify_entry p available sha256 word buf fuel ref at (depth + 1))
          (λ target. judge_entry p available sha256 es fuel target (depth + 1))
          (λ at t fits few' r'. verify_entry-judge fuel at t (depth + 1) few' r') body e depth few
          r)

module _ (p : Payload Error) (available : ℕ → Bool) (sha256 : List ℕ → List ℕ) (word : ℕ)
    (buf : List ℕ) (small : length buf < word) (e : Spec) (es : List Spec)
    (layout : buf ≡ magic ++ 1 ∷ length (e ∷ es) ∷ entries_bytes (e ∷ es)) (fits : Fits e)
    (few : e.declared ≤ 5) (more : Written es) (some_name : 0 < length e.name) where
  header-Holds : Holds buf 0 (magic ++ 1 ∷ length (e ∷ es) ∷ entries_bytes (e ∷ es))
  header-Holds = record {
    before = [];
    after = [];
    parts = layout ∙ sym (append-nil _);
    place = refl;
  }

  entries-Holds : Holds buf 6 (entries_bytes (e ∷ es))
  entries-Holds =
      Holds-rest (magic ++ 1 ∷ length (e ∷ es) ∷ []) (entries_bytes (e ∷ es)) header-Holds

  name-Holds : Holds buf 7 (e.name ++ (body_bytes e ++ entries_bytes es))
  name-Holds =
      let h : Holds buf 7 ((e.name ++ body_bytes e) ++ entries_bytes es) =
        Holds-rest (length e.name ∷ []) _ entries-Holds in
      rw (append_assoc e.name (body_bytes e) (entries_bytes es)) at h

  first-BodyReads : BodyReads buf (7 + length e.name) e
  first-BodyReads =
      Holds-BodyReads buf (7 + length e.name) e fits few
        (Holds-front (body_bytes e) _ (Holds-rest e.name _ name-Holds))

  verify_first-judge : verify_first p available sha256 word buf ≡ (
      judge_entry p available sha256 (e ∷ es) (max_depth + 2) e 0 >> gets (λ s. s.entries_verified))
  unfolding verify_first
  verify_first-judge =
      let inside : 7 + length e.name + 37 ≤ length buf = omega (arith, first-BodyReads.inside) in
      let named_first : (length e.name == 0) ≡ false = ground (arith, some_name) in
      rw (has_inside word buf small 6 1 (omega (arith, inside))) (
        read_on _ _ (u8-Holds (length e.name) _ entries-Holds)
        ∙ rw (named_first, has_inside word buf small 7 (length e.name) (omega (arith, inside)))
            (read_on _ _ (slice-Holds e.name (length e.name) refl (Holds-front e.name _ name-Holds))
              ∙ rw (
                plus_inside word buf small 7 (length e.name) (omega (arith, inside)),
                verify_entry-judge p available sha256 word buf small magic 1 (e ∷ es) refl layout
                    (written_one e es fits few more) (max_depth + 2) (7 + length e.name) e 0 few
                    first-BodyReads,
              )))

  verify_body-judge : verify_body p available sha256 word buf ≡ (
      judge_entry p available sha256 (e ∷ es) (max_depth + 2) e 0 >> gets (λ s. s.entries_verified))
  unfolding verify_body
  verify_body-judge =
      let inside : 7 + length e.name + 37 ≤ length buf = omega (arith, first-BodyReads.inside) in
      rw (has_inside word buf small 0 6 (omega (arith, inside))) (
        read_on _ _ (slice-Holds magic 4 refl (Holds-front magic _ header-Holds))
        ∙ read_on _ _ (u8-Holds 1 _ (Holds-rest magic _ header-Holds))
        ∙ read_on _ _ (
            u8-Holds (length (e ∷ es)) _ (
              Holds-rest (magic ++ 1 ∷ []) (length (e ∷ es) ∷ entries_bytes (e ∷ es)) header-Holds))
        ∙ rw (positive (length es)) verify_first-judge)

-- A manifest built of entries that fit, with a name for the first, is verified as the program over the
-- entries says: the trusted application has the same effects and the same result.
pub verify_manifest-judge :
    (p : Payload Error) (available : ℕ → Bool) (sha256 : List ℕ → List ℕ) (word : ℕ) (junk : List ℕ)
    (e : Spec) (es : List Spec) (b buf : List ℕ)
    → begin (length (e ∷ es)) magic 1 ≡ some b
    → entries b (e ∷ es) ≡ some buf
    → AllFit (e ∷ es)
    → length (e ∷ es) < 256
    → 0 < length e.name
    → length buf < word
    → verify_manifest p available sha256 word buf junk
      ≡ judge_manifest p available sha256 (e ∷ es) junk e
unfolding verify_manifest judge_manifest
verify_manifest-judge p available sha256 word junk e es b buf begins writes fits few_entries
      some_name small =
    build (entries-some b (e ∷ es) buf fits writes)
  where
    build :
        (buf ≡ b ++ entries_bytes (e ∷ es)) × Written (e ∷ es)
        → (modify reset >> escape_scope p junk (verify_body p available sha256 word buf)) ≡ (
            modify reset
            >> escape_scope p junk (
                judge_entry p available sha256 (e ∷ es) (max_depth + 2) e 0
                >> gets (λ s. s.entries_verified)))
    build (parts, written_one _ _ fits few more) =
        ap (λ m. modify reset >> escape_scope p junk m)
          (verify_body-judge p available sha256 word buf small e es
            (parts
              ∙ ap (λ l. l ++ entries_bytes (e ∷ es))
                  (begin-some (length (e ∷ es)) magic 1 b begins)
              ∙ ap (λ n. magic ++ 1 ∷ n ∷ entries_bytes (e ∷ es)) (mod-eq_of_lt few_entries))
            fits few more some_name)
