-- ===== src/Manifest/Steps.antt =====
-- One entry's verification in reference_app/optee_ta/ta/manifest_ta.cpp: the descent into its reference
-- and the check of its image.
use jmpxx.Prelude.{
  ℕ, ◌+◌, ◌≤◌, ◌<◌, ◌≡◌, refl, ap, ◌∙◌, Bool, true, ◌||◌, Option, none, some, List, [], ◌∷◌, arith,
  ltb, ◌==◌, length,
}
use jmpxx.Prelude.Text.{String, same, same→eq}
use jmpxx.Core.Error.{Error}
use jmpxx.Unwind.{Arm, ◌>>◌}
use jmpxx.Unwind.Escape.{Payload}
use jmpxx.Unwind.Triple.{
  Triple, pure-Triple, modify-Triple, exact-Triple, before-Triple, after-Triple, if-Triple,
  bind-Triple,
}
use jmpxx.Manifest.Reader.{are_bytes, plus, has}
use jmpxx.Manifest.Entries.{Body, Lists, Genuine, Verified, verified_last, verified_after}
use jmpxx.Manifest.Bounds.{
  slice-Safe, Bytes, u32-Safe, Encodes, u8-Safe, Byte, plus_small, plus-plus, has-le, has-plus,
}
use jmpxx.Manifest.Walk.{reads-Body, find_entry-Safe, Finds}
use jmpxx.Manifest.Verify.{
  Fault, max_image_bytes, Instance, count_entry, fail, descend, check_image, check_reference,
  under_digest,
}
use jmpxx.Manifest.Owners.{At, Counts, Escapes, fail-Triple, read-Triple}

module _ (p : Payload Error) (ns : List String) (k : ℕ) where
  module _ (available : ℕ → Bool) (sha256 : List ℕ → List ℕ) (word : ℕ) (buf : List ℕ)
      (bytes : are_bytes buf ≡ true) (room : length buf + max_image_bytes + 512 ≤ word) where
    -- The chain that a reference leads into; none for an empty reference.
    data Chained : String → ℕ → Type 0 where
      chained_none : Chained [] 0
      chained_to :
          (c : ℕ) (ref : String) (target n : ℕ)
          → Lists word buf (c ∷ ref) target
          → Verified sha256 word buf target n
          → Chained (c ∷ ref) n

    abbrev pub Verifies : ℕ → ℕ → Instance → Type 0
    Verifies m at s =
        At ns k s × (n : ℕ) × Verified sha256 word buf at n × (s.entries_verified ≡ m + n)

    verified_of :
        (at declared image n : ℕ) (digest ref : List ℕ)
        → Body buf at declared digest ref image
        → Chained ref n
        → Genuine sha256 buf image declared digest
        → Verified sha256 word buf at (n + 1)
    verified_of at declared image n digest [] b chained_none g =
        verified_last at declared image digest b g
    verified_of at declared image n digest (c ∷ ref) b (chained_to _ _ target _ l v) g =
        verified_after at declared image target n c digest ref b l v g

    check_image-Triple :
        (m : ℕ) (name : String) (depth at declared : ℕ) (expected : List ℕ)
        → 0 < declared
        → declared ≤ max_image_bytes
        → at ≤ length buf
        → Triple p
            (Escapes ns k)
            (Counts ns k m)
            (λ _ s. Counts ns k (m + 1) s × Genuine sha256 buf at declared expected)
            (check_image p available sha256 word buf name depth at declared expected)
    unfolding check_image
    check_image-Triple m name depth at declared expected some_bytes few start =
        if-Triple p (Escapes ns k) P Q (has word buf at declared) _ _
          (λ h.
            read-Triple p ns k P Q (Bytes buf at declared) _
              (slice-Safe buf at at declared refl
                (has-le word buf at declared h (omega (arith, room, few, start))))
              (λ image g.
                if-Triple p (Escapes ns k) P Q (same (sha256 image) expected) _ _
                  (λ met. modify-Triple p (Escapes ns k) P (Q tt) count_entry (λ s q. (
                    (q.0, ap (λ n. n + 1) q.1),
                    record {
                      image = image;
                      whole = g.0;
                      sized = g.1;
                      some_bytes = some_bytes;
                      not_too_many = few;
                      matches = same→eq (sha256 image) expected met;
                    },
                  )))
                  (λ _. fail-Triple p ns k P Q Fault.digest_mismatch name depth (λ s q. q.0))))
          (λ _. fail-Triple p ns k P Q Fault.manifest_truncated name depth (λ s q. q.0))
      where
        P : Instance → Type 0
        P = Counts ns k m

        Q : Unit {0} → Instance → Type 0
        Q _ s = Counts ns k (m + 1) s × Genuine sha256 buf at declared expected

    module _ (next : String → ℕ → Arm Instance (Unit {0}))
        (hnext : (m : ℕ) (ref : String) (at : ℕ)
          → at ≤ length buf
          → Triple p (Escapes ns k) (Counts ns k m) (λ _. Verifies m at) (next ref at)) where
      abbrev Descends : ℕ → String → Instance → Type 0
      Descends m ref s = At ns k s × (n : ℕ) × Chained ref n × (s.entries_verified ≡ m + n)

      descend-Triple :
          (m depth : ℕ) (ref : String)
          → Triple p
              (Escapes ns k)
              (Counts ns k m)
              (λ _. Descends m ref)
              (descend p available sha256 word buf next depth ref)
      unfolding descend
      descend-Triple m depth [] =
          pure-Triple p (Escapes ns k) (Counts ns k m) (λ _. Descends m []) tt
            (λ s h. (h.0, 0, chained_none, omega (arith, h.1)))
      descend-Triple m depth (c ∷ ref) =
          if-Triple p (Escapes ns k) P Q (length (c ∷ ref) == 0) _ _
            (λ none_left. absurd (ground (arith, none_left)))
            (λ _.
              read-Triple p ns k P Q (Finds word buf bytes (omega (arith, room)) (c ∷ ref)) _
                (find_entry-Safe word buf bytes (omega (arith, room)) (c ∷ ref)) found)
        where
          P : Instance → Type 0
          P = Counts ns k m

          Q : Unit {0} → Instance → Type 0
          Q _ = Descends m (c ∷ ref)

          found :
              (target : Option ℕ)
              → Finds word buf bytes (omega (arith, room)) (c ∷ ref) target
              → Triple p (Escapes ns k) P Q (elim target [
                | none ↦ fail p Fault.reference_missing (c ∷ ref) depth
                | some at ↦ next (c ∷ ref) at
              ])
          found none h = fail-Triple p ns k P Q Fault.reference_missing (c ∷ ref) depth (λ s g. g.0)
          found (some at) h =
              after-Triple p (Escapes ns k) P Q (λ _. Verifies m at) (next (c ∷ ref) at)
                (λ v s g. (g.0, g.1, chained_to c ref at g.1 h.0 g.2, g.3))
                (hnext m (c ∷ ref) at h.1)

      image-Triple :
          (m : ℕ) (name : String) (depth body at declared : ℕ) (expected : List ℕ) (ref : String)
          → Body buf body declared expected ref at
          → at ≤ length buf
          → 0 < declared
          → declared ≤ max_image_bytes
          → Triple p
              (Escapes ns k)
              (Counts ns k m)
              (λ _. Verifies m body)
              (descend p available sha256 word buf next depth ref
                >> check_image p available sha256 word buf name depth at declared expected)
      image-Triple m name depth body at declared expected ref b start some_bytes few =
          bind-Triple p (Escapes ns k) (Counts ns k m) (λ _. Descends m ref) (λ _. Verifies m body)
            (descend p available sha256 word buf next depth ref) (λ _. check)
            (descend-Triple m depth ref)
            (λ _.
              exact-Triple p (Escapes ns k) (Descends m ref) (λ _. Verifies m body) check
                (λ s₀ h₀.
                  before-Triple p (Escapes ns k) (λ s. s ≡ s₀) (Counts ns k (m + h₀.1))
                    (λ _. Verifies m body) check (λ s e. rw e (h₀.0, h₀.3))
                    (after-Triple p (Escapes ns k) (Counts ns k (m + h₀.1)) (λ _. Verifies m body)
                      (λ _ s.
                        Counts ns k (m + h₀.1 + 1) s × Genuine sha256 buf at declared expected)
                      check
                      (λ v s g. (
                        g.0.0,
                        h₀.1 + 1,
                        verified_of body declared at h₀.1 expected ref b h₀.2 g.1,
                        omega (arith, g.0.1),
                      ))
                      (check_image-Triple (m + h₀.1) name depth at declared expected some_bytes few
                        start))))
        where
          check : Arm Instance (Unit {0})
          check = check_image p available sha256 word buf name depth at declared expected

      -- The reference and the image, after the length and the digest of the entry.
      check_reference-Triple :
          (m : ℕ) (name : String) (depth body here declared : ℕ) (expected : List ℕ)
          → Encodes buf body declared
          → Bytes buf (body + 4) 32 expected
          → here ≡ body + 4 + 32
          → body + 37 ≤ length buf
          → Triple p
              (Escapes ns k)
              (Counts ns k m)
              (λ _. Verifies m body)
              (check_reference p available sha256 word buf next name depth here declared expected)
      unfolding check_reference
      check_reference-Triple m name depth body here declared expected e d place inside =
          read-Triple p ns k P Q (Byte buf (body + 4 + 32)) _
            (u8-Safe buf (body + 4 + 32) here bytes place (omega (arith, inside)))
            (λ ref_len b.
              let from = plus_small word here 1 (omega (arith, place, inside, room)) in
              if-Triple p (Escapes ns k) P Q (has word buf (plus word here 1) ref_len) _ _
                (λ h.
                  let small : plus word here 1 + ref_len < word =
                    omega (arith, from, place, inside, room, b.0) in
                  let whole = has-le word buf (plus word here 1) ref_len h small in
                  read-Triple p ns k P Q (Bytes buf (body + 4 + 32 + 1) ref_len) _
                    (slice-Safe buf (body + 4 + 32 + 1) (plus word here 1) ref_len
                      (omega (arith, from, place)) (omega (arith, whole, from, place)))
                    (λ ref r.
                      if-Triple p (Escapes ns k) P Q (declared == 0 || ltb max_image_bytes declared)
                        _ _
                        (λ _.
                          fail-Triple p ns k P Q Fault.length_implausible name depth (λ s q. q.0))
                        (λ sound.
                          image-Triple m name depth body _ declared expected ref
                            (rw
                              (plus_small word (plus word here 1) ref_len small
                                ∙ ap (λ n. n + ref_len) (from ∙ ap (λ n. n + 1) place))
                              (reads-Body buf body declared ref_len expected ref e d b r))
                            (has-plus word buf (plus word here 1) ref_len h) (ground (arith, sound))
                            (ground (arith, sound)))))
                (λ _. truncated))
        where
          P : Instance → Type 0
          P = Counts ns k m

          Q : Unit {0} → Instance → Type 0
          Q _ = Verifies m body

          truncated : Triple p (Escapes ns k) P Q (fail p Fault.manifest_truncated name depth)
          truncated = fail-Triple p ns k P Q Fault.manifest_truncated name depth (λ s h. h.0)

      pub under_digest-Triple :
          (m : ℕ) (name : String) (body depth : ℕ)
          → body ≤ length buf
          → Triple p
              (Escapes ns k)
              (Counts ns k m)
              (λ _. Verifies m body)
              (under_digest p available sha256 word buf next name body depth)
      unfolding under_digest
      under_digest-Triple m name body depth start =
          if-Triple p (Escapes ns k) P Q (has word buf body 37) _ _
            (λ h.
              let inside = has-le word buf body 37 h (omega (arith, start, room)) in
              let four = plus_small word body 4 (omega (arith, start, room)) in
              read-Triple p ns k P Q (Encodes buf body) _
                (u32-Safe buf body (omega (arith, inside)))
                (λ declared e.
                  read-Triple p ns k P Q (Bytes buf (body + 4) 32) _
                    (slice-Safe buf (body + 4) (plus word body 4) 32 four (omega (arith, inside)))
                    (λ expected d.
                      check_reference-Triple m name depth body _ declared expected e d
                        (plus-plus word body 4 32 (omega (arith, start, room))) inside)))
            (λ _. fail-Triple p ns k P Q Fault.manifest_truncated name depth (λ s h. h.0))
        where
          P : Instance → Type 0
          P = Counts ns k m

          Q : Unit {0} → Instance → Type 0
          Q _ = Verifies m body
