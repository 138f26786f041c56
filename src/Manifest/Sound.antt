-- ===== src/Manifest/Sound.antt =====
-- The descent and the landing of reference_app/optee_ta/ta/manifest_ta.cpp, against what a manifest
-- holds.
use jmpxx.Prelude.{
  ℕ, zero, suc, ◌+◌, ◌≤◌, ◌<◌, ◌≡◌, refl, sym, ap, ◌∙◌, inl, inr, Bool, true, false, not, ◌||◌,
  List, [], ◌∷◌, ◌++◌, arith, ltb, ◌==◌, Bool-cases, length, length-set, drop,
}
use jmpxx.Prelude.Text.{String, same, same→eq}
use jmpxx.Core.Error.{Error}
use jmpxx.Unwind.{World, Arm, ◌>>◌, modify, gets}
use jmpxx.Unwind.Escape.{Payload, IsCarried}
use jmpxx.Unwind.Triple.{
  Triple, Landed, gets-Triple, modify-Triple, given-Triple, before-Triple, if-Triple, bind-Triple,
  frame-Triple, scope-Landed,
}
use jmpxx.Manifest.Reader.{are_bytes, has}
use jmpxx.Manifest.Entries.{Accepted}
use jmpxx.Manifest.Bounds.{slice-Safe, Bytes, u8-Safe, Byte, plus_small, has-le}
use jmpxx.Manifest.Verify.{
  Fault, max_depth, max_name, max_image_bytes, Instance, pop_name, deepen, free_digest, visiting,
  allocate, under_digest, under_marker, verify_entry, verify_first, verify_body, verify_manifest,
  root, magic, reset,
}
use jmpxx.Manifest.Owners.{
  At, Counts, Escapes, IsFault, fail-Triple, read-Triple, visiting-Triple, allocate-Triple,
}
use jmpxx.Manifest.Steps.{Verifies, under_digest-Triple}

module _ (p : Payload Error) (available : ℕ → Bool) (sha256 : List ℕ → List ℕ) (word : ℕ)
    (buf : List ℕ) (bytes : are_bytes buf ≡ true)
    (room : length buf + max_image_bytes + 512 ≤ word) where
  under_marker-Triple :
      (ns : List String) (k m : ℕ) (next : String → ℕ → Arm Instance (Unit {0})) (name : String)
      (body depth : ℕ)
      → ((m : ℕ) (ref : String) (at : ℕ)
          → at ≤ length buf
          → Triple p
              (Escapes ns (k + 1))
              (Counts ns (k + 1) m)
              (λ _. Verifies p ns (k + 1) available sha256 word buf bytes room m at)
              (next ref at))
      → body ≤ length buf
      → Triple p
          (Escapes ns k)
          (Counts ns k m)
          (λ _. Verifies p ns k available sha256 word buf bytes room m body)
          (under_marker p available sha256 word buf next name body depth)
  under_marker-Triple ns k m next name body depth hnext start =
      bind-Triple p (Escapes ns k) (Counts ns k m) (λ _. Counts ns (k + 1) m) Q
        (allocate p available depth) _ (allocate-Triple p ns k m available depth)
        (λ _.
          frame-Triple p (Escapes ns k) (Escapes ns (k + 1)) Q
            (λ _. Verifies p ns (k + 1) available sha256 word buf bytes room m body) free_digest
            (Counts ns (k + 1) m) (under_digest p available sha256 word buf next name body depth)
            (λ v s h. (freed s h.0, h.1, h.2, h.3)) (λ e s h. (freed s h.0, h.1))
            (under_digest-Triple p ns (k + 1) available sha256 word buf bytes room next hnext m name
              body depth start))
    where
      Q : Unit {0} → Instance → Type 0
      Q _ = Verifies p ns k available sha256 word buf bytes room m body

      freed : (s : Instance) → At ns (k + 1) s → At ns k (free_digest s)
      freed s h = (h.0, omega (arith, h.1), h.2)

  -- With fuel for the entries that the path has room for, and one more, an entry is verified to the
  -- end.
  verify_entry-Triple :
      (fuel : ℕ) (ns : List String) (k m : ℕ) (name : String) (body depth : ℕ)
      → max_depth + 2 ≤ fuel + length ns
      → length ns ≤ max_depth + 1
      → body ≤ length buf
      → Triple p
          (Escapes ns k)
          (Counts ns k m)
          (λ _. Verifies p ns k available sha256 word buf bytes room m body)
          (verify_entry p available sha256 word buf fuel name body depth)
  unfolding verify_entry
  verify_entry-Triple zero ns k m name body depth enough short start = absurd (omega arith)
  verify_entry-Triple (suc fuel) ns k m name body depth enough short start =
      bind-Triple p R P (λ _. P) Q (modify (deepen depth)) _
        (modify-Triple p R P P (deepen depth) deepen_keeps)
        (λ _.
          bind-Triple p R P (λ _. Inner) Q (visiting p name depth) _
            (visiting-Triple p ns k m name depth)
            (λ _.
              frame-Triple p R (Escapes (name ∷ ns) k) Q
                (λ _. Verifies p (name ∷ ns) k available sha256 word buf bytes room m body) pop_name
                Inner _ (λ v s h. (popped s h.0, h.1, h.2, h.3)) (λ e s h. (popped s h.0, h.1))
                (given-Triple p (Escapes (name ∷ ns) k) Inner _ _ (λ s₀ h₀.
                  before-Triple p (Escapes (name ∷ ns) k) Inner (Counts (name ∷ ns) k m) _ _
                    (λ s h. h.1)
                    (under_marker-Triple (name ∷ ns) k m _ name body depth
                      (λ m' ref at ok.
                        verify_entry-Triple fuel (name ∷ ns) (k + 1) m' ref at (depth + 1)
                          (omega (arith, enough)) (omega (arith, h₀.0)) ok)
                      start)))))
    where
      R : Error → Instance → Type 0
      R = Escapes ns k

      P : Instance → Type 0
      P = Counts ns k m

      Q : Unit {0} → Instance → Type 0
      Q _ = Verifies p ns k available sha256 word buf bytes room m body

      Inner : Instance → Type 0
      Inner s = (length ns ≤ max_depth) × Counts (name ∷ ns) k m s

      popped : (s : Instance) → At (name ∷ ns) k s → At ns k (pop_name s)
      popped s h = (ap (drop 1) h.0, h.1, h.2)

      deepen_keeps : (s : Instance) → Counts ns k m s → Counts ns k m (deepen depth s)
      deepen_keeps s h = elim (Bool-cases (ltb s.deepest depth)) [
        | inl more ↦ rw more h
        | inr less ↦ rw less h
      ]

  -- The result of the landing's body.
  abbrev Accepts : ℕ → ℕ → Instance → Type 0
  Accepts k n s = At [] k s × Accepted sha256 word buf n

  module _ (k : ℕ) where
    entry-Triple :
        (count : ℕ) (first : String)
        → buf
          ≡ 77 ∷ 70 ∷ 83 ∷ 84 ∷ 1 ∷ count ∷ length first ∷ (first ++ drop (7 + length first) buf)
        → 0 < count
        → 0 < length first
        → 7 + length first ≤ length buf
        → (body : ℕ) → body ≡ 7 + length first
        → Triple p (Escapes [] k) (Counts [] k 0) (Accepts k) (
            verify_entry p available sha256 word buf (max_depth + 2) first body 0
            >> gets (λ s. s.entries_verified))
    entry-Triple count first start some_entry some_name inside body place =
        bind-Triple p (Escapes [] k) (Counts [] k 0)
          (λ _. Verifies p [] k available sha256 word buf bytes room 0 body) (Accepts k)
          (verify_entry p available sha256 word buf (max_depth + 2) first body 0) _
          (verify_entry-Triple (max_depth + 2) [] k 0 first body 0 (omega arith) (omega arith)
            (omega (arith, place, inside)))
          (λ _.
            gets-Triple p (Escapes [] k)
              (Verifies p [] k available sha256 word buf bytes room 0 body) (Accepts k)
              (λ s. s.entries_verified)
              (λ s h. (
                h.0,
                record {
                  count = count;
                  first = first;
                  rest = drop (7 + length first) buf;
                  start = start;
                  some_entry = some_entry;
                  some_name = some_name;
                  chain =
                      let n : s.entries_verified ≡ h.1 = omega (arith, h.3) in
                      rw (n, sym place) h.2;
                },
              )))

    verify_first-Triple :
        (count : ℕ)
        → buf ≡ 77 ∷ 70 ∷ 83 ∷ 84 ∷ 1 ∷ count ∷ drop 6 buf
        → 0 < count
        → 6 ≤ length buf
        → Triple p
            (Escapes [] k)
            (Counts [] k 0)
            (Accepts k)
            (verify_first p available sha256 word buf)
    unfolding verify_first
    verify_first-Triple count start some_entry short =
        if-Triple p R P Q (has word buf 6 1) _ _
          (λ h.
            let seven = has-le word buf 6 1 h (omega (arith, room)) in
            read-Triple p [] k P Q (Byte buf 6) _
              (u8-Safe buf 6 6 bytes refl (omega (arith, seven)))
              (λ first_len b.
                if-Triple p R P Q (first_len == 0 || not (has word buf 7 first_len)) _ _
                  (λ _. fail-Triple p [] k P Q Fault.entry_malformed root 0 (λ s q. q.0))
                  (λ sound.
                    let small : 7 + first_len < word = omega (arith, room, b.0) in
                    let whole = has-le word buf 7 first_len (ground (arith, sound)) small in
                    read-Triple p [] k P Q (Bytes buf 7 first_len) _
                      (slice-Safe buf 7 7 first_len refl whole)
                      (λ first g.
                        entry-Triple count first
                          (start
                            ∙ ap (λ l. 77 ∷ 70 ∷ 83 ∷ 84 ∷ 1 ∷ count ∷ l)
                                (b.1
                                  ∙ ap (λ l. first_len ∷ l) g.0
                                  ∙ ap (λ n. n ∷ (first ++ drop (7 + n) buf)) (sym g.1)))
                          some_entry (ground (arith, sound, g.1)) (omega (arith, whole, g.1)) _
                          (plus_small word 7 first_len small ∙ ap (λ n. 7 + n) (sym g.1))))))
          (λ _. fail-Triple p [] k P Q Fault.manifest_truncated root 0 (λ s q. q.0))
      where
        R : Error → Instance → Type 0
        R = Escapes [] k

        P : Instance → Type 0
        P = Counts [] k 0

        Q : ℕ → Instance → Type 0
        Q = Accepts k

    verify_body-Triple :
        Triple p
          (Escapes [] k)
          (Counts [] k 0)
          (Accepts k)
          (verify_body p available sha256 word buf)
    unfolding verify_body
    verify_body-Triple =
        if-Triple p R P Q (has word buf 0 6) _ _
          (λ h.
            let six = has-le word buf 0 6 h (omega (arith, room)) in
            read-Triple p [] k P Q (Bytes buf 0 4) _
              (slice-Safe buf 0 0 4 refl (omega (arith, six)))
              (λ mark g.
                read-Triple p [] k P Q (Byte buf 4) _
                  (u8-Safe buf 4 4 bytes refl (omega (arith, six)))
                  (λ version v.
                    read-Triple p [] k P Q (Byte buf 5) _
                      (u8-Safe buf 5 5 bytes refl (omega (arith, six)))
                      (λ count c.
                        if-Triple p R P Q (not (same mark magic)) _ _
                          (λ _. fail-Triple p [] k P Q Fault.header_bad root 0 (λ s q. q.0))
                          (λ marked.
                            if-Triple p R P Q (not (version == 1)) _ _
                              (λ _.
                                fail-Triple p [] k P Q Fault.version_unsupported root 0
                                  (λ s q. q.0))
                              (λ known.
                                if-Triple p R P Q (count == 0) _ _
                                  (λ _.
                                    fail-Triple p [] k P Q Fault.entry_malformed root 0
                                      (λ s q. q.0))
                                  (λ some_entry.
                                    verify_first-Triple count
                                      (g.0
                                        ∙ ap (λ m. m ++ drop 4 buf)
                                            (same→eq mark magic (ground (arith, marked)))
                                        ∙ ap (λ l. magic ++ l)
                                            (v.1
                                              ∙ ap (λ n. n ∷ drop 5 buf) (ground (arith, known))
                                              ∙ ap (λ l. 1 ∷ l) c.1))
                                      (ground (arith, some_entry)) (omega (arith, six)))))))))
          (λ _. fail-Triple p [] k P Q Fault.manifest_truncated root 0 (λ s q. q.0))
      where
        R : Error → Instance → Type 0
        R = Escapes [] k

        P : Instance → Type 0
        P = Counts [] k 0

        Q : ℕ → Instance → Type 0
        Q = Accepts k

  -- Whatever bytes a client hands in, a verification that starts with an empty reference path, on a
  -- thread that is not unwinding, ends with a number or one of the faults, never by stopping the program or with
  -- a read outside the buffer; the path is empty again, every hash operation that was allocated is
  -- freed, and the thread is as it was. It ends with a number only if the manifest has its header and
  -- a first entry, and every entry on the chain of references from that one is whole, of a plausible
  -- length, and has the digest that it declares; the number is that of those entries. The sums of
  -- `size_t` need room for an image and a header after the buffer.
  pub verify_manifest_lem :
      (junk : List ℕ) (w : World Instance)
      → w.thread.in_flight ≡ false
      → IsCarried p
      → w.app.path ≡ []
      → length w.app.fault_name ≡ max_name + 1
      → Landed
          (λ e s. At [] w.app.digests s × IsFault e)
          (λ n s. At [] w.app.digests s × Accepted sha256 word buf n)
          w
          (verify_manifest p available sha256 word buf junk w)
  unfolding verify_manifest
  verify_manifest_lem junk w calm c empty sized =
      let l =
        scope-Landed p (Escapes [] w.app.digests) (Counts [] w.app.digests 0)
          (Accepts w.app.digests) junk (record w { app = reset w.app })
          (verify_body p available sha256 word buf) calm c
          ((empty, refl, length-set w.app.fault_name 0 0 ∙ sized), refl)
          (verify_body-Triple w.app.digests) in
      record { result = l.result; state = l.state; lands = l.lands; yields = l.yields }
