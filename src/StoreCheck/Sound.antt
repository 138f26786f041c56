-- ===== src/StoreCheck/Sound.antt =====
-- The check of an image in reference_app/embedded/src/store_check.cpp, against what a valid record is.
use jmpxx.Prelude.{
  ℕ, zero, suc, ◌+◌, ◌≤◌, ◌<◌, ◌≡◌, refl, ap, ◌∙◌, inl, inr, true, false, Option, none, some, List,
  [], ◌∷◌, arith, ltb, Bool-cases, length, drop,
}
use jmpxx.Prelude.Int.{ℤ}
use jmpxx.Core.Error.{Error}
use jmpxx.Unwind.{World, Arm, modify}
use jmpxx.Unwind.Escape.{Payload, IsCarried, frame}
use jmpxx.Unwind.Triple.{
  Triple, Landed, scope-Landed, pure-Triple, gets-Triple, modify-Triple, given-Triple,
  before-Triple, after-Triple, if-Triple, bind-Triple, frame-Triple,
}
use jmpxx.StoreCheck.Fields.{String, Fault, Board, max_path}
use jmpxx.StoreCheck.Check.{
  Filesystem, visiting, open_file, read_record, check_content, follow, close_file, pop_name, deepen,
  under_file, under_marker, check_record, reset_counters, check_body, check_image, record_path,
}
use jmpxx.StoreCheck.Owners.{At}
use jmpxx.StoreCheck.Meaning.{Sound, Stored, Checked, checked_last, checked_after}
use jmpxx.StoreCheck.Steps.{
  Counts, Escapes, fail_with-Triple, check_content-Triple, read_record-Triple, open_file-Triple,
  visiting-Triple,
}

-- A fact that the precondition gives may be used, and dropped from it.
learn-Triple :
    {A : Type 0} (p : Payload Error) (R : Error → Board → Type 0) (F : Type 0) (P : Board → Type 0)
    (Q : A → Board → Type 0) (x : Arm Board A)
    → (F → Triple p R P Q x)
    → Triple p R (λ b. P b × F) Q x
learn-Triple p R F P Q x h =
    given-Triple p R (λ b. P b × F) Q x
      (λ b₀ h₀. before-Triple p R (λ b. P b × F) P Q x (λ b g. g.0) (h h₀.1))

module _ (p : Payload Error) (strtol : String → ℤ) (fs : Filesystem) where
  -- The record, and the chain that it refers to, of `n` records that are now counted.
  abbrev Checks : List String → ℕ → ℕ → String → Board → Type 0
  Checks ns k m name b =
      At ns k b × (n : ℕ) × Checked strtol fs name n × (b.records_checked ≡ m + n)

  -- The chain that a reference leads into; none without one.
  abbrev Follows : List String → ℕ → ℕ → Option String → Board → Type 0
  Follows ns k m none b = Counts ns k m b
  Follows ns k m (some ref) b = Checks ns k m ref b × (fs.exists (record_path ref) ≡ true)

  module _ (ns : List String) (k : ℕ) where
    follow-Triple :
        (m : ℕ) (next : String → Arm Board (Unit {0})) (depth : ℕ) (ref : Option String)
        → ((m : ℕ) (r : String)
            → Triple p (Escapes ns k) (Counts ns k m) (λ _. Checks ns k m r) (next r))
        → Triple p
            (Escapes ns k)
            (Counts ns k m)
            (λ _. Follows ns k m ref)
            (follow p strtol fs next depth ref)
    follow-Triple m next depth none h =
        pure-Triple p (Escapes ns k) (Counts ns k m) (λ _. Counts ns k m) tt (λ b g. g)
    follow-Triple m next depth (some r) h =
        if-Triple p (Escapes ns k) (Counts ns k m) (λ _. Follows ns k m (some r))
          (fs.exists (record_path r)) _ _
          (λ exists.
            after-Triple p (Escapes ns k) (Counts ns k m) (λ _. Follows ns k m (some r))
              (λ _. Checks ns k m r) (next r) (λ _ b g. (g, exists)) (h m r))
          (λ _.
            fail_with-Triple p strtol ns k (Counts ns k m) (λ _. Follows ns k m (some r))
              Fault.reference_missing r depth (λ b g. g.0))

    -- A stored record with what it refers to.
    checked_of :
        (m : ℕ) (name : String) (ref : Option String) (b : Board)
        → Stored strtol fs name ref
        → Follows ns k (m + 1) ref b
        → Checks ns k m name b
    checked_of m name none b s h = (h.0, 1, checked_last name s, h.1)
    checked_of m name (some ref) b s h =
        (h.0.0, suc h.0.1, checked_after name ref h.0.1 s h.1 h.0.2, omega (arith, h.0.3))

    under_file-Triple :
        (m : ℕ) (next : String → Arm Board (Unit {0})) (name : String) (depth : ℕ)
        → fs.opens (record_path name) ≡ true
        → ((m : ℕ) (r : String)
            → Triple p (Escapes ns k) (Counts ns k m) (λ _. Checks ns k m r) (next r))
        → Triple p
            (Escapes ns k)
            (Counts ns k m)
            (λ _. Checks ns k m name)
            (under_file p strtol fs next name depth)
    under_file-Triple m next name depth opens h =
        bind-Triple p (Escapes ns k) P
          (λ buf b. P b × ((fs.read (record_path name) 191 ≡ some buf) × (12 ≤ length buf))) Q
          (read_record p strtol fs name depth) _ (read_record-Triple p strtol fs ns k m name depth)
          (λ buf. learn-Triple p (Escapes ns k) _ P Q _ (λ (reads, long).
            bind-Triple p (Escapes ns k) P (λ ref b. Counts ns k (m + 1) b × Sound strtol buf ref) Q
              (check_content p strtol fs name depth buf) (follow p strtol fs next depth)
              (check_content-Triple p strtol fs ns k m name depth buf)
              (λ ref.
                learn-Triple p (Escapes ns k) (Sound strtol buf ref) (Counts ns k (m + 1)) Q _
                  (λ sound.
                    after-Triple p (Escapes ns k) (Counts ns k (m + 1)) Q
                      (λ _. Follows ns k (m + 1) ref) _
                      (λ _ b g.
                        checked_of m name ref b
                          (record {
                            buf = buf;
                            opens = opens;
                            reads = reads;
                            long = long;
                            sound = sound;
                          })
                          g)
                      (follow-Triple (m + 1) next depth ref h)))))
      where
        P : Board → Type 0
        P = Counts ns k m

        Q : Unit {0} → Board → Type 0
        Q _ = Checks ns k m name

  under_marker-Triple :
      (ns : List String) (k m : ℕ) (next : String → Arm Board (Unit {0})) (name : String)
      (depth : ℕ)
      → ((m : ℕ) (r : String)
          → Triple p
              (Escapes ns (k + 1))
              (Counts ns (k + 1) m)
              (λ _. Checks ns (k + 1) m r)
              (next r))
      → Triple p
          (Escapes ns k)
          (Counts ns k m)
          (λ _. Checks ns k m name)
          (under_marker p strtol fs next name depth)
  under_marker-Triple ns k m next name depth h =
      bind-Triple p (Escapes ns k) (Counts ns k m) (λ _ b. Opened × Counts ns (k + 1) m b)
        (λ _. Checks ns k m name) (open_file p strtol fs (record_path name) name depth)
        (λ _. frame (modify close_file) (under_file p strtol fs next name depth))
        (open_file-Triple p strtol fs ns k m (record_path name) name depth)
        (λ _.
          frame-Triple p (Escapes ns k) (Escapes ns (k + 1)) (λ _. Checks ns k m name)
            (λ _. Checks ns (k + 1) m name) close_file (λ b. Opened × Counts ns (k + 1) m b) _
            (λ v b g. ((g.0.0, ground (arith, g.0.1)), g.1, g.2, g.3))
            (λ e b g. ((g.0.0, ground (arith, g.0.1)), g.1))
            (given-Triple p (Escapes ns (k + 1)) (λ b. Opened × Counts ns (k + 1) m b)
              (λ _. Checks ns (k + 1) m name) _
              (λ b₀ h₀.
                before-Triple p (Escapes ns (k + 1)) (λ b. Opened × Counts ns (k + 1) m b)
                  (Counts ns (k + 1) m) (λ _. Checks ns (k + 1) m name) _ (λ b g. g.1)
                  (under_file-Triple ns (k + 1) m next name depth h₀.0 h))))
    where
      Opened : Type 0
      Opened = fs.opens (record_path name) ≡ true

  deepen-Counts :
      (ns : List String) (k m depth : ℕ) (b : Board)
      → Counts ns k m b
      → Counts ns k m (deepen depth b)
  deepen-Counts ns k m depth b h = elim (Bool-cases (ltb b.deepest depth)) [
    | inl more ↦ rw more h
    | inr less ↦ rw less h
  ]

  check_record-Triple :
      (fuel : ℕ) (ns : List String) (k m : ℕ) (name : String) (depth : ℕ)
      → max_path + 1 ≤ fuel + length ns
      → length ns ≤ max_path
      → Triple p
          (Escapes ns k)
          (Counts ns k m)
          (λ _. Checks ns k m name)
          (check_record p strtol fs fuel name depth)
  unfolding check_record
  check_record-Triple zero ns k m name depth enough short = absurd (omega arith)
  check_record-Triple (suc fuel) ns k m name depth enough short =
      bind-Triple p (Escapes ns k) (Counts ns k m) (λ _. Counts ns k m) (λ _. Checks ns k m name)
        (modify (deepen depth)) _
        (modify-Triple p (Escapes ns k) (Counts ns k m) (Counts ns k m) (deepen depth)
          (deepen-Counts ns k m depth))
        (λ _.
          bind-Triple p (Escapes ns k) (Counts ns k m) (λ _. Marked) (λ _. Checks ns k m name)
            (visiting p strtol fs name depth)
            (λ _. frame (modify pop_name) (under_marker p strtol fs next name depth))
            (visiting-Triple p strtol fs ns k m name depth)
            (λ _.
              frame-Triple p (Escapes ns k) (Escapes (name ∷ ns) k) (λ _. Checks ns k m name)
                (λ _. Checks (name ∷ ns) k m name) pop_name Marked _
                (λ v b g. ((ap (drop 1) g.0.0, g.0.1), g.1, g.2, g.3))
                (λ e b g. ((ap (drop 1) g.0.0, g.0.1), g.1))
                (given-Triple p (Escapes (name ∷ ns) k) Marked (λ _. Checks (name ∷ ns) k m name) _
                  (λ b₀ h₀.
                    before-Triple p (Escapes (name ∷ ns) k) Marked (Counts (name ∷ ns) k m)
                      (λ _. Checks (name ∷ ns) k m name) _ (λ b g. g.1)
                      (under_marker-Triple (name ∷ ns) k m next name depth (λ m' r.
                        check_record-Triple fuel (name ∷ ns) (k + 1) m' r (depth + 1) (omega arith)
                          (omega (arith, h₀.0))))))))
    where
      next : String → Arm Board (Unit {0})
      next ref = check_record p strtol fs fuel ref (depth + 1)

      Marked : Board → Type 0
      Marked b = (length ns < max_path) × Counts (name ∷ ns) k m b

  -- What a number means.
  abbrev pub Valid : ℕ → String → ℕ → Board → Type 0
  Valid k entry n b = At [] k b × (fs.mounts ≡ true) × Checked strtol fs entry n

  check_body-Triple :
      (k : ℕ) (entry : String)
      → Triple p (Escapes [] k) (At [] k) (λ n. Valid k entry n) (check_body p strtol fs entry)
  unfolding check_body
  check_body-Triple k entry =
      if-Triple p (Escapes [] k) (At [] k) (λ n. Valid k entry n) fs.mounts _ _
        (λ mounts.
          bind-Triple p (Escapes [] k) (At [] k) (λ _. Counts [] k 0) (λ n. Valid k entry n)
            (modify reset_counters) _
            (modify-Triple p (Escapes [] k) (At [] k) (Counts [] k 0) reset_counters
              (λ b h. (h, refl)))
            (λ _.
              bind-Triple p (Escapes [] k) (Counts [] k 0) (λ _. Checks [] k 0 entry)
                (λ n. Valid k entry n) (check_record p strtol fs (max_path + 1) entry 0) _
                (check_record-Triple (max_path + 1) [] k 0 entry 0 (omega arith) (omega arith))
                (λ _.
                  gets-Triple p (Escapes [] k) (Checks [] k 0 entry) (λ n. Valid k entry n)
                    (λ b. b.records_checked)
                    (λ b h. (h.0, mounts, counted entry b.records_checked h.1 h.3 h.2)))))
        (λ _.
          fail_with-Triple p strtol [] k (At [] k) (λ n. Valid k entry n) Fault.mount_failed entry 0
            (λ b h. h))
    where
      counted :
          (entry : String) (r n : ℕ)
          → r ≡ 0 + n
          → Checked strtol fs entry n
          → Checked strtol fs entry r
      counted entry r n e c = rw (e ∙ zero_plus n) c
        where
          zero_plus : (n : ℕ) → 0 + n ≡ n
          zero_plus n = omega arith

  -- A check of any image that starts with no record on the path, on a thread that is not unwinding,
  -- ends with a number of records or with a fault of the enumeration. The reference path is empty
  -- again, every file that was opened is closed, and the thread is as it was. A number means that the
  -- filesystem mounts and that the record, with those on the chain of references from it, is stored
  -- and sound: each opens and is read, starts with the header and the version, has lines of keys and
  -- values alone, declares the sum of its values as its checksum, and refers to a record that is
  -- there. There are as many records on the chain as the number says.
  pub check_image_lem :
      (junk : List ℕ) (entry : String) (w : World Board)
      → w.thread.in_flight ≡ false
      → IsCarried p
      → w.app.path ≡ []
      → Landed
          (Escapes [] w.app.open_files)
          (λ n. Valid w.app.open_files entry n)
          w
          (check_image p strtol fs junk entry w)
  unfolding check_image
  check_image_lem junk entry w calm c empty =
      scope-Landed p (Escapes [] w.app.open_files) (At [] w.app.open_files)
        (λ n. Valid w.app.open_files entry n) junk w (check_body p strtol fs entry) calm c
        (empty, refl) (check_body-Triple w.app.open_files entry)
