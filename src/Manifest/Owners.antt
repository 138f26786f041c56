-- ===== src/Manifest/Owners.antt =====
-- The owners of reference_app/optee_ta/ta/manifest_ta.cpp, `visiting` and `digest`, and its faults: what
-- they do to the reference path and to the hash operations.
use jmpxx.Prelude.{
  ℕ, suc, ◌+◌, ◌≤◌, ◌≡◌, refl, ap, Bool, Option, List, [], ◌∷◌, ◌++◌, arith, ltb, length,
  length-append, take, drop, length-take, length-drop,
}
use jmpxx.Prelude.Int.{pos}
use jmpxx.Prelude.Text.{String}
use jmpxx.Core.Error.{Error}
use jmpxx.Unwind.{Arm, ◌>>=◌, modify, gets, dangling}
use jmpxx.Unwind.Escape.{Payload}
use jmpxx.Unwind.Triple.{
  Triple, gets-Triple, modify-Triple, eject-Triple, given-Triple, before-Triple, if-Triple,
  bind-Triple,
}
use jmpxx.Manifest.Bounds.{Safe, safe}
use jmpxx.Manifest.Verify.{
  Fault, fault_code, max_depth, max_name, Instance, note_name, on_path, push_name, reading,
  enter_path, fail, visiting, allocate, digest_name,
}

-- The names on the path, the hash operations that are allocated, and the size of the array for a name.
abbrev pub At : List String → ℕ → Instance → Type 0
At ns k s = (s.path ≡ ns) × (s.digests ≡ k) × (length s.fault_name ≡ max_name + 1)

-- These, and the entries that are verified so far.
abbrev pub Counts : List String → ℕ → ℕ → Instance → Type 0
Counts ns k m s = At ns k s × (s.entries_verified ≡ m)

-- A fault leaves them so, and has the code of one.
abbrev pub IsFault : Error → Type 0
IsFault e = (f : Fault) × (e.code ≡ pos (fault_code f))

abbrev pub Escapes : List String → ℕ → Error → Instance → Type 0
Escapes ns k e s = At ns k s × IsFault e

length-note_name :
    (name : String) (s : Instance)
    → length s.fault_name ≡ max_name + 1
    → length (note_name name s).fault_name ≡ max_name + 1
unfolding note_name
length-note_name name s h = ground (
  arith,
  h,
  length-take max_name name,
  length-append (take max_name name ++ 0 ∷ [])
      (drop (suc (length (take max_name name))) s.fault_name),
  length-append (take max_name name) (0 ∷ []),
  length-drop (suc (length (take max_name name))) s.fault_name,
)

module _ (p : Payload Error) (ns : List String) (k : ℕ) where
  pub fail-Triple :
      {A : Type 0} (P : Instance → Type 0) (Q : A → Instance → Type 0) (f : Fault) (name : String)
      (depth : ℕ)
      → ((s : Instance) → P s → At ns k s)
      → Triple p (Escapes ns k) P Q (fail p {A = A} f name depth)
  unfolding fail note_name
  fail-Triple P Q f name depth h =
      bind-Triple p (Escapes ns k) P (λ _. At ns k) Q (modify (note_name name)) _
        (modify-Triple p (Escapes ns k) P (At ns k) (note_name name)
          (λ s g. ((h s g).0, (h s g).1, length-note_name name s (h s g).2)))
        (λ _.
          eject-Triple p (Escapes ns k) (At ns k) Q
            (record { code = pos (fault_code f); domain = pos depth }) (λ s g. (g, (f, refl))))

  pub read-Triple :
      {A B : Type 0} (P : Instance → Type 0) (Q : B → Instance → Type 0) (M : A → Type 0)
      (f : A → Arm Instance B) {o : Option A}
      → Safe M o
      → ((a : A) → M a → Triple p (Escapes ns k) P Q (f a))
      → Triple p (Escapes ns k) P Q (reading o >>= f)
  read-Triple P Q M f (safe a m) h = h a m

  enter_path-Triple :
      (m : ℕ) (name : String)
      → Triple p
          (Escapes ns k)
          (λ s. (length s.path ≤ max_depth) × Counts ns k m s)
          (λ _ s. (length ns ≤ max_depth) × Counts (name ∷ ns) k m s)
          (enter_path name)
  unfolding enter_path
  enter_path-Triple m name =
      bind-Triple p (Escapes ns k) P M Q (gets (λ s. length s.path)) _
        (gets-Triple p (Escapes ns k) P M (λ s. length s.path)
          (λ s h. (h.0, omega (arith, h.0, ap length h.1.0.0), h.1)))
        (λ n. given-Triple p (Escapes ns k) (M n) Q _ (λ s₀ h₀.
          if-Triple p (Escapes ns k) (M n) Q (ltb n (max_depth + 1)) _ (λ w. (dangling, w))
            (λ _.
              modify-Triple p (Escapes ns k) (M n) (Q tt) (push_name name)
                (λ s h. (h.1, ((ap (λ l. name ∷ l) h.2.0.0, h.2.0.1, h.2.0.2), h.2.1))))
            (λ full. absurd (ground (arith, full, h₀.0)))))
    where
      P : Instance → Type 0
      P s = (length s.path ≤ max_depth) × Counts ns k m s

      M : ℕ → Instance → Type 0
      M n s = (n ≤ max_depth) × (length ns ≤ max_depth) × Counts ns k m s

      Q : Unit {0} → Instance → Type 0
      Q _ s = (length ns ≤ max_depth) × Counts (name ∷ ns) k m s

  pub visiting-Triple :
      (m : ℕ) (name : String) (depth : ℕ)
      → Triple p
          (Escapes ns k)
          (Counts ns k m)
          (λ _ s. (length ns ≤ max_depth) × Counts (name ∷ ns) k m s)
          (visiting p name depth)
  unfolding visiting enter_path
  visiting-Triple m name depth =
      (bind-Triple p (Escapes ns k) P (λ v s. (v ≡ ns) × P s) Q (gets (λ s. s.path)) _
        (gets-Triple p (Escapes ns k) P (λ v s. (v ≡ ns) × P s) (λ s. s.path) (λ s h. (h.0.0, h)))
        (λ path.
          if-Triple p (Escapes ns k) (λ s. (path ≡ ns) × P s) Q (on_path name path) _ _
            (λ _. fail-Triple _ Q Fault.reference_cycle name depth (λ s h. h.1.0))
            (λ _.
              if-Triple p (Escapes ns k) (λ s. (path ≡ ns) × P s) Q (ltb max_depth (length path)) _
                _ (λ _. fail-Triple _ Q Fault.nesting_too_deep name depth (λ s h. h.1.0))
                (λ room.
                  before-Triple p (Escapes ns k) (λ s. (path ≡ ns) × P s)
                    (λ s. (length s.path ≤ max_depth) × P s) Q (enter_path name)
                    (λ s h. (ground (arith, room, ap length h.0, ap length h.1.0.0), h.1))
                    (enter_path-Triple m name)))))
    where
      P : Instance → Type 0
      P = Counts ns k m

      Q : Unit {0} → Instance → Type 0
      Q _ s = (length ns ≤ max_depth) × Counts (name ∷ ns) k m s

  -- An allocation that succeeds is one more.
  pub allocate-Triple :
      (m : ℕ) (available : ℕ → Bool) (depth : ℕ)
      → Triple p
          (Escapes ns k)
          (Counts ns k m)
          (λ _. Counts ns (k + 1) m)
          (allocate p available depth)
  unfolding allocate
  allocate-Triple m available depth =
      bind-Triple p (Escapes ns k) P (λ _. P) Q (gets (λ s. available s.allocations)) _
        (gets-Triple p (Escapes ns k) P (λ _. P) (λ s. available s.allocations) (λ s h. h))
        (λ granted.
          bind-Triple p (Escapes ns k) P (λ _. P) Q
            (modify (λ s. record s { allocations = s.allocations + 1 })) _
            (modify-Triple p (Escapes ns k) P P _ (λ s h. h))
            (λ _.
              if-Triple p (Escapes ns k) P Q granted _ _
                (λ _.
                  modify-Triple p (Escapes ns k) P (Q tt)
                    (λ s. record s { digests = s.digests + 1 })
                    (λ s h. ((h.0.0, ap (λ n. n + 1) h.0.1, h.0.2), h.1)))
                (λ _. fail-Triple P Q Fault.digest_unavailable digest_name depth (λ s h. h.0))))
    where
      P : Instance → Type 0
      P = Counts ns k m

      Q : Unit {0} → Instance → Type 0
      Q _ = Counts ns (k + 1) m
