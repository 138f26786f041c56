-- ===== src/StoreCheck/Released.antt =====
-- Every way out of the checker of reference_app/embedded/src/store_check.cpp releases what its frames
-- own.
use jmpxx.Prelude.{
  ℕ, zero, suc, ◌+◌, ◌≤◌, ◌<◌, ◌≡◌, refl, ap, inl, inr, false, List, [], ◌∷◌, arith, ltb,
  Bool-cases, length, drop,
}
use jmpxx.Prelude.Int.{ℤ}
use jmpxx.Core.Error.{Error}
use jmpxx.Core.Transport.Refines.{Result, ok, failed}
use jmpxx.Unwind.{returned, World, Arm, modify}
use jmpxx.Unwind.Escape.{Payload, IsCarried}
use jmpxx.Unwind.Triple.{Yields, scope-Landed}
use jmpxx.StoreCheck.Fields.{String, Fault, Board, max_path}
use jmpxx.StoreCheck.Check.{
  Filesystem, visiting, open_file, close_file, pop_name, deepen, under_file, under_marker,
  check_record, reset_counters, check_body, check_image, record_path,
}
use jmpxx.StoreCheck.Owners.{
  At, Keeps, gets-Keeps, modify-Keeps, bind-Keeps, if-Keeps, owner-Keeps, with-Keeps,
}
use jmpxx.StoreCheck.Content.{fail_with-Keeps, visiting-Keeps, open_file-Keeps, under_file-Keeps}

module _ (p : Payload Error) (strtol : String → ℤ) (fs : Filesystem) where
  under_marker-Keeps :
      (ns : List String) (k : ℕ) (next : String → Arm Board (Unit {0})) (name : String) (depth : ℕ)
      → ((r : String) → Keeps p (At ns (k + 1)) (At ns (k + 1)) (next r))
      → Keeps p (At ns k) (At ns k) (under_marker p strtol fs next name depth)
  under_marker-Keeps ns k next name depth h =
      owner-Keeps p (At ns k) (At ns (k + 1)) close_file (λ b g. (g.0, ground (arith, g.1)))
        (open_file p strtol fs (record_path name) name depth)
        (under_file p strtol fs next name depth)
        (open_file-Keeps p strtol ns k fs (record_path name) name depth)
        (under_file-Keeps p strtol ns (k + 1) fs next name depth h)

  -- With fuel for the records that the path has room for, and one more, a record is checked to the end.
  check_record-Keeps :
      (fuel : ℕ) (ns : List String) (k : ℕ) (name : String) (depth : ℕ)
      → max_path + 1 ≤ fuel + length ns
      → length ns ≤ max_path
      → Keeps p (At ns k) (At ns k) (check_record p strtol fs fuel name depth)
  unfolding check_record
  check_record-Keeps zero ns k name depth enough short = absurd (omega arith)
  check_record-Keeps (suc fuel) ns k name depth enough short =
      bind-Keeps p (At ns k) (At ns k) (modify (deepen depth)) _
        (modify-Keeps p (At ns k) (At ns k) (deepen depth) deepen_keeps)
        (λ _.
          owner-Keeps p (At ns k) (λ b. (length ns < max_path) × At (name ∷ ns) k b) pop_name
            (λ b g. (ap (drop 1) g.1.0, g.1.1)) (visiting p strtol fs name depth)
            (under_marker p strtol fs next name depth) (visiting-Keeps p strtol ns k fs name depth)
            (with-Keeps p (At (name ∷ ns) k) (length ns < max_path) _ (λ room.
              under_marker-Keeps (name ∷ ns) k next name depth (λ r.
                check_record-Keeps fuel (name ∷ ns) (k + 1) r (depth + 1) (omega arith)
                  (omega arith)))))
    where
      next : String → Arm Board (Unit {0})
      next ref = check_record p strtol fs fuel ref (depth + 1)

      deepen_keeps : (b : Board) → At ns k b → At ns k (deepen depth b)
      deepen_keeps b h = elim (Bool-cases (ltb b.deepest depth)) [
        | inl more ↦ rw more h
        | inr less ↦ rw less h
      ]

  check_body-Keeps :
      (k : ℕ) (entry : String) → Keeps p (At [] k) (At [] k) (check_body p strtol fs entry)
  unfolding check_body
  check_body-Keeps k entry =
      if-Keeps p (At [] k) (At [] k) fs.mounts _ _
        (bind-Keeps p (At [] k) (At [] k) (modify reset_counters) _
          (modify-Keeps p (At [] k) (At [] k) reset_counters (λ b h. h))
          (λ _.
            bind-Keeps p (At [] k) (At [] k) (check_record p strtol fs (max_path + 1) entry 0) _
              (check_record-Keeps (max_path + 1) [] k entry 0 (omega arith) (omega arith))
              (λ _. gets-Keeps p (At [] k) (λ b. b.records_checked))))
        (fail_with-Keeps p strtol [] k (At [] k) Fault.mount_failed entry 0)

  -- Whatever the image holds, a check that starts with no record on the path, on a thread that is not
  -- unwinding, ends with a number of records or a fault, never by stopping the program or without a
  -- meaning; the reference path is empty again, every file that was opened is closed, and the thread
  -- is as it was.
  pub check_image-released :
      (junk : List ℕ) (entry : String) (w : World Board)
      → w.thread.in_flight ≡ false
      → IsCarried p
      → w.app.path ≡ []
      → (r : Result ℕ Error) × (s : Board) × (check_image p strtol fs junk entry w
          ≡ (returned r, record w { app = s }))
        × (s.path ≡ [])
        × (s.open_files ≡ w.app.open_files)
  unfolding check_image
  check_image-released junk entry w calm c empty =
      let l =
        scope-Landed p (λ _. At [] w.app.open_files) (At [] w.app.open_files)
          (λ _. At [] w.app.open_files) junk w (check_body p strtol fs entry) calm c (empty, refl)
          (check_body-Keeps w.app.open_files entry) in
      let kept = released w l.result l.state l.yields in
      (l.result, l.state, l.lands, kept.0, kept.1)
    where
      released :
          (w : World Board) (r : Result ℕ Error) (s : Board)
          → Yields (λ _. At [] w.app.open_files) (λ _. At [] w.app.open_files) r s
          → At [] w.app.open_files s
      released w (ok v) s h = h
      released w (failed e) s h = h
