-- ===== src/StoreCheck/Content.antt =====
-- The checks of one record (check_record of reference_app/embedded/src/store_check.cpp) keep the
-- reference path and the open files on every way out.
use jmpxx.Prelude.{
  ℕ, ◌+◌, ◌<◌, ap, not, ◌||◌, Option, none, some, List, [], ◌∷◌, arith, ltb, leb, ◌==◌, length,
  get_or, drop,
}
use jmpxx.Prelude.Int.{ℤ, pos, negsuc, ltb_ℤ, to_unsigned}
use jmpxx.Core.Error.{Error}
use jmpxx.Unwind.{Arm, pure, modify}
use jmpxx.Unwind.Escape.{Payload}
use jmpxx.Unwind.Triple.{bind-Triple, modify-Triple, eject-Triple}
use jmpxx.StoreCheck.Fields.{
  String, Fault, fault_code, Board, max_path, Fields, note_record, fail_with, field, field_at,
  fields, strchr, is_prefix, sum_key, ref_key, value_length, past, max_name, line_starts, until_nul,
}
use jmpxx.StoreCheck.Check.{
  Filesystem, visiting, open_file, count_record, push_name, read_record, check_content, follow,
  under_file, on_path, record_path, header,
}
use jmpxx.StoreCheck.Owners.{
  At, Keeps, pure-Keeps, modify-Keeps, bind-Keeps, if-Keeps, cases-Keeps, option-Keeps,
}

module _ (p : Payload Error) (strtol : String → ℤ) (ns : List String) (k : ℕ) where
  pub fail_with-Keeps :
      {A : Type 0} (Q : Board → Type 0) (f : Fault) (name : String) (depth : ℕ)
      → Keeps p (At ns k) Q (fail_with p strtol {A = A} f name depth)
  unfolding fail_with note_record
  fail_with-Keeps Q f name depth =
      bind-Triple p (λ _. At ns k) (At ns k) (λ _. At ns k) (λ _. Q) (modify (note_record name)) _
        (modify-Triple p (λ _. At ns k) (At ns k) (At ns k) (note_record name) (λ s h. h))
        (λ _.
          eject-Triple p (λ _. At ns k) (At ns k) (λ _. Q)
            (record { code = pos (fault_code f); domain = pos depth }) (λ s h. h))

  field-Keeps :
      (name : String) (depth : ℕ) (line : String) (st : Fields)
      → Keeps p (At ns k) (At ns k) (field p strtol name depth line st)
  unfolding field
  field-Keeps name depth line st =
      option-Keeps p (At ns k) (At ns k) (strchr line 61) _ _ malformed
        (λ eq. if-Keeps p (At ns k) (At ns k) (past eq (strchr line 10)) _ _ malformed (split eq))
    where
      malformed :
          {A : Type 0}
          → Keeps p
              (At ns k)
              (At ns k)
              (fail_with p strtol {A = A} Fault.field_malformed name depth)
      malformed = fail_with-Keeps (At ns k) Fault.field_malformed name depth

      same : (st : Fields) → Keeps p (At ns k) (At ns k) (pure st)
      same st = pure-Keeps p (At ns k) st

      split : (eq : ℕ) → Keeps p (At ns k) (At ns k) (field_at p strtol name depth line eq st)
      split eq = if-Keeps p (At ns k) (At ns k) (is_prefix sum_key line) _ _ (same _) (
          if-Keeps p (At ns k) (At ns k) (is_prefix ref_key line) _ _
            (if-Keeps p (At ns k) (At ns k)
              (value_length (strchr line 10) (eq + 1) line == 0
                || leb max_name (value_length (strchr line 10) (eq + 1) line))
              _ _ malformed (same _))
            (same _))

  fields-Keeps :
      (name : String) (depth : ℕ) (lines : List String) (st : Fields)
      → Keeps p (At ns k) (At ns k) (fields p strtol name depth lines st)
  unfolding fields
  fields-Keeps name depth [] st = pure-Keeps p (At ns k) st
  fields-Keeps name depth (line ∷ lines) st =
      bind-Keeps p (At ns k) (At ns k) (field p strtol name depth line st)
        (fields p strtol name depth lines) (field-Keeps name depth line st)
        (fields-Keeps name depth lines)

  module _ (fs : Filesystem) where
    pub visiting-Keeps :
        (name : String) (depth : ℕ)
        → Keeps p
            (At ns k)
            (λ b. (length ns < max_path) × At (name ∷ ns) k b)
            (visiting p strtol fs name depth)
    unfolding visiting
    visiting-Keeps name depth = record {
      run = λ a car w h i.
          (if-Keeps p (At ns k) Under (on_path name w.app.path) _ _
              (fail_with-Keeps Under Fault.reference_cycle name depth)
              (cases-Keeps p (At ns k) Under (leb max_path (length w.app.path)) _ _
                (fail_with-Keeps Under Fault.nesting_too_deep name depth)
                (λ room. modify-Keeps p (At ns k) Under (push_name name) (λ b g.
                  (ground (arith, room, ap length h.0), (ap (λ l. name ∷ l) g.0, g.1)))))).run
            a car w h i;
    }
      where
        Under : Board → Type 0
        Under b = (length ns < max_path) × At (name ∷ ns) k b

    pub open_file-Keeps :
        (path name : String) (depth : ℕ)
        → Keeps p (At ns k) (At ns (k + 1)) (open_file p strtol fs path name depth)
    unfolding open_file
    open_file-Keeps path name depth =
        if-Keeps p (At ns k) (At ns (k + 1)) (fs.opens path) _ _
          (modify-Keeps p (At ns k) (At ns (k + 1)) _ (λ b h. (h.0, ground (arith, h.1))))
          (fail_with-Keeps (At ns (k + 1)) Fault.record_unreadable name depth)

    read_record-Keeps :
        (name : String) (depth : ℕ)
        → Keeps p (At ns k) (At ns k) (read_record p strtol fs name depth)
    unfolding read_record
    read_record-Keeps name depth =
        option-Keeps p (At ns k) (At ns k) (fs.read (record_path name) 191) _ _
          (fail_with-Keeps (At ns k) Fault.record_unreadable name depth)
          (λ buf.
            if-Keeps p (At ns k) (At ns k) (ltb (length buf) 12) _ _
              (fail_with-Keeps (At ns k) Fault.record_unreadable name depth)
              (pure-Keeps p (At ns k) buf))

    check_content-Keeps :
        (name : String) (depth : ℕ) (buf : List ℕ)
        → Keeps p (At ns k) (At ns k) (check_content p strtol fs name depth buf)
    unfolding check_content
    check_content-Keeps name depth buf =
        if-Keeps p P P (not (is_prefix header buf)) _ _
          (fail_with-Keeps P Fault.header_bad name depth)
          (if-Keeps p P P (not (get_or buf 4 0 == 49)) _ _
            (fail_with-Keeps P Fault.version_unsupported name depth)
            (bind-Keeps p P P
              (fields p strtol name depth (line_starts (until_nul (drop 6 buf))) start) _
              (fields-Keeps name depth (line_starts (until_nul (drop 6 buf))) start)
              (λ st.
                if-Keeps p P P (ltb_ℤ st.declared (pos 0)) _ _
                  (fail_with-Keeps P Fault.field_malformed name depth)
                  (if-Keeps p P P (not (to_unsigned st.declared == st.sum)) _ _
                    (fail_with-Keeps P Fault.checksum_mismatch name depth)
                    (bind-Keeps p P P (modify count_record) _
                      (modify-Keeps p P P count_record (λ b h. h)) (λ _. pure-Keeps p P st.ref))))))
      where
        P : Board → Type 0
        P = At ns k

        start : Fields
        start = record { sum = 0; declared = negsuc 0; ref = none }

    follow-Keeps :
        (next : String → Arm Board (Unit {0})) (depth : ℕ) (ref : Option String)
        → ((r : String) → Keeps p (At ns k) (At ns k) (next r))
        → Keeps p (At ns k) (At ns k) (follow p strtol fs next depth ref)
    follow-Keeps next depth none h = pure-Keeps p (At ns k) tt
    follow-Keeps next depth (some r) h =
        if-Keeps p (At ns k) (At ns k) (fs.exists (record_path r)) _ _ (h r)
          (fail_with-Keeps (At ns k) Fault.reference_missing r depth)

    pub under_file-Keeps :
        (next : String → Arm Board (Unit {0})) (name : String) (depth : ℕ)
        → ((r : String) → Keeps p (At ns k) (At ns k) (next r))
        → Keeps p (At ns k) (At ns k) (under_file p strtol fs next name depth)
    under_file-Keeps next name depth h =
        bind-Keeps p (At ns k) (At ns k) (read_record p strtol fs name depth) _
          (read_record-Keeps name depth)
          (λ buf.
            bind-Keeps p (At ns k) (At ns k) (check_content p strtol fs name depth buf) _
              (check_content-Keeps name depth buf) (λ ref. follow-Keeps next depth ref h))
