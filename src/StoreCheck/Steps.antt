-- ===== src/StoreCheck/Steps.antt =====
-- The steps of reference_app/embedded/src/store_check.cpp on one record, with what they have learnt of it
-- when they return.
use jmpxx.Prelude.{
  ℕ, zero, suc, ◌+◌, ◌≤◌, ◌<◌, ◌≡◌, refl, sym, ap, ◌∙◌, Bool, true, false, not, ◌||◌, Option, some,
  List, [], ◌∷◌, ◌++◌, arith, ltb, leb, ◌==◌, if◌then◌else◌, ==_iff, length, get_or, take, drop,
  take-append-drop,
}
use jmpxx.Prelude.Int.{ℤ, pos, negsuc, ltb_ℤ, to_unsigned}
use jmpxx.Prelude.Text.{is_prefix→eq}
use jmpxx.Core.Error.{Error}
use jmpxx.Unwind.{◌>>◌, pure, modify, gets}
use jmpxx.Unwind.Escape.{Payload}
use jmpxx.Unwind.Triple.{
  Triple, pure-Triple, gets-Triple, modify-Triple, eject-Triple, given-Triple, before-Triple,
  after-Triple, if-Triple, option-Triple, bind-Triple,
}
use jmpxx.StoreCheck.Fields.{
  String, Fault, fault_code, Board, max_path, max_name, Fields, note_record, fail_with, field,
  field_at, fields, strchr, is_prefix, sum_key, ref_key, value_length, past, line_starts, until_nul,
  add_bytes,
}
use jmpxx.StoreCheck.Check.{
  Filesystem, visiting, open_file, count_record, push_name, read_record, check_content, on_path,
  record_path, header,
}
use jmpxx.StoreCheck.Owners.{At}
use jmpxx.StoreCheck.Meaning.{
  Splits, Takes, takes_sum, takes_ref, takes_value, TakesAll, takes_none, takes_line, blank, Sound,
  sum_name, ref_name,
}
use jmpxx.StoreCheck.Lines.{split-Splits, key_of, not_key, length-value}

-- The path, the open files and the records that are checked so far.
abbrev pub Counts : List String → ℕ → ℕ → Board → Type 0
Counts ns k m b = At ns k b × (b.records_checked ≡ m)

-- What escapes is a fault of the enumeration, from a state with the path and the open files.
abbrev pub IsFault : Error → Type 0
IsFault e = (f : Fault) × (e.code ≡ pos (fault_code f))

abbrev pub Escapes : List String → ℕ → Error → Board → Type 0
Escapes ns k e b = At ns k b × IsFault e

module _ (p : Payload Error) (strtol : String → ℤ) (ns : List String) (k : ℕ) where
  pub fail_with-Triple :
      {A : Type 0} (P : Board → Type 0) (Q : A → Board → Type 0) (f : Fault) (name : String)
      (depth : ℕ)
      → ((b : Board) → P b → At ns k b)
      → Triple p (Escapes ns k) P Q (fail_with p strtol {A = A} f name depth)
  unfolding fail_with note_record
  fail_with-Triple P Q f name depth h =
      bind-Triple p (Escapes ns k) P (λ _. At ns k) Q (modify (note_record name)) _
        (modify-Triple p (Escapes ns k) P (At ns k) (note_record name) h)
        (λ _.
          eject-Triple p (Escapes ns k) (At ns k) Q
            (record { code = pos (fault_code f); domain = pos depth }) (λ s g. (g, (f, refl))))

  module _ (m : ℕ) where
    field-Triple :
        (name : String) (depth : ℕ) (line : String) (st : Fields)
        → Triple p
            (Escapes ns k)
            (Counts ns k m)
            (λ st' b. Counts ns k m b × Takes strtol st line st')
            (field p strtol name depth line st)
    unfolding field
    field-Triple name depth line st =
        option-Triple p (Escapes ns k) P Q (strchr line 61) _ _ (λ _. malformed)
          (λ eq e.
            if-Triple p (Escapes ns k) P Q (past eq (strchr line 10)) _ _ (λ _. malformed)
              (λ h. split eq e (split-Splits line eq e h)))
      where
        P : Board → Type 0
        P = Counts ns k m

        Q : Fields → Board → Type 0
        Q st' b = Counts ns k m b × Takes strtol st line st'

        malformed :
            Triple p (Escapes ns k) P Q (fail_with p strtol Fault.field_malformed name depth)
        malformed = fail_with-Triple P Q Fault.field_malformed name depth (λ b h. h.0)

        split :
            (eq : ℕ)
            → strchr line 61 ≡ some eq
            → (let n = value_length (strchr line 10) (eq + 1) line in
                Splits line
                  (take eq line)
                  (take n (drop (eq + 1) line))
                  (drop n (drop (eq + 1) line)))
            → Triple p (Escapes ns k) P Q (field_at p strtol name depth line eq st)
        split eq e s =
            let n = value_length (strchr line 10) (eq + 1) line in
            let value = drop (eq + 1) line in
            if-Triple p (Escapes ns k) P Q (is_prefix sum_key line) _ _
              (λ met.
                let l : Splits line sum_name (take n value) (drop n value) =
                  rw (key_of sum_name line eq refl met e) at s in
                let t : Takes strtol st line
                    (record st { declared = strtol (take n value ++ drop n value) }) =
                  takes_sum (take n value) (drop n value) l in
                let t' : Takes strtol st line (record st { declared = strtol value }) =
                  rw (take-append-drop n value) at t in
                pure-Triple p (Escapes ns k) P Q (record st { declared = strtol value })
                  (λ b h. (h, t')))
              (λ not_sum.
                if-Triple p (Escapes ns k) P Q (is_prefix ref_key line) _ _
                  (λ met.
                    if-Triple p (Escapes ns k) P Q (n == 0 || leb max_name n) _ _ (λ _. malformed)
                      (λ fits.
                        let l : Splits line ref_name (take n value) (drop n value) =
                          rw (key_of ref_name line eq refl met e) at s in
                        pure-Triple p (Escapes ns k) P Q (record st { ref = some (take n value) })
                          (λ b h. (
                            h,
                            takes_ref (take n value) (drop n value) l
                                (ground (arith, fits, length-value line eq))
                                (ground (arith, fits, length-value line eq)),
                          ))))
                  (λ not_ref.
                    pure-Triple p (Escapes ns k) P Q
                      (record st { sum = add_bytes st.sum (take n value) })
                      (λ b h. (
                        h,
                        takes_value (take eq line) (take n value) (drop n value) s
                            (not_key sum_name line (take eq line) _ not_sum s.parts)
                            (not_key ref_name line (take eq line) _ not_ref s.parts),
                      ))))

    fields-Triple :
        (name : String) (depth : ℕ) (lines : List String) (st : Fields)
        → Triple p
            (Escapes ns k)
            (Counts ns k m)
            (λ st' b. Counts ns k m b × TakesAll strtol st lines st')
            (fields p strtol name depth lines st)
    unfolding fields
    fields-Triple name depth [] st =
        pure-Triple p (Escapes ns k) (Counts ns k m) _ st (λ b h. (h, takes_none st))
    fields-Triple name depth (line ∷ lines) st =
        bind-Triple p (Escapes ns k) P (λ st' b. P b × Takes strtol st line st') Q
          (field p strtol name depth line st) (fields p strtol name depth lines)
          (field-Triple name depth line st)
          (λ st'.
            given-Triple p (Escapes ns k) (λ b. P b × Takes strtol st line st') Q _
              (λ b₀ h₀.
                before-Triple p (Escapes ns k) (λ b. P b × Takes strtol st line st') P Q _
                  (λ b h. h.0)
                  (after-Triple p (Escapes ns k) P Q
                    (λ st'' b. P b × TakesAll strtol st' lines st'') _
                    (λ st'' b h. (h.0, takes_line st st' st'' line lines h₀.1 h.1))
                    (fields-Triple name depth lines st'))))
      where
        P : Board → Type 0
        P = Counts ns k m

        Q : Fields → Board → Type 0
        Q st' b = Counts ns k m b × TakesAll strtol st (line ∷ lines) st'

at_version :
    (buf : List ℕ) (n : ℕ) → (get_or buf n 0 == 49) ≡ true → drop n buf ≡ 49 ∷ drop (suc n) buf
at_version [] zero h = ground (arith, h)
at_version [] (suc n) h = ground (arith, h)
at_version (c ∷ buf) zero h = ground (arith, h)
at_version (c ∷ buf) (suc n) h = at_version buf n h

not_negative : (i : ℤ) → ltb_ℤ i (pos 0) ≡ false → (n : ℕ) × (i ≡ pos n)
not_negative (pos n) h = (n, refl)
not_negative (negsuc n) h = ground (arith, h)

if_not : {b : Bool} → not b ≡ false → b ≡ true
if_not {b = true} h = refl
if_not {b = false} h = ground (arith, h)

module _ (p : Payload Error) (strtol : String → ℤ) (fs : Filesystem) (ns : List String)
    (k m : ℕ) where
  pub check_content-Triple :
      (name : String) (depth : ℕ) (buf : List ℕ)
      → Triple p
          (Escapes ns k)
          (Counts ns k m)
          (λ ref b. Counts ns k (m + 1) b × Sound strtol buf ref)
          (check_content p strtol fs name depth buf)
  unfolding check_content
  check_content-Triple name depth buf =
      if-Triple p (Escapes ns k) P Q (not (is_prefix header buf)) _ _
        (λ _. fail_with-Triple p strtol ns k P Q Fault.header_bad name depth (λ b h. h.0))
        (λ marked.
          if-Triple p (Escapes ns k) P Q (not (get_or buf 4 0 == 49)) _ _
            (λ _.
              fail_with-Triple p strtol ns k P Q Fault.version_unsupported name depth (λ b h. h.0))
            (λ versioned.
              bind-Triple p (Escapes ns k) P (λ st b. P b × TakesAll strtol blank texts st) Q
                (fields p strtol name depth texts blank) _
                (fields-Triple p strtol ns k m name depth texts blank)
                (λ st.
                  given-Triple p (Escapes ns k) (λ b. P b × TakesAll strtol blank texts st) Q _
                    (λ b₀ h₀.
                      before-Triple p (Escapes ns k) (λ b. P b × TakesAll strtol blank texts st) P Q
                        _ (λ b h. h.0)
                        (summed
                          (is_prefix→eq header buf (if_not marked)
                            ∙ ap (λ l. header ++ l) (at_version buf 4 (if_not versioned)))
                          st h₀.1)))))
    where
      P : Board → Type 0
      P = Counts ns k m

      Q : Option String → Board → Type 0
      Q ref b = Counts ns k (m + 1) b × Sound strtol buf ref

      texts : List String
      texts = line_starts (until_nul (drop 6 buf))

      summed :
          buf ≡ header ++ 49 ∷ drop 5 buf
          → (st : Fields) → TakesAll strtol blank texts st
          → Triple p (Escapes ns k) P Q (
              if ltb_ℤ st.declared (pos 0)
              then fail_with p strtol Fault.field_malformed name depth
              else if not (to_unsigned st.declared == st.sum)
              then fail_with p strtol Fault.checksum_mismatch name depth
              else (modify count_record >> pure st.ref))
      summed starts st takes =
          if-Triple p (Escapes ns k) P Q (ltb_ℤ st.declared (pos 0)) _ _
            (λ _. fail_with-Triple p strtol ns k P Q Fault.field_malformed name depth (λ b h. h.0))
            (λ positive.
              if-Triple p (Escapes ns k) P Q (not (to_unsigned st.declared == st.sum)) _ _
                (λ _.
                  fail_with-Triple p strtol ns k P Q Fault.checksum_mismatch name depth
                    (λ b h. h.0))
                (λ matched.
                  let (n, declares) = not_negative st.declared positive in
                  bind-Triple p (Escapes ns k) P (λ _. Counts ns k (m + 1)) Q (modify count_record)
                    (λ _. pure st.ref)
                    (modify-Triple p (Escapes ns k) P (Counts ns k (m + 1)) count_record
                      (λ b h. (h.0, ap (λ n. n + 1) h.1)))
                    (λ _. pure-Triple p (Escapes ns k) (Counts ns k (m + 1)) Q st.ref (λ b h. (
                      h,
                      record {
                        starts = starts;
                        read = st;
                        takes = takes;
                        checksum = n;
                        declares = declares;
                        sums =
                            ap to_unsigned (sym declares)
                            ∙ (==_iff (to_unsigned st.declared) st.sum).0 (if_not matched);
                        refers = refl;
                      },
                    )))))

  pub read_record-Triple :
      (name : String) (depth : ℕ)
      → Triple p
          (Escapes ns k)
          (Counts ns k m)
          (λ buf b.
            Counts ns k m b × ((fs.read (record_path name) 191 ≡ some buf) × (12 ≤ length buf)))
          (read_record p strtol fs name depth)
  unfolding read_record
  read_record-Triple name depth =
      option-Triple p (Escapes ns k) P Q (fs.read (record_path name) 191) _ _
        (λ _. fail_with-Triple p strtol ns k P Q Fault.record_unreadable name depth (λ b h. h.0))
        (λ buf reads.
          if-Triple p (Escapes ns k) P Q (ltb (length buf) 12) _ _
            (λ _.
              fail_with-Triple p strtol ns k P Q Fault.record_unreadable name depth (λ b h. h.0))
            (λ long.
              pure-Triple p (Escapes ns k) P Q buf (λ b h. (h, (reads, ground (arith, long))))))
    where
      P : Board → Type 0
      P = Counts ns k m

      Q : List ℕ → Board → Type 0
      Q buf b = Counts ns k m b × ((fs.read (record_path name) 191 ≡ some buf) × (12 ≤ length buf))

  pub open_file-Triple :
      (path name : String) (depth : ℕ)
      → Triple p
          (Escapes ns k)
          (Counts ns k m)
          (λ _ b. (fs.opens path ≡ true) × Counts ns (k + 1) m b)
          (open_file p strtol fs path name depth)
  unfolding open_file
  open_file-Triple path name depth =
      if-Triple p (Escapes ns k) P Q (fs.opens path) _ _
        (λ opens.
          modify-Triple p (Escapes ns k) P (Q tt) _
            (λ b h. (opens, ((h.0.0, ap (λ n. n + 1) h.0.1), h.1))))
        (λ _. fail_with-Triple p strtol ns k P Q Fault.record_unreadable name depth (λ b h. h.0))
    where
      P : Board → Type 0
      P = Counts ns k m

      Q : Unit {0} → Board → Type 0
      Q _ b = (fs.opens path ≡ true) × Counts ns (k + 1) m b

  pub visiting-Triple :
      (name : String) (depth : ℕ)
      → Triple p
          (Escapes ns k)
          (Counts ns k m)
          (λ _ b. (length ns < max_path) × Counts (name ∷ ns) k m b)
          (visiting p strtol fs name depth)
  unfolding visiting
  visiting-Triple name depth =
      bind-Triple p (Escapes ns k) P (λ path b. (path ≡ ns) × P b) Q (gets (λ b. b.path)) _
        (gets-Triple p (Escapes ns k) P (λ path b. (path ≡ ns) × P b) (λ b. b.path)
          (λ b h. (h.0.0, h)))
        (λ path.
          if-Triple p (Escapes ns k) (λ b. (path ≡ ns) × P b) Q (on_path name path) _ _
            (λ _.
              fail_with-Triple p strtol ns k _ Q Fault.reference_cycle name depth (λ b h. h.1.0))
            (λ _.
              if-Triple p (Escapes ns k) (λ b. (path ≡ ns) × P b) Q (leb max_path (length path)) _ _
                (λ _.
                  fail_with-Triple p strtol ns k _ Q Fault.nesting_too_deep name depth
                    (λ b h. h.1.0))
                (λ room.
                  modify-Triple p (Escapes ns k) (λ b. (path ≡ ns) × P b) (Q tt) (push_name name)
                    (λ b h. (
                      ground (arith, room, ap length h.0),
                      ((ap (λ l. name ∷ l) h.1.0.0, h.1.0.1), h.1.1),
                    )))))
    where
      P : Board → Type 0
      P = Counts ns k m

      Q : Unit {0} → Board → Type 0
      Q _ b = (length ns < max_path) × Counts (name ∷ ns) k m b
