-- ===== src/StoreCheck/Lines.antt =====
-- The splitting of a line in reference_app/embedded/src/store_check.cpp.
use jmpxx.Prelude.{
  ℕ, zero, suc, ◌+◌, ◌-◌, ◌≤◌, ◌<◌, ◌≡◌, refl, sym, ap, ◌∙◌, ◌≢◌, ◌⊎◌, inl, inr, true, false,
  Option, none, some, [], ◌∷◌, ◌++◌, arith, ltb, ◌==◌, ==_iff, Bool-cases, Option-cases, length,
  get_elem?, length-append, take, drop, take-append-drop, length-take, length-drop, take-append,
}
use mathlib.Core.List.{append_assoc}
use jmpxx.Prelude.Text.{strchr-some, is_prefix→eq}
use jmpxx.StoreCheck.Fields.{String, is_prefix, strchr, value_length, past}
use jmpxx.StoreCheck.Meaning.{Splits}

strchr-at : (s : String) (c i : ℕ) → strchr s c ≡ some i → get_elem? s i ≡ some c
strchr-at [] c i h = ground (arith, h)
strchr-at (d ∷ s) c i h = elim (Bool-cases (d == c)) [
  | inl met ↦ here i h met
  | inr other ↦ elim (Option-cases (strchr s c)) [
    | inl absent ↦ ground (arith, h, other, absent)
    | inr (j, e) ↦ there i j h other e (strchr-at s c j e)
  ]
]
  where
    here : (i : ℕ) → strchr (d ∷ s) c ≡ some i → (d == c) ≡ true → get_elem? (d ∷ s) i ≡ some c
    here zero h met = ground (arith, met)
    here (suc i) h met = ground (arith, h, met)

    there :
        (i j : ℕ)
        → strchr (d ∷ s) c ≡ some i
        → (d == c) ≡ false
        → strchr s c ≡ some j
        → get_elem? s j ≡ some c
        → get_elem? (d ∷ s) i ≡ some c
    there zero j h other e g = ground (arith, h, other, e)
    there (suc i) j h other e g = ground (arith, h, other, e, g)

-- Up to the first occurrence there is none.
strchr-take : (s : String) (c i n : ℕ) → strchr s c ≡ some i → n ≤ i → strchr (take n s) c ≡ none
strchr-take s c i zero h le = refl
strchr-take [] c i (suc n) h le = refl
strchr-take (d ∷ s) c i (suc n) h le = elim (Bool-cases (d == c)) [
  | inl met ↦ ground (arith, h, met, le)
  | inr other ↦ elim (Option-cases (strchr s c)) [
    | inl absent ↦ ground (arith, h, other, absent)
    | inr (j, e) ↦ ground (arith, h, other, e, le, strchr-take s c j n)
  ]
]

strchr-take-none : (s : String) (c n : ℕ) → strchr s c ≡ none → strchr (take n s) c ≡ none
strchr-take-none s c zero h = refl
strchr-take-none [] c (suc n) h = refl
strchr-take-none (d ∷ s) c (suc n) h = elim (Bool-cases (d == c)) [
  | inl met ↦ ground (arith, h, met)
  | inr other ↦ elim (Option-cases (strchr s c)) [
    | inl absent ↦ ground (arith, other, strchr-take-none s c n absent)
    | inr (j, e) ↦ ground (arith, h, other, e)
  ]
]

strchr-drop-none : (s : String) (c n : ℕ) → strchr s c ≡ none → strchr (drop n s) c ≡ none
strchr-drop-none s c zero h = h
strchr-drop-none [] c (suc n) h = refl
strchr-drop-none (d ∷ s) c (suc n) h = elim (Option-cases (strchr s c)) [
  | inl absent ↦ strchr-drop-none s c n absent
  | inr (j, e) ↦ elim (Bool-cases (d == c)) [
    | inl met ↦ ground (arith, h, met)
    | inr other ↦ ground (arith, h, other, e)
  ]
]

-- After fewer characters the first occurrence is as much nearer.
strchr-drop :
    (s : String) (c i n : ℕ) → strchr s c ≡ some i → n ≤ i → strchr (drop n s) c ≡ some (i - n)
strchr-drop s c i zero h le = rw h (ground arith)
strchr-drop [] c i (suc n) h le = ground (arith, h)
strchr-drop (d ∷ s) c i (suc n) h le = elim (Bool-cases (d == c)) [
  | inl met ↦ ground (arith, h, met, le)
  | inr other ↦ elim (Option-cases (strchr s c)) [
    | inl absent ↦ ground (arith, h, other, absent)
    | inr (j, e) ↦ ground (arith, h, other, e, le, strchr-drop s c j n e)
  ]
]

some_apart : {a b : ℕ} {o : Option ℕ} → o ≡ some a → o ≡ some b → a ≡ b
some_apart e g = cc

-- The newline is not where the `=` is.
apart :
    (line : String) (eq end : ℕ)
    → strchr line 61 ≡ some eq
    → strchr line 10 ≡ some end
    → ltb end eq ≡ false
    → eq < end
apart line eq end e g h = elim (Bool-cases (eq == end)) [
  | inl met ↦
      let here : get_elem? line eq ≡ some 10 =
        ap (get_elem? line) ((==_iff eq end).0 met) ∙ strchr-at line 10 end g in
      absurd (omega (arith, some_apart (strchr-at line 61 eq e) here))
  | inr other ↦ ground (arith, other, h)
]

-- Where the value ends.
value_end :
    (line : String) (eq : ℕ) (newline : Option ℕ)
    → strchr line 10 ≡ newline
    → strchr line 61 ≡ some eq
    → past eq newline ≡ false
    → let value = drop (eq + 1) line in
      let n = value_length newline (eq + 1) line in
      (strchr (take eq line) 10 ≡ none)
      × (strchr (take n value) 10 ≡ none)
      × ((drop n value ≡ []) ⊎ ((rest : String) × (drop n value ≡ 10 ∷ rest)))
value_end line eq none absent e h =
    let value = drop (eq + 1) line in
    (
      strchr-take-none line 10 eq absent,
      strchr-take-none value 10 _ (strchr-drop-none line 10 (eq + 1) absent),
      inl (drop_whole value _ (ground (arith, length-drop (eq + 1) line))),
    )
  where
    drop_whole : (s : String) (n : ℕ) → n ≡ length s → drop n s ≡ []
    drop_whole [] n h = rw h
    drop_whole (c ∷ s) zero h = absurd (omega arith)
    drop_whole (c ∷ s) (suc n) h = drop_whole s n (omega arith)
value_end line eq (some end) here e h =
    let value = drop (eq + 1) line in
    let far = apart line eq end e here h in
    let next : strchr value 10 ≡ some (end - (eq + 1)) =
      strchr-drop line 10 end (eq + 1) here (omega arith) in
    (
      strchr-take line 10 end eq here (omega arith),
      strchr-take value 10 _ _ next (omega arith),
      inr (_, drop_at value _ next),
    )
  where
    drop_at : (s : String) (i : ℕ) → strchr s 10 ≡ some i → drop i s ≡ 10 ∷ drop (suc i) s
    drop_at [] i g = ground (arith, g)
    drop_at (c ∷ s) zero g = elim (Bool-cases (c == 10)) [
      | inl met ↦ ground (arith, met)
      | inr other ↦ elim (Option-cases (strchr s 10)) [
        | inl absent ↦ ground (arith, g, other, absent)
        | inr (j, q) ↦ ground (arith, g, other, q)
      ]
    ]
    drop_at (c ∷ s) (suc i) g = elim (Bool-cases (c == 10)) [
      | inl met ↦ ground (arith, g, met)
      | inr other ↦ elim (Option-cases (strchr s 10)) [
        | inl absent ↦ ground (arith, g, other, absent)
        | inr (j, q) ↦ ground (arith, g, other, q, drop_at s i)
      ]
    ]

-- A line that is not refused is split at its first `=` and its end.
pub split-Splits :
    (line : String) (eq : ℕ)
    → strchr line 61 ≡ some eq
    → past eq (strchr line 10) ≡ false
    → let n = value_length (strchr line 10) (eq + 1) line in
      Splits line (take eq line) (take n (drop (eq + 1) line)) (drop n (drop (eq + 1) line))
split-Splits line eq e h =
    let ends = value_end line eq (strchr line 10) refl e h in
    record {
      parts =
          (strchr-some line 61 eq e).0
          ∙ ap (λ l. take eq line ++ 61 ∷ l) (sym (take-append-drop _ (drop (eq + 1) line)));
      key_ends = strchr-take line 61 eq eq e (omega arith);
      key_in_line = ends.0;
      value_in_line = ends.1;
      line_ends = ends.2;
    }

-- The key of a line that starts with the key and `=`.
pub key_of :
    (key line : String) (eq : ℕ)
    → strchr (key ++ 61 ∷ drop (length key + 1) line) 61 ≡ some (length key)
    → is_prefix (key ++ 61 ∷ []) line ≡ true
    → strchr line 61 ≡ some eq
    → take eq line ≡ key
key_of key line eq first met e =
    let whole : line ≡ key ++ 61 ∷ drop (length key + 1) line =
      is_prefix→eq (key ++ 61 ∷ []) line met
      ∙ append_assoc key (61 ∷ []) _
      ∙ ap (λ n. key ++ 61 ∷ drop n line) (omega (arith, length-append key (61 ∷ []))) in
    let same_place : eq ≡ length key = some_apart e (ap (λ l. strchr l 61) whole ∙ first) in
    ap (λ n. take n line) same_place ∙ ap (take (length key)) whole ∙ take-append key _

is_prefix-append : (p s : String) → is_prefix p (p ++ s) ≡ true
is_prefix-append [] s = refl
is_prefix-append (c ∷ p) s = ground (arith, is_prefix-append p s)

-- A line of a key starts with the key and `=`.
pub not_key :
    (key line k v : String) → is_prefix (key ++ 61 ∷ []) line ≡ false → line ≡ k ++ 61 ∷ v → k ≢ key
not_key key line k v other parts same_key =
    let whole : line ≡ (key ++ 61 ∷ []) ++ v =
      parts ∙ ap (λ l. l ++ 61 ∷ v) same_key ∙ sym (append_assoc key (61 ∷ []) v) in
    ground (
      arith,
      sym other ∙ (ap (is_prefix (key ++ 61 ∷ [])) whole ∙ is_prefix-append (key ++ 61 ∷ []) v),
    )

-- The value is as long as it is said to be.
pub length-value :
    (line : String) (eq : ℕ)
    → let n = value_length (strchr line 10) (eq + 1) line in
      length (take n (drop (eq + 1) line)) ≡ n
length-value line eq = omega (
  arith,
  length-take (value_length (strchr line 10) (eq + 1) line) (drop (eq + 1) line),
  length-drop (eq + 1) line,
  fits (strchr line 10) refl,
)
  where
    fits :
        (newline : Option ℕ)
        → strchr line 10 ≡ newline
        → value_length newline (eq + 1) line ≤ length line - (eq + 1)
    fits none h = omega arith
    fits (some end) h = omega (arith, (strchr-some line 10 end h).1, length-take end line)
