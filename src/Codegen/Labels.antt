-- ===== src/Codegen/Labels.antt =====
-- The labels of a body of assembly, and their renaming (canon_labels of verify/main.cpp).
use jmpxx.Prelude.{
  ℕ, zero, suc, ◌≤◌, ◌≡◌, refl, sym, ap, ◌∙◌, inl, inr, Bool, true, false, not, ◌&&◌, Option, none,
  some, List, [], ◌∷◌, ◌++◌, map, arith, Bool-cases, length, length-append, length-map,
}
use jmpxx.Prelude.Text.{String, same, same→eq, same_self}
use jmpxx.Codegen.{
  id, starts_label, take_id, find, name_token, token_found, canon_from, canon_labels,
}

pub data Piece : Type 0 where
  char : ℕ → Piece
  label : String → Piece

abbrev pub are_id : String → Bool
are_id [] = true
are_id (c ∷ s) = id c && are_id s

abbrev pub ends_name : String → Bool
ends_name [] = true
ends_name (c ∷ s) = not (id c)

-- A body in its pieces: labels, whose names are as long as can be, and the characters between them.
pub data Splits : String → List Piece → Type 0 where
  splits_end : Splits [] []
  splits_label :
      (d : ℕ) (name rest : String) (ps : List Piece)
      → are_id (d ∷ name) ≡ true
      → ends_name rest ≡ true
      → Splits rest ps
      → Splits (b'.' ∷ b'L' ∷ d ∷ (name ++ rest)) (label (b'.' ∷ b'L' ∷ d ∷ name) ∷ ps)
  splits_char :
      (c : ℕ) (s : String) (ps : List Piece)
      → starts_label (c ∷ s) ≡ false
      → Splits s ps
      → Splits (c ∷ s) (char c ∷ ps)

take_id-append :
    (name rest : String)
    → are_id name ≡ true
    → ends_name rest ≡ true
    → take_id (name ++ rest) ≡ (name, rest)
take_id-append [] [] h g = refl
take_id-append [] (c ∷ rest) h g = elim (Bool-cases (id c)) [
  | inl met ↦ ground (arith, g, met)
  | inr other ↦ rw other
]
take_id-append (c ∷ name) rest h g = elim (Bool-cases (id c)) [
  | inl met ↦ rw (take_id-append name rest (rw met at h) g, met)
  | inr other ↦ ground (arith, h, other)
]

module _ (to_string : ℕ → String) where
  -- The names that the pieces get, in their order.
  abbrev pub number : List Piece → List String → String
  number [] seen = []
  number (char c ∷ ps) seen = c ∷ number ps seen
  number (label tok ∷ ps) seen =
      let (token, seen') = name_token to_string tok seen in token ++ number ps seen'

  canon_from-number :
      (fuel : ℕ) (body : String) (ps : List Piece) (seen : List String)
      → length body ≤ fuel
      → Splits body ps
      → canon_from to_string fuel body seen ≡ number ps seen
  unfolding canon_from
  canon_from-number zero body ps seen enough splits_end = refl
  canon_from-number zero body ps seen enough (splits_label d name rest qs h g s) =
      absurd (omega arith)
  canon_from-number zero body ps seen enough (splits_char c t qs h s) = absurd (omega arith)
  canon_from-number (suc fuel) body ps seen enough splits_end = refl
  canon_from-number (suc fuel) body ps seen enough (splits_label d name rest qs h g s) =
      let first : id d ≡ true = ground (arith, h) in
      let cut : take_id (d ∷ (name ++ rest)) ≡ (d ∷ name, rest) =
        take_id-append (d ∷ name) rest h g in
      rw (cut, first)
        (ap (λ l. (name_token to_string (b'.' ∷ b'L' ∷ d ∷ name) seen).0 ++ l)
          (canon_from-number fuel rest qs _ (omega (arith, enough, length-append name rest)) s))
  canon_from-number (suc fuel) body ps seen enough (splits_char c t qs h s) =
      rw h (ap (λ l. c ∷ l) (canon_from-number fuel t qs seen (omega (arith, enough)) s))

  module _ (rename : String → String)
      (one_to_one : (s t : String) → rename s ≡ rename t → s ≡ t) where
    abbrev pub rename_piece : Piece → Piece
    rename_piece (char c) = char c
    rename_piece (label tok) = label (rename tok)

    same-rename : (t tok : String) → same (rename t) (rename tok) ≡ same t tok
    same-rename t tok = elim (Bool-cases (same t tok)) [
      | inl met ↦
          rw met
            (ap (λ u. same (rename u) (rename tok)) (same→eq t tok met) ∙ same_self (rename tok))
      | inr other ↦ elim (Bool-cases (same (rename t) (rename tok))) [
        | inl met ↦
            let e : t ≡ tok = one_to_one t tok (same→eq (rename t) (rename tok) met) in
            absurd (ground (arith, other, ap (λ u. same u tok) e ∙ same_self tok))
        | inr apart ↦ rw (apart, other)
      ]
    ]

    find-rename :
        (tok : String) (seen : List String) → find (rename tok) (map rename seen) ≡ find tok seen
    find-rename tok [] = refl
    find-rename tok (t ∷ seen) = rw (same-rename t tok, find-rename tok seen)

    map-append_last :
        (seen : List String) (tok : String)
        → map rename (seen ++ tok ∷ []) ≡ map rename seen ++ rename tok ∷ []
    map-append_last [] tok = refl
    map-append_last (t ∷ seen) tok = ap (λ l. rename t ∷ l) (map-append_last seen tok)

    abbrev rename_result : String × List String → String × List String
    rename_result (text, seen) = (text, map rename seen)

    token_found-rename :
        (o : Option ℕ) (tok : String) (seen : List String)
        → token_found to_string o (rename tok) (map rename seen)
          ≡ rename_result (token_found to_string o tok seen)
    token_found-rename none tok seen = rw (length-map seen rename, map-append_last seen tok)
    token_found-rename (some k) tok seen = refl

    name_token-rename :
        (tok : String) (seen : List String)
        → name_token to_string (rename tok) (map rename seen)
          ≡ rename_result (name_token to_string tok seen)
    name_token-rename tok seen =
        rw (find-rename tok seen) (token_found-rename (find tok seen) tok seen)

    number-rename :
        (ps : List Piece) (seen : List String)
        → number (map rename_piece ps) (map rename seen) ≡ number ps seen
    number-rename [] seen = refl
    number-rename (char c ∷ ps) seen = ap (λ l. c ∷ l) (number-rename ps seen)
    number-rename (label tok ∷ ps) seen =
        ap (λ x. x.0 ++ number (map rename_piece ps) x.1) (name_token-rename tok seen)
        ∙ ap (λ l. (name_token to_string tok seen).0 ++ l)
            (number-rename ps (name_token to_string tok seen).1)

    -- Two bodies that have the same pieces but for a one-to-one renaming of their labels are given
    -- the same text.
    pub canon_labels-rename :
        (body body' : String) (ps : List Piece)
        → Splits body ps
        → Splits body' (map rename_piece ps)
        → canon_labels to_string body' ≡ canon_labels to_string body
    unfolding canon_labels
    canon_labels-rename body body' ps splits splits' =
        canon_from-number (length body') body' (map rename_piece ps) [] (omega arith) splits'
        ∙ number-rename ps []
        ∙ sym (canon_from-number (length body) body ps [] (omega arith) splits)
