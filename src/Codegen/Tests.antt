-- ===== src/Codegen/Tests.antt =====
-- Two bodies that differ in their labels alone.
use jmpxx.Prelude.{ℕ, ◌+◌, ◌≡◌, refl, List, [], ◌∷◌, ◌++◌, map}
use mathlib.Core.List.{append_cancel_right}
use jmpxx.Prelude.Codes.{codes}
use jmpxx.Prelude.Text.{String}
use jmpxx.Codegen.{canon_from, canon_labels}
use jmpxx.Codegen.Labels.{
  Piece, char, label, Splits, splits_end, splits_label, splits_char, canon_labels-rename,
  rename_piece,
}

abbrev one_digit : ℕ → String
one_digit n = (b'0' + n) ∷ []

-- The second label is numbered after the first, wherever it comes again.
numbered : canon_labels one_digit (codes "j .L3;.L12;.L3:") ≡ codes "j .L#0;.L#1;.L#0:"
unfolding canon_labels canon_from
numbered = refl

-- A renaming: the names get one more character.
abbrev longer : String → String
longer s = s ++ b'7' ∷ []

longer_one_to_one : (s t : String) → longer s ≡ longer t → s ≡ t
longer_one_to_one s t = append_cancel_right s t (b'7' ∷ [])

-- "j .L3;.L3:"
abbrev pieces : List Piece
pieces =
    char b'j' ∷ char b' ' ∷ label (codes ".L3") ∷ char b';' ∷ label (codes ".L3") ∷ char b':' ∷ []

before : Splits (codes "j .L3;.L3:") pieces
before = splits_char _ _ _ refl (
    splits_char _ _ _ refl (
      splits_label b'3' [] _ _ refl refl (
        splits_char _ _ _ refl
          (splits_label b'3' [] _ _ refl refl (splits_char _ _ _ refl splits_end)))))

after : Splits (codes "j .L37;.L37:") (map (rename_piece one_digit longer longer_one_to_one) pieces)
after = splits_char _ _ _ refl (
    splits_char _ _ _ refl (
      splits_label b'3' (b'7' ∷ []) _ _ refl refl (
        splits_char _ _ _ refl
          (splits_label b'3' (b'7' ∷ []) _ _ refl refl (splits_char _ _ _ refl splits_end)))))

canon_labels-rename_example :
    canon_labels one_digit (codes "j .L37;.L37:") ≡ canon_labels one_digit (codes "j .L3;.L3:")
canon_labels-rename_example =
    canon_labels-rename one_digit longer longer_one_to_one _ _ pieces before after
