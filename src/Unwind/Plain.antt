-- ===== src/Unwind/Plain.antt =====
-- A payload of four bytes for the minimal error, for the runs of the programs that escape with one.
use jmpxx.Prelude.{ℕ, ◌≡◌, refl, List, [], ◌∷◌, arith, ◌==◌, if◌then◌else◌, length, get_or}
use jmpxx.Prelude.Int.{ℤ, pos, negsuc}
use jmpxx.Core.Error.{Error}
use jmpxx.Unwind.Escape.{Payload, IsCarried}

abbrev to_bytes : ℤ → ℤ → List ℕ
to_bytes (pos c) (pos d) = 0 ∷ c ∷ 0 ∷ d ∷ []
to_bytes (pos c) (negsuc d) = 0 ∷ c ∷ 1 ∷ d ∷ []
to_bytes (negsuc c) (pos d) = 1 ∷ c ∷ 0 ∷ d ∷ []
to_bytes (negsuc c) (negsuc d) = 1 ∷ c ∷ 1 ∷ d ∷ []

abbrev of_bytes : ℕ → ℕ → ℤ
of_bytes tag n = if tag == 0 then pos n else negsuc n

abbrev pub plain : Payload Error
plain = record {
  tag = 1;
  size = 4;
  encode = λ e. to_bytes e.code e.domain;
  decode = λ bytes. record {
    code = of_bytes (get_or bytes 0 0) (get_or bytes 1 0);
    domain = of_bytes (get_or bytes 2 0) (get_or bytes 3 0);
  };
}

length-to_bytes : (c d : ℤ) → length (to_bytes c d) ≡ 4
length-to_bytes (pos c) (pos d) = refl
length-to_bytes (pos c) (negsuc d) = refl
length-to_bytes (negsuc c) (pos d) = refl
length-to_bytes (negsuc c) (negsuc d) = refl

decode-to_bytes : (c d : ℤ) → plain.decode (to_bytes c d) ≡ record { code = c; domain = d }
decode-to_bytes (pos c) (pos d) = refl
decode-to_bytes (pos c) (negsuc d) = refl
decode-to_bytes (negsuc c) (pos d) = refl
decode-to_bytes (negsuc c) (negsuc d) = refl

pub plain-IsCarried : IsCarried plain
plain-IsCarried = record {
  fits = omega arith;
  sized = λ e. length-to_bytes e.code e.domain;
  copied = λ e. decode-to_bytes e.code e.domain;
}
