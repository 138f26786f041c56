-- ===== src/Erased.antt =====
-- include/jmpxx/erased.hpp: the type-erased error. A domain is known by the address of its descriptor,
-- and `none` is a null pointer.
use jmpxx.Prelude.{
  inl, inr, Option-cases, Bool-cases, ℕ, zero, suc, ◌+◌, ◌*◌, ◌/◌, ◌%◌, ◌^◌, ◌<◌, ◌≡◌, refl, sym,
  ap, ◌∙◌, ◌↔◌, Bool, true, false, ◌&&◌, Option, none, some, arith, ◌==◌, if◌then◌else◌,
}
use jmpxx.Prelude.Int.{ℤ, pos, eqb_ℤ, eqb_ℤ_iff, to_unsigned, to_signed}
use jmpxx.Core.Outcome.{Outcome, done, trap, undefined, ◌>>=◌}
use jmpxx.Core.Hardening.{Hardening, extensive_enabled}
use jmpxx.Core.Error.{Error}

-- The bitwise `^` of two numbers, on their lowest `n` bits.
unfoldable pub bit_xor : ℕ → ℕ → ℕ → ℕ
bit_xor zero a b = 0
bit_xor (suc n) a b = (a % 2 + b % 2) % 2 + 2 * bit_xor n (a / 2) (b / 2)

unfoldable pub fold_generic_error : ℤ → ℤ → ℤ
fold_generic_error code domain_tag =
    to_signed (bit_xor 32 (to_unsigned code) (to_unsigned domain_tag * 2 ^ 16 % 2 ^ 32))

pub record ErasedError : Type 0 where
  pub value : ℤ
  pub domain : Option ℕ

-- The constructors: from a bare code and tag, from a value and a descriptor, and from a minimal error.
-- `generic` is the address of the generic domain.
unfoldable pub of_code : ℕ → ℤ → ℤ → ErasedError
of_code generic code domain_tag = record {
  value = fold_generic_error code domain_tag;
  domain = some generic;
}

unfoldable pub of_value : ℤ → ℕ → ErasedError
of_value value dom = record { value = value; domain = some dom }

unfoldable pub of_error : Error → ℕ → ErasedError
of_error e dom = record { value = e.code; domain = some dom }

unfoldable pub checked_domain : Hardening → ErasedError → Outcome (Option ℕ)
unfolding extensive_enabled
checked_domain h e = elim e.domain [
  | none ↦ if extensive_enabled h then trap else done none
  | some d ↦ done (some d)
]

-- The descriptor is read, so a null pointer has no meaning.
abbrev pub dereference : Option ℕ → Outcome ℕ
dereference none = undefined
dereference (some d) = done d

unfoldable pub domain : Hardening → ErasedError → Outcome ℕ
unfolding checked_domain
domain h e = checked_domain h e >>= dereference

unfoldable pub in_domain : Hardening → ErasedError → ℕ → Outcome Bool
unfolding checked_domain
in_domain h e dom = checked_domain h e >>= λ d. done (elim d [ none ↦ false | some a ↦ a == dom ])

-- `domain_name` and `message`: virtual calls on the descriptor, which are the parameters.
unfoldable pub domain_name : {N : Type 0} → (ℕ → N) → Hardening → ErasedError → Outcome N
unfolding domain
domain_name name h e = domain h e >>= λ d. done (name d)

unfoldable pub message : {N : Type 0} → (ℕ → ℤ → N) → Hardening → ErasedError → Outcome N
unfolding domain
message text h e = domain h e >>= λ d. done (text d e.value)

abbrev pub same_domain : Option ℕ → Option ℕ → Bool
same_domain none none = true
same_domain (some a) (some b) = a == b
same_domain _ _ = false

unfoldable pub erased_eq : ErasedError → ErasedError → Bool
erased_eq a b = same_domain a.domain b.domain && eqb_ℤ a.value b.value

-- Exclusive or with 0.
bit_xor-zero : (n b : ℕ) → b < 2 ^ n → bit_xor n 0 b ≡ b
unfolding bit_xor
bit_xor-zero zero b h = omega arith
bit_xor-zero (suc n) b h = omega (arith, bit_xor-zero n (b / 2) (omega arith))

-- A number shifted to the left.
abbrev shifted : ℕ → ℕ → ℕ
shifted zero b = b
shifted (suc n) b = 2 * shifted n b

-- The width of a number of `m` bits that was shifted by `n`.
abbrev width : ℕ → ℕ → ℕ
width zero m = m
width (suc n) m = suc (width n m)

-- Where one number has its bits below those of the other, exclusive or is their sum.
bit_xor-shifted :
    (n m a b : ℕ) → a < 2 ^ n → b < 2 ^ m → bit_xor (width n m) a (shifted n b) ≡ a + shifted n b
unfolding bit_xor
bit_xor-shifted zero m a b h h' =
    let empty : a ≡ 0 = omega arith in
    rw empty (bit_xor-zero m b h' ∙ (let e : b ≡ 0 + b = omega arith in e))
bit_xor-shifted (suc n) m a b h h' =
    let half : shifted (suc n) b / 2 ≡ shifted n b = omega arith in
    rw half (omega (arith, bit_xor-shifted n m (a / 2) b (omega arith) h'))

-- A code and a tag of 16 bits are the halves of the word that they are folded to.
fold_generic_error_lem :
    (c t : ℕ)
    → c < 2 ^ 16
    → t < 2 ^ 16
    → to_unsigned (fold_generic_error (pos c) (pos t)) ≡ c + t * 2 ^ 16
unfolding fold_generic_error
fold_generic_error_lem c t h h' = ground (arith, folded)
  where
    folded : bit_xor 32 c (t * 2 ^ 16) ≡ c + t * 2 ^ 16
    folded =
        ap (bit_xor 32 c) (let e : t * 2 ^ 16 ≡ shifted 16 t = omega arith in e)
        ∙ bit_xor-shifted 16 16 c t h h'
        ∙ (let e : c + shifted 16 t ≡ c + t * 2 ^ 16 = omega arith in e)

-- Two erased errors that were built from codes and tags of 16 bits are equal exactly when both the
-- codes and the tags are.
pub erased_eq-of_code :
    (generic c t c' t' : ℕ)
    → c < 2 ^ 16
    → t < 2 ^ 16
    → c' < 2 ^ 16
    → t' < 2 ^ 16
    → (erased_eq (of_code generic (pos c) (pos t)) (of_code generic (pos c') (pos t')) ≡ true)
      ↔ ((c ≡ c') × (t ≡ t'))
unfolding erased_eq of_code
erased_eq-of_code generic c t c' t' h k h' k' = (
  λ same.
      let one : fold_generic_error (pos c) (pos t) ≡ fold_generic_error (pos c') (pos t') =
        (eqb_ℤ_iff (fold_generic_error (pos c) (pos t)) (fold_generic_error (pos c') (pos t'))).0
          (ground (arith, same)) in
      let words : c + t * 2 ^ 16 ≡ c' + t' * 2 ^ 16 =
        sym (fold_generic_error_lem c t h k)
        ∙ ap to_unsigned one
        ∙ fold_generic_error_lem c' t' h' k' in
      (omega (arith, words), omega (arith, words)),
  λ same.
      rw (same.0, same.1)
        (ground (
          arith,
          (eqb_ℤ_iff (fold_generic_error (pos c') (pos t'))
                (fold_generic_error (pos c') (pos t'))).1
              refl,
        )),
)

-- What an observer of an error finds: what it reads of the descriptor, and without one the end of the
-- program in the extensive mode, and `otherwise` in the others.
abbrev pub observed : {A : Type 0} → Hardening → Option ℕ → (ℕ → A) → Outcome A → Outcome A
observed h (some d) read otherwise = done (read d)
observed h none read otherwise = if extensive_enabled h then trap else otherwise

-- On an error with a descriptor every observer is defined in every hardening mode: the domain test
-- compares with the descriptor, and the name and the message are the descriptor's. On a null
-- descriptor the extensive mode stops the program in all of them; in the other modes the domain test
-- says no, and reading the name or a message has no meaning.
pub observers_lem :
    {N : Type 0} (name : ℕ → N) (text : ℕ → ℤ → N) (h : Hardening) (e : ErasedError) (dom : ℕ)
    → (in_domain h e dom ≡ observed h e.domain (λ d. d == dom) (done false))
      × (domain_name name h e ≡ observed h e.domain name undefined)
      × (message text h e ≡ observed h e.domain (λ d. text d e.value) undefined)
unfolding in_domain domain_name message extensive_enabled
observers_lem name text h e dom = elim (Option-cases e.domain) [
  | inr (d, here) ↦ rw (here, in_domain, domain_name, message) (refl, refl, refl)
  | inl null ↦ elim (Bool-cases (extensive_enabled h)) [
    | inl on ↦ ground (arith, null, on)
    | inr off ↦ ground (arith, null, off)
  ]
]
