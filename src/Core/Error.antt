-- ===== src/Core/Error.antt =====
-- include/jmpxx/core/error.hpp: the minimal error representation.
use jmpxx.Prelude.{◌≡◌, ◌↔◌, Bool, true, ◌&&◌, arith}
use jmpxx.Prelude.Int.{ℤ, eqb_ℤ, eqb_ℤ_iff}

pub record Error : Type 0 where
  pub code : ℤ
  pub domain : ℤ

-- The defaulted `operator==`.
unfoldable pub error_eq : Error → Error → Bool
error_eq a b = eqb_ℤ a.code b.code && eqb_ℤ a.domain b.domain

pub error_eq_iff : (a b : Error) → (error_eq a b ≡ true) ↔ (a ≡ b)
unfolding error_eq
error_eq_iff a b = ground (arith, eqb_ℤ_iff a.code b.code, eqb_ℤ_iff a.domain b.domain)
