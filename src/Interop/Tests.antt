-- ===== src/Interop/Tests.antt =====
-- Runs of the theorems on the bridges and on erased errors on concrete inputs.
use jmpxx.Prelude.{if◌then◌else◌, ℕ, ◌≡◌, refl, ◌↔◌, true, some, [], ◌∷◌, arith}
use jmpxx.Prelude.Int.{pos, leb_ℤ}
use jmpxx.Core.Error.{Error}
use jmpxx.Erased.{of_code, erased_eq, erased_eq-of_code}
use jmpxx.Interop.ErrorCode.{
  CategoryTable, find_address, get, domain_of, to_error_code, from_error_code, is_jmpxx, IsValid,
  get_lem, from_error_code-to_error_code,
}

-- The domain 2 has the category at 500.
abbrev table : CategoryTable
table = record { by_domain = (pos 2, 500) ∷ []; by_address = (500, pos 2) ∷ [] }

table-IsValid : IsValid table
table-IsValid d a h = ground arith

abbrev fault : Error
fault = record { code = pos 7; domain = pos 3 }

get_lem_example :
    let (cat, t') = get (pos 3) 600 table in
    IsValid t'
    × (domain_of cat t' ≡ pos 3)
    × ((a : ℕ) (d : _)
        → find_address table.by_address a ≡ some d
        → find_address t'.by_address a ≡ some d)
    × ((made' : ℕ) → get (pos 3) made' t' ≡ (cat, t'))
get_lem_example = get_lem (pos 3) 600 table table-IsValid refl

from_error_code-to_error_code_example :
    let (ec, t') = to_error_code fault 600 table in
    (from_error_code ec t'
      ≡ (if leb_ℤ (pos 0) fault.domain then fault else record { code = pos 7; domain = pos 0 }))
    × (is_jmpxx ec t' ≡ leb_ℤ (pos 0) fault.domain)
from_error_code-to_error_code_example =
    from_error_code-to_error_code fault 600 table table-IsValid refl

erased_eq-of_code_example :
    (erased_eq (of_code 1 (pos 40) (pos 2)) (of_code 1 (pos 40) (pos 3)) ≡ true)
    ↔ (((let n : ℕ = 40 in n) ≡ 40) × ((let n : ℕ = 2 in n) ≡ 3))
erased_eq-of_code_example =
    erased_eq-of_code 1 40 2 40 3 (omega arith) (omega arith) (omega arith) (omega arith)
