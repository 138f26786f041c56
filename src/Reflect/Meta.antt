-- ===== src/Reflect/Meta.antt =====
-- include/jmpxx/reflect.hpp on a compiler with static reflection. What it enumerates of an enum, the
-- values with their identifiers in the order of the declaration, is the parameter.
use jmpxx.Prelude.{
  ℕ, zero, suc, Option, none, some, List, [], ◌∷◌, if◌then◌else◌, length, set, get_or, replicate,
}
use jmpxx.Prelude.Int.{ℤ, eqb_ℤ, ltb_ℤ}
use jmpxx.Prelude.Text.{String}
use jmpxx.Prelude.Text as Text
use jmpxx.Reflect.Scan.{FailureInfo, no_info}

-- `enum_name`: the first enumerator with the value.
unfoldable pub meta_name : List FailureInfo → ℤ → Option String
meta_name [] v = none
meta_name (e ∷ es) v = let rest = meta_name es v in if eqb_ℤ v e.value then some e.name else rest

-- `enum_cast`: the first enumerator with the name.
unfoldable pub meta_cast : List FailureInfo → String → Option ℤ
meta_cast [] name = none
meta_cast (e ∷ es) name =
    let rest = meta_cast es name in if Text.same name e.name then some e.value else rest

-- The loop of `message`, which goes on after a match.
unfoldable pub meta_message : List FailureInfo → ℤ → String → String
meta_message [] v out = out
meta_message (e ∷ es) v out = meta_message es v (if eqb_ℤ v e.value then e.name else out)

-- The `while` loop of `build_failures`, at `j`: where it stops, and the array.
unfoldable pub shift : ℕ → List FailureInfo → FailureInfo → ℕ × List FailureInfo
shift zero out fi = (0, out)
shift (suc j) out fi =
    let rest = shift j (set out (suc j) (get_or out j no_info)) fi in
    if ltb_ℤ fi.value (get_or out j no_info).value then rest else (suc j, out)

-- One turn of the loop over the enumerators.
unfoldable pub place : ℕ → List FailureInfo → FailureInfo → List FailureInfo
unfolding shift
place k out fi = let at = shift k out fi in set at.1 at.0 fi

unfoldable pub place_all : ℕ → List FailureInfo → List FailureInfo → List FailureInfo
unfolding place
place_all k out [] = out
place_all k out (e ∷ es) = place_all (suc k) (place k out e) es

unfoldable pub meta_failures : List FailureInfo → List FailureInfo
unfolding place_all
meta_failures es = place_all 0 (replicate (length es) no_info) es
