-- ===== src/Reflect/Tests.antt =====
-- Runs of the reflection's theorems on a concrete enum: `e` with the enumerators `a` = 0 and `b` = 1,
-- of which the range is 0 to 2.
use mathlib.Core.List.{Perm}
use jmpxx.Prelude.{List, ℕ, zero, suc, ◌<◌, ◌≡◌, refl, true, some, [], ◌∷◌, arith}
use jmpxx.Prelude.Int.{ℤ, pos}
use jmpxx.Reflect.Spelling.{String, enumerator_spelling, is_identifier}
use jmpxx.Reflect.Scan.{FailureInfo, Enum, at, spelling, is_enumerator, scan_name, scan_value}
use jmpxx.Reflect.Laws.{scan_value-scan_name}
use jmpxx.Reflect.Meta.{meta_name, meta_message, meta_failures, place_all, place, shift}
use jmpxx.Reflect.Place.{rev}
use jmpxx.Reflect.Ordered.{
  IsDescending, meta_failures_lem, AreDistinct, distinct_nil, distinct_cons,
}

-- "E e::" and the rest: "[V = e::a]", "[V = e::b]", and "[V = (e)7]" for every other value.
abbrev signature : ℤ → String
signature (pos zero) = 91 ∷ 86 ∷ 32 ∷ 61 ∷ 32 ∷ 101 ∷ 58 ∷ 58 ∷ 97 ∷ 93 ∷ []
signature (pos (suc zero)) = 91 ∷ 86 ∷ 32 ∷ 61 ∷ 32 ∷ 101 ∷ 58 ∷ 58 ∷ 98 ∷ 93 ∷ []
signature _ = 91 ∷ 86 ∷ 32 ∷ 61 ∷ 32 ∷ 40 ∷ 101 ∷ 41 ∷ 55 ∷ 93 ∷ []

abbrev small : Enum
small = record { lo = pos 0; span = 3; cast = λ v. v; signature = signature; type_name = 101 ∷ [] }

distinct :
    (k : ℕ)
    → k < 3
    → is_enumerator small (at small k) ≡ true
    → spelling small (at small k) ≡ spelling small (at small 1)
    → at small k ≡ at small 1
unfolding is_enumerator is_identifier enumerator_spelling
distinct zero h named same = cc
distinct (suc zero) h named same = refl
distinct (suc (suc zero)) h named same = cc
distinct (suc (suc (suc k))) h named same = absurd (omega arith)

second : is_enumerator small (at small 1) ≡ true
unfolding is_enumerator is_identifier enumerator_spelling
second = refl

scan_value-scan_name_example :
    (scan_name small (at small 1) ≡ spelling small (at small 1))
    × (scan_value small (scan_name small (at small 1)) ≡ some (at small 1))
scan_value-scan_name_example =
    scan_value-scan_name small (λ i h. let q : at small i ≡ at small i = refl in q) 1 distinct
      (omega arith) second

-- Two enumerators that are declared in the other order than their values, and one value twice.
abbrev declared : List FailureInfo
declared = record { value = pos 4; name = 98 ∷ [] } ∷ record { value = pos 1; name = 97 ∷ [] } ∷ []

abbrev aliased : List FailureInfo
aliased = record { value = pos 1; name = 97 ∷ [] } ∷ record { value = pos 1; name = 98 ∷ [] } ∷ []

declared-AreDistinct : AreDistinct declared
unfolding meta_name
declared-AreDistinct = distinct_cons _ _ refl (distinct_cons _ _ refl distinct_nil)

failures_of_declared :
    meta_failures declared
    ≡ record { value = pos 1; name = 97 ∷ [] } ∷ record { value = pos 4; name = 98 ∷ [] } ∷ []
unfolding meta_failures place_all place shift
failures_of_declared = refl

-- The message of a value with two names is the last, and its name the first.
names_of_aliased :
    (meta_message aliased (pos 1) [] ≡ 98 ∷ []) × (meta_name aliased (pos 1) ≡ some (97 ∷ []))
unfolding meta_message meta_name
names_of_aliased = (refl, refl)

meta_failures_lem_example :
    (zs : List FailureInfo) × (meta_failures declared ≡ rev zs [])
    × IsDescending zs
    × Perm zs declared
meta_failures_lem_example = meta_failures_lem declared
