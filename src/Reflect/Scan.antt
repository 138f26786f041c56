-- ===== src/Reflect/Scan.antt =====
-- include/jmpxx/reflect.hpp: the scan of a range of values for enumerators, and the error domain.
-- A value of the enum is its integer. The compiler is the parameter: what `static_cast<E>` makes of an
-- integer, and the signature that it writes at a value.
use jmpxx.Prelude.{
  ℕ, zero, suc, ◌+◌, ◌-◌, Bool, true, false, ◌&&◌, Option, none, some, List, [], ◌∷◌, map, ◌==◌,
  if◌then◌else◌, get_elem?, set, replicate,
}
use jmpxx.Prelude.Int.{ℤ, pos, negsuc, eqb_ℤ, ltb_ℤ, leb_ℤ, sub_ℕ}
use jmpxx.Erased.{ErasedError, of_value}
use jmpxx.Reflect.Spelling.{String, enumerator_spelling, is_identifier}

pub record FailureInfo : Type 0 where
  pub value : ℤ
  pub name : String

-- An enum with its `enum_range`, of which `span` is `max - min + 1`.
pub record Enum : Type 0 where
  pub lo : ℤ
  pub span : ℕ
  pub cast : ℤ → ℤ
  pub signature : ℤ → String
  pub type_name : String

-- i + n.
abbrev pub plus : ℤ → ℕ → ℤ
plus (pos i) n = pos (i + n)
plus (negsuc i) n = sub_ℕ n (suc i)

abbrev pub upto : ℕ → ℕ → List ℕ
upto i zero = []
upto i (suc n) = i ∷ upto (i + 1) n

-- `std::make_integer_sequence<int, range_span<E>()>`, and `range_lo<E>() + I`.
abbrev pub sequence : Enum → List ℕ
sequence e = upto 0 e.span

abbrev pub at : Enum → ℕ → ℤ
at e i = plus e.lo i

abbrev pub spelling : Enum → ℤ → String
spelling e v = enumerator_spelling (e.signature v)

unfoldable pub is_enumerator : Enum → ℤ → Bool
is_enumerator e v = is_identifier (spelling e v)

abbrev pub same : String → String → Bool
same [] [] = true
same (c ∷ s) (d ∷ t) = c == d && same s t
same _ _ = false

-- `value - lo`, where value is at least lo.
abbrev pub offset : ℤ → ℤ → ℕ
offset (pos v) (pos l) = v - l
offset (pos v) (negsuc l) = v + suc l
offset (negsuc v) (negsuc l) = l - v
offset (negsuc v) (pos l) = 0

-- A value-initialised `failure_info`.
abbrev pub no_info : FailureInfo
no_info = record { value = pos 0; name = [] }

module _ (e : Enum) where
  abbrev pub count_in : List ℕ → ℕ
  count_in [] = 0
  count_in (i ∷ is) = (if is_enumerator e (e.cast (at e i)) then 1 else 0) + count_in is

  unfoldable pub count_enumerators : ℕ
  count_enumerators = count_in (sequence e)

  -- The first of the sequence that matches is kept, since `||` stops there.
  abbrev pub name_in : ℤ → List ℕ → String
  name_in v [] = []
  name_in v (i ∷ is) =
      let rest = name_in v is in
      if eqb_ℤ v (at e i) && is_enumerator e (e.cast (at e i))
      then spelling e (e.cast (at e i))
      else rest

  unfoldable pub scan_name : ℤ → String
  scan_name v = name_in v (sequence e)

  abbrev pub value_in : String → List ℕ → Option ℤ
  value_in name [] = none
  value_in name (i ∷ is) =
      let rest = value_in name is in
      if is_enumerator e (e.cast (at e i)) && same (spelling e (e.cast (at e i))) name
      then some (e.cast (at e i))
      else rest

  unfoldable pub scan_value : String → Option ℤ
  scan_value name = value_in name (sequence e)

  -- `out[k++] = ...`, on the array and `k`.
  abbrev pub put : ℕ → List FailureInfo × ℕ → List FailureInfo × ℕ
  put i s =
      if is_enumerator e (e.cast (at e i))
      then (set s.0 s.1 (record { value = at e i; name = spelling e (e.cast (at e i)) }), s.1 + 1)
      else s

  abbrev pub build_in : List ℕ → List FailureInfo × ℕ → List FailureInfo × ℕ
  build_in [] s = s
  build_in (i ∷ is) s = build_in is (put i s)

  unfoldable pub build_failures : List FailureInfo
  unfolding count_enumerators
  build_failures = (build_in (sequence e) (replicate count_enumerators no_info, 0)).0

  -- A slot is the name's C string, or null.
  unfoldable pub enumerator_c_str : ℤ → Option String
  enumerator_c_str v = if is_enumerator e v then some (spelling e v) else none

  unfoldable pub name_table : List (Option String)
  name_table = map (λ i. enumerator_c_str (e.cast (at e i))) (sequence e)

  -- `name_table<E>[value - lo]`; the outer `none` is a read past the table.
  abbrev pub table_read : ℤ → Option (Option String)
  table_read v = get_elem? name_table (offset v e.lo)

  -- `reflected_domain::message`; `unknown` is "unknown error".
  unfoldable pub message : String → ℤ → Option String
  message unknown v =
      if leb_ℤ e.lo v && ltb_ℤ v (plus e.lo e.span)
      then (elim (table_read v) [
        | none ↦ none
        | some s ↦ some (elim s [ some n ↦ n | none ↦ unknown ])
      ])
      else some unknown

-- The public surface.
unfoldable pub enum_name : Enum → ℤ → String
enum_name e v = scan_name e v

unfoldable pub enum_cast : Enum → String → Option ℤ
enum_cast e name = scan_value e name

unfoldable pub enum_count : Enum → ℕ
enum_count e = count_enumerators e

unfoldable pub failures : Enum → List FailureInfo
failures e = build_failures e

-- The enum's domain is its descriptor's address.
unfoldable pub as_erased : ℕ → ℤ → ErasedError
as_erased domain v = of_value v domain
