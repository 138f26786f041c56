-- ===== src/Resolver.antt =====
-- reference_app/src/resolve.hpp and config_resolve.cpp: the resolver of `${other}` references, whose
-- failures escape to one landing. The table of values, that toml++ has parsed, is the parameter
-- `lookup`: what `values_[key].value<std::string>()` returns.
pub mod Meaning
pub mod Interpolate
pub mod Sound
pub mod Unique
pub mod Complete
pub mod Program
mod Tests
use jmpxx.Prelude.{
  ℕ, zero, suc, ◌+◌, ◌-◌, ◌*◌, ◌/◌, ◌%◌, ◌^◌, ◌≤◌, ◌<◌, ◌≡◌, refl, sym, ap, ◌∙◌, ◌≢◌, ◌↔◌, ◌⊎◌, inl,
  inr, Bool, true, false, not, ◌&&◌, ◌||◌, Option, none, some, List, [], ◌∷◌, ◌++◌, map, arith, ltb,
  leb, ◌==◌, if◌then◌else◌, ltb→lt, lt→ltb, leb→le, ==_iff, tests, Bool-cases, Option-cases, length,
  get_elem?, set, length-append, length-set, get_elem?-set_self, get_elem?-set_ne, get_or, take,
  drop, replicate, take-append-drop, length-take, length-drop, length-replicate, length-map,
  take-set_last, take-take, map-take, take-all, get_elem?-some,
}
use jmpxx.Prelude.Int.{pos}
use jmpxx.Prelude.Text.{String, same, is_prefix, strchr}
use jmpxx.Core.Error.{Error}
use jmpxx.Core.Transport.Refines.{Result}
use jmpxx.Unwind.{Arm, ◌>>=◌, ◌>>◌, pure, modify, gets, dangling}
use jmpxx.Unwind.Escape.{Payload, eject, frame, escape_scope}

pub data Kind : Type 0 where
  missing cycle too_deep malformed : Kind

abbrev pub kind_code : Kind → ℕ
kind_code missing = 1
kind_code cycle = 2
kind_code too_deep = 3
kind_code malformed = 4

abbrev pub max_depth : ℕ
max_depth = 64

-- The set `resolving_` is a list in which a key stands once, and `error_key_`.
pub record Keys : Type 0 where
  pub resolving : List String
  pub error_key : String

abbrev pub count : String → List String → Bool
count key [] = false
count key (k ∷ ks) = same k key || count key ks

-- `set.erase(k)`.
abbrev pub erase : String → List String → List String
erase key [] = []
erase key (k ∷ ks) = let rest = erase key ks in if same k key then rest else k ∷ rest

abbrev pub insert : String → List String → List String
insert key ks = if count key ks then ks else key ∷ ks

abbrev pub unmark : String → Keys → Keys
unmark key s = record s { resolving = erase key s.resolving }

abbrev pub mark : String → Keys → Keys
mark key s = record s { resolving = insert key s.resolving }

abbrev pub note_key : String → Keys → Keys
note_key key s = record s { error_key = key }

-- "${", and the code of '}'.
abbrev pub open_mark : String
open_mark = 36 ∷ 123 ∷ []

abbrev pub close_mark : ℕ
close_mark = 125

-- `find` of a string, as an offset.
abbrev pub find : String → String → Option ℕ
find p [] = if is_prefix p [] then some 0 else none
find p (c ∷ s) =
    let rest = find p s in
    if is_prefix p (c ∷ s) then some 0 else (elim rest [ none ↦ none | some i ↦ some (suc i) ])

module _ (p : Payload Error) (lookup : String → Option String) where
  unfoldable pub eject_with : {A : Type 0} → Kind → String → ℕ → Arm Keys A
  eject_with k key depth = do
    modify (note_key key)
    eject p (record { code = pos (kind_code k); domain = pos depth })

  -- The loop of `interpolate`; `rest` is the text from `i` on. The first number is fuel, more than the
  -- length of `rest`. Without it the model has no meaning to give.
  unfoldable pub interpolate_from :
      (String → Arm Keys String) → ℕ → String → ℕ → String → String → Arm Keys String
  interpolate_from next zero text depth out rest = λ w. (dangling, w)
  interpolate_from next (suc fuel) text depth out rest = elim (find open_mark rest) [
    | none ↦ pure (out ++ rest)
    | some opening ↦ elim (strchr (drop (opening + 2) rest) close_mark) [
      | none ↦ eject_with malformed text depth
      | some closing ↦ (do
        value ← next (take closing (drop (opening + 2) rest))
        interpolate_from next fuel text depth ((out ++ take opening rest) ++ value)
            (drop (closing + 1) (drop (opening + 2) rest)))
    ]
  ]

  abbrev pub interpolate : (String → Arm Keys String) → String → ℕ → Arm Keys String
  interpolate next text depth = interpolate_from next (suc (length text)) text depth [] text

  -- What happens under the mark of `key`.
  abbrev pub under_mark : (String → Arm Keys String) → String → ℕ → Arm Keys String
  under_mark next key depth = do
    modify (mark key)
    elim (lookup key) [
      | none ↦ eject_with missing key depth
      | some raw ↦ interpolate next raw depth
    ]

  -- The first argument is fuel: one for every depth up to the greatest, and two more.
  unfoldable pub resolve : ℕ → String → ℕ → Arm Keys String
  resolve zero key depth = λ w. (dangling, w)
  resolve (suc fuel) key depth = if ltb max_depth depth then eject_with too_deep key depth else (do
    resolving ← gets (λ s. s.resolving)
    if count key resolving
        then eject_with cycle key depth
        else frame (modify (unmark key))
            (under_mark (λ ref. resolve fuel ref (depth + 1)) key depth))

  unfoldable pub resolve_key : List ℕ → String → Arm Keys (Result String Error)
  resolve_key junk key = escape_scope p junk (resolve (max_depth + 2) key 0)
