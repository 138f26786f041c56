-- ===== src/Codegen.antt =====
-- The renaming of local labels in verify/main.cpp, with which the harness compares the assembly of two
-- functions. A string is the list of its characters' codes; `std::to_string` is a parameter.
pub mod Labels
mod Tests
use jmpxx.Prelude.{
  ℕ, zero, suc, ◌+◌, ◌-◌, ◌*◌, ◌/◌, ◌%◌, ◌^◌, ◌≤◌, ◌<◌, ◌≡◌, refl, sym, ap, ◌∙◌, ◌≢◌, ◌↔◌, ◌⊎◌, inl,
  inr, Bool, true, false, not, ◌&&◌, ◌||◌, Option, none, some, List, [], ◌∷◌, ◌++◌, map, arith, ltb,
  leb, ◌==◌, if◌then◌else◌, ltb→lt, lt→ltb, leb→le, ==_iff, tests, Bool-cases, Option-cases, length,
  get_elem?, set, length-append, length-set, get_elem?-set_self, get_elem?-set_ne, get_or, take,
  drop, replicate, take-append-drop, length-take, length-drop, length-replicate, length-map,
  take-set_last, take-take, map-take, take-all, get_elem?-some, take-append,
}
use jmpxx.Prelude.Text.{String, same}

-- `id`, the characters of a name.
abbrev pub id : ℕ → Bool
id c =
    (leb b'A' c && leb c b'Z')
    || ((leb b'a' c && leb c b'z') || ((leb b'0' c && leb c b'9') || (c == b'_' || c == b'$')))

-- The test for a label at the start of what is left.
abbrev pub starts_label : String → Bool
starts_label (c ∷ l ∷ d ∷ s) = c == b'.' && (l == b'L' && id d)
starts_label _ = false

-- The characters of a name at the start, and what follows them.
abbrev pub take_id : String → String × String
take_id [] = ([], [])
take_id (c ∷ s) = let (name, rest) = take_id s in if id c then (c ∷ name, rest) else ([], c ∷ s)

-- The tokens in the order of their insertion into the map, and the number of one of them.
abbrev pub find : String → List String → Option ℕ
find tok [] = none
find tok (t ∷ seen) =
    let rest = find tok seen in
    if same t tok then some 0 else (elim rest [ none ↦ none | some k ↦ some (suc k) ])

module _ (to_string : ℕ → String) where
  -- ".L#" and the number.
  abbrev pub canonical : ℕ → String
  canonical k = b'.' ∷ b'L' ∷ b'#' ∷ to_string k

  -- What a token is replaced by, with the tokens that are seen then, from what the map finds.
  abbrev pub token_found : Option ℕ → String → List String → String × List String
  token_found none tok seen = (canonical (length seen), seen ++ tok ∷ [])
  token_found (some k) tok seen = (canonical k, seen)

  abbrev pub name_token : String → List String → String × List String
  name_token tok seen = token_found (find tok seen) tok seen

  -- The loop over what is left of the body; its first argument is fuel, one for every character.
  unfoldable pub canon_from : ℕ → String → List String → String
  canon_from zero body seen = []
  canon_from (suc fuel) [] seen = []
  canon_from (suc fuel) (c ∷ s) seen =
      let (name, rest) = take_id (drop 1 s) in
      let (token, seen') = name_token (take 2 (c ∷ s) ++ name) seen in
      let after = canon_from fuel rest seen' in
      let next = canon_from fuel s seen in if starts_label (c ∷ s) then token ++ after else c ∷ next

  unfoldable pub canon_labels : String → String
  unfolding canon_from
  canon_labels body = canon_from (length body) body []
