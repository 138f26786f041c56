-- ===== src/Resolver/Meaning.antt =====
-- What the values of a table mean, and why a value may have no meaning: the independent description of
-- the resolver of reference_app/src/resolve.hpp.
use jmpxx.Prelude.{ℕ, ◌+◌, ◌<◌, ◌≡◌, true, Option, none, some, List, [], ◌∷◌, ◌++◌, length, drop}
use jmpxx.Prelude.Int.{pos}
use jmpxx.Prelude.Text.{String, strchr}
use jmpxx.Core.Error.{Error}
use jmpxx.Resolver.{open_mark, close_mark, find, count, max_depth}

-- The text is `before`, the first reference in it, to `ref`, and `after`.
pub record Cut (text before ref after : String) : Type 0 where
  pub parts : text ≡ before ++ (open_mark ++ (ref ++ close_mark ∷ after))
  pub first : find open_mark text ≡ some (length before)
  pub closed : strchr (ref ++ close_mark ∷ after) close_mark ≡ some (length ref)

-- The text has a reference to the key.
pub data Mentions : String → String → Type 0 where
  first_ref : (text before ref after : String) → Cut text before ref after → Mentions text ref
  later_ref :
      (text before ref after key : String)
      → Cut text before ref after
      → Mentions after key
      → Mentions text key

-- A reference in the text is not closed.
pub data Unclosed : String → Type 0 where
  never_closed :
      (text : String) (opening : ℕ)
      → find open_mark text ≡ some opening
      → strchr (drop (opening + 2) text) close_mark ≡ none
      → Unclosed text
  later_unclosed :
      (text before ref after : String) → Cut text before ref after → Unclosed after → Unclosed text

mutual
  -- The key has the value.
  pub data Means (lookup : String → Option String) : String → String → Type 0 where
    means :
        (key raw value : String)
        → lookup key ≡ some raw
        → Expands lookup raw value
        → Means lookup key value

  -- The text has the value, when what its references mean is put in their place.
  pub data Expands (lookup : String → Option String) : String → String → Type 0 where
    plain_text : (text : String) → find open_mark text ≡ none → Expands lookup text text
    spliced :
        (text before ref after value rest : String)
        → Cut text before ref after
        → Means lookup ref value
        → Expands lookup after rest
        → Expands lookup text (before ++ (value ++ rest))

-- The keys that lead from `start` to a key by references, the last of them first.
pub data Chain (lookup : String → Option String) (start : String)
    : List String → String → Type 0 where
  chain_start : Chain lookup start [] start
  chain_step :
      (keys : List String) (key raw ref : String)
      → Chain lookup start keys key
      → lookup key ≡ some raw
      → Mentions raw ref
      → Chain lookup start (key ∷ keys) ref

-- Why `start` has no value, as the error and the key that are reported: a chain of references from it
-- leads to a key that is not in the table, to one that stands in the chain before, to one that is
-- more than `max_depth` references away, or to a text with a reference that is not closed. The
-- error's domain is the number of the references.
pub data Blame (lookup : String → Option String) (start : String) : Error → String → Type 0 where
  blame_missing :
      (keys : List String) (key : String)
      → Chain lookup start keys key
      → lookup key ≡ none
      → Blame lookup start (record { code = pos 1; domain = pos (length keys) }) key
  blame_cycle :
      (keys : List String) (key : String)
      → Chain lookup start keys key
      → count key keys ≡ true
      → Blame lookup start (record { code = pos 2; domain = pos (length keys) }) key
  blame_depth :
      (keys : List String) (key : String)
      → Chain lookup start keys key
      → max_depth < length keys
      → Blame lookup start (record { code = pos 3; domain = pos (length keys) }) key
  blame_syntax :
      (keys : List String) (key text : String)
      → Chain lookup start keys key
      → lookup key ≡ some text
      → Unclosed text
      → Blame lookup start (record { code = pos 4; domain = pos (length keys) }) text
