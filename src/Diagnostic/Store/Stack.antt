-- ===== src/Diagnostic/Store/Stack.antt =====
-- What the arena stands for: a bounded stack of contexts. A context forgets the unused part of its
-- hops array, and the stack forgets the slots above the depth.
use jmpxx.Prelude.{
  ℕ, Bool, true, Option, none, some, List, [], ◌∷◌, ◌++◌, map, leb, ◌==◌, if◌then◌else◌, length,
  take,
}
use jmpxx.Diagnostic.Store.{Record, Store, max_chain, max_inflight}

pub record Context (L T : Type 0) : Type 0 where
  pub id : ℕ
  pub origin : L
  pub chain : List L
  pub truncated : Bool
  pub trace : T

module _ {L T : Type 0} where
  abbrev pub context : Record L T → Context L T
  context r = record {
    id = r.id;
    origin = r.origin;
    chain = take r.hop_count r.hops;
    truncated = r.hops_truncated;
    trace = r.trace;
  }

  abbrev pub live : Store L T → List (Context L T)
  live s = map context (take s.depth s.records)

  -- A new failure goes on top, if there is room.
  abbrev pub push : Context L T → List (Context L T) → List (Context L T)
  push c cs = if leb max_inflight (length cs) then cs else cs ++ c ∷ []

  -- One more hop, or the mark that the chain is cut.
  abbrev pub extend : L → Context L T → Context L T
  extend loc c =
      if leb max_chain (length c.chain)
      then record c { truncated = true }
      else record c { chain = c.chain ++ loc ∷ [] }

  abbrev pub extend_at : ℕ → L → Context L T → Context L T
  extend_at id loc c = if c.id == id then extend loc c else c

  abbrev pub lookup : ℕ → List (Context L T) → Option (Context L T)
  lookup id [] = none
  lookup id (c ∷ cs) = if c.id == id then some c else lookup id cs
