-- ===== src/Diagnostic/Store.antt =====
-- include/jmpxx/diagnostic/store.hpp: the per-thread arena of failure records.
-- A source location (`std::source_location`) is a value of the parameter `L`, and the trace that a
-- record holds is a value of the parameter `T` (platform/trace.hpp, Platform/Trace).
pub mod Scan
pub mod Invariant
pub mod Fresh
pub mod Stack
pub mod Refines
use jmpxx.Prelude.{
  ℕ, zero, suc, ◌+◌, ◌%◌, ◌^◌, Bool, true, false, Option, none, some, List, ltb, leb, ◌==◌,
  get_elem?, set, replicate, if◌then◌else◌,
}

abbrev pub max_chain : ℕ
max_chain = 16

abbrev pub max_inflight : ℕ
max_inflight = 16

-- One failure's context. `hops` is the array, of which `hop_count` entries are written.
pub record Record (L T : Type 0) : Type 0 where
  pub id : ℕ
  pub origin : L
  pub hops : List L
  pub hop_count : ℕ
  pub hops_truncated : Bool
  pub trace : T

-- The records array, of which the first `depth` are live.
pub record Store (L T : Type 0) : Type 0 where
  pub records : List (Record L T)
  pub depth : ℕ
  pub next_id : ℕ

-- `next_id_++`, and past the wrap the 0 is left out.
unfoldable pub bump_id : ℕ → ℕ
bump_id n = let n' = (n + 1) % 2 ^ 32 in if n' == 0 then 1 else n'

module _ {L T : Type 0} where
  -- The store of a thread that has not used it; `r` is a zeroed record.
  abbrev pub initial : Record L T → Store L T
  initial r = record { records = replicate max_inflight r; depth = 0; next_id = 1 }

  -- `hops` keeps what an earlier failure left in the slot, as the array does.
  abbrev pub fresh : ℕ → L → T → Record L T → Record L T
  fresh id origin trace r = record r {
    id = id;
    origin = origin;
    hop_count = 0;
    hops_truncated = false;
    trace = trace;
  }

  abbrev pub update : List (Record L T) → ℕ → (Record L T → Record L T) → List (Record L T)
  update rs i f = elim (get_elem? rs i) [ none ↦ rs | some r ↦ set rs i (f r) ]

  -- The handle is issued before the test of the capacity.
  unfoldable pub open_record : L → T → Store L T → ℕ × Store L T
  unfolding bump_id
  open_record origin trace s =
      let id = s.next_id in
      let next = bump_id s.next_id in
      if leb max_inflight s.depth then (id, record s { next_id = next }) else (
        id,
        record {
          records = update s.records s.depth (fresh id origin trace);
          depth = s.depth + 1;
          next_id = next;
        },
      )

  -- The loop `for (i = depth - 1; i >= 0; --i)`; the result is the index of the record.
  unfoldable pub find_below : List (Record L T) → ℕ → ℕ → Option ℕ
  find_below rs id zero = none
  find_below rs id (suc i) =
      let rest = find_below rs id i in
      elim (get_elem? rs i) [ none ↦ rest | some r ↦ if r.id == id then some i else rest ]

  unfoldable pub find_index : ℕ → Store L T → Option ℕ
  find_index id s = if id == 0 then none else find_below s.records id s.depth

  -- The record that a handle resolves to.
  unfoldable pub find : ℕ → Store L T → Option (Record L T)
  unfolding find_index
  find id s = elim (find_index id s) [ none ↦ none | some i ↦ get_elem? s.records i ]

  unfoldable pub hop : L → Record L T → Record L T
  hop loc r =
      if leb max_chain r.hop_count
      then record r { hops_truncated = true }
      else record r { hops = set r.hops r.hop_count loc; hop_count = r.hop_count + 1 }

  unfoldable pub add_hop : ℕ → L → Store L T → Store L T
  unfolding find_index hop
  add_hop id loc s = elim (find_index id s) [
    | none ↦ s
    | some i ↦ record s { records = update s.records i (hop loc) }
  ]

  unfoldable pub mark : Store L T → ℕ
  mark s = s.depth

  -- A mark is a depth, so the test `m >= 0` holds.
  unfoldable pub truncate : ℕ → Store L T → Store L T
  truncate m s = if ltb m s.depth then record s { depth = m } else s
