-- ===== src/Hooks/Reports.antt =====
-- What `_dl_find_object` of reference_app/optee_ta/ta/unwinder_hooks.c answers.
use jmpxx.Prelude.{
  ℕ, ◌≤◌, ◌<◌, ◌≡◌, refl, sym, inl, inr, true, false, not, ◌||◌, Option, none, some, List, [], ◌∷◌,
  arith, ltb, leb, ◌==◌, if◌then◌else◌, ==_iff, Bool-cases,
}
use jmpxx.Hooks.{
  Phdr, Object, Probe, Range, range_of, unset, cover, DlFindObject, Iterate, dl_find_object,
}
use jmpxx.Hooks.Cover.{
  walk, Enumerates, Every, Among, Placed, Starts, Ends, Frames, Inside, HasFrame, Widens,
  range_of-Widens,
}

-- The loaded segments of an object are between two addresses, and reach them.
pub record Hull (o : Object) (lo hi : ℕ) : Type 0 where
  pub inside : Every (Inside o.dlpi_addr lo hi) o.dlpi_phdr
  pub first : Among (Starts o.dlpi_addr lo) o.dlpi_phdr
  pub last : Among (Ends o.dlpi_addr hi) o.dlpi_phdr

abbrev pub Covers : Object → ℕ → Type 0
Covers o address = (lo : ℕ) × (hi : ℕ) × Hull o lo hi × (lo ≤ address) × (address < hi)

-- What is reported of the first object that covers the address: its range and its table of frames, or
-- nothing where it has no table.
pub data Reports (address : ℕ) : List Object → Option DlFindObject → Type 0 where
  reports_nothing : Reports address [] none
  reports_later :
      (o : Object) (os : List Object) (r : Option DlFindObject)
      → ¬ Covers o address
      → Reports address os r
      → Reports address (o ∷ os) r
  reports_here :
      (o : Object) (os : List Object) (lo hi eh_frame : ℕ)
      → Hull o lo hi
      → (lo ≤ address) × (address < hi)
      → Among (Frames o.dlpi_addr eh_frame) o.dlpi_phdr
      → 0 < eh_frame
      → Reports address
          (o ∷ os)
          (some (record { map_start = lo; map_end = hi; eh_frame = eh_frame }))
  reports_no_frame :
      (o : Object) (os : List Object) (lo hi : ℕ)
      → Hull o lo hi
      → (lo ≤ address) × (address < hi)
      → Every (HasFrame 0) o.dlpi_phdr
      → Reports address (o ∷ os) none

starts_after :
    (base lo hi a : ℕ) (phs : List Phdr)
    → Every (Inside base lo hi) phs
    → Among (Starts base a) phs
    → (0 < lo) × (lo ≤ a) × (a ≤ hi)
starts_after base lo hi a [] e m = absurd m
starts_after base lo hi a (ph ∷ phs) e (inl m) =
    let (one, two, three) = e.0 m.0 in (one, omega (arith, two, m.1), omega (arith, three, m.1))
starts_after base lo hi a (ph ∷ phs) e (inr m) = starts_after base lo hi a phs e.1 m

ends_before :
    (base lo hi a : ℕ) (phs : List Phdr)
    → Every (Inside base lo hi) phs
    → Among (Ends base a) phs
    → a ≤ hi
ends_before base lo hi a [] e m = absurd m
ends_before base lo hi a (ph ∷ phs) e (inl m) =
    let (one, two, three) = e.0 m.0 in omega (arith, three, m.1)
ends_before base lo hi a (ph ∷ phs) e (inr m) = ends_before base lo hi a phs e.1 m

-- An object has one hull.
Hull-unique :
    (o : Object) (lo hi lo' hi' : ℕ) → Hull o lo hi → Hull o lo' hi' → (lo ≡ lo') × (hi ≡ hi')
Hull-unique o lo hi lo' hi' h h' =
    let (_, one, _) = starts_after o.dlpi_addr lo hi lo' o.dlpi_phdr h.inside h'.first in
    let (_, two, _) = starts_after o.dlpi_addr lo' hi' lo o.dlpi_phdr h'.inside h.first in
    (
      omega (arith, one, two),
      omega (
        arith,
        ends_before o.dlpi_addr lo hi hi' o.dlpi_phdr h.inside h'.last,
        ends_before o.dlpi_addr lo' hi' hi o.dlpi_phdr h'.inside h.last,
      ),
    )

abbrev of_object : Object → Range
of_object o = range_of o.dlpi_addr o.dlpi_phdr unset

of_object-Widens :
    (o : Object)
    → Placed o.dlpi_addr o.dlpi_phdr
    → Widens o.dlpi_addr o.dlpi_phdr unset (of_object o)
of_object-Widens o placed = range_of-Widens o.dlpi_addr o.dlpi_phdr unset placed

-- Where the walk has found a segment, its range is the hull.
of_object-Hull :
    (o : Object)
    → Placed o.dlpi_addr o.dlpi_phdr
    → 0 < (of_object o).lo
    → Hull o (of_object o).lo (of_object o).hi
of_object-Hull o placed some_load =
    let w = of_object-Widens o placed in
    let first : Among (Starts o.dlpi_addr (of_object o).lo) o.dlpi_phdr = elim w.lo_from [
      | inl unmoved ↦ absurd (omega (arith, unmoved, some_load))
      | inr m ↦ m
    ] in
    let (_, _, high) = starts_after o.dlpi_addr _ _ _ o.dlpi_phdr w.inside first in
    record {
      inside = w.inside;
      first = first;
      last = elim w.hi_from [
        | inl unmoved ↦ absurd (omega (arith, unmoved, some_load, high))
        | inr m ↦ m
      ];
    }

Covers-not :
    (o : Object) (address : ℕ)
    → Placed o.dlpi_addr o.dlpi_phdr
    → ((of_object o).lo == 0 || (ltb address (of_object o).lo || leb (of_object o).hi address))
      ≡ true
    → ¬ Covers o address
Covers-not o address placed outside (lo, hi, h, above, below) =
    let w = of_object-Widens o placed in
    let (some_load, _, _) = starts_after o.dlpi_addr _ _ lo o.dlpi_phdr w.inside h.first in
    let (same_lo, same_hi) = Hull-unique o lo hi _ _ h (of_object-Hull o placed some_load) in
    ground (arith, outside, some_load, same_lo, same_hi, above, below)

-- What the callback's answer becomes.
abbrev answer : Probe → Option DlFindObject
answer probe =
    if not probe.found || probe.eh_frame == 0
    then none
    else some (record { map_start = probe.start; map_end = probe.end; eh_frame = probe.eh_frame })

abbrev pub AllPlaced : List Object → Type 0
AllPlaced [] = Unit {0}
AllPlaced (o ∷ os) = Placed o.dlpi_addr o.dlpi_phdr × AllPlaced os

found_here :
    (o : Object) (os : List Object) (address : ℕ) (p : Probe)
    → Placed o.dlpi_addr o.dlpi_phdr
    → ((of_object o).lo == 0 || (ltb address (of_object o).lo || leb (of_object o).hi address))
      ≡ false
    → Reports address (o ∷ os) (
        answer (record p {
          start = (of_object o).lo;
          end = (of_object o).hi;
          eh_frame = (of_object o).eh_frame;
          found = true;
        }))
found_here o os address p placed within =
    let w = of_object-Widens o placed in
    let hull = of_object-Hull o placed (ground (arith, within)) in
    let range : ((of_object o).lo ≤ address) × (address < (of_object o).hi) =
      (ground (arith, within), ground (arith, within)) in
    elim (Bool-cases ((of_object o).eh_frame == 0)) [
      | inl met ↦
          let empty : (of_object o).eh_frame ≡ 0 = (==_iff (of_object o).eh_frame 0).0 met in
          rw met (
            reports_no_frame o os _ _ hull range
              (along (of_object o).eh_frame 0 o.dlpi_phdr empty w.framed))
      | inr other ↦ rw other (
          reports_here o os _ _ _ hull range
            (elim w.frame_from [ inl unmoved ↦ ground (arith, other, unmoved) | inr m ↦ m ])
            (ground (arith, other)))
    ]
  where
    along : (a b : ℕ) (phs : List Phdr) → a ≡ b → Every (HasFrame a) phs → Every (HasFrame b) phs
    along a b phs e h = rw (sym e) h

walk-Reports :
    (os : List Object) (p : Probe)
    → AllPlaced os
    → p.found ≡ false
    → Reports p.want os (answer (walk os cover p))
unfolding cover
walk-Reports [] p placed fresh = rw fresh reports_nothing
walk-Reports (o ∷ os) p placed fresh =
    elim (Bool-cases
      ((of_object o).lo == 0 || (ltb p.want (of_object o).lo || leb (of_object o).hi p.want))) [
        | inl outside ↦ rw outside (
            reports_later o os _ (Covers-not o p.want placed.0 outside)
              (walk-Reports os p placed.1 fresh))
        | inr within ↦ rw within (found_here o os p.want p placed.0 within)
      ]

-- Where the enumeration calls its callback on the loaded objects in order until it says to stop, and no
-- segment is at the null address, the unwinder is told the range of the first object whose loaded
-- segments reach around the address, with a table of frames of that object. It is told of none
-- only if no object's do, or if the first whose do has no table.
pub dl_find_object_lem :
    (os : List Object) (dl_iterate_phdr : Iterate) (address : ℕ)
    → Enumerates os dl_iterate_phdr
    → AllPlaced os
    → Reports address os (dl_find_object dl_iterate_phdr address)
unfolding dl_find_object
dl_find_object_lem os dl_iterate_phdr address enumerates placed =
    rw (enumerates cover start) (walk-Reports os start placed refl)
  where
    start : Probe
    start = record { want = address; start = 0; end = 0; eh_frame = 0; found = false }
