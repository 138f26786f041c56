-- ===== src/Hooks/Cover.antt =====
-- Which object `_dl_find_object` of reference_app/optee_ta/ta/unwinder_hooks.c reports.
use jmpxx.Prelude.{
  ℕ, ◌+◌, ◌≤◌, ◌<◌, ◌≡◌, refl, sym, ◌∙◌, ◌⊎◌, inl, inr, Bool, ◌||◌, List, [], ◌∷◌, arith, ltb, ◌==◌,
  if◌then◌else◌, Bool-cases,
}
use jmpxx.Hooks.{
  Kind, pt_load, pt_gnu_eh_frame, pt_other, Phdr, Object, Probe, Range, lower, higher, widen,
  range_of, Iterate,
}

-- The enumeration calls the callback on the objects in their order, until it says to stop.
abbrev pub walk : List Object → (Object → Probe → Bool × Probe) → Probe → Probe
walk [] f p = p
walk (o ∷ os) f p = let (stops, q) = f o p in if stops then q else walk os f q

abbrev pub Enumerates : List Object → Iterate → Type 0
Enumerates os iterate = (f : Object → Probe → Bool × Probe) (p : Probe) → iterate f p ≡ walk os f p

module _ (P : Phdr → Type 0) where
  abbrev pub Every : List Phdr → Type 0
  Every [] = Unit {0}
  Every (ph ∷ phs) = P ph × Every phs

  abbrev pub Among : List Phdr → Type 0
  Among [] = ⊥
  Among (ph ∷ phs) = P ph ⊎ Among phs

-- No segment is at the null address.
abbrev pub Placed : ℕ → List Phdr → Type 0
Placed base = Every (λ ph. 0 < base + ph.p_vaddr)

abbrev pub Starts : ℕ → ℕ → Phdr → Type 0
Starts base a ph = (ph.p_type ≡ pt_load) × (base + ph.p_vaddr ≡ a)

abbrev pub Ends : ℕ → ℕ → Phdr → Type 0
Ends base a ph = (ph.p_type ≡ pt_load) × (base + ph.p_vaddr + ph.p_memsz ≡ a)

abbrev pub Frames : ℕ → ℕ → Phdr → Type 0
Frames base a ph = (ph.p_type ≡ pt_gnu_eh_frame) × (base + ph.p_vaddr ≡ a)

-- A segment that is loaded is between two addresses, of which the lower is not null.
abbrev pub Inside : ℕ → ℕ → ℕ → Phdr → Type 0
Inside base lo hi ph =
    ph.p_type ≡ pt_load
    → (0 < lo) × (lo ≤ base + ph.p_vaddr) × (base + ph.p_vaddr + ph.p_memsz ≤ hi)

abbrev pub HasFrame : ℕ → Phdr → Type 0
HasFrame a ph = ph.p_type ≡ pt_gnu_eh_frame → 0 < a

-- What a walk over the headers makes of a range.
pub record Widens (base : ℕ) (phs : List Phdr) (r r' : Range) : Type 0 where
  pub lo_from : (r'.lo ≡ r.lo) ⊎ Among (Starts base r'.lo) phs
  pub hi_from : (r'.hi ≡ r.hi) ⊎ Among (Ends base r'.hi) phs
  pub frame_from : (r'.eh_frame ≡ r.eh_frame) ⊎ Among (Frames base r'.eh_frame) phs
  pub inside : Every (Inside base r'.lo r'.hi) phs
  pub framed : Every (HasFrame r'.eh_frame) phs
  pub lo_falls : 0 < r.lo → (0 < r'.lo) × (r'.lo ≤ r.lo)
  pub hi_rises : r.hi ≤ r'.hi
  pub frame_stays : 0 < r.eh_frame → 0 < r'.eh_frame

lower_lem :
    (lo s : ℕ)
    → 0 < s
    → (0 < lower lo s)
      × (lower lo s ≤ s)
      × (0 < lo → lower lo s ≤ lo)
      × ((lower lo s ≡ lo) ⊎ (s ≡ lower lo s))
lower_lem lo s h = elim (Bool-cases (lo == 0 || ltb s lo)) [
  | inl met ↦ rw met (h, omega arith, λ g. ground (arith, met, g), inr refl)
  | inr other ↦ rw other (ground (arith, other), ground (arith, other), λ g. omega arith, inl refl)
]

higher_lem :
    (hi e : ℕ) → (hi ≤ higher hi e) × (e ≤ higher hi e) × ((higher hi e ≡ hi) ⊎ (e ≡ higher hi e))
higher_lem hi e = elim (Bool-cases (hi == 0 || ltb hi e)) [
  | inl met ↦ rw met (ground (arith, met), omega arith, inr refl)
  | inr other ↦ rw other (omega arith, ground (arith, other), inl refl)
]

widen-Widens :
    (base : ℕ) (k : Kind) (vaddr memsz : ℕ) (phs : List Phdr) (r r' : Range)
    → 0 < base + vaddr
    → Widens base phs (widen base k vaddr memsz r) r'
    → Widens base (record { p_type = k; p_vaddr = vaddr; p_memsz = memsz } ∷ phs) r r'
widen-Widens base pt_load vaddr memsz phs r r' h w =
    let low = lower_lem r.lo (base + vaddr) h in
    let high = higher_lem r.hi (base + vaddr + memsz) in
    let below = w.lo_falls low.0 in
    record {
      lo_from = elim w.lo_from [
        | inl kept ↦ elim low.3 [
          | inl same ↦ inl (kept ∙ same)
          | inr moved ↦ inr (inl (refl, moved ∙ sym kept))
        ]
        | inr later ↦ inr (inr later)
      ];
      hi_from = elim w.hi_from [
        | inl kept ↦ elim high.2 [
          | inl same ↦ inl (kept ∙ same)
          | inr moved ↦ inr (inl (refl, moved ∙ sym kept))
        ]
        | inr later ↦ inr (inr later)
      ];
      frame_from = elim w.frame_from [ inl kept ↦ inl kept | inr later ↦ inr (inr later) ];
      inside = (
        λ _. (below.0, omega (arith, below.1, low.1), omega (arith, high.1, w.hi_rises)),
        w.inside,
      );
      framed = (λ e. cc, w.framed);
      lo_falls = λ g. (below.0, omega (arith, below.1, low.2 g));
      hi_rises = omega (arith, high.0, w.hi_rises);
      frame_stays = w.frame_stays;
    }
widen-Widens base pt_gnu_eh_frame vaddr memsz phs r r' h w = record {
  lo_from = elim w.lo_from [ inl kept ↦ inl kept | inr later ↦ inr (inr later) ];
  hi_from = elim w.hi_from [ inl kept ↦ inl kept | inr later ↦ inr (inr later) ];
  frame_from = elim w.frame_from [
    | inl kept ↦ inr (inl (refl, sym kept))
    | inr later ↦ inr (inr later)
  ];
  inside = (λ e. cc, w.inside);
  framed = (λ _. w.frame_stays h, w.framed);
  lo_falls = w.lo_falls;
  hi_rises = w.hi_rises;
  frame_stays = λ _. w.frame_stays h;
}
widen-Widens base pt_other vaddr memsz phs r r' h w = record {
  lo_from = elim w.lo_from [ inl kept ↦ inl kept | inr later ↦ inr (inr later) ];
  hi_from = elim w.hi_from [ inl kept ↦ inl kept | inr later ↦ inr (inr later) ];
  frame_from = elim w.frame_from [ inl kept ↦ inl kept | inr later ↦ inr (inr later) ];
  inside = (λ e. cc, w.inside);
  framed = (λ e. cc, w.framed);
  lo_falls = w.lo_falls;
  hi_rises = w.hi_rises;
  frame_stays = w.frame_stays;
}

pub range_of-Widens :
    (base : ℕ) (phs : List Phdr) (r : Range)
    → Placed base phs
    → Widens base phs r (range_of base phs r)
unfolding range_of
range_of-Widens base [] r placed = record {
  lo_from = inl refl;
  hi_from = inl refl;
  frame_from = inl refl;
  inside = tt;
  framed = tt;
  lo_falls = λ g. (g, omega arith);
  hi_rises = omega arith;
  frame_stays = λ g. g;
}
range_of-Widens base (ph ∷ phs) r placed =
    widen-Widens base ph.p_type ph.p_vaddr ph.p_memsz phs r _ placed.0
      (range_of-Widens base phs (widen base ph.p_type ph.p_vaddr ph.p_memsz r) placed.1)
