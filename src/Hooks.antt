-- ===== src/Hooks.antt =====
-- reference_app/optee_ta/ta/unwinder_hooks.c: what the unwinder asks of a hosted system. An address is a
-- number, and 0 is the null pointer. The enumeration of the loaded objects, `dl_iterate_phdr`, is the
-- library's.
pub mod Cover
pub mod Reports
mod Tests
use jmpxx.Prelude.{
  ℕ, zero, suc, ◌+◌, ◌-◌, ◌*◌, ◌/◌, ◌%◌, ◌^◌, ◌≤◌, ◌<◌, ◌≡◌, refl, sym, ap, ◌∙◌, ◌≢◌, ◌↔◌, ◌⊎◌, inl,
  inr, Bool, true, false, not, ◌&&◌, ◌||◌, Option, none, some, List, [], ◌∷◌, ◌++◌, map, arith, ltb,
  leb, ◌==◌, if◌then◌else◌, ltb→lt, lt→ltb, leb→le, ==_iff, tests, Bool-cases, Option-cases, length,
  get_elem?, set, length-append, length-set, get_elem?-set_self, get_elem?-set_ne, get_or, take,
  drop, replicate, take-append-drop, length-take, length-drop, length-replicate, length-map,
  take-set_last, take-take, map-take, take-all, get_elem?-some, take-append,
}

-- The types of a program header that the walk looks for, and the others.
pub data Kind : Type 0 where
  pt_load pt_gnu_eh_frame pt_other : Kind

pub record Phdr : Type 0 where
  pub p_type : Kind
  pub p_vaddr : ℕ
  pub p_memsz : ℕ

pub record Object : Type 0 where
  pub dlpi_addr : ℕ
  pub dlpi_phdr : List Phdr

-- `jmpxx_probe`.
pub record Probe : Type 0 where
  pub want : ℕ
  pub start : ℕ
  pub end : ℕ
  pub eh_frame : ℕ
  pub found : Bool

-- The locals `lo`, `hi` and `eh_frame` of the walk over the headers.
pub record Range : Type 0 where
  pub lo : ℕ
  pub hi : ℕ
  pub eh_frame : ℕ

abbrev pub lower : ℕ → ℕ → ℕ
lower lo s = if lo == 0 || ltb s lo then s else lo

abbrev pub higher : ℕ → ℕ → ℕ
higher hi e = if hi == 0 || ltb hi e then e else hi

abbrev pub widen : ℕ → Kind → ℕ → ℕ → Range → Range
widen base pt_load vaddr memsz r = record r {
  lo = lower r.lo (base + vaddr);
  hi = higher r.hi (base + vaddr + memsz);
}
widen base pt_gnu_eh_frame vaddr memsz r = record r { eh_frame = base + vaddr }
widen base pt_other vaddr memsz r = r

unfoldable pub range_of : ℕ → List Phdr → Range → Range
range_of base [] r = r
range_of base (ph ∷ phs) r = range_of base phs (widen base ph.p_type ph.p_vaddr ph.p_memsz r)

abbrev pub unset : Range
unset = record { lo = 0; hi = 0; eh_frame = 0 }

-- The callback: whether to stop, and the probe.
unfoldable pub cover : Object → Probe → Bool × Probe
unfolding range_of
cover info p =
    let r = range_of info.dlpi_addr info.dlpi_phdr unset in
    if r.lo == 0 || (ltb p.want r.lo || leb r.hi p.want)
    then (false, p)
    else (true, record p { start = r.lo; end = r.hi; eh_frame = r.eh_frame; found = true })

-- What `dl_find_object` fills in; the other fields are zero.
pub record DlFindObject : Type 0 where
  pub map_start : ℕ
  pub map_end : ℕ
  pub eh_frame : ℕ

-- The enumeration with a callback, and the probe that it leaves.
abbrev pub Iterate : Type 0
Iterate = (Object → Probe → Bool × Probe) → Probe → Probe

-- `_dl_find_object`: `none` for the result -1.
unfoldable pub dl_find_object : Iterate → ℕ → Option DlFindObject
unfolding cover
dl_find_object dl_iterate_phdr address =
    let probe =
      dl_iterate_phdr cover
        (record { want = address; start = 0; end = 0; eh_frame = 0; found = false }) in
    if not probe.found || probe.eh_frame == 0
    then none
    else some (record { map_start = probe.start; map_end = probe.end; eh_frame = probe.eh_frame })

-- `pthread_once`, with the control's value and the rest of the state; `none` is a null pointer.
unfoldable pub pthread_once : {S : Type 0} → Option (S → S) → Option ℕ × S → Option ℕ × S
pthread_once init (none, s) = (none, s)
pthread_once init (some control, s) =
    if control == 0 then (some 1, elim init [ none ↦ s | some f ↦ f s ]) else (some control, s)
