-- ===== src/Hooks/Tests.antt =====
-- The search for the object of an address among two, with a table of frames each.
use jmpxx.Prelude.{ℕ, ◌+◌, ◌≡◌, refl, none, some, List, [], ◌∷◌, arith}
use jmpxx.Hooks.{
  pt_load, pt_gnu_eh_frame, pt_other, Object, range_of, cover, Iterate, dl_find_object,
  pthread_once,
}
use jmpxx.Hooks.Cover.{walk}
use jmpxx.Hooks.Reports.{Reports, dl_find_object_lem}

abbrev object : ℕ → Object
object base = record {
  dlpi_addr = base;
  dlpi_phdr =
      record { p_type = pt_other; p_vaddr = 64; p_memsz = 8 }
      ∷ record { p_type = pt_load; p_vaddr = 512; p_memsz = 256 }
      ∷ record { p_type = pt_load; p_vaddr = 128; p_memsz = 256 }
      ∷ record { p_type = pt_gnu_eh_frame; p_vaddr = 200; p_memsz = 16 }
      ∷ [];
}

abbrev objects : List Object
objects = object 1000 ∷ object 5000 ∷ []

abbrev iterate : Iterate
iterate = walk objects

second :
    dl_find_object iterate 5400
    ≡ some (record { map_start = 5128; map_end = 5768; eh_frame = 5200 })
unfolding dl_find_object cover range_of
second = refl

between : dl_find_object iterate 4000 ≡ none
unfolding dl_find_object cover range_of
between = refl

once : pthread_once (some (λ n. n + 1)) (pthread_once (some (λ n. n + 1)) (some 0, 4)) ≡ (some 1, 5)
unfolding pthread_once
once = refl

dl_find_object_lem_example : Reports 5400 objects (dl_find_object iterate 5400)
dl_find_object_lem_example =
    dl_find_object_lem objects iterate 5400 (λ f p. refl)
      (
        (omega arith, (omega arith, (omega arith, (omega arith, tt)))),
        ((omega arith, (omega arith, (omega arith, (omega arith, tt)))), tt),
      )
