-- ===== src/Unwind/Backend.antt =====
-- include/jmpxx/unwind/backend.hpp: which backend the target's macros select.
use jmpxx.Prelude.{ℕ, ◌+◌, ◌≡◌, Bool, true, false, ◌&&◌, arith, if◌then◌else◌}

-- `JMPXX_ARCH_WASM`, `JMPXX_COMPILER_MSVC`, `JMPXX_COMPILER_GCC || JMPXX_COMPILER_CLANG`, and whether
-- `__SEH__` is defined.
pub record Target : Type 0 where
  pub arch_wasm : Bool
  pub compiler_msvc : Bool
  pub gcc_or_clang : Bool
  pub has_seh : Bool

-- The four macros that the header defines.
pub record Selection : Type 0 where
  pub wasm : Bool
  pub itanium : Bool
  pub seh : Bool
  pub available : Bool

unfoldable pub select_backend : Target → Selection
select_backend t =
    if t.arch_wasm
    then record { wasm = true; itanium = false; seh = false; available = true }
    else if t.compiler_msvc
    then record { wasm = false; itanium = false; seh = true; available = true }
    else if t.gcc_or_clang && t.has_seh
    then record { wasm = false; itanium = false; seh = false; available = false }
    else if t.gcc_or_clang
    then record { wasm = false; itanium = true; seh = false; available = true }
    else record { wasm = false; itanium = false; seh = false; available = false }

unfoldable pub available : Selection → Bool
available s = s.available

abbrev pub as_number : Bool → ℕ
as_number true = 1
as_number false = 0

-- On every target exactly one backend is selected when the arm is available, and none when it is not.
pub select_backend_lem :
    (t : Target)
    → let s = select_backend t in
      as_number s.wasm + as_number s.itanium + as_number s.seh ≡ as_number s.available
unfolding select_backend
select_backend_lem t = ground arith
