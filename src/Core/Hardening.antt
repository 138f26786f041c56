-- ===== src/Core/Hardening.antt =====
-- The hardening mode that include/jmpxx/core/config.hpp derives from the build's macros.
use jmpxx.Prelude.{
  ℕ, ◌≡◌, refl, ◌≢◌, ◌↔◌, inl, inr, Bool, true, false, not, ◌&&◌, ◌||◌, Option, none, some, arith,
  ltb, leb, ◌==◌, if◌then◌else◌, Bool-cases,
}

pub data Hardening : Type 0 where
  unchecked fast extensive : Hardening

-- The values that `JMPXX_HARDENING_MODE` may have.
abbrev pub level : Hardening → ℕ
level unchecked = 0
level fast = 1
level extensive = 2

unfoldable pub of_level : ℕ → Option Hardening
of_level n =
    if n == 0
    then some unchecked
    else if n == 1
    then some fast
    else if n == 2
    then some extensive
    else none

-- `JMPXX_HARDENING_FAST_ENABLED` and `JMPXX_HARDENING_EXTENSIVE_ENABLED`.
unfoldable pub fast_enabled : Hardening → Bool
fast_enabled m = leb 1 (level m)

unfoldable pub extensive_enabled : Hardening → Bool
extensive_enabled m = leb 2 (level m)

-- The build's macros: `JMPXX_HARDENING_MODE` and `JMPXX_HARDENED` with their values where they are
-- defined, and whether `NDEBUG` is.
pub record Macros : Type 0 where
  pub mode : Option ℕ
  pub hardened : Option ℕ
  pub ndebug : Bool

abbrev pub default_mode : Option ℕ → Bool → ℕ
default_mode (some h) ndebug = if h == 0 then 0 else 1
default_mode none ndebug = if ndebug then 0 else 1

unfoldable pub mode_value : Macros → ℕ
mode_value m = elim m.mode [ some n ↦ n | none ↦ default_mode m.hardened m.ndebug ]

-- The second `#error`: a `JMPXX_HARDENED` that says otherwise than the mode.
unfoldable pub conflicts : Option ℕ → ℕ → Bool
conflicts none n = false
conflicts (some h) n = (not (h == 0) && ltb n 1) || (h == 0 && leb 1 n)

-- The mode and the final value of `JMPXX_HARDENED`; `none` is one of the two `#error` lines.
unfoldable pub configure : Macros → Option (Hardening × ℕ)
unfolding mode_value conflicts of_level
configure m =
    let n = mode_value m in
    elim (of_level n) [
      | none ↦ none
      | some h ↦
          if conflicts m.hardened n
          then none
          else some (h, elim m.hardened [ some v ↦ v | none ↦ if leb 1 n then 1 else 0 ])
    ]

-- A configuration that is accepted has `JMPXX_HARDENED` nonzero exactly when the fast checks are on,
-- and its mode is the one asked for, or without one the mode of `JMPXX_HARDENED`, or without that
-- the fast mode unless `NDEBUG` is defined.
pub configure_consistent :
    (m : Macros) {h : Hardening} {v : ℕ}
    → configure m ≡ some (h, v)
    → ((v ≢ 0) ↔ (fast_enabled h ≡ true)) × (level h ≡ mode_value m)
unfolding configure fast_enabled
configure_consistent m {h} {v} e = (by_flag h v e, by_level h v e)
  where
    by_level : (h : Hardening) (v : ℕ) → configure m ≡ some (h, v) → level h ≡ mode_value m
    by_level h v e = ground arith

    by_flag :
        (h : Hardening) (v : ℕ) → configure m ≡ some (h, v) → (v ≢ 0) ↔ (fast_enabled h ≡ true)
    by_flag h v e = ground arith

-- Without an explicit mode every configuration is accepted, as the old switch alone was.
pub configure_legacy :
    (hardened : Option ℕ) (ndebug : Bool)
    → (h : Hardening) × (v : ℕ) × (configure
          (record { mode = none; hardened = hardened; ndebug = ndebug })
        ≡ some (h, v))
      × (extensive_enabled h ≡ false)
unfolding configure extensive_enabled
configure_legacy none false = (fast, 1, refl, refl)
configure_legacy none true = (unchecked, 0, refl, refl)
configure_legacy (some v) ndebug = elim (Bool-cases (v == 0)) [
  | inl off ↦ (unchecked, v, ground arith, refl)
  | inr on ↦ (fast, v, ground arith, refl)
]

-- The default of `JMPXX_DIAGNOSTICS_ENABLED`, and of `JMPXX_STACKTRACE`.
unfoldable pub diagnostics_enabled : Option ℕ → Bool → ℕ
diagnostics_enabled (some n) ndebug = n
diagnostics_enabled none ndebug = if ndebug then 0 else 1

unfoldable pub stacktrace : Option ℕ → ℕ
stacktrace (some n) = n
stacktrace none = 0
