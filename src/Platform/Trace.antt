-- ===== src/Platform/Trace.antt =====
-- include/jmpxx/platform/trace.hpp: raw return addresses in a fixed buffer.
-- `backtrace` of <execinfo.h> is the parameter: given a buffer's size it returns the addresses that
-- it stored, innermost first.
pub mod Bounds
use jmpxx.Prelude.{
  ℕ, zero, suc, ◌+◌, ◌-◌, Bool, true, false, Option, none, some, List, [], ◌∷◌, ltb, ◌==◌, drop,
  length, get_elem?, set, replicate, if◌then◌else◌,
}

abbrev pub max_frames : ℕ
max_frames = 24

-- Addresses are numbers; a zeroed frame is 0.
pub record Trace : Type 0 where
  pub frames : List ℕ
  pub count : ℕ

unfoldable pub is_empty : Trace → Bool
is_empty t = t.count == 0

abbrev pub zeroed : Trace
zeroed = record { frames = replicate max_frames 0; count = 0 }

-- The size of the local buffer `raw`.
abbrev pub raw_size : ℕ
raw_size = max_frames + 8

-- How many addresses are asked of the platform.
unfoldable pub want : ℕ → ℕ
want skip = let w = max_frames + skip in if ltb raw_size w then raw_size else w

-- `t.frames[t.count++] = raw[i]` for the addresses from `first` on.
unfoldable pub copy_frames : List ℕ → Trace → Trace
copy_frames [] t = t
copy_frames (a ∷ raw) t =
    let rest = copy_frames raw (record { frames = set t.frames t.count a; count = t.count + 1 }) in
    if ltb t.count max_frames then rest else t

-- `skip` is the number of innermost frames left out; a negative one counts as 0.
unfoldable pub capture : (ℕ → List ℕ) → ℕ → Trace
capture backtrace skip = copy_frames (drop skip (backtrace (want skip))) zeroed

-- Without a capturer the trace is empty.
unfoldable pub capture_none : ℕ → Trace
capture_none skip = zeroed
