-- ===== src/Platform/Tests.antt =====
-- Runs of the platform layer's theorems on concrete inputs.
use jmpxx.Prelude.{
  ℕ, ◌-◌, ◌≤◌, ◌≡◌, refl, List, [], ◌∷◌, ◌++◌, arith, length, drop, take, replicate,
}
use jmpxx.Platform.Trace.{max_frames, raw_size, want, copy_frames, capture}
use jmpxx.Platform.Trace.Bounds.{capture_bounds}

-- A stack of three return addresses.
abbrev shallow : ℕ → List ℕ
shallow n = 11 ∷ 22 ∷ 33 ∷ []

kept_two : take 3 (capture shallow 1).frames ≡ 22 ∷ 33 ∷ 0 ∷ []
unfolding capture copy_frames want
kept_two = refl

capture_bounds_example :
    (length (shallow (want 1)) ≤ raw_size)
    × (let kept = take max_frames (drop 1 (shallow (want 1))) in
        capture shallow 1
        ≡ record { frames = kept ++ replicate (max_frames - length kept) 0; count = length kept })
    × (length (capture shallow 1).frames ≡ max_frames)
unfolding want
capture_bounds_example = capture_bounds shallow 1 (omega arith)
