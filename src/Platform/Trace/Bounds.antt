-- ===== src/Platform/Trace/Bounds.antt =====
-- The capture stays within its two buffers, and keeps the addresses past those that it skips.
use mathlib.Core.List.{append-nil, append_assoc}
use jmpxx.Prelude.{
  ℕ, zero, suc, ◌+◌, ◌-◌, ◌≤◌, ◌≡◌, refl, sym, ap, ◌∙◌, List, [], ◌∷◌, ◌++◌, true, false, arith,
  ltb, drop, take, replicate, length, set, length-append, length-take, length-replicate,
}
use jmpxx.Platform.Trace.{Trace, max_frames, raw_size, want, copy_frames, capture}

take-nil : (k : ℕ) → take {A = ℕ} k [] ≡ []
take-nil zero = refl
take-nil (suc k) = refl

-- A frame array with the addresses `xs` at its start, `k` zeroed frames after them.
abbrev pub filled : List ℕ → ℕ → Trace
filled xs k = record { frames = xs ++ replicate k 0; count = length xs }

set-append_zero :
    (xs : List ℕ) (k a : ℕ)
    → set (xs ++ replicate (suc k) 0) (length xs) a ≡ (xs ++ a ∷ []) ++ replicate k 0
set-append_zero [] k a = refl
set-append_zero (x ∷ xs) k a = ap (λ l. x ∷ l) (set-append_zero xs k a)

filled-set :
    (xs : List ℕ) (k a : ℕ)
    → record {
      frames = set (filled xs (suc k)).frames (filled xs (suc k)).count a;
      count = (filled xs (suc k)).count + 1;
    }
      ≡ filled (xs ++ a ∷ []) k
filled-set xs k a = rw (set-append_zero xs k a, length-append xs (a ∷ [])) refl

copy_frames-filled :
    (raw xs : List ℕ) (k : ℕ)
    → length xs + k ≡ max_frames
    → copy_frames raw (filled xs k) ≡ filled (xs ++ take k raw) (k - length raw)
unfolding copy_frames
copy_frames-filled [] xs k h = rw (take-nil k, append-nil xs) (ap (filled xs) (omega arith))
copy_frames-filled (a ∷ raw) xs zero h =
    let full : ltb (length xs) max_frames ≡ false = ground (arith, h) in
    let none_left : ◌≡◌ {A = ℕ} 0 (0 - suc (length raw)) = omega arith in
    rw full (ap (λ l. filled l 0) (sym (append-nil xs)) ∙ ap (filled (xs ++ [])) none_left)
copy_frames-filled (a ∷ raw) xs (suc k) h =
    let room : ltb (length xs) max_frames ≡ true = ground (arith, h) in
    let fewer : k - length raw ≡ suc k - suc (length raw) = omega arith in
    rw (room, filled-set xs k a)
      (copy_frames-filled raw (xs ++ a ∷ []) k (omega (arith, h, length-append xs (a ∷ [])))
        ∙ ap (λ l. filled l (k - length raw)) (append_assoc xs (a ∷ []) (take k raw))
        ∙ ap (filled (xs ++ a ∷ take k raw)) fewer)

-- For a capturer that stores no more addresses than it is asked for, the request fits the local
-- buffer. The trace then holds the addresses past the skipped ones, in their order, up to
-- `max_frames`; the frames after them are zeroed, its count is the number of the addresses that it
-- holds, and its frames stay an array of `max_frames`.
pub capture_bounds :
    (backtrace : ℕ → List ℕ) (skip : ℕ)
    → length (backtrace (want skip)) ≤ want skip
    → (length (backtrace (want skip)) ≤ raw_size)
      × (let kept = take max_frames (drop skip (backtrace (want skip))) in
          capture backtrace skip
          ≡ record { frames = kept ++ replicate (max_frames - length kept) 0; count = length kept })
      × (length (capture backtrace skip).frames ≡ max_frames)
unfolding capture want
capture_bounds backtrace skip h =
    let raw = drop skip (backtrace (want skip)) in
    let all = copy_frames-filled raw [] max_frames refl in
    let size = length-take max_frames raw in
    (
      ground arith,
      all ∙ ap (λ k. filled (take max_frames raw) k) (omega (arith, size)),
      ap (λ t. length t.frames) all
          ∙ omega (
            arith,
            size,
            length-append (take max_frames raw) (replicate (max_frames - length raw) 0),
            length-replicate {A = ℕ} (max_frames - length raw) 0,
          ),
    )
