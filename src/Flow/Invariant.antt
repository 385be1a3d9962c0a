-- ===== src/Flow/Invariant.antt =====
-- The bounds of the window, and when it takes a frame.
use hmux.Base.{
  ap, ℕ, ◌+◌, ◌*◌, ◌≤◌, ◌<◌, ◌≡◌, refl, ◌↔◌, true, List, [], ◌∷◌, ◌++◌, arith, length,
  length-append, All, All-append,
}
use hmux.Base.Int.{ℤ}
use hmux.Flow.{
  Frame, OutputWindow, Call, reserves, acknowledges, empty, reserve, acknowledge, release_front,
  step, run, chunk, max_frames, max_bytes, retained_bytes, retained_frames,
}

abbrev pub total : List Frame → ℕ
total [] = 0
total (f ∷ fs) = f.size + total fs

abbrev pub Fits : Frame → Type 0
Fits f = (0 < f.size) × (f.size ≤ chunk)

pub record IsValid (w : OutputWindow) : Type 0 where
  pub counted : w.bytes ≡ total w.frames
  pub few : length w.frames ≤ max_frames
  pub fit : All Fits w.frames

pub total-append : (fs gs : List Frame) → total (fs ++ gs) ≡ total fs + total gs
total-append [] gs = omega arith
total-append (f ∷ fs) gs = omega (arith, total-append fs gs)

total-le : (fs : List Frame) → All Fits fs → total fs ≤ chunk * length fs
total-le [] h = omega arith
total-le (f ∷ fs) h = omega (arith, total-le fs h.1)

pub reserve-IsValid : (w : OutputWindow) (n now : ℕ) → IsValid w → IsValid (reserve w n now).0
unfolding reserve
reserve-IsValid w n now v = ground (
  arith,
  total-append w.frames (record { size = n; queued = now } ∷ []),
  length-append w.frames (record { size = n; queued = now } ∷ []),
  All-append Fits w.frames (record { size = n; queued = now } ∷ []),
)

release_front-IsValid :
    (w : OutputWindow) (fs : List Frame) (n : ℤ)
    → w.frames ≡ fs
    → IsValid w
    → IsValid (release_front w fs n).0
unfolding release_front
release_front-IsValid w [] n e v = v
release_front-IsValid w (f ∷ fs) n e v = ground arith

acknowledge-IsValid : (w : OutputWindow) (n : ℤ) → IsValid w → IsValid (acknowledge w n).0
unfolding acknowledge
acknowledge-IsValid w n v = release_front-IsValid w w.frames n refl v

empty-IsValid : IsValid empty
unfolding empty
empty-IsValid = record { counted = refl; few = omega arith; fit = tt }

run-IsValid : (w : OutputWindow) (cs : List Call) → IsValid w → IsValid (run w cs)
unfolding run step
run-IsValid w [] v = v
run-IsValid w (reserves n now ∷ cs) v =
    run-IsValid (reserve w n now).0 cs (reserve-IsValid w n now v)
run-IsValid w (acknowledges n ∷ cs) v =
    run-IsValid (acknowledge w n).0 cs (acknowledge-IsValid w n v)

-- However reserve and acknowledge are called on a new window, the byte count is the sum of the
-- retained frame sizes, there are at most 32 frames, and each holds between 1 and 16384 bytes.
pub run-empty-IsValid : (cs : List Call) → IsValid (run empty cs)
run-empty-IsValid cs = run-IsValid empty cs empty-IsValid

-- In a valid window neither `BYTES - self.bytes` in reserve nor `self.bytes -= size` in acknowledge
-- goes below 0: the bytes are at most 32 chunks, and cover the front frame.
IsValid-no_underflow :
    (w : OutputWindow)
    → IsValid w
    → (retained_bytes w ≤ max_bytes)
      × ((f : Frame) (fs : List Frame) → w.frames ≡ f ∷ fs → f.size ≤ retained_bytes w)
unfolding retained_bytes
IsValid-no_underflow w v = (
  omega (arith, total-le w.frames v.fit, v.counted),
  λ f fs e. omega (arith, v.counted, ap total e),
)

-- A valid window takes a frame exactly when its size is from 1 to a chunk and fewer than 32 frames
-- are retained: the byte budget never refuses a frame that the other tests accept.
reserve-eq-true_iff :
    (w : OutputWindow) (n now : ℕ)
    → IsValid w
    → ((reserve w n now).1 ≡ true) ↔ ((0 < n) × (n ≤ chunk) × (retained_frames w < max_frames))
unfolding reserve retained_frames
reserve-eq-true_iff w n now v = (λ e. ground arith, λ h. ground (arith, total-le w.frames v.fit))
