-- ===== src/Flow.antt =====
-- crates/hmux-protocol/src/flow.rs: the rendering credit of one terminal view. An `Instant` is a
-- number of nanoseconds; the frames are listed from the front of the deque.
pub mod Invariant
pub mod Order
mod Examples
use hmux.Base.{
  ℕ, ◌+◌, ◌-◌, ◌*◌, Bool, true, false, ◌||◌, List, [], ◌∷◌, ◌++◌, length, ltb, leb, ◌==◌,
  if◌then◌else◌,
}
use hmux.Base.Int.{ℤ, is_pos}

-- 16 << 10.
abbrev pub chunk : ℕ
chunk = 16384

abbrev pub max_frames : ℕ
max_frames = 32

abbrev pub max_bytes : ℕ
max_bytes = chunk * max_frames

-- 30 seconds.
abbrev pub stall : ℕ
stall = 30_000_000_000

pub record Frame : Type 0 where
  pub size : ℕ
  pub queued : ℕ

pub record OutputWindow : Type 0 where
  pub frames : List Frame
  pub bytes : ℕ

pub empty : OutputWindow
empty = record { frames = []; bytes = 0 }

pub reserve : OutputWindow → ℕ → ℕ → OutputWindow × Bool
reserve w n now =
    if n == 0 || ltb chunk n || leb max_frames (length w.frames) || ltb (max_bytes - w.bytes) n
    then (w, false)
    else (
      record w { frames = w.frames ++ record { size = n; queued = now } ∷ []; bytes = w.bytes + n },
      true,
    )

-- The front frame is released by its exact size and by nothing else.
release_front : OutputWindow → List Frame → ℤ → OutputWindow × Bool
release_front w [] n = (w, false)
release_front w (f ∷ fs) n =
    if is_pos n f.size then (record { frames = fs; bytes = w.bytes - f.size }, true) else (w, false)

pub acknowledge : OutputWindow → ℤ → OutputWindow × Bool
unfolding release_front
acknowledge w n = release_front w w.frames n

front_stalled : List Frame → ℕ → Bool
front_stalled [] now = false
front_stalled (f ∷ fs) now = leb stall (now - f.queued)

pub stalled : OutputWindow → ℕ → Bool
unfolding front_stalled
stalled w now = front_stalled w.frames now

pub retained_bytes : OutputWindow → ℕ
retained_bytes w = w.bytes

pub retained_frames : OutputWindow → ℕ
retained_frames w = length w.frames

-- What the owner of a window does with it.
pub data Call : Type 0 where
  reserves : ℕ → ℕ → Call
  acknowledges : ℤ → Call

pub step : OutputWindow → Call → OutputWindow
step w (reserves n now) = (reserve w n now).0
step w (acknowledges n) = (acknowledge w n).0

pub run : OutputWindow → List Call → OutputWindow
run w [] = w
run w (c ∷ cs) = run (step w c) cs
