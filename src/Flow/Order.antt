-- ===== src/Flow/Order.antt =====
-- Frames are released in the order in which they were reserved, and the oldest sets the deadline.
use hmux.Base.{
  ℕ, ◌-◌, ◌≤◌, ◌≡◌, refl, ◌≢◌, ◌↔◌, true, List, [], ◌∷◌, ◌++◌, arith, All, Bool-cases, inl, inr,
}
use hmux.Base.Int.{ℤ, pos, negsuc, is_pos}
use hmux.Flow.{
  Frame, OutputWindow, Call, reserves, acknowledges, empty, reserve, acknowledge, release_front,
  step, run, stalled, front_stalled,
}
use hmux.Flow.Invariant.{IsValid, total}

-- The acknowledgements that answer the frames of a window, oldest first.
abbrev pub receipts : List Frame → List Call
receipts [] = []
receipts (f ∷ fs) = acknowledges (pos f.size) ∷ receipts fs

drain :
    (fs : List Frame) (w : OutputWindow)
    → w.frames ≡ fs
    → w.bytes ≡ total fs
    → run w (receipts fs) ≡ empty
unfolding run step acknowledge release_front empty
drain [] w e b = ground arith
drain (f ∷ fs) w e b = ground (arith, drain fs (record { frames = fs; bytes = w.bytes - f.size }))

-- Acknowledging the retained sizes of a valid window, oldest first, gives back all of its credit.
pub run-receipts : (w : OutputWindow) → IsValid w → run w (receipts w.frames) ≡ empty
run-receipts w v = drain w.frames w refl v.counted

is_pos_iff : (n : ℤ) (size : ℕ) → (is_pos n size ≡ true) ↔ (n ≡ pos size)
is_pos_iff (pos k) size = (λ e. ground arith, λ e. ground arith)
is_pos_iff (negsuc k) size = (λ e. cc, λ e. cc)

-- An acknowledgement succeeds exactly when it names the size of the oldest frame. Then that frame
-- and its bytes are released; otherwise the window stays as it was.
acknowledge_oldest :
    (w : OutputWindow) (f : Frame) (fs : List Frame) (n : ℤ)
    → w.frames ≡ f ∷ fs
    → (((acknowledge w n).1 ≡ true) ↔ (n ≡ pos f.size))
      × (n ≡ pos f.size → (acknowledge w n).0 ≡ record { frames = fs; bytes = w.bytes - f.size })
      × (n ≢ pos f.size → (acknowledge w n).0 ≡ w)
unfolding acknowledge release_front
acknowledge_oldest w f fs n e = (
  (λ h. ground (arith, is_pos_iff n f.size), λ h. ground (arith, is_pos_iff n f.size)),
  λ h. ground (arith, is_pos_iff n f.size),
  λ h. ground (arith, is_pos_iff n f.size),
)

-- While frames are retained, no call of reserve moves the deadline: at every instant the window is
-- stalled after the call exactly if it was before.
pub stalled-reserve :
    (w : OutputWindow) (n now at : ℕ)
    → w.frames ≢ []
    → stalled (reserve w n now).0 at ≡ stalled w at
unfolding stalled reserve
stalled-reserve w n now at h = ground arith

stalled_later :
    (fs : List Frame) (at later : ℕ)
    → front_stalled fs at ≡ true
    → at ≤ later
    → front_stalled fs later ≡ true
unfolding front_stalled
stalled_later [] at later h le = h
stalled_later (f ∷ fs) at later h le = ground arith

-- The calls that do not release a frame: reservations, and acknowledgements of another size than
-- the oldest frame's.
abbrev pub Idle : Frame → Call → Type 0
Idle f (reserves n now) = Unit {0}
Idle f (acknowledges n) = n ≢ pos f.size

front_kept :
    (w : OutputWindow) (f : Frame) (fs : List Frame) (c : Call)
    → w.frames ≡ f ∷ fs
    → Idle f c
    → (gs : List Frame) × ((step w c).frames ≡ f ∷ gs)
unfolding step reserve
front_kept w f fs (reserves n now) e h = elim (Bool-cases (reserve w n now).1) [
  | inl t ↦ (fs ++ record { size = n; queued = now } ∷ [], ground arith)
  | inr t ↦ (fs, ground arith)
]
front_kept w f fs (acknowledges n) e h = (fs, ground (arith, acknowledge_oldest w f fs n e))

-- Partial progress does not end a stall: a window that is stalled stays stalled at every later
-- instant, however much is reserved and whichever wrong sizes are acknowledged in between.
pub stalled-run :
    (w : OutputWindow) (f : Frame) (fs : List Frame) (cs : List Call) (at later : ℕ)
    → w.frames ≡ f ∷ fs
    → All (Idle f) cs
    → at ≤ later
    → stalled w at ≡ true
    → stalled (run w cs) later ≡ true
unfolding run stalled
stalled-run w f fs [] at later e h le s = stalled_later w.frames at later s le
stalled-run w f fs (c ∷ cs) at later e h le s =
    let (gs, kept) = front_kept w f fs c e h.0 in
    stalled-run (step w c) f gs cs at later kept h.1 le (rw kept (rw e at s))
