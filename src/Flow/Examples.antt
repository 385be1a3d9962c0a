-- ===== src/Flow/Examples.antt =====
-- The tests of flow.rs on small windows, and the theorems at concrete windows.
use hmux.Base.{◌+◌, ◌-◌, ◌≡◌, refl, true, false, List, [], ◌∷◌, arith}
use hmux.Base.Int.{pos, negsuc}
use hmux.Flow.{
  Frame, OutputWindow, Call, reserves, acknowledges, empty, reserve, acknowledge, run, step,
  stalled, stall,
}
use hmux.Flow.Invariant.{IsValid, run-empty-IsValid}
use hmux.Flow.Order.{receipts, run-receipts, stalled-reserve, stalled-run}

abbrev calls : List Call
calls = reserves 1 0 ∷ reserves 0 1 ∷ reserves 20000 2 ∷ reserves 2 3 ∷ acknowledges (pos 2) ∷ []

abbrev oldest : Frame
oldest = record { size = 1; queued = 0 }

abbrev newest : Frame
newest = record { size = 2; queued = 3 }

abbrev two : OutputWindow
two = record { frames = oldest ∷ newest ∷ []; bytes = 3 }

run-calls : run empty calls ≡ two
unfolding run step empty reserve acknowledge
run-calls = refl

acknowledge_wrong : (acknowledge two (negsuc 0)).1 ≡ false
unfolding acknowledge
acknowledge_wrong = refl

stalled_at_limit : (stalled two (stall - 1) ≡ false) × (stalled two stall ≡ true)
unfolding stalled
stalled_at_limit = (refl, refl)

run-empty-IsValid_example : IsValid (run empty calls)
run-empty-IsValid_example = run-empty-IsValid calls

two-IsValid : IsValid two
two-IsValid = record { counted = refl; few = omega arith; fit = omega arith }

run-receipts_example : run two (receipts two.frames) ≡ empty
run-receipts_example = run-receipts two two-IsValid

stalled-reserve_example : stalled (reserve two 5 stall).0 stall ≡ stalled two stall
stalled-reserve_example = stalled-reserve two 5 stall stall (λ e. cc)

stalled-run_example :
    stalled (run two (reserves 5 stall ∷ acknowledges (pos 2) ∷ [])) (stall + 1) ≡ true
stalled-run_example =
    stalled-run two oldest (newest ∷ []) (reserves 5 stall ∷ acknowledges (pos 2) ∷ []) stall
      (stall + 1) refl (tt, ((λ e. ground arith), tt)) (omega arith) stalled_at_limit.1
