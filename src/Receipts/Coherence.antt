-- ===== src/Receipts/Coherence.antt =====
-- tab_completions.rs: sequences of calls of the state, its memory and its files.
use hmux.Base.{◌≡◌, inr, refl, arith, false, List, [], ◌∷◌, subst}
use hmux.Base.Eq.{bytes_eq}
use hmux.Model.Ids.{SessionIdentity}
use hmux.Receipts.Types.{Env, Event, Ledger, Laws, events_file, Result, ok, err}
use hmux.Receipts.Storage.{
  opened, open_store, TryLock, taken, held, lock_failed, State, read_account,
}
use hmux.Receipts.Record.{record_event}
use hmux.Receipts.Acknowledge.{SessionAccess, ReadRequest, Moment, acknowledge, get}
use hmux.Receipts.Files.{Coherent}
use hmux.Receipts.Recorded.{record_event-Coherent}
use hmux.Receipts.Answers.{acknowledge-Coherent, get-Coherent}

-- The calls that reach the state.
pub data Call : Type 0 where
  record_call : Event → Call
  get_call : SessionAccess → List SessionIdentity → Moment → Call
  acknowledge_call : SessionAccess → ReadRequest → List SessionIdentity → Moment → Moment → Call

module _ (e : Env) where
  unfoldable pub step : State e → Call → State e
  step s (record_call x) = (record_event e s x).0
  step s (get_call access live m) = (get e s access live m).0
  step s (acknowledge_call access request live first second) =
      (acknowledge e access live second s request first).0

  unfoldable pub run : State e → List Call → State e
  run s [] = s
  run s (c ∷ calls) = run (step s c) calls

  module _ (l : Laws e) where
    step-Coherent : (s : State e) (call : Call) → Coherent e s → Coherent e (step s call)
    unfolding step
    step-Coherent s (record_call x) c = record_event-Coherent e l s x c
    step-Coherent s (get_call access live m) c = get-Coherent e l s access live m c
    step-Coherent s (acknowledge_call access request live first second) c =
        acknowledge-Coherent e l access live second s request first c

    run_from-Coherent : (s : State e) (calls : List Call) → Coherent e s → Coherent e (run s calls)
    unfolding run
    run_from-Coherent s [] c = c
    run_from-Coherent s (call ∷ calls) c =
        run_from-Coherent (step s call) calls (step-Coherent s call c)

    opened-Coherent :
        (dir : e.Dir) (r : Result Ledger) (s : State e)
        → read_account e dir events_file ≡ r
        → opened e dir r ≡ ok s
        → Coherent e s
    opened-Coherent dir (err x) s f o = ground arith
    opened-Coherent dir (ok rows) s f o =
        let first : State e = record {
          dir = dir;
          storage_failed = false;
          ledger = rows;
          reads = [];
        } in
        let same : first ≡ s = cc o in
        let fresh : Coherent e first = (inr f, tt, omega arith) in
        subst (λ x. Coherent e x) same fresh

    -- After any calls of a store that was opened, the ledger in memory is the valid one in its file
    -- unless `storage_failed` is set, every cached receipt is the valid one in the file of its
    -- account, and at most 16 accounts are cached.
    pub run-Coherent :
        (dir : e.Dir) (lock : TryLock) (s : State e) (calls : List Call)
        → open_store e dir lock ≡ ok s
        → Coherent e (run s calls)
    unfolding open_store
    run-Coherent dir taken s calls o = run_from-Coherent s calls (opened-Coherent dir _ s refl o)
    run-Coherent dir held s calls o = ground arith
    run-Coherent dir lock_failed s calls o = ground arith
