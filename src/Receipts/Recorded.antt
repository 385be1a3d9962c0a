-- ===== src/Receipts/Recorded.antt =====
-- tab_completions.rs: `State::record`, the memory and the files after each of its branches.
use hmux.Base.{◌≤◌, ◌≡◌, inl, inr, refl, Bool, true, false, Option, none, some, length, All, if_lem}
use hmux.Base.Eq.{Bytes, bytes_eq}
use hmux.Receipts.Types.{
  event_valid, Env, Event, Ledger, Laws, events_file, valid_rows, Result, ok, err, cache_accounts,
}
use hmux.Receipts.Storage.{State, read_account}
use hmux.Receipts.Record.{reloaded, with_event, record_event, commit, superseded, encoded, written}
use hmux.Receipts.Files.{Held, Coherent, read-write, Held-write_ledger}

module _ (e : Env) where
  reloaded-Coherent :
      (s : State e) (dir : e.Dir) (r : Result Ledger)
      → All (Held e dir) s.reads
      → length s.reads ≤ cache_accounts
      → read_account e dir events_file ≡ r
      → Coherent e (reloaded e s dir r).0
  reloaded-Coherent s dir (err x) h n f = (inl refl, h, n)
  reloaded-Coherent s dir (ok rows) h n f = (inr f, h, n)

  written-Coherent :
      (s : State e) (next : Ledger) (dir : e.Dir) (done : Bool)
      → All (Held e dir) s.reads
      → length s.reads ≤ cache_accounts
      → (done ≡ true → read_account e dir events_file ≡ ok next)
      → Coherent e (written e s next (dir, done)).0
  written-Coherent s next dir true h n f = (inr (f refl), h, n)
  written-Coherent s next dir false h n f = reloaded-Coherent s dir _ h n refl

  module _ (l : Laws e) where
    encoded-Coherent :
        (s : State e) (next : Ledger) (o : Option Bytes)
        → Coherent e s
        → valid_rows e next ≡ true
        → e.to_json next ≡ o
        → Coherent e (encoded e s next o).0
    encoded-Coherent s next none c v j = c
    encoded-Coherent s next (some raw) c v j =
        let w : e.Dir × Bool = e.write_atomic_private s.dir events_file raw in
        written-Coherent s next w.0 w.1 (Held-write_ledger e l s.dir raw s.reads c.1) c.2
          (λ done. read-write e l s.dir events_file raw next v j done)

    commit-Coherent : (s : State e) (next : Ledger) → Coherent e s → Coherent e (commit e s next).0
    unfolding commit
    commit-Coherent s next c =
        let P : State e × Result (Unit {0}) → Type 0 = λ r. Coherent e r.0 in
        if_lem P (valid_rows e next) (λ v. encoded-Coherent s next _ c v refl) (λ v. c)

    pub record_event-Coherent :
        (s : State e) (x : Event) → Coherent e s → Coherent e (record_event e s x).0
    unfolding record_event
    record_event-Coherent s x c =
        let P : State e × Result (Unit {0}) → Type 0 = λ r. Coherent e r.0 in
        if_lem P s.storage_failed (λ failed. c)
          (λ fine.
            if_lem P (event_valid e x)
              (λ valid.
                if_lem P (superseded e s.ledger x) (λ old. c)
                  (λ new. commit-Coherent s (with_event s.ledger x) c))
              (λ invalid. c))
