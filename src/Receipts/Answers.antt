-- ===== src/Receipts/Answers.antt =====
-- tab_completions.rs: `State::acknowledge` and `Store::get`, the memory and the files after them.
use hmux.Base.{
  ◌≤◌, ◌≡◌, ◌≢◌, ◌⊎◌, refl, arith, Bool, true, false, ◌&&◌, Option, none, some, List, length, All,
  if_lem, find, any, sym,
}
use hmux.Base.Eq.{Bytes, bytes_eq}
use hmux.Base.Map.{remove, All-remove, length-remove-le}
use hmux.Model.Ids.{SessionIdentity, identity_beq}
use hmux.Receipts.Types.{
  Env, Event, Reads, Laws, events_file, valid_rows, Result, ok, err, cache_accounts,
}
use hmux.Receipts.Storage.{filled, cached, State, Snapshot, read_account, account}
use hmux.Receipts.Acknowledge.{
  event_beq, shown, SessionAccess, ReadRequest, Moment, account_key, answered, save, acknowledge,
  get, with_read, sent, saved, chosen, marked, asked, authorized,
}
use hmux.Receipts.Files.{
  Held, Coherent, cache-Held, length-cache-le, read-write, Held-write, ledger_kept,
}

module _ (e : Env) where
  module _ (l : Laws e) where
    answered-Coherent :
        (s : State e) (dir : e.Dir) (key : Bytes) (reads : Reads) (live : List SessionIdentity)
        → ((s.storage_failed ≡ true) ⊎ (read_account e dir events_file ≡ ok s.ledger))
        → Held e dir (key, reads)
        → All (Held e dir) (remove key s.reads)
        → length s.reads ≤ cache_accounts
        → Coherent e (answered e s dir key reads live).0
    unfolding answered
    answered-Coherent s dir key reads live f h hs n =
        (f, cache-Held e dir key reads s.reads h hs, length-cache-le e key reads s.reads n)

    saved-Coherent :
        (s : State e) (key : Bytes) (reads : Reads) (live : List SessionIdentity) (dir : e.Dir)
        (done : Bool)
        → ((s.storage_failed ≡ true) ⊎ (read_account e dir events_file ≡ ok s.ledger))
        → (done ≡ true → Held e dir (key, reads))
        → All (Held e dir) (remove key s.reads)
        → length s.reads ≤ cache_accounts
        → Coherent e (saved e s key reads live (dir, done)).0
    saved-Coherent s key reads live dir true f h hs n =
        answered-Coherent s dir key reads live f (h refl) hs n
    saved-Coherent s key reads live dir false f h hs n =
        (f, hs, omega (arith, n, length-remove-le key s.reads))

    module _ (access : SessionAccess) (live : List SessionIdentity) (second : Moment) where
      sent-Coherent :
          (s : State e) (reads : Reads) (o : Option Bytes)
          → Coherent e s
          → valid_rows e reads ≡ true
          → e.to_json reads ≡ o
          → Coherent e (sent e access live second s reads o).0
      sent-Coherent s reads none c v j = c
      sent-Coherent s reads (some raw) c v j =
          let P : State e × Result Snapshot → Type 0 = λ r. Coherent e r.0 in
          let key : Bytes = account_key e access in
          let apart : key ≢ events_file = l.account_apart access.username access.profile in
          let w : e.Dir × Bool = e.write_atomic_private s.dir key raw in
          if_lem P (authorized access second)
            (λ a.
              if_lem P second.current
                (λ now.
                  saved-Coherent s key reads live w.0 w.1
                    (ledger_kept e l s key raw (λ eq. apart (sym eq)) c.0)
                    (λ done. (apart, read-write e l s.dir key raw reads v j done))
                    (Held-write e l s.dir key raw s.reads c.1) c.2)
                (λ gone. c))
            (λ a. c)

      save-Coherent :
          (s : State e) (reads : Reads)
          → Coherent e s
          → Coherent e (save e access live second s reads).0
      unfolding save
      save-Coherent s reads c =
          let P : State e × Result Snapshot → Type 0 = λ r. Coherent e r.0 in
          if_lem P (valid_rows e reads) (λ v. sent-Coherent s reads _ c v refl) (λ v. c)

      marked-Coherent :
          (s : State e) (x : Event) (r : Result Reads)
          → Coherent e s
          → read_account e s.dir (account_key e access) ≡ r
          → Coherent e (marked e access live second s x r).0
      marked-Coherent s x (err y) c f = c
      marked-Coherent s x (ok reads) c f =
          let P : State e × Result Snapshot → Type 0 = λ r. Coherent e r.0 in
          if_lem P (any (event_beq x) reads.events)
            (λ old.
              answered-Coherent s s.dir (account_key e access) reads live c.0
                (l.account_apart access.username access.profile, f)
                (All-remove (Held e s.dir) (account_key e access) s.reads c.1) c.2)
            (λ new. save-Coherent s (with_read reads x live) c)

      chosen-Coherent :
          (s : State e) (o : Option Event)
          → Coherent e s
          → Coherent e (chosen e access live second s o).0
      chosen-Coherent s none c = c
      chosen-Coherent s (some x) c = marked-Coherent s x _ c refl

      pub acknowledge-Coherent :
          (s : State e) (request : ReadRequest) (first : Moment)
          → Coherent e s
          → Coherent e (acknowledge e access live second s request first).0
      unfolding acknowledge
      acknowledge-Coherent s request first c =
          let P : State e × Result Snapshot → Type 0 = λ r. Coherent e r.0 in
          if_lem P s.storage_failed (λ failed. c)
            (λ fine.
              if_lem P (authorized access first)
                (λ a.
                  if_lem P (any (identity_beq request.session) live && first.current)
                    (λ now. chosen-Coherent s (find (asked request) s.ledger.events) c) (λ gone. c))
                (λ a. c))

    filled-Coherent :
        (s : State e) (key : Bytes) (r : Result Reads)
        → key ≢ events_file
        → Coherent e s
        → read_account e s.dir key ≡ r
        → Coherent e (filled e s key r).0
    filled-Coherent s key (err x) ne c f = c
    filled-Coherent s key (ok value) ne c f = (
      c.0,
      cache-Held e s.dir key value s.reads (ne, f) (All-remove (Held e s.dir) key s.reads c.1),
      length-cache-le e key value s.reads c.2,
    )

    cached-Coherent :
        (s : State e) (key : Bytes) (o : Option Reads)
        → key ≢ events_file
        → Coherent e s
        → Coherent e (cached e s key o).0
    cached-Coherent s key (some value) ne c = c
    cached-Coherent s key none ne c = filled-Coherent s key _ ne c refl

    shown-Coherent :
        (live : List SessionIdentity) (r : State e × Result Reads)
        → Coherent e r.0
        → Coherent e (shown e live r).0
    shown-Coherent live (s, err x) c = c
    shown-Coherent live (s, ok reads) c = c

    pub get-Coherent :
        (s : State e) (access : SessionAccess) (live : List SessionIdentity) (m : Moment)
        → Coherent e s
        → Coherent e (get e s access live m).0
    unfolding get account
    get-Coherent s access live m c =
        let P : State e × Result Snapshot → Type 0 = λ r. Coherent e r.0 in
        let apart : account_key e access ≢ events_file =
          l.account_apart access.username access.profile in
        if_lem P (authorized access m)
          (λ a.
            if_lem P s.storage_failed (λ failed. c)
              (λ fine. shown-Coherent live _ (cached-Coherent s (account_key e access) _ apart c)))
          (λ a. c)
