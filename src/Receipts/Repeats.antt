-- ===== src/Receipts/Repeats.antt =====
-- tab_completions.rs: `State::record` of a completion that was recorded.
use hmux.Base.{
  ◌≡◌, ◌≢◌, refl, arith, Bool, true, false, Option, none, some, List, [], ◌∷◌, ◌++◌, ◌==◌, length,
  drop, filter, if_lem, find,
}
use hmux.Base.Eq.{Bytes, bytes_eq, bytes_beq_iff}
use hmux.Model.Ids.{SessionIdentity, identity_beq_iff}
use hmux.Receipts.Types.{Env, Event, Ledger, events_file, max_entries, Result, ok, err}
use hmux.Receipts.Storage.{State}
use hmux.Receipts.Record.{
  with_event, record_event, commit, superseded, encoded, written, reloaded, of_session, others,
}

find-others :
    (i : SessionIdentity) (xs : List Event) → find (of_session i) (filter (others i) xs) ≡ none
find-others i [] = refl
find-others i (x ∷ xs) = ground (arith, find-others i xs)

find-drop-none :
    (i : SessionIdentity) (xs : List Event)
    → find (of_session i) xs ≡ none
    → find (of_session i) (drop 1 xs) ≡ none
find-drop-none i [] h = refl
find-drop-none i (x ∷ xs) h = ground arith

find-append :
    (i : SessionIdentity) (x : Event) (xs : List Event)
    → find (of_session i) xs ≡ none
    → x.session ≡ i
    → find (of_session i) (xs ++ x ∷ []) ≡ some x
find-append i x [] h same = ground (arith, identity_beq_iff x.session i)
find-append i x (y ∷ ys) h same = ground (arith, find-append i x ys)

find-with_event :
    (l : Ledger) (x : Event) → find (of_session x.session) (with_event l x).events ≡ some x
unfolding with_event
find-with_event l x =
    let kept : List Event = filter (others x.session) l.events in
    if_lem (λ xs. find (of_session x.session) (xs ++ x ∷ []) ≡ some x) (length kept == max_entries)
      (λ full.
        find-append x.session x (drop 1 kept)
          (find-drop-none x.session kept (find-others x.session l.events)) refl)
      (λ room. find-append x.session x kept (find-others x.session l.events) refl)

module _ (e : Env) where
  with_event-superseded : (l : Ledger) (x : Event) → superseded e (with_event l x) x ≡ true
  unfolding superseded
  with_event-superseded l x =
      rw (find-with_event l x) (ground (arith, bytes_beq_iff x.event_id x.event_id))

  reloaded_err : (s t : State e) (dir : e.Dir) (r : Result Ledger) → reloaded e s dir r ≢ (t, ok tt)
  reloaded_err s t dir (err x) = λ h. ground arith
  reloaded_err s t dir (ok l) = λ h. ground arith

  written-ledger :
      (s t : State e) (next : Ledger) (w : e.Dir × Bool)
      → written e s next w ≡ (t, ok tt)
      → (t.ledger ≡ next) × (t.storage_failed ≡ s.storage_failed)
  written-ledger s t next (dir, true) h = ground arith
  written-ledger s t next (dir, false) h = absurd (reloaded_err s t dir _ h)

  encoded-ledger :
      (s t : State e) (next : Ledger) (o : Option Bytes)
      → encoded e s next o ≡ (t, ok tt)
      → (t.ledger ≡ next) × (t.storage_failed ≡ s.storage_failed)
  encoded-ledger s t next none h = ground arith
  encoded-ledger s t next (some raw) h =
      written-ledger s t next (e.write_atomic_private s.dir events_file raw) h

  commit-ledger :
      (s t : State e) (next : Ledger)
      → commit e s next ≡ (t, ok tt)
      → (t.ledger ≡ next) × (t.storage_failed ≡ s.storage_failed)
  unfolding commit
  commit-ledger s t next h = ground (arith, encoded-ledger s t next (e.to_json next))

  -- A completion that was recorded without an error is kept or is older than the one kept; to record
  -- it again succeeds and changes nothing.
  pub record_event-again :
      (s t : State e) (x : Event)
      → record_event e s x ≡ (t, ok tt)
      → (superseded e t.ledger x ≡ true) × (record_event e t x ≡ (t, ok tt))
  unfolding record_event
  record_event-again s t x h =
      ground (arith, commit-ledger s t (with_event s.ledger x), with_event-superseded s.ledger x)
