-- ===== src/Receipts/Record.antt =====
-- tab_completions.rs: `State::record`, which keeps the newest completion of each session.
use hmux.Base.{
  ℕ, Bool, true, false, not, ◌||◌, Option, none, some, List, [], ◌∷◌, ◌++◌, ltb, ◌==◌, length, drop,
  filter, find, if◌then◌else◌,
}
use hmux.Base.Eq.{Bytes, bytes_beq}
use hmux.Model.Ids.{SessionIdentity, identity_beq}
use hmux.Receipts.Types.{
  Env, Event, Ledger, events_file, event_valid, valid_rows, next_revision, max_entries, Result, ok,
  err, unavailable, invalid,
}
use hmux.Receipts.Storage.{State, read_account}

-- The order of `Option`: `none` is below any time.
abbrev pub later : Option ℕ → Option ℕ → Bool
later none b = false
later (some a) none = true
later (some a) (some b) = ltb b a

abbrev pub of_session : SessionIdentity → Event → Bool
of_session session x = identity_beq x.session session

abbrev pub others : SessionIdentity → Event → Bool
others session x = not (identity_beq x.session session)

-- A new row goes to the end; a full list loses its oldest.
abbrev pub pushed : List Event → Event → List Event
pushed kept x = (if length kept == max_entries then drop 1 kept else kept) ++ x ∷ []

unfoldable pub with_event : Ledger → Event → Ledger
with_event l x = record {
  revision = next_revision l.revision;
  events = pushed (filter (others x.session) l.events) x;
}

module _ (e : Env) where
  abbrev pub supersedes : Event → Option Event → Bool
  supersedes x none = false
  supersedes x (some old) =
      bytes_beq old.event_id x.event_id
      || later (e.parse_rfc3339 old.completed_at) (e.parse_rfc3339 x.completed_at)

  -- The row of the session is this event, or a newer one.
  unfoldable pub superseded : Ledger → Event → Bool
  superseded l x = supersedes x (find (of_session x.session) l.events)

  abbrev pub reloaded : State e → e.Dir → Result Ledger → State e × Result (Unit {0})
  reloaded s dir (err x) =
      (record { dir = dir; storage_failed = true; ledger = s.ledger; reads = s.reads }, err x)
  reloaded s dir (ok l) =
      (record { dir = dir; storage_failed = false; ledger = l; reads = s.reads }, err unavailable)

  abbrev pub written : State e → Ledger → e.Dir × Bool → State e × Result (Unit {0})
  written s next (dir, true) = (
    record { dir = dir; storage_failed = s.storage_failed; ledger = next; reads = s.reads },
    ok tt,
  )
  written s next (dir, false) = reloaded s dir (read_account e dir events_file)

  abbrev pub encoded : State e → Ledger → Option Bytes → State e × Result (Unit {0})
  encoded s next none = (s, err unavailable)
  encoded s next (some raw) = written s next (e.write_atomic_private s.dir events_file raw)

  unfoldable pub commit : State e → Ledger → State e × Result (Unit {0})
  commit s next =
      if valid_rows e next then encoded s next (e.to_json next) else (s, err unavailable)

  unfoldable pub record_event : State e → Event → State e × Result (Unit {0})
  record_event s x =
      if s.storage_failed
      then (s, err unavailable)
      else if event_valid e x
      then if superseded s.ledger x then (s, ok tt) else commit s (with_event s.ledger x)
      else (s, err invalid)
