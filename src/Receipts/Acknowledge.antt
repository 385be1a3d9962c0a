-- ===== src/Receipts/Acknowledge.antt =====
-- tab_completions.rs: `State::acknowledge`, `Store::get` and the check of an account's access.
use hmux.Base.{
  ℕ, Bool, true, false, not, ◌&&◌, ◌||◌, Option, none, some, List, leb, filter, find, any,
  if◌then◌else◌,
}
use hmux.Base.Eq.{Bytes, bytes_beq, bytes_eq}
use hmux.Base.Map.{remove}
use hmux.Model.Ids.{SessionIdentity, identity_beq}
use hmux.Receipts.Types.{
  Env, Event, Reads, valid_rows, next_revision, Result, ok, err, unavailable, unauthorized,
  conflict,
}
use hmux.Receipts.Storage.{State, Snapshot, snapshot, cache, read_account, account}
use hmux.Receipts.Record.{others, pushed}

pub record SessionAccess : Type 0 where
  pub username : Bytes
  pub profile : Bytes
  pub expires_at : ℕ

pub record ReadRequest : Type 0 where
  pub session : SessionIdentity
  pub event_id : Bytes

-- What a check finds: the watch of the session, whether its sender is gone, the clock in
-- nanoseconds, and the answer of `current`.
pub record Moment : Type 0 where
  pub cancelled : Bool
  pub changed_err : Bool
  pub now : ℕ
  pub current : Bool

unfoldable pub authorized : SessionAccess → Moment → Bool
authorized access m = not (m.cancelled || m.changed_err || leb access.expires_at m.now)

abbrev pub asked : ReadRequest → Event → Bool
asked request x =
    if identity_beq x.session request.session then bytes_beq x.event_id request.event_id else false

abbrev pub event_beq : Event → Event → Bool
event_beq x y =
    if identity_beq x.session y.session
    then bytes_beq x.event_id y.event_id && bytes_beq x.completed_at y.completed_at
    else false

abbrev pub is_live : List SessionIdentity → SessionIdentity → Event → Bool
is_live live session x = any (identity_beq x.session) live && others session x

-- The receipts of the sessions that live, and the new one.
unfoldable pub with_read : Reads → Event → List SessionIdentity → Reads
with_read reads x live = record {
  revision = next_revision reads.revision;
  events = pushed (filter (is_live live x.session) reads.events) x;
}

module _ (e : Env) where
  abbrev pub account_key : SessionAccess → Bytes
  account_key access = e.digest access.username access.profile

  unfoldable pub answered :
      State e → e.Dir → Bytes → Reads → List SessionIdentity → State e × Result Snapshot
  answered s dir key reads live = (
    record {
      dir = dir;
      storage_failed = s.storage_failed;
      ledger = s.ledger;
      reads = cache key reads s.reads;
    },
    ok (snapshot s.ledger reads live),
  )

  abbrev pub saved :
      State e → Bytes → Reads → List SessionIdentity → e.Dir × Bool → State e × Result Snapshot
  saved s key reads live (dir, true) = answered s dir key reads live
  saved s key reads live (dir, false) = (
    record {
      dir = dir;
      storage_failed = s.storage_failed;
      ledger = s.ledger;
      reads = remove key s.reads;
    },
    err unavailable,
  )

  module _ (access : SessionAccess) (live : List SessionIdentity) (second : Moment) where
    abbrev pub sent : State e → Reads → Option Bytes → State e × Result Snapshot
    sent s reads none = (s, err unavailable)
    sent s reads (some raw) =
        if authorized access second
        then if second.current
          then saved s (account_key access) reads live
              (e.write_atomic_private s.dir (account_key access) raw)
          else (s, err conflict)
        else (s, err unauthorized)

    unfoldable pub save : State e → Reads → State e × Result Snapshot
    save s reads =
        if valid_rows e reads then sent s reads (e.to_json reads) else (s, err unavailable)

    abbrev pub marked : State e → Event → Result Reads → State e × Result Snapshot
    marked s x (err r) = (s, err r)
    marked s x (ok reads) =
        if any (event_beq x) reads.events
        then answered s s.dir (account_key access) reads live
        else save s (with_read reads x live)

    abbrev pub chosen : State e → Option Event → State e × Result Snapshot
    chosen s none = (s, err conflict)
    chosen s (some x) = marked s x (read_account e s.dir (account_key access))

    -- The receipts are read again before they are written, even when they are cached.
    unfoldable pub acknowledge : State e → ReadRequest → Moment → State e × Result Snapshot
    acknowledge s request first =
        if s.storage_failed
        then (s, err unavailable)
        else if authorized access first
        then if any (identity_beq request.session) live && first.current
          then chosen s (find (asked request) s.ledger.events)
          else (s, err conflict)
        else (s, err unauthorized)

  abbrev pub shown : List SessionIdentity → State e × Result Reads → State e × Result Snapshot
  shown live (s, err x) = (s, err x)
  shown live (s, ok reads) = (s, ok (snapshot s.ledger reads live))

  -- The transaction of `Store::get`.
  unfoldable pub get :
      State e → SessionAccess → List SessionIdentity → Moment → State e × Result Snapshot
  get s access live m =
      if authorized access m
      then if s.storage_failed
        then (s, err unavailable)
        else shown live (account e s (account_key access))
      else (s, err unauthorized)
