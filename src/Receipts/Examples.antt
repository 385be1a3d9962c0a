-- ===== src/Receipts/Examples.antt =====
-- tab_completions.rs: a store on one directory, and the theorems at a completion of one session.
use hmux.Base.{
  zero, suc, ℕ, ◌≤◌, ◌≡◌, ◌≢◌, refl, arith, Bool, true, false, ◌&&◌, Option, none, some, List, [],
  ◌∷◌, leb, length, if◌then◌else◌,
}
use hmux.Base.Eq.{Bytes, bytes_eq, bytes_beq, bytes_beq_iff}
use hmux.Base.Int.{pos, int_beq, int_beq_iff}
use hmux.Base.Map.{lookup, insert, remove, lookup-insert}
use hmux.Model.Ids.{SessionIdentity, identity_beq, identity_beq_iff, valid_session_id}
use hmux.Receipts.Types.{
  Env, Event, Ledger, Read, contents, not_found, failed, Laws, events_file, max_bytes, ok,
  valid_rows, event_valid, rows_valid,
}
use hmux.Receipts.Storage.{
  State, Snapshot, taken, open_store, cache, load, read_account, snapshot, entries_of, is_read,
}
use hmux.Receipts.Record.{record_event, superseded, commit, with_event}
use hmux.Receipts.Acknowledge.{
  SessionAccess, ReadRequest, Moment, acknowledge, authorized, answered, save, with_read,
}
use hmux.Receipts.Coherence.{record_call, acknowledge_call, run, run-Coherent}
use hmux.Receipts.Files.{Coherent}
use hmux.Receipts.Repeats.{record_event-again}
use hmux.Receipts.Unread.{Answer, acknowledge-Answer}

abbrev repeat : ℕ → ℕ → Bytes
repeat zero b = []
repeat (suc n) b = b ∷ repeat n b

abbrev session : SessionIdentity
session = record { id = b'$' ∷ b'1' ∷ []; created_at = pos 1 }

abbrev event : Event
event = record { session = session; event_id = repeat 64 b'a'; completed_at = b'z' ∷ [] }

abbrev one : Ledger
one = record { revision = pos 1; events = event ∷ [] }

abbrev is_event : List Event → Bool
is_event [] = false
is_event (x ∷ []) =
    identity_beq x.session session
    && bytes_beq x.event_id event.event_id
    && bytes_beq x.completed_at event.completed_at
is_event (x ∷ y ∷ ys) = false

-- The only rows that are written.
abbrev encode : Ledger → Option Bytes
encode l = if int_beq l.revision (pos 1) && is_event l.events then some (1 ∷ []) else none

abbrev found : ℕ → Option Bytes → Read
found limit none = not_found
found limit (some raw) = if leb (length raw) limit then contents raw else failed

abbrev env : Env
env = record {
  parse_rfc3339 = λ text. some 5;
  to_json = encode;
  from_json = λ raw. some one;
  digest = λ username profile. [];
  Dir = List (Bytes × Bytes);
  read_private = λ dir name limit. found limit (lookup name dir);
  write_atomic_private = λ dir name raw. (insert name raw dir, true);
}

is_event_lem : (xs : List Event) → is_event xs ≡ true → xs ≡ event ∷ []
is_event_lem [] h = ground arith
is_event_lem (x ∷ y ∷ ys) h = ground arith
is_event_lem (x ∷ []) h = ground (
  arith,
  identity_beq_iff x.session session,
  bytes_beq_iff x.event_id event.event_id,
  bytes_beq_iff x.completed_at event.completed_at,
)

encode_lem : (l : Ledger) (raw : Bytes) → encode l ≡ some raw → (l ≡ one) × (raw ≡ 1 ∷ [])
encode_lem l raw h = ground (arith, int_beq_iff l.revision (pos 1), is_event_lem l.events)

absent : [] ≢ events_file
absent = λ h. cc h

read_back_lem :
    (d : List (Bytes × Bytes)) (name raw : Bytes)
    → length raw ≤ max_bytes
    → found max_bytes (lookup name (insert name raw d)) ≡ contents raw
read_back_lem d name raw n =
    rw (lookup-insert name name raw d) (ground (arith, bytes_beq_iff name name))

others_kept_lem :
    (d : List (Bytes × Bytes)) (name other raw : Bytes)
    → other ≢ name
    → found max_bytes (lookup other (insert name raw d)) ≡ found max_bytes (lookup other d)
others_kept_lem d name other raw ne =
    rw (lookup-insert name other raw d) (ground (arith, bytes_beq_iff name other))

json_fits_lem : (l : Ledger) (raw : Bytes) → encode l ≡ some raw → length raw ≤ max_bytes
json_fits_lem l raw j = rw ((encode_lem l raw j).1) (omega arith)

json_back_lem : (l : Ledger) (raw : Bytes) → encode l ≡ some raw → some one ≡ some l
json_back_lem l raw j = rw ((encode_lem l raw j).0) refl

laws : Laws env
laws = record {
  read_back = λ d name raw w n. read_back_lem d name raw n;
  others_kept = others_kept_lem;
  json_back = json_back_lem;
  json_fits = λ l raw v j. json_fits_lem l raw j;
  account_apart = λ username profile. absent;
}

abbrev access : SessionAccess
access = record { username = []; profile = []; expires_at = 9 }

abbrev now : Moment
now = record { cancelled = false; changed_err = false; now = 3; current = true }

abbrev request : ReadRequest
request = record { session = session; event_id = event.event_id }

abbrev first : State env
first = record {
  dir = [];
  storage_failed = false;
  ledger = record { revision = pos 0; events = [] };
  reads = [];
}

-- After the completion is recorded.
abbrev kept : State env
kept = record { dir = (events_file, 1 ∷ []) ∷ []; storage_failed = false; ledger = one; reads = [] }

abbrev read : State env
read = record {
  dir = (events_file, 1 ∷ []) ∷ ([], 1 ∷ []) ∷ [];
  storage_failed = false;
  ledger = one;
  reads = ([], one) ∷ [];
}

abbrev shown_answer : Snapshot
shown_answer = record {
  version = 1;
  sequence = pos 1;
  read_revision = pos 1;
  entries = record { event = event; unread = false } ∷ [];
}

open_first : open_store env [] taken ≡ ok first
unfolding open_store read_account load valid_rows rows_valid lookup
open_first = refl

record_first : record_event env first event ≡ (kept, ok tt)
unfolding record_event event_valid valid_session_id superseded commit with_event valid_rows
    rows_valid insert
record_first = refl

acknowledge-kept :
    acknowledge env access (session ∷ []) now kept request now ≡ (read, ok shown_answer)
unfolding acknowledge remove valid_session_id authorized read_account load save with_read valid_rows
    rows_valid event_valid insert lookup answered cache snapshot entries_of is_read
acknowledge-kept = refl

run-Coherent_example : Coherent env (
    run env first (record_call event ∷ acknowledge_call access request (session ∷ []) now now ∷ []))
run-Coherent_example =
    run-Coherent env laws [] taken first
      (record_call event ∷ acknowledge_call access request (session ∷ []) now now ∷ []) open_first

record_event-again_example :
    (superseded env one event ≡ true) × (record_event env kept event ≡ (kept, ok tt))
record_event-again_example = record_event-again env first kept event record_first

acknowledge-Answer_example : Answer env read shown_answer request kept
acknowledge-Answer_example =
    acknowledge-Answer env read shown_answer request kept (session ∷ []) access now now
      acknowledge-kept
