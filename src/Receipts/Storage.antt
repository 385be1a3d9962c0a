-- ===== src/Receipts/Storage.antt =====
-- tab_completions.rs: the state behind the mutex, the files that it loads and the receipts it caches.
use hmux.Base.{
  ℕ, Bool, false, not, Option, none, some, List, [], ◌∷◌, ◌++◌, ◌==◌, length, drop, any,
  if◌then◌else◌,
}
use hmux.Base.Eq.{Bytes, bytes_beq, bytes_eq}
use hmux.Base.Int.{ℤ}
use hmux.Base.Map.{lookup, remove}
use hmux.Model.Ids.{SessionIdentity, identity_beq}
use hmux.Receipts.Types.{
  busy, events_file, Env, Event, Ledger, Reads, Read, contents, not_found, failed, no_events,
  max_bytes, valid_rows, Result, ok, err, unavailable, cache_accounts,
}

pub record Entry : Type 0 where
  pub event : Event
  pub unread : Bool

pub record Snapshot : Type 0 where
  pub version : ℕ
  pub sequence : ℤ
  pub read_revision : ℤ
  pub entries : List Entry

unfoldable pub is_read : Reads → Event → Bool
is_read reads event =
    any
      (λ r.
        if identity_beq r.session event.session then bytes_beq r.event_id event.event_id else false)
      reads.events

abbrev pub entry : Reads → Event → Entry
entry reads event = record { event = event; unread = not (is_read reads event) }

unfoldable pub entries_of : Reads → List SessionIdentity → List Event → List Entry
entries_of reads live [] = []
entries_of reads live (x ∷ xs) =
    let rest = entries_of reads live xs in
    if any (identity_beq x.session) live then entry reads x ∷ rest else rest

unfoldable pub snapshot : Ledger → Reads → List SessionIdentity → Snapshot
snapshot ledger reads live = record {
  version = 1;
  sequence = ledger.revision;
  read_revision = reads.revision;
  entries = entries_of reads live ledger.events;
}

-- The oldest of a full cache goes.
unfoldable pub cache : Bytes → Reads → List (Bytes × Reads) → List (Bytes × Reads)
cache key value reads =
    let kept = remove key reads in
    (if length kept == cache_accounts then drop 1 kept else kept) ++ (key, value) ∷ []

-- What `PrivateDir::try_lock` answers.
pub data TryLock : Type 0 where
  taken held lock_failed : TryLock

module _ (e : Env) where
  abbrev pub parsed : Option Ledger → Result Ledger
  parsed none = err unavailable
  parsed (some l) = ok l

  abbrev pub loaded : Read → Result Ledger
  loaded (contents raw) = parsed (e.from_json raw)
  loaded not_found = ok no_events
  loaded failed = err unavailable

  unfoldable pub load : e.Dir → Bytes → Result Ledger
  load dir name = loaded (e.read_private dir name max_bytes)

  abbrev pub checked : Result Ledger → Result Ledger
  checked (err x) = err x
  checked (ok l) = if valid_rows e l then ok l else err unavailable

  -- Also the load of the ledger in `Store::open`.
  unfoldable pub read_account : e.Dir → Bytes → Result Reads
  read_account dir key = checked (load dir key)

  pub record State : Type 0 where
    pub dir : e.Dir
    pub storage_failed : Bool
    pub ledger : Ledger
    pub reads : List (Bytes × Reads)

  abbrev pub filled : State → Bytes → Result Reads → State × Result Reads
  filled s key (err x) = (s, err x)
  filled s key (ok value) = (
    record {
      dir = s.dir;
      storage_failed = s.storage_failed;
      ledger = s.ledger;
      reads = cache key value s.reads;
    },
    ok value,
  )

  abbrev pub cached : State → Bytes → Option Reads → State × Result Reads
  cached s key (some value) = (s, ok value)
  cached s key none = filled s key (read_account s.dir key)

  unfoldable pub account : State → Bytes → State × Result Reads
  account s key = cached s key (lookup key s.reads)

  abbrev pub opened : e.Dir → Result Ledger → Result State
  opened dir (err x) = err x
  opened dir (ok l) = ok (record { dir = dir; storage_failed = false; ledger = l; reads = [] })

  unfoldable pub open_store : e.Dir → TryLock → Result State
  open_store dir taken = opened dir (read_account dir events_file)
  open_store dir held = err busy
  open_store dir lock_failed = err unavailable
