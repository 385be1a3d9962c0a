-- ===== src/Receipts/Types.antt =====
-- tab_completions.rs: events, the ledger, the receipts, and the directory that keeps them.
use hmux.Base.{
  ℕ, ◌≤◌, ◌*◌, zero, suc, ◌≡◌, ◌≢◌, Bool, true, false, not, ◌&&◌, ◌||◌, Option, none, some, List,
  [], ◌∷◌, ltb, leb, ◌==◌, length, any,
}
use hmux.Base.Int.{ℤ, pos, negsuc}
use hmux.Base.Eq.{Bytes}
use hmux.Model.Ids.{
  SessionIdentity, identity_beq, valid_session_id, is_positive, is_digit, all_bytes,
}

abbrev pub max_entries : ℕ
max_entries = 256

abbrev pub max_bytes : ℕ
max_bytes = 128 * 1024

abbrev pub cache_accounts : ℕ
cache_accounts = 16

-- 2 ^ 53 - 1.
abbrev pub max_revision : ℕ
max_revision = 9_007_199_254_740_991

abbrev pub events_file : Bytes
events_file = b'e' ∷ b'v' ∷ b'e' ∷ b'n' ∷ b't' ∷ b's' ∷ b'.' ∷ b'j' ∷ b's' ∷ b'o' ∷ b'n' ∷ []

pub record Event : Type 0 where
  pub session : SessionIdentity
  pub event_id : Bytes
  pub completed_at : Bytes

pub record Ledger : Type 0 where
  pub revision : ℤ
  pub events : List Event

-- `Reads` has the fields of `Ledger`.
abbrev pub Reads : Type 0
Reads = Ledger

abbrev pub no_events : Ledger
no_events = record { revision = pos 0; events = [] }

-- What `PrivateDir::read_private` answers.
pub data Read : Type 0 where
  contents : Bytes → Read
  not_found failed : Read

-- `parse_rfc3339` is chrono's, a time being a number of nanoseconds, `to_json` and `from_json` are
-- those of serde_json for either type, and `digest` is `usage_preference_digest` in hexadecimal with
-- the ending of the file. A directory is read up to a number of bytes; `write_atomic_private` returns
-- the directory after the call and whether the call succeeded.
pub record Env : Type 1 where
  pub parse_rfc3339 : Bytes → Option ℕ
  pub to_json : Ledger → Option Bytes
  pub from_json : Bytes → Option Ledger
  pub digest : Bytes → Bytes → Bytes
  pub Dir : Type 0
  pub read_private : Dir → Bytes → ℕ → Read
  pub write_atomic_private : Dir → Bytes → Bytes → Dir × Bool

abbrev pub is_hexdigit : ℕ → Bool
is_hexdigit b = is_digit b || leb b'a' b && leb b b'f' || leb b'A' b && leb b b'F'

abbrev pub is_some : Option ℕ → Bool
is_some none = false
is_some (some n) = true

unfoldable pub event_valid : Env → Event → Bool
event_valid e x =
    is_positive x.session.created_at
    && valid_session_id x.session.id
    && length x.event_id == 64
    && all_bytes is_hexdigit x.event_id
    && leb (length x.completed_at) 64
    && is_some (e.parse_rfc3339 x.completed_at)

-- `(0..MAX_REVISION).contains(&revision)`.
abbrev pub in_revisions : ℤ → Bool
in_revisions (pos n) = ltb n max_revision
in_revisions (negsuc n) = false

unfoldable pub rows_valid : Env → List SessionIdentity → List Event → Bool
rows_valid e seen [] = true
rows_valid e seen (row ∷ rows) =
    event_valid e row
    && not (any (identity_beq row.session) seen)
    && rows_valid e (row.session ∷ seen) rows

unfoldable pub valid_rows : Env → Ledger → Bool
valid_rows e l =
    in_revisions l.revision && leb (length l.events) max_entries && rows_valid e [] l.events

-- A revision in the range has a successor that an `i64` holds.
abbrev pub next_revision : ℤ → ℤ
next_revision (pos n) = pos (suc n)
next_revision (negsuc zero) = pos 0
next_revision (negsuc (suc n)) = negsuc n

pub data Error : Type 0 where
  invalid conflict busy unavailable unauthorized : Error

pub data Result {ℓ} (A : Type ℓ) : Type ℓ where
  ok : A → Result A
  err : Error → Result A

-- What the state relies on: a file written is read back, no other file changes, even when the write
-- fails, JSON is read back, valid rows fit the bound of a file, and no account's file is the ledger's.
pub record Laws (e : Env) : Type 0 where
  pub read_back :
      (d : e.Dir) (name raw : Bytes)
      → (e.write_atomic_private d name raw).1 ≡ true
      → length raw ≤ max_bytes
      → e.read_private (e.write_atomic_private d name raw).0 name max_bytes ≡ contents raw
  pub others_kept :
      (d : e.Dir) (name other raw : Bytes)
      → other ≢ name
      → e.read_private (e.write_atomic_private d name raw).0 other max_bytes
        ≡ e.read_private d other max_bytes
  pub json_back : (l : Ledger) (raw : Bytes) → e.to_json l ≡ some raw → e.from_json raw ≡ some l
  pub json_fits :
      (l : Ledger) (raw : Bytes)
      → valid_rows e l ≡ true
      → e.to_json l ≡ some raw
      → length raw ≤ max_bytes
  pub account_apart : (username profile : Bytes) → e.digest username profile ≢ events_file
