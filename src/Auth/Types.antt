-- ===== src/Auth/Types.antt =====
-- auth.rs and auth_store.rs: accounts, sessions and the state behind the mutex.
use hmux.Base.{ℕ, ◌*◌, Bool, true, Option, List, [], ◌∷◌, ◌++◌}
use hmux.Base.Eq.{Bytes, bytes_eq}
use hmux.Base.Int.{ℤ}

pub data StoreError : Type 0 where
  busy storage_unavailable session_not_found : StoreError

pub data Result {ℓ} (A : Type ℓ) : Type ℓ where
  ok : A → Result A
  err : StoreError → Result A

abbrev pub max_sessions_per_account : ℕ
max_sessions_per_account = 8

abbrev pub second : ℕ
second = 1_000_000_000

-- Seven days.
abbrev pub login_lifetime : ℕ
login_lifetime = 7 * 24 * 60 * 60 * second

abbrev pub seen_persist_interval : ℕ
seen_persist_interval = 5 * 60 * second

pub record Credentials : Type 0 where
  pub username : Bytes
  pub salt : Bytes
  pub hash : Bytes
  pub totp_secret : Bytes
  pub last_step : ℤ
  pub totp_disabled : Bool

pub record Account : Type 0 where
  pub credentials : Credentials
  pub path : Bytes
  pub profile : Bytes

-- A `DateTime` is a number of nanoseconds; `cancel` names the channel that ends the session's work.
pub record Session : Type 0 where
  pub id : Bytes
  pub username : Bytes
  pub profile : Bytes
  pub fingerprint : Bytes
  pub browser : Bytes
  pub ip : Bytes
  pub created : ℕ
  pub seen : ℕ
  pub persisted_seen : ℕ
  pub expires : ℕ
  pub cancel : ℕ

abbrev pub Sessions : Type 0
Sessions = List (Bytes × Session)

-- What the store uses of others: SHA-256 of the fingerprint's JSON (without `last_step`) and of a
-- token, the JSON of the two files, and the directory with its atomic writes. `backup_credentials`
-- writes and prunes the backups of an account's file.
pub record Env : Type 1 where
  pub digest : Bytes → Bytes → Bytes → Bytes → Bool → Bytes
  pub token_hash : Bytes → Bytes
  pub parse_credentials : Bytes → Option Credentials
  pub credentials_json : Credentials → Bytes
  pub session_file : Sessions → Bytes
  pub Dir : Type 0
  pub read_private : Dir → Bytes → ℕ → Option (Option Bytes)
  pub write_atomic_private : Dir → Bytes → Bytes → Dir × Bool
  pub backup_credentials : Dir → Bytes → Bytes → Credentials → ℕ → Dir × Bool

abbrev pub cancels : Sessions → List ℕ
cancels [] = []
cancels ((k, x) ∷ m) = x.cancel ∷ cancels m

module _ (e : Env) where
  unfoldable pub fingerprint : Credentials → Bytes
  fingerprint c = e.digest c.username c.salt c.hash c.totp_secret c.totp_disabled

  -- `cancelled` are the channels that were sent true and `channels` the number of those made.
  pub record State : Type 0 where
    pub dir : e.Dir
    pub sessions_path : Bytes
    pub accounts : List (Bytes × Account)
    pub sessions : Sessions
    pub attempts : List (Bytes × List ℕ)
    pub security_attempts : List (Bytes × List ℕ)
    pub storage_failed : Bool
    pub cancelled : List ℕ
    pub channels : ℕ

  unfoldable pub fail_storage : State → State
  fail_storage s = record s { storage_failed = true; cancelled = cancels s.sessions ++ s.cancelled }
