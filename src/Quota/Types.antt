-- ===== src/Quota/Types.antt =====
-- The types of quota_state.rs, and of the part of model.rs that the cache reads and writes.
use Prim.Native.String.{String}
use hmux.Base.{ℕ, ◌-◌, ◌^◌, Bool, Option, none}

pub data Provider : Type 0 where
  claude codex : Provider

-- `format_time` is chrono's text of a time in milliseconds and `text_lt` the order of such texts.
-- `Rest` is the rest of a snapshot, `no_rest` that of a degraded one, and `is_idle` says that a rest
-- has no accounts, sources, burn rate or activity.
pub record Env : Type 1 where
  pub Text : Type 0
  pub format_time : ℕ → Text
  pub text_lt : Text → Text → Bool
  pub Rest : Type 0
  pub no_rest : Rest
  pub is_idle : Rest → Bool

pub record Ticket : Type 0 where
  pub id : ℕ
  pub account : Option ℕ
  pub started_at : ℕ
  pub seq : ℕ

pub data Failure : Type 0 where
  credential_missing credential_malformed credential_io unauthorized : Failure
  rate_limited : Option ℕ → Failure
  network server contract : Failure

abbrev pub cache_ttl : ℕ
cache_ttl = 60_000_000_000

abbrev pub sticky_ttl : ℕ
sticky_ttl = 600_000_000_000

abbrev pub fallback_backoff : ℕ
fallback_backoff = 300_000_000_000

-- 24 hours.
abbrev pub max_backoff : ℕ
max_backoff = 86_400_000_000_000

abbrev pub i64_max : ℕ
i64_max = 2 ^ 63 - 1

module _ (e : Env) where
  open e use {Text, Rest}

  pub record Snapshot : Type 0 where
    pub seq : ℕ
    pub generated_at : Text
    pub provider : Provider
    pub state : String
    pub data_source : String
    pub quota_source : String
    pub stale : Bool
    pub quota_observed_at : Option Text
    pub retry_at : Option Text
    pub rest : Rest

  pub record QuotaState : Type 0 where
    pub provider : Provider
    pub account : Option ℕ
    pub seq : ℕ
    pub ticket_id : ℕ
    pub flight : Option Ticket
    pub latest : Option Snapshot
    pub last_fetch_at : Option ℕ
    pub last_good : Option (Snapshot × ℕ)
    pub suspended_until : Option ℕ
    pub last_attempt : Option ℕ
    pub last_success : Option ℕ
    pub last_error : Option ℕ
    pub last_error_kind : Option String
    pub last_state : Option String

  unfoldable pub new : Provider → QuotaState
  new provider = record {
    provider = provider;
    account = none;
    seq = 0;
    ticket_id = 0;
    flight = none;
    latest = none;
    last_fetch_at = none;
    last_good = none;
    suspended_until = none;
    last_attempt = none;
    last_success = none;
    last_error = none;
    last_error_kind = none;
    last_state = none;
  }

  pub data Begin : Type 0 where
    fetch : Ticket → Begin
    cached : Snapshot → Begin
    in_flight : Begin

  pub data Finish : Type 0 where
    applied rejected : Snapshot → Finish
    discarded : Finish

  -- Result<Snapshot, Failure>
  pub data Outcome : Type 0 where
    ok : Snapshot → Outcome
    err : Failure → Outcome

  pub record Diagnostics : Type 0 where
    pub observed : Bool
    pub state : Option String
    pub last_quota_attempt_at : Option Text
    pub last_quota_success_at : Option Text
    pub last_quota_error_at : Option Text
    pub last_quota_error_kind : Option String
