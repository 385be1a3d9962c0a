-- ===== src/Quota/Results.antt =====
-- quota_state.rs: `finish` takes the result of a fetch and `failure` answers a failed one.
use Prim.Native.String.{String}
use text.Mathlib.Text.{◌==◌ as str_eq}
use hmux.Base.{ℕ, ◌+◌, Bool, true, false, not, ◌&&◌, Option, none, some, min, ◌==◌, if◌then◌else◌}
use hmux.Quota.Types.{
  Provider, claude, codex, Env, Ticket, Failure, credential_missing, credential_malformed,
  credential_io, unauthorized, rate_limited, network, server, contract, fallback_backoff,
  max_backoff, Snapshot, QuotaState, Finish, applied, rejected, discarded, Outcome, ok, err,
  Diagnostics,
}
use hmux.Quota.Cache.{same_provider, same_account, is_flight, is_some, retry_at, degraded, sticky}

abbrev pub auth_state : Provider → String
auth_state claude = "authExpired"
auth_state codex = "codexLoggedOut"

abbrev pub failure_state : Provider → Failure → String
failure_state p credential_missing = auth_state p
failure_state p credential_malformed = "quotaEndpointChanged"
failure_state p credential_io = "networkError"
failure_state p unauthorized = auth_state p
failure_state p (rate_limited after) = "rateLimited"
failure_state p network = "networkError"
failure_state p server = "networkError"
failure_state p contract = "quotaEndpointChanged"

abbrev pub failure_kind : Failure → String
failure_kind credential_missing = "credential_missing"
failure_kind credential_malformed = "credential_contract"
failure_kind credential_io = "credential_io"
failure_kind unauthorized = "auth_rejected"
failure_kind (rate_limited after) = "rate_limited"
failure_kind network = "network"
failure_kind server = "upstream_server"
failure_kind contract = "upstream_contract"

abbrev pub is_transient : Failure → Bool
is_transient credential_io = true
is_transient (rate_limited after) = true
is_transient network = true
is_transient server = true
is_transient _ = false

-- `retry_after`, at most a day; five minutes where it is absent or not positive.
unfoldable pub backoff : Option ℕ → ℕ
backoff none = fallback_backoff
backoff (some after) = if after == 0 then fallback_backoff else min after max_backoff

module _ (e : Env) where
  open e use {Text, format_time}

  -- The new suspension and the retry time of the answer.
  unfoldable pub suspension : QuotaState e → Failure → ℕ → Option ℕ × Option Text
  unfolding backoff retry_at
  suspension s (rate_limited after) now = (
    if is_some s.account then some (now + backoff after) else none,
    retry_at e (now + backoff after) now,
  )
  suspension s _ now = (s.suspended_until, none)

  unfoldable pub answer_with :
      QuotaState e → String → ℕ → Option Text → Option (Snapshot e) → QuotaState e × Snapshot e
  unfolding degraded
  answer_with s state now retry (some good) =
      (record s { last_state = some "ok" }, record good { stale = true; retry_at = retry })
  answer_with s state now retry none = degraded e s state now retry

  unfoldable pub stamp : QuotaState e × Snapshot e → ℕ → QuotaState e × Snapshot e
  stamp (s, snap) now =
      let snap' : Snapshot e = record snap { seq = s.seq; generated_at = format_time now } in
      (record s { latest = some snap' }, snap')

  abbrev pub sticky_for : QuotaState e → Failure → ℕ → Option (Snapshot e)
  sticky_for s f now =
      if is_transient f && is_some s.account then sticky e s.last_good now else none

  abbrev pub noted : QuotaState e → Failure → ℕ → QuotaState e
  noted s f now = record s {
    last_error = some now;
    last_error_kind = some (failure_kind f);
    suspended_until = (suspension s f now).0;
  }

  unfoldable pub failure : QuotaState e → Failure → ℕ → QuotaState e × Snapshot e
  unfolding suspension answer_with stamp sticky
  failure s f now =
      let s' = noted s f now in
      let retry = (suspension s f now).1 in
      stamp (answer_with s' (failure_state s.provider f) now retry (sticky_for s' f now)) now

  -- `valid` stands for transport::validate.
  unfoldable pub valid_success : (Snapshot e → Bool) → QuotaState e → Snapshot e → Bool
  valid_success valid s raw =
      same_provider raw.provider s.provider
      && str_eq raw.state "ok"
      && not raw.stale
      && str_eq raw.quota_source "oauth_api"
      && str_eq raw.data_source "api_only"
      && not (is_some raw.retry_at)
      && e.is_idle raw.rest
      && valid raw

  abbrev pub observed_at : Option Text → Text → Option Text
  observed_at none generated = some generated
  observed_at (some t) generated = some t

  unfoldable pub succeed : QuotaState e → Ticket → Snapshot e → ℕ → QuotaState e × Finish e
  succeed s t raw now =
      let snap : Snapshot e = record raw {
        quota_observed_at = observed_at raw.quota_observed_at raw.generated_at;
        seq = t.seq;
        generated_at = format_time now;
        retry_at = none;
      } in
      (
        record s {
          latest = some snap;
          last_good = some (snap, now);
          suspended_until = none;
          last_success = some now;
          last_state = some "ok";
        },
        applied snap,
      )

  abbrev pub finish_as :
      (Snapshot e → Finish e) → QuotaState e × Snapshot e → QuotaState e × Finish e
  finish_as result (s, snap) = (s, result snap)

  unfoldable pub settle :
      (Snapshot e → Bool) → QuotaState e → Ticket → Outcome e → ℕ → QuotaState e × Finish e
  unfolding failure valid_success succeed
  settle valid s t (ok raw) now =
      if valid_success valid s raw
      then succeed s t raw now
      else finish_as rejected (failure s contract now)
  settle valid s t (err f) now = finish_as applied (failure s f now)

  unfoldable pub finish :
      (Snapshot e → Bool) → QuotaState e → Ticket → Outcome e → ℕ → QuotaState e × Finish e
  unfolding settle
  finish valid s t result now =
      if is_flight s.flight t && same_account s.account t.account
      then settle valid (record s { flight = none }) t result now
      else (s, discarded)

  abbrev text_of : Option ℕ → Option Text
  text_of none = none
  text_of (some at) = some (format_time at)

  unfoldable pub diagnostics : QuotaState e → Diagnostics e
  diagnostics s = record {
    observed = is_some s.latest;
    state = s.last_state;
    last_quota_attempt_at = text_of s.last_attempt;
    last_quota_success_at = text_of s.last_success;
    last_quota_error_at = text_of s.last_error;
    last_quota_error_kind = s.last_error_kind;
  }
