-- ===== src/Quota/Cache.antt =====
-- quota_state.rs: `begin` decides whether to fetch, and `finish` takes the result of a fetch.
use Prim.Native.String.{String}
use hmux.Base.{
  ℕ, ◌+◌, ◌-◌, ◌^◌, ◌%◌, Bool, true, false, not, ◌&&◌, Option, none, some, ltb, leb, ◌==◌, min,
  if◌then◌else◌,
}
use hmux.Quota.Types.{
  Provider, claude, codex, Env, Ticket, cache_ttl, sticky_ttl, i64_max, Snapshot, QuotaState, Begin,
  fetch, cached, in_flight,
}

abbrev pub same_provider : Provider → Provider → Bool
same_provider claude claude = true
same_provider codex codex = true
same_provider _ _ = false

abbrev pub same_account : Option ℕ → Option ℕ → Bool
same_account none none = true
same_account (some a) (some b) = a == b
same_account _ _ = false

abbrev pub same_ticket : Ticket → Ticket → Bool
same_ticket t u =
    t.id == u.id
    && same_account t.account u.account
    && t.started_at == u.started_at
    && t.seq == u.seq

abbrev pub is_flight : Option Ticket → Ticket → Bool
is_flight none t = false
is_flight (some f) t = same_ticket f t

abbrev pub is_some {ℓ} : {A : Type ℓ} → Option A → Bool
is_some none = false
is_some (some a) = true

-- now < until
abbrev pub before : ℕ → Option ℕ → Bool
before now none = false
before now (some until) = ltb now until

-- `now.signed_duration_since(at) < ttl`; a time after `now` is within any positive bound.
abbrev pub within : ℕ → ℕ → Option ℕ → Bool
within now ttl none = false
within now ttl (some at) = ltb (now - at) ttl

-- `saturating_add(1)` on an i64.
abbrev pub next_seq : ℕ → ℕ
next_seq n = min (n + 1) i64_max

module _ (e : Env) where
  open e use {Text, format_time, text_lt}

  -- A deadline in the future whose text is later too.
  unfoldable pub retry_at : ℕ → ℕ → Option Text
  retry_at deadline generated_at =
      if leb deadline generated_at
      then none
      else if text_lt (format_time generated_at) (format_time deadline)
      then some (format_time deadline)
      else none

  abbrev pub retry_of : Option ℕ → ℕ → Option Text
  retry_of none now = none
  retry_of (some until) now = retry_at until now

  abbrev pub degraded_snapshot : Provider → ℕ → ℕ → String → Snapshot e
  degraded_snapshot provider seq now state = record {
    seq = seq;
    generated_at = format_time now;
    provider = provider;
    state = state;
    data_source = "api_only";
    quota_source = "none";
    stale = true;
    quota_observed_at = none;
    retry_at = none;
    rest = e.no_rest;
  }

  unfoldable pub emit : QuotaState e → Snapshot e → ℕ → QuotaState e × Snapshot e
  emit s snap now =
      let snap' : Snapshot e = record snap {
        seq = next_seq s.seq;
        generated_at = format_time now;
      } in
      (record s { seq = next_seq s.seq; latest = some snap' }, snap')

  unfoldable pub degraded : QuotaState e → String → ℕ → Option Text → QuotaState e × Snapshot e
  degraded s state now retry = (
    record s { last_state = some state },
    record (degraded_snapshot s.provider s.seq now state) { retry_at = retry },
  )

  -- `begin` with a new key forgets all of the old account but the diagnostics and the counters.
  unfoldable pub switch_account : QuotaState e → Option ℕ → QuotaState e
  switch_account s key = if same_account s.account key then s else record s {
    account = key;
    flight = none;
    latest = none;
    last_fetch_at = none;
    last_good = none;
    suspended_until = none;
    last_state = none;
  }

  unfoldable pub sticky : Option (Snapshot e × ℕ) → ℕ → Option (Snapshot e)
  sticky none now = none
  sticky (some (good, at)) now = if within now sticky_ttl (some at) then some good else none

  unfoldable pub stale_good : Snapshot e → Option Text → Snapshot e
  stale_good good retry = record good { stale = true; retry_at = retry }

  unfoldable pub cached_as : QuotaState e × Snapshot e → QuotaState e × Begin e
  cached_as (s, snap) = (s, cached snap)

  -- While suspended: the last good snapshot if it is recent, else a degraded one.
  unfoldable pub begin_suspended : QuotaState e → ℕ → Option (Snapshot e) → QuotaState e × Begin e
  unfolding emit degraded stale_good cached_as
  begin_suspended s now (some good) =
      cached_as (emit s (stale_good good (retry_of s.suspended_until now)) now)
  begin_suspended s now none =
      let (s', snap) = degraded s "rateLimited" now (retry_of s.suspended_until now) in
      cached_as (emit s' snap now)

  unfoldable pub begin_fetch : QuotaState e → Option ℕ → ℕ → QuotaState e × Begin e
  begin_fetch s key now =
      let ticket : Ticket = record {
        id = (s.ticket_id + 1) % 2 ^ 64;
        account = key;
        started_at = now;
        seq = next_seq s.seq;
      } in
      (
        record s {
          seq = next_seq s.seq;
          ticket_id = (s.ticket_id + 1) % 2 ^ 64;
          flight = some ticket;
          last_fetch_at = some now;
          last_attempt = some now;
        },
        fetch ticket,
      )

  unfoldable pub begin_idle :
      QuotaState e → Option ℕ → ℕ → Bool → Option (Snapshot e) → QuotaState e × Begin e
  unfolding emit begin_suspended begin_fetch cached_as sticky
  begin_idle s key now suspended (some snap) = cached_as (emit s snap now)
  begin_idle s key now suspended none =
      if suspended then begin_suspended s now (sticky s.last_good now) else begin_fetch s key now

  abbrev pub is_suspended : QuotaState e → Option ℕ → ℕ → Bool
  is_suspended s key now = is_some key && before now s.suspended_until

  abbrev pub has_expired : QuotaState e → Option ℕ → ℕ → Bool
  has_expired s key now = is_some s.suspended_until && not (is_suspended s key now)

  abbrev pub without_expired : QuotaState e → Option ℕ → ℕ → QuotaState e
  without_expired s key now = record s {
    suspended_until = if has_expired s key now then none else s.suspended_until;
  }

  -- The cached snapshot, if it serves.
  abbrev pub fresh_latest : QuotaState e → Option ℕ → ℕ → Option (Snapshot e)
  fresh_latest s key now =
      if is_some key && not (has_expired s key now) && within now cache_ttl s.last_fetch_at
      then s.latest
      else none

  unfoldable pub begin_settled : QuotaState e → Option ℕ → ℕ → QuotaState e × Begin e
  unfolding begin_idle
  begin_settled s key now =
      begin_idle (without_expired s key now) key now (is_suspended s key now)
        (fresh_latest s key now)

  unfoldable pub begin_current : QuotaState e → Option ℕ → ℕ → QuotaState e × Begin e
  unfolding begin_settled
  begin_current s key now = if is_some s.flight then (s, in_flight) else begin_settled s key now

  unfoldable pub begin : QuotaState e → Option ℕ → ℕ → QuotaState e × Begin e
  unfolding begin_current switch_account
  begin s key now = begin_current (switch_account s key) key now
