-- ===== src/Quota/Examples.antt =====
-- The quota cache at concrete times, in nanoseconds, with milliseconds as the text of a time.
use hmux.Base.{
  All, ℕ, ◌+◌, ◌*◌, ◌/◌, ◌<◌, ◌≤◌, ◌≡◌, refl, arith, Bool, true, false, none, some, ltb, List, [],
  ◌∷◌,
}
use hmux.Quota.Types.{
  codex, Env, Ticket, rate_limited, max_backoff, Snapshot, QuotaState, new, fetch, in_flight, ok,
  err,
}
use hmux.Quota.Cache.{
  begin, begin_current, begin_settled, begin_idle, begin_suspended, begin_fetch, switch_account,
  emit, degraded, cached_as, stale_good, retry_at, sticky,
}
use hmux.Quota.Results.{
  finish, settle, failure, succeed, stamp, answer_with, suspension, backoff, valid_success,
}
use hmux.Quota.Fetches.{begin_fetch-begin, is_discarded}
use hmux.Quota.Steps.{Call, begins, finishes, step, run}
use hmux.Quota.Sequence.{run-sequence}
use hmux.Quota.Suspension.{is_cached, waits, begin-finish_rate_limited}

abbrev millis : Env
millis = record {
  Text = ℕ;
  format_time = λ t. t / 1_000_000;
  text_lt = ltb;
  Rest = Unit;
  no_rest = tt;
  is_idle = λ r. true;
}

abbrev every : Snapshot millis → Bool
every s = true

abbrev second : ℕ
second = 1_000_000_000

abbrev ticket : Ticket
ticket = record { id = 1; account = some 7; started_at = second; seq = 1 }

abbrev fetching : QuotaState millis
fetching = (begin millis (new millis codex) (some 7) second).0

abbrev good : Snapshot millis
good = record {
  seq = 0;
  generated_at = 900;
  provider = codex;
  state = "ok";
  data_source = "api_only";
  quota_source = "oauth_api";
  stale = false;
  quota_observed_at = none;
  retry_at = none;
  rest = tt;
}

program : Unit {0}
unfolding step run new begin begin_current begin_settled begin_idle begin_suspended begin_fetch
    switch_account emit degraded cached_as stale_good retry_at sticky finish settle failure succeed
    stamp answer_with suspension backoff valid_success
program = tt

fetched : (begin millis (new millis codex) (some 7) second).1 ≡ fetch ticket
unfolding program
fetched = refl

-- A good snapshot is served stale while a later fetch is rate limited.
limited_serves_good :
    let s = (finish millis every fetching ticket (ok good) (2 * second)).0 in
    let (s', b) = begin millis s (some 7) (100 * second) in
    let t : Ticket = record { id = 2; account = some 7; started_at = 100 * second; seq = 2 } in
    let s'' = (finish millis every s' t (err (rate_limited none)) (101 * second)).0 in
    (b ≡ fetch t) × (is_cached millis every (begin millis s'' (some 7) (400 * second)).1 ≡ true)
unfolding program
limited_serves_good = (refl, refl)

begin_fetch-begin_example :
    (begin millis fetching (some 7) (3 * second) ≡ (fetching, in_flight))
    × (is_discarded millis every (finish millis every fetching ticket (ok good) (3 * second)).1
        ≡ false)
begin_fetch-begin_example =
    begin_fetch-begin millis every (new millis codex) ticket (some 7) (ok good) second (3 * second)
      fetched

fetching_flight : (fetching.flight ≡ some ticket) × (fetching.account ≡ some 7)
unfolding program
fetching_flight = (refl, refl)

soon : 360 * second < 2 * second + backoff (some (600 * second))
unfolding backoff
soon = omega arith

-- Six minutes, within the ten that the endpoint asks for, after a begin and a late result.
abbrev waiting : List (Call millis every)
waiting = begins (some 7) (100 * second) ∷ finishes ticket (ok good) (200 * second) ∷ []

waiting-waits :
    All (λ x. waits millis every 7 (2 * second + backoff (some (600 * second))) x ≡ true) waiting
unfolding backoff
waiting-waits = (refl, (refl, tt))

begin-finish_rate_limited_example :
    let s =
      run millis every
        (finish millis every fetching ticket
          (err (rate_limited (some (600 * second))))
          (2 * second)).0
        waiting in
    (is_cached millis every (begin millis s (some 7) (360 * second)).1 ≡ true)
    × (0 < backoff (some (600 * second)))
    × (backoff (some (600 * second)) ≤ max_backoff)
begin-finish_rate_limited_example =
    begin-finish_rate_limited millis every fetching ticket 7 (some (600 * second)) (2 * second)
      (360 * second) waiting fetching_flight.0 fetching_flight.1 refl waiting-waits soon

abbrev calls : List (Call millis every)
calls = begins (some 7) second ∷ []

abbrev first_good : Snapshot millis
first_good = record good { seq = 1; generated_at = 2000; quota_observed_at = some 900 }

abbrev next_good : Snapshot millis
next_good = record good { seq = 2; generated_at = 4000; quota_observed_at = some 900 }

sequence_first :
    (step millis every
      (run millis every (new millis codex) calls)
      (finishes ticket (ok good) (2 * second))).1
    ≡ some first_good
unfolding program
sequence_first = refl

sequence_next :
    let s = run millis every (new millis codex) calls in
    let s' = run millis every (step millis every s (finishes ticket (ok good) (2 * second))).0 [] in
    (step millis every s' (begins (some 7) (4 * second))).1 ≡ some next_good
unfolding program
sequence_next = refl

run-sequence_example : first_good.seq ≤ next_good.seq
run-sequence_example =
    run-sequence millis every codex calls [] (finishes ticket (ok good) (2 * second))
      (begins (some 7) (4 * second)) first_good next_good sequence_first sequence_next
