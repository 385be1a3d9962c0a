-- ===== src/Quota/Steps.antt =====
-- quota_state.rs: the calls on a cache one after another, and the numbers of tickets and snapshots.
use hmux.Base.{ℕ, ◌≤◌, ◌≡◌, Bool, List, [], ◌∷◌, Option, none, some}
use hmux.Quota.Types.{
  Env, Ticket, Snapshot, QuotaState, i64_max, Begin, cached, Finish, applied, rejected, discarded,
  Outcome,
}
use hmux.Quota.Cache.{begin}
use hmux.Quota.Results.{finish}

module _ (e : Env) (valid : Snapshot e → Bool) where
  pub data Call : Type 0 where
    begins : Option ℕ → ℕ → Call
    finishes : Ticket → Outcome e → ℕ → Call

  abbrev pub begun : Begin e → Option (Snapshot e)
  begun (cached s) = some s
  begun _ = none

  abbrev pub finished : Finish e → Option (Snapshot e)
  finished (applied s) = some s
  finished (rejected s) = some s
  finished discarded = none

  -- The state after a call, and the snapshot that the call returns.
  unfoldable pub step : QuotaState e → Call → QuotaState e × Option (Snapshot e)
  step s (begins key now) = let (s', b) = begin e s key now in (s', begun b)
  step s (finishes t r now) = let (s', f) = finish e valid s t r now in (s', finished f)

  unfoldable pub run : QuotaState e → List Call → QuotaState e
  unfolding step
  run s [] = s
  run s (c ∷ cs) = run (step s c).0 cs

  abbrev pub Issues : ℕ → Option Ticket → Type 0
  Issues n none = Unit {0}
  Issues n (some t) = t.seq ≡ n

  abbrev pub Carries : ℕ → Option (Snapshot e) → Type 0
  Carries n none = Unit {0}
  Carries n (some s) = s.seq ≡ n

  -- The ticket in flight has the last number, numbers fit an i64.
  pub record IsValid (s : QuotaState e) : Type 0 where
    pub issued : Issues s.seq s.flight
    pub bounded : s.seq ≤ i64_max

  -- `s'` follows `s` with the snapshot `o`.
  abbrev pub Advances : QuotaState e → QuotaState e → Option (Snapshot e) → Type 0
  Advances s s' o = (s.seq ≤ s'.seq) × Carries s'.seq o × IsValid s'
