-- ===== src/Quota/Suspension.antt =====
-- quota_state.rs: the suspension after a rate limit.
use hmux.Base.{
  ℕ, ◌+◌, ◌≤◌, ◌<◌, ◌≡◌, refl, arith, Bool, true, false, Option, none, some, List, [], ◌∷◌, All,
  Option-cases, inl, inr, ◌&&◌, ltb, subst, sym,
}
use hmux.Quota.Steps.{Call, begins, finishes, step, run}
use hmux.Quota.Types.{
  Env, Ticket, rate_limited, Snapshot, QuotaState, Begin, max_backoff, cached, err,
}
use hmux.Quota.Cache.{
  without_expired, fresh_latest, begin, begin_current, begin_settled, begin_idle, begin_suspended,
  switch_account, emit, sticky, same_account, degraded, cached_as,
}
use hmux.Quota.Results.{finish, settle, suspension, backoff}
use hmux.Quota.Fetches.{same_account_refl, same_ticket_refl, same_account-eq, failure-keeps}

backoff-bounds : (after : Option ℕ) → (0 < backoff after) × (backoff after ≤ max_backoff)
unfolding backoff
backoff-bounds none = (omega arith, omega arith)
backoff-bounds (some a) = (ground arith, ground arith)

module _ (e : Env) (valid : Snapshot e → Bool) where
  abbrev pub is_cached : Begin e → Bool
  is_cached (cached s) = true
  is_cached _ = false

  begin_idle-cached :
      (s : QuotaState e) (key : Option ℕ) (now : ℕ) (l : Option (Snapshot e))
      → is_cached (begin_idle e s key now true l).1 ≡ true
  unfolding begin_idle begin_suspended emit degraded cached_as
  begin_idle-cached s key now (some l) = refl
  begin_idle-cached s key now none = ground arith

  begin_suspended_lem :
      (s : QuotaState e) (key : ℕ) (now until : ℕ)
      → s.account ≡ some key
      → s.flight ≡ none
      → s.suspended_until ≡ some until
      → now < until
      → is_cached (begin e s (some key) now).1 ≡ true
  unfolding begin begin_current begin_settled switch_account
  begin_suspended_lem s key now until a f u h = ground (
    arith,
    same_account_refl (some key),
    begin_idle-cached (without_expired e s (some key) now) (some key) now
        (fresh_latest e s (some key) now),
  )

  finish_rate_limited :
      (s : QuotaState e) (t : Ticket) (key : ℕ) (after : Option ℕ) (now : ℕ)
      → s.flight ≡ some t
      → s.account ≡ some key
      → t.account ≡ some key
      → let s' = (finish e valid s t (err (rate_limited after)) now).0 in
        (s'.account ≡ some key)
        × (s'.flight ≡ none)
        × (s'.suspended_until ≡ some (now + backoff after))
  unfolding finish settle suspension
  finish_rate_limited s t key after now f a b =
      let k = failure-keeps e valid (record s { flight = none }) (rate_limited after) now in
      (
        ground (arith, k, same_account_refl (some key), same_ticket_refl t),
        ground (arith, k, same_account_refl (some key), same_ticket_refl t),
        ground (arith, k, same_account_refl (some key), same_ticket_refl t),
      )

  -- The account is suspended and has no fetch in flight.
  abbrev Suspended : ℕ → ℕ → QuotaState e → Type 0
  Suspended key until s =
      (s.account ≡ some key) × (s.flight ≡ none) × (s.suspended_until ≡ some until)

  begin_idle-Suspended :
      (s : QuotaState e) (key until now : ℕ) (l : Option (Snapshot e))
      → Suspended key until s
      → Suspended key until (begin_idle e s (some key) now true l).0
  unfolding begin_idle begin_suspended emit degraded cached_as
  begin_idle-Suspended s key until now (some l) h = h
  begin_idle-Suspended s key until now none h = elim (Option-cases (sticky e s.last_good now)) [
    | inl gone ↦ rw gone h
    | inr (good, there) ↦ rw there h
  ]

  begin-Suspended :
      (s : QuotaState e) (key until now : ℕ)
      → Suspended key until s
      → now < until
      → Suspended key until (begin e s (some key) now).0
  unfolding begin begin_current begin_settled switch_account
  begin-Suspended s key until now (a, f, u) h =
      let kept : Suspended key until (without_expired e s (some key) now) = (a, f, ground arith) in
      let idle =
        begin_idle-Suspended (without_expired e s (some key) now) key until now
          (fresh_latest e s (some key) now) kept in
      (
        ground (arith, same_account_refl (some key), idle),
        ground (arith, same_account_refl (some key), idle),
        ground (arith, same_account_refl (some key), idle),
      )

  -- Calls that begin for the account before the suspension ends; late results may come too.
  abbrev pub waits : ℕ → ℕ → Call e valid → Bool
  waits key until (begins k now) = same_account k (some key) && ltb now until
  waits key until (finishes t r now) = true

  step-Suspended :
      (s : QuotaState e) (key until : ℕ) (x : Call e valid)
      → waits key until x ≡ true
      → Suspended key until s
      → Suspended key until (step e valid s x).0
  unfolding step finish
  step-Suspended s key until (begins k now) w h =
      let same : k ≡ some key = same_account-eq k (some key) (ground (arith, w)) in
      subst (λ j. Suspended key until (begin e s j now).0) (sym same)
        (begin-Suspended s key until now h (ground (arith, w)))
  step-Suspended s key until (finishes t r now) w (a, f, u) = ground (arith, f, a, u)

  run-Suspended :
      (s : QuotaState e) (key until : ℕ) (xs : List (Call e valid))
      → All (λ x. waits key until x ≡ true) xs
      → Suspended key until s
      → Suspended key until (run e valid s xs)
  unfolding run
  run-Suspended s key until [] w h = h
  run-Suspended s key until (x ∷ xs) w h =
      run-Suspended (step e valid s x).0 key until xs w.1 (step-Suspended s key until x w.0 h)

  -- When a ticket of the account is finished with a rate limit, a begin for the account before the
  -- backoff has passed serves a snapshot instead of fetching, also after any results and other such
  -- begins, as long as no begin comes for another account or for none. The backoff is positive and at
  -- most a day.
  pub begin-finish_rate_limited :
      (s : QuotaState e) (t : Ticket) (key : ℕ) (after : Option ℕ) (now now' : ℕ)
      (calls : List (Call e valid))
      → s.flight ≡ some t
      → s.account ≡ some key
      → t.account ≡ some key
      → All (λ x. waits key (now + backoff after) x ≡ true) calls
      → now' < now + backoff after
      → let s' = run e valid (finish e valid s t (err (rate_limited after)) now).0 calls in
        is_cached (begin e s' (some key) now').1 ≡ true
        × (0 < backoff after)
        × (backoff after ≤ max_backoff)
  begin-finish_rate_limited s t key after now now' calls f a b w h =
      let until : ℕ = now + backoff after in
      let s' = run e valid (finish e valid s t (err (rate_limited after)) now).0 calls in
      let (x, y, z) =
        run-Suspended (finish e valid s t (err (rate_limited after)) now).0 key until calls w
          (finish_rate_limited s t key after now f a b) in
      let (p, q) = backoff-bounds after in (begin_suspended_lem s' key now' until x y z h, p, q)
