-- ===== src/Quota/Fetches.antt =====
-- quota_state.rs: the tickets: a fetch is begun once and finished once, for the account it was begun for.
use Prim.Native.String.{String}
use hmux.Base.{ap, sym, ◌∙◌, ℕ, ◌≡◌, refl, arith, Bool, true, false, ◌&&◌, Option, none, some}
use hmux.Quota.Types.{
  Env, Ticket, Failure, Snapshot, QuotaState, contract, fetch, in_flight, Finish, discarded,
  Outcome, ok, err,
}
use hmux.Quota.Cache.{
  same_account, same_ticket, is_suspended, without_expired, fresh_latest, is_flight, begin,
  begin_current, begin_settled, begin_idle, begin_suspended, begin_fetch, switch_account, emit,
  degraded, cached_as,
}
use hmux.Quota.Results.{
  finish, settle, failure, succeed, stamp, answer_with, suspension, sticky_for, failure_state,
  noted,
}

pub same_account-eq : (a b : Option ℕ) → same_account a b ≡ true → a ≡ b
same_account-eq none none h = refl
same_account-eq none (some b) h = ground arith
same_account-eq (some a) none h = ground arith
same_account-eq (some a) (some b) h = ground arith

pub same_account_refl : (a : Option ℕ) → same_account a a ≡ true
same_account_refl none = refl
same_account_refl (some a) = ground arith

pub same_ticket_refl : (t : Ticket) → same_ticket t t ≡ true
same_ticket_refl t = ground (arith, same_account_refl t.account)

module _ (e : Env) (valid : Snapshot e → Bool) where
  open e use {Text}

  abbrev pub KeepsFlight : QuotaState e → QuotaState e → Type 0
  KeepsFlight s s' = (s'.flight ≡ s.flight) × (s'.account ≡ s.account)

  answer_with-keeps :
      (s : QuotaState e) (state : String) (now : ℕ) (r : Option Text) (g : Option (Snapshot e))
      → KeepsFlight s (answer_with e s state now r g).0
        × ((answer_with e s state now r g).0.suspended_until ≡ s.suspended_until)
  unfolding answer_with degraded
  answer_with-keeps s state now r none = ((refl, refl), refl)
  answer_with-keeps s state now r (some g) = ((refl, refl), refl)

  pub failure-keeps :
      (s : QuotaState e) (f : Failure) (now : ℕ)
      → KeepsFlight s (failure e s f now).0
        × ((failure e s f now).0.suspended_until ≡ (suspension e s f now).0)
  unfolding failure stamp
  failure-keeps s f now =
      answer_with-keeps (noted e s f now) (failure_state s.provider f) now (suspension e s f now).1
        (sticky_for e (noted e s f now) f now)

  settle-keeps :
      (s : QuotaState e) (t : Ticket) (r : Outcome e) (now : ℕ)
      → KeepsFlight s (settle e valid s t r now).0
  unfolding settle succeed
  settle-keeps s t (ok raw) now = ground (arith, failure-keeps s contract now)
  settle-keeps s t (err f) now = (failure-keeps s f now).0

  begin_idle-account :
      (s : QuotaState e) (key : Option ℕ) (now : ℕ) (b : Bool) (l : Option (Snapshot e))
      → (begin_idle e s key now b l).0.account ≡ s.account
  unfolding begin_idle begin_suspended begin_fetch emit degraded cached_as
  begin_idle-account s key now b (some l) = refl
  begin_idle-account s key now b none = ground arith

  begin_current-account :
      (s : QuotaState e) (key : Option ℕ) (now : ℕ)
      → (begin_current e s key now).0.account ≡ s.account
  unfolding begin_current begin_settled
  begin_current-account s key now = ground (
    arith,
    begin_idle-account (without_expired e s key now) key now (is_suspended e s key now)
        (fresh_latest e s key now),
  )

  switch_account-account :
      (s : QuotaState e) (key : Option ℕ) → (switch_account e s key).account ≡ key
  unfolding switch_account
  switch_account-account s key = ground (arith, same_account-eq s.account key)

  begin-account :
      (s : QuotaState e) (key : Option ℕ) (now : ℕ) → (begin e s key now).0.account ≡ key
  unfolding begin
  begin-account s key now =
      begin_current-account (switch_account e s key) key now ∙ switch_account-account s key

  finish_other :
      (s : QuotaState e) (t : Ticket) (r : Outcome e) (now : ℕ)
      → is_flight s.flight t && same_account s.account t.account ≡ false
      → finish e valid s t r now ≡ (s, discarded)
  unfolding finish
  finish_other s t r now h = ground arith

  -- After a ticket was finished once, whatever came of it, a second finish of it is discarded and changes
  -- nothing.
  finish-finish :
      (s : QuotaState e) (t : Ticket) (r r' : Outcome e) (now now' : ℕ)
      → let s' = (finish e valid s t r now).0 in finish e valid s' t r' now' ≡ (s', discarded)
  unfolding finish
  finish-finish s t r r' now now' =
      ground (arith, settle-keeps (record s { flight = none }) t r now)

  -- After a begin with a key, the result of a ticket of another key is discarded and changes nothing.
  finish-begin_other :
      (s : QuotaState e) (key : Option ℕ) (t : Ticket) (r : Outcome e) (now now' : ℕ)
      → same_account key t.account ≡ false
      → let s' = (begin e s key now).0 in finish e valid s' t r now' ≡ (s', discarded)
  finish-begin_other s key t r now now' h =
      finish_other (begin e s key now).0 t r now' (ground (arith, begin-account s key now))

  abbrev pub IsIssued : QuotaState e → Ticket → Option ℕ → Type 0
  IsIssued s t key = (s.flight ≡ some t) × (t.account ≡ key)

  begin_idle-IsIssued :
      (s : QuotaState e) (t : Ticket) (key : Option ℕ) (now : ℕ) (b : Bool)
      (l : Option (Snapshot e))
      → (begin_idle e s key now b l).1 ≡ fetch t
      → IsIssued (begin_idle e s key now b l).0 t key
  unfolding begin_idle begin_suspended begin_fetch emit degraded cached_as
  begin_idle-IsIssued s t key now b (some l) h = absurd (ground arith)
  begin_idle-IsIssued s t key now b none h = (ground arith, ground arith)

  begin_current-IsIssued :
      (s : QuotaState e) (t : Ticket) (key : Option ℕ) (now : ℕ)
      → (begin_current e s key now).1 ≡ fetch t
      → IsIssued (begin_current e s key now).0 t key
  unfolding begin_current begin_settled
  begin_current-IsIssued s t key now h = ground (
    arith,
    begin_idle-IsIssued (without_expired e s key now) t key now (is_suspended e s key now)
        (fresh_latest e s key now),
  )

  begin-IsIssued :
      (s : QuotaState e) (t : Ticket) (key : Option ℕ) (now : ℕ)
      → (begin e s key now).1 ≡ fetch t
      → IsIssued (begin e s key now).0 t key
  unfolding begin
  begin-IsIssued s t key now h = begin_current-IsIssued (switch_account e s key) t key now h

  begin_in_flight :
      (s : QuotaState e) (t : Ticket) (now : ℕ)
      → s.flight ≡ some t
      → begin e s s.account now ≡ (s, in_flight)
  unfolding begin begin_current switch_account
  begin_in_flight s t now f = ground (arith, same_account_refl s.account)

  abbrev pub is_discarded : Finish e → Bool
  is_discarded discarded = true
  is_discarded _ = false

  settle_applied :
      (s : QuotaState e) (t : Ticket) (r : Outcome e) (now : ℕ)
      → is_discarded (settle e valid s t r now).1 ≡ false
  unfolding settle succeed
  settle_applied s t (ok raw) now = ground arith
  settle_applied s t (err f) now = refl

  finish_issued :
      (s : QuotaState e) (t : Ticket) (r : Outcome e) (now : ℕ)
      → s.flight ≡ some t
      → t.account ≡ s.account
      → is_discarded (finish e valid s t r now).1 ≡ false
  unfolding finish
  finish_issued s t r now f a = ground (
    arith,
    same_ticket_refl t,
    same_account_refl s.account,
    settle_applied (record s { flight = none }) t r now,
  )

  -- After a begin that says to fetch, every further begin with the same key reports the fetch in flight and
  -- changes nothing, and a finish of the ticket is not discarded.
  pub begin_fetch-begin :
      (s : QuotaState e) (t : Ticket) (key : Option ℕ) (r : Outcome e) (now now' : ℕ)
      → (begin e s key now).1 ≡ fetch t
      → let s' = (begin e s key now).0 in
        (begin e s' key now' ≡ (s', in_flight))
        × (is_discarded (finish e valid s' t r now').1 ≡ false)
  begin_fetch-begin s t key r now now' h =
      let s' = (begin e s key now).0 in
      let (f, k) = begin-IsIssued s t key now h in
      let a = begin-account s key now in
      (
        ap (λ k. begin e s' k now') (sym a) ∙ begin_in_flight s' t now' f,
        finish_issued s' t r now' f (k ∙ sym a),
      )
