-- ===== src/Quota/Sequence.antt =====
-- quota_state.rs: the sequence numbers of the snapshots over a run of calls.
use Prim.Native.String.{String}
use hmux.Base.{
  if_lem, ◌&&◌, sym, ◌∙◌, ℕ, ◌≤◌, ◌≡◌, refl, arith, Bool, true, false, List, [], ◌∷◌, Option, none,
  some,
}
use hmux.Quota.Types.{
  Provider, Env, Ticket, Failure, contract, Snapshot, QuotaState, new, i64_max, Begin, Finish,
  Outcome, ok, err,
}
use hmux.Quota.Cache.{
  begin, begin_current, begin_settled, begin_idle, begin_suspended, begin_fetch, switch_account,
  emit, degraded, cached_as, is_suspended, without_expired, fresh_latest, sticky, is_flight,
  is_some, same_account,
}
use hmux.Quota.Results.{
  finish, settle, failure, succeed, stamp, answer_with, suspension, noted, failure_state,
  sticky_for, valid_success,
}
use hmux.Quota.Steps.{
  Call, begins, finishes, begun, finished, step, run, Issues, Carries, IsValid, Advances,
}

module _ (e : Env) (valid : Snapshot e → Bool) where
  answer_with-seq :
      (s : QuotaState e) (state : String) (now : ℕ) (r : Option e.Text) (g : Option (Snapshot e))
      → ((answer_with e s state now r g).0.seq ≡ s.seq)
        × ((answer_with e s state now r g).0.flight ≡ s.flight)
  unfolding answer_with degraded
  answer_with-seq s state now r none = (refl, refl)
  answer_with-seq s state now r (some g) = (refl, refl)

  failure-seq :
      (s : QuotaState e) (f : Failure) (now : ℕ)
      → ((failure e s f now).0.seq ≡ s.seq)
        × ((failure e s f now).0.flight ≡ s.flight)
        × ((failure e s f now).1.seq ≡ s.seq)
  unfolding failure stamp
  failure-seq s f now =
      let (p, q) =
        answer_with-seq (noted e s f now) (failure_state s.provider f) now (suspension e s f now).1
          (sticky_for e (noted e s f now) f now) in
      (p, q, p)

  Issues-none : (n : ℕ) (o : Option Ticket) → o ≡ none → Issues e valid n o
  Issues-none n none h = tt
  Issues-none n (some t) h = absurd (ground arith)

  settled-IsValid : (s : QuotaState e) → s.flight ≡ none → s.seq ≤ i64_max → IsValid e valid s
  settled-IsValid s h b = record { issued = Issues-none s.seq s.flight h; bounded = b }

  emit-Advances :
      (s : QuotaState e) (snap : Snapshot e) (now : ℕ)
      → IsValid e valid s
      → s.flight ≡ none
      → Advances e valid s (emit e s snap now).0 (some (emit e s snap now).1)
  unfolding emit
  emit-Advances s snap now v h =
      (ground (arith, v.bounded), refl, settled-IsValid _ h (omega arith))

  begin_suspended-Advances :
      (s : QuotaState e) (now : ℕ) (g : Option (Snapshot e))
      → IsValid e valid s
      → s.flight ≡ none
      → let r = begin_suspended e s now g in Advances e valid s r.0 (begun e valid r.1)
  unfolding begin_suspended degraded cached_as emit
  begin_suspended-Advances s now none v h =
      (ground (arith, v.bounded), refl, settled-IsValid _ h (omega arith))
  begin_suspended-Advances s now (some g) v h =
      (ground (arith, v.bounded), refl, settled-IsValid _ h (omega arith))

  begin_idle-Advances :
      (s : QuotaState e) (key : Option ℕ) (now : ℕ) (b : Bool) (l : Option (Snapshot e))
      → IsValid e valid s
      → s.flight ≡ none
      → let r = begin_idle e s key now b l in Advances e valid s r.0 (begun e valid r.1)
  unfolding begin_idle begin_suspended begin_fetch emit degraded cached_as
  begin_idle-Advances s key now b (some l) v h = emit-Advances s l now v h
  begin_idle-Advances s key now true none v h =
      begin_suspended-Advances s now (sticky e s.last_good now) v h
  begin_idle-Advances s key now false none v h =
      (ground (arith, v.bounded), tt, record { issued = refl; bounded = omega arith })

  is_some-none : (o : Option Ticket) → is_some o ≡ false → o ≡ none
  is_some-none none h = refl
  is_some-none (some t) h = absurd (ground arith)

  begin_current-Advances :
      (s : QuotaState e) (key : Option ℕ) (now : ℕ)
      → IsValid e valid s
      → let r = begin_current e s key now in Advances e valid s r.0 (begun e valid r.1)
  unfolding begin_current begin_settled
  begin_current-Advances s key now v =
      if_lem (λ (r : QuotaState e × Begin e). Advances e valid s r.0 (begun e valid r.1))
        (is_some s.flight) (λ h. (omega arith, tt, v))
        (λ h.
          begin_idle-Advances (without_expired e s key now) key now (is_suspended e s key now)
            (fresh_latest e s key now) (record { issued = v.issued; bounded = v.bounded })
            (is_some-none s.flight h))

  switch_account-IsValid :
      (s : QuotaState e) (key : Option ℕ)
      → IsValid e valid s
      → ((switch_account e s key).seq ≡ s.seq) × IsValid e valid (switch_account e s key)
  unfolding switch_account
  switch_account-IsValid s key v =
      if_lem (λ r. (r.seq ≡ s.seq) × IsValid e valid r) (same_account s.account key)
        (λ h. (refl, v)) (λ h. (refl, record { issued = tt; bounded = v.bounded }))

  issued_seq :
      (n : ℕ) (o : Option Ticket) (t : Ticket)
      → is_flight o t ≡ true
      → Issues e valid n o
      → t.seq ≡ n
  issued_seq n none t h i = absurd (ground arith)
  issued_seq n (some f) t h i = ground arith

  settle-Advances :
      (s : QuotaState e) (t : Ticket) (r : Outcome e) (now : ℕ)
      → s.flight ≡ none
      → s.seq ≤ i64_max
      → t.seq ≡ s.seq
      → let q = settle e valid s t r now in Advances e valid s q.0 (finished e valid q.1)
  unfolding settle succeed
  settle-Advances s t (ok raw) now h b q =
      if_lem (λ (q : QuotaState e × Finish e). Advances e valid s q.0 (finished e valid q.1))
        (valid_success e valid s raw) (λ c. (omega arith, q, settled-IsValid _ h b))
        (λ c.
          let (x, y, z) = failure-seq s contract now in
          (
            omega (arith, x),
            z ∙ sym x,
            settled-IsValid (failure e s contract now).0 (y ∙ h) (omega (arith, x, b)),
          ))
  settle-Advances s t (err f) now h b q =
      let (x, y, z) = failure-seq s f now in
      (
        omega (arith, x),
        z ∙ sym x,
        settled-IsValid (failure e s f now).0 (y ∙ h) (omega (arith, x, b)),
      )

  finish-Advances :
      (s : QuotaState e) (t : Ticket) (r : Outcome e) (now : ℕ)
      → IsValid e valid s
      → let q = finish e valid s t r now in Advances e valid s q.0 (finished e valid q.1)
  unfolding finish
  finish-Advances s t r now v =
      if_lem (λ (q : QuotaState e × Finish e). Advances e valid s q.0 (finished e valid q.1))
        (is_flight s.flight t && same_account s.account t.account)
        (λ h.
          settle-Advances (record s { flight = none }) t r now refl v.bounded
            (issued_seq s.seq s.flight t (ground arith) v.issued))
        (λ h. (omega arith, tt, v))

  step-Advances :
      (s : QuotaState e) (c : Call e valid)
      → IsValid e valid s
      → Advances e valid s (step e valid s c).0 (step e valid s c).1
  unfolding step begin
  step-Advances s (begins key now) v =
      let (x, w) = switch_account-IsValid s key v in
      let (a, b, d) = begin_current-Advances (switch_account e s key) key now w in
      (omega (arith, x, a), b, d)
  step-Advances s (finishes t r now) v = finish-Advances s t r now v

  run-Advances :
      (s : QuotaState e) (cs : List (Call e valid))
      → IsValid e valid s
      → (s.seq ≤ (run e valid s cs).seq) × IsValid e valid (run e valid s cs)
  unfolding run
  run-Advances s [] v = (omega arith, v)
  run-Advances s (c ∷ cs) v =
      let (a, b, w) = step-Advances s c v in
      let (x, y) = run-Advances (step e valid s c).0 cs w in (omega (arith, a, x), y)

  carried :
      (n : ℕ) (o : Option (Snapshot e)) (x : Snapshot e)
      → o ≡ some x
      → Carries e valid n o
      → x.seq ≡ n
  carried n none x h c = absurd (ground arith)
  carried n (some y) x h c = ground arith

  new-IsValid : (p : Provider) → IsValid e valid (new e p)
  unfolding new
  new-IsValid p = record { issued = tt; bounded = omega arith }

  -- In every run of a new cache, whatever the keys and the results, the snapshots that the calls return
  -- have sequence numbers that never decrease.
  pub run-sequence :
      (p : Provider) (cs ds : List (Call e valid)) (c d : Call e valid) (x y : Snapshot e)
      → (step e valid (run e valid (new e p) cs) c).1 ≡ some x
      → (step e valid (run e valid (step e valid (run e valid (new e p) cs) c).0 ds) d).1 ≡ some y
      → x.seq ≤ y.seq
  run-sequence p cs ds c d x y hx hy =
      let (k, v) = run-Advances (new e p) cs (new-IsValid p) in
      let s = run e valid (new e p) cs in
      let (a, b, w) = step-Advances s c v in
      let (m, u) = run-Advances (step e valid s c).0 ds w in
      let s' = run e valid (step e valid s c).0 ds in
      let (a', b', w') = step-Advances s' d u in
      let ex = carried (step e valid s c).0.seq (step e valid s c).1 x hx b in
      let ey = carried (step e valid s' d).0.seq (step e valid s' d).1 y hy b' in
      omega (arith, ex, ey, m, a')
