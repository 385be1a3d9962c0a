-- ===== src/Workflow/Runs.antt =====
-- workflow.rs: sequences of calls of the store, and what the file holds after them.
use hmux.Base.{
  ℕ, ◌≡◌, refl, sym, subst, arith, Bool, true, false, ◌&&◌, Option, none, some, List, [], ◌∷◌,
  if_lem, ◌⊎◌, inl, inr, ◌∙◌, not,
}
use hmux.Base.Eq.{Bytes}
use hmux.Model.Ids.{SessionIdentity}
use hmux.Workflow.Types.{Env, State, Error, Result, ok, err, binding_valid, opaque}
use hmux.Workflow.Hooks.{HookEvent, Report, event_valid, record_hook, record_report}
use hmux.Workflow.Update.{
  WriteError, Directory, Turn, store_hook, store_report, refreshed, first_read, pruned_once,
  under_lock, reread, pruned_again, refreshed_bytes, refreshed_write, report_status,
}
use hmux.Workflow.Files.{read, valid, bytes}
use hmux.Workflow.Writes.{
  Laws, Holds, Did, Stays, update-Did, Did-Holds, FitsResult, fit-Fits, Wrote, write-Wrote,
}

-- `show` is the pruning of `apply`.
pub data Call : Type 0 where
  hook : Turn → SessionIdentity → HookEvent → Call
  report : Turn → SessionIdentity → Bytes → Report → Call
  show : Turn → Call

module _ (e : Env) (f : Directory) where
  unfoldable pub step : f.Dir → Call → f.Dir
  step dir (hook turn binding v) = (store_hook e f dir turn binding v).0
  step dir (report turn binding created r) = (store_report e f dir turn binding created r).0
  step dir (show turn) = (refreshed e f dir dir turn).0

  unfoldable pub run : f.Dir → List Call → f.Dir
  run dir [] = dir
  run dir (c ∷ calls) = run (step dir c) calls

  module _ (P : State → Type 0) (k : Stays e f P) (l : Laws e f) where
    -- The old file, or a readable state with the property.
    abbrev Leaves : f.Dir → f.Dir → Type 0
    Leaves dir d =
        (f.read_private d ≡ f.read_private dir)
        ⊎ ((t : State) × P t × (read e (f.read_private d) ≡ ok (some t)))

    Leaves-Holds : (dir d : f.Dir) → Holds e f P dir → Leaves dir d → Holds e f P d
    Leaves-Holds dir d h (inl same) s eq = h s (rw (← same) eq)
    Leaves-Holds dir d h (inr (t, p, g)) s eq =
        let both : ok (some t) ≡ ok (some s) = sym g ∙ eq in
        let state : t ≡ s = cc both in subst P state p

    refreshed_write-Leaves :
        (dir : f.Dir) (t : State) (w : f.Dir × Option WriteError)
        → P t
        → Wrote e f P k l dir t w
        → Leaves dir (refreshed_write e f t w).0
    refreshed_write-Leaves dir t (d, none) p h = inr (t, p, h)
    refreshed_write-Leaves dir t (d, some x) p (inl same) = inl same
    refreshed_write-Leaves dir t (d, some x) p (inr new) = inr (t, p, new)

    refreshed_bytes-Leaves :
        (dir : f.Dir) (turn : Turn) (r : Result (Bytes × State))
        → FitsResult e f P k r
        → Leaves dir (refreshed_bytes e f dir turn r).0
    refreshed_bytes-Leaves dir turn (err x) h = inl refl
    refreshed_bytes-Leaves dir turn (ok (raw, t)) h =
        if_lem (λ (x : f.Dir × Result (Option State)). Leaves dir x.0) (not (valid e t))
          (λ n. inl refl)
          (λ v.
            if_lem (λ (x : f.Dir × Result (Option State)). Leaves dir x.0) turn.cancelled_after
              (λ c. inl refl)
              (λ c.
                refreshed_write-Leaves dir t _ h.0
                  (write-Wrote e f P k l dir raw t h (ground (arith, v)))))

    pruned_again-Leaves :
        (dir : f.Dir) (turn : Turn) (r : State × Bool)
        → P r.0
        → Leaves dir (pruned_again e f dir turn r).0
    unfolding bytes
    pruned_again-Leaves dir turn (s, false) p = inl refl
    pruned_again-Leaves dir turn (s, true) p =
        refreshed_bytes-Leaves dir turn _ (fit-Fits e f P k _ _ (k.at-stamp s turn.stamp p))

    reread-Leaves :
        (dir : f.Dir) (turn : Turn) (r : Result (Option State))
        → read e (f.read_private dir) ≡ r
        → Holds e f P dir
        → Leaves dir (reread e f dir turn r).0
    reread-Leaves dir turn (err x) eq h = inl refl
    reread-Leaves dir turn (ok none) eq h = inl refl
    reread-Leaves dir turn (ok (some s)) eq h =
        pruned_again-Leaves dir turn _ (k.at-prune s turn.now (h s eq))

    under_lock-Leaves :
        (dir : f.Dir) (turn : Turn) (o : Option Error)
        → Holds e f P dir
        → Leaves dir (under_lock e f dir turn o).0
    under_lock-Leaves dir turn (some x) h = inl refl
    under_lock-Leaves dir turn none h = reread-Leaves dir turn _ refl h

    pruned_once-Leaves :
        (dir : f.Dir) (turn : Turn) (r : State × Bool)
        → Holds e f P dir
        → Leaves dir (pruned_once e f dir dir turn r).0
    pruned_once-Leaves dir turn (s, false) h = inl refl
    pruned_once-Leaves dir turn (s, true) h = under_lock-Leaves dir turn turn.lock h

    first_read-Leaves :
        (dir : f.Dir) (turn : Turn) (r : Result (Option State))
        → Holds e f P dir
        → Leaves dir (first_read e f dir dir turn r).0
    first_read-Leaves dir turn (err x) h = inl refl
    first_read-Leaves dir turn (ok none) h = inl refl
    first_read-Leaves dir turn (ok (some s)) h = pruned_once-Leaves dir turn _ h

    module _
        (on_hook : (s : State) (b : SessionIdentity) (v : HookEvent) (now : ℕ) (t : State)
          → P s
          → record_hook e s b v now ≡ ok t
          → P t)
        (on_report : (s : State) (b : SessionIdentity) (created : Bytes) (r : Report) (now : ℕ)
            (t : State)
          → P s
          → record_report e s b created r now ≡ ok t
          → P t) where
      pub store_hook-Did :
          (dir : f.Dir) (turn : Turn) (b : SessionIdentity) (v : HookEvent)
          → Holds e f P dir
          → Did e f P dir (store_hook e f dir turn b v)
      unfolding store_hook
      store_hook-Did dir turn b v h =
          if_lem (λ (x : f.Dir × Result (Unit {0})). Did e f P dir x)
            (binding_valid b && event_valid e v)
            (λ yes. update-Did e f P k l dir turn _ h (λ s t p a. on_hook s b v turn.now t p a))
            (λ no. inl refl)

      pub store_report-Did :
          (dir : f.Dir) (turn : Turn) (b : SessionIdentity) (created : Bytes) (r : Report)
          → Holds e f P dir
          → Did e f P dir (store_report e f dir turn b created r)
      unfolding store_report
      store_report-Did dir turn b created r h =
          if_lem (λ (x : f.Dir × Result (Unit {0})). Did e f P dir x)
            (binding_valid b && opaque e r.task_id 256 && report_status r.status)
            (λ yes.
              update-Did e f P k l dir turn _ h (λ s t p a. on_report s b created r turn.now t p a))
            (λ no. inl refl)

      step-Holds : (dir : f.Dir) (c : Call) → Holds e f P dir → Holds e f P (step dir c)
      unfolding step refreshed
      step-Holds dir (hook turn b v) h = Did-Holds e f P k l dir _ h (store_hook-Did dir turn b v h)
      step-Holds dir (report turn b created r) h =
          Did-Holds e f P k l dir _ h (store_report-Did dir turn b created r h)
      step-Holds dir (show turn) h = Leaves-Holds dir _ h (first_read-Leaves dir turn _ h)

      pub run-Holds :
          (dir : f.Dir) (calls : List Call) → Holds e f P dir → Holds e f P (run dir calls)
      unfolding run
      run-Holds dir [] h = h
      run-Holds dir (c ∷ calls) h = run-Holds (step dir c) calls (step-Holds dir c h)
