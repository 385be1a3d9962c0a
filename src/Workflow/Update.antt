-- ===== src/Workflow/Update.antt =====
-- workflow.rs: `Store`, the file behind its lock.
use hmux.Base.{ℕ, zero, suc, Bool, true, false, not, ◌&&◌, Option, none, some, if◌then◌else◌}
use hmux.Base.Eq.{Bytes}
use hmux.Model.Ids.{SessionIdentity}
use hmux.Workflow.Types.{
  Env, Status, State, Error, Result, ok, err, invalid, unavailable, busy, cancelled, running,
  completed, failed, interrupted, binding_valid, opaque,
}
use hmux.Workflow.Hooks.{HookEvent, Report, event_valid, record_hook, record_report}
use hmux.Workflow.Files.{read, or_default, settle, prune, valid, bytes}

-- What the call meets: whether one of the two workers is free, the token is cancelled before or
-- after, the directory can be had, and how the wait for the lock ends. `created` is the text of the
-- binding's time and `stamp` that of the call's.
pub record Turn : Type 0 where
  pub permit : Bool
  pub cancelled_before : Bool
  pub directory : Bool
  pub lock : Option Error
  pub cancelled_after : Bool
  pub now : ℕ
  pub stamp : Bytes

-- Whether the rename of `write_atomic_private` was reached when it failed.
pub data WriteError : Type 0 where
  before_commit after_commit : WriteError

-- The private directory with state.json. Reading gives nothing on a failure and otherwise the bytes, if
-- there is a file.
pub record Directory : Type 1 where
  pub Dir : Type 0
  pub read_private : Dir → Option (Option Bytes)
  pub write_atomic_private : Dir → Bytes → Dir × Option WriteError

abbrev pub report_status : Status → Bool
report_status running = true
report_status completed = true
report_status failed = true
report_status interrupted = true
report_status _ = false

module _ (e : Env) (f : Directory) where
  abbrev pub finished : f.Dir × Option WriteError → f.Dir × Result (Unit {0})
  finished (dir, none) = (dir, ok tt)
  finished (dir, some x) = (dir, err unavailable)

  abbrev pub commit : f.Dir → Turn → Result (Bytes × State) → f.Dir × Result (Unit {0})
  commit dir turn (err x) = (dir, err x)
  commit dir turn (ok (raw, s)) =
      if turn.cancelled_after
      then (dir, err cancelled)
      else finished (f.write_atomic_private dir raw)

  abbrev pub acted : f.Dir → Turn → Result State → f.Dir × Result (Unit {0})
  acted dir turn (err x) = (dir, err x)
  acted dir turn (ok s) = commit dir turn (settle e s turn.now turn.stamp)

  abbrev pub loaded :
      f.Dir → Turn → (State → Result State) → Result (Option State) → f.Dir × Result (Unit {0})
  loaded dir turn action (err x) = (dir, err x)
  loaded dir turn action (ok found) = acted dir turn (action (or_default e found))

  abbrev pub locked :
      f.Dir → Turn → (State → Result State) → Option Error → f.Dir × Result (Unit {0})
  locked dir turn action (some x) = (dir, err x)
  locked dir turn action none = loaded dir turn action (read e (f.read_private dir))

  -- A time before the year 1970 is 0 here.
  unfoldable pub update : f.Dir → Turn → (State → Result State) → f.Dir × Result (Unit {0})
  update dir turn action = elim turn.now [
    | zero ↦ (dir, err invalid)
    | suc n ↦
        if not turn.permit
        then (dir, err busy)
        else if turn.cancelled_before
        then (dir, err cancelled)
        else if not turn.directory
        then (dir, err unavailable)
        else locked dir turn action turn.lock
  ]

  unfoldable pub store_hook : f.Dir → Turn → SessionIdentity → HookEvent → f.Dir × Result (Unit {0})
  store_hook dir turn binding v =
      if binding_valid binding && event_valid e v
      then update dir turn (λ s. record_hook e s binding v turn.now)
      else (dir, err invalid)

  unfoldable pub store_report :
      f.Dir → Turn → SessionIdentity → Bytes → Report → f.Dir × Result (Unit {0})
  store_report dir turn binding created r =
      if binding_valid binding && opaque e r.task_id 256 && report_status r.status
      then update dir turn (λ s. record_report e s binding created r turn.now)
      else (dir, err invalid)

  -- The part of `apply` that prunes: the state to show and the directory.
  abbrev pub refreshed_write : State → f.Dir × Option WriteError → f.Dir × Result (Option State)
  refreshed_write s (dir, none) = (dir, ok (some s))
  refreshed_write s (dir, some x) = (dir, err unavailable)

  abbrev pub refreshed_bytes : f.Dir → Turn → Result (Bytes × State) → f.Dir × Result (Option State)
  refreshed_bytes dir turn (err x) = (dir, err x)
  refreshed_bytes dir turn (ok (raw, s)) =
      if not (valid e s)
      then (dir, err invalid)
      else if turn.cancelled_after
      then (dir, err cancelled)
      else refreshed_write s (f.write_atomic_private dir raw)

  abbrev pub pruned_again : f.Dir → Turn → State × Bool → f.Dir × Result (Option State)
  pruned_again dir turn (s, false) = (dir, ok (some s))
  pruned_again dir turn (s, true) =
      refreshed_bytes dir turn (bytes e (record s { updated_at = turn.stamp }))

  abbrev pub reread : f.Dir → Turn → Result (Option State) → f.Dir × Result (Option State)
  reread dir turn (err x) = (dir, err x)
  reread dir turn (ok none) = (dir, err unavailable)
  reread dir turn (ok (some s)) = pruned_again dir turn (prune s turn.now)

  abbrev pub under_lock : f.Dir → Turn → Option Error → f.Dir × Result (Option State)
  under_lock dir turn (some x) = (dir, err x)
  under_lock dir turn none = reread dir turn (read e (f.read_private dir))

  -- `later` is the directory once the lock is held: another process may have written.
  abbrev pub pruned_once : f.Dir → f.Dir → Turn → State × Bool → f.Dir × Result (Option State)
  pruned_once dir later turn (s, false) = (dir, ok (some s))
  pruned_once dir later turn (s, true) = under_lock later turn turn.lock

  abbrev pub first_read :
      f.Dir → f.Dir → Turn → Result (Option State) → f.Dir × Result (Option State)
  first_read dir later turn (err x) = (dir, err x)
  first_read dir later turn (ok none) = (dir, ok none)
  first_read dir later turn (ok (some s)) = pruned_once dir later turn (prune s turn.now)

  -- `directory(false)` finds none without a file.
  unfoldable pub refreshed : f.Dir → f.Dir → Turn → f.Dir × Result (Option State)
  refreshed dir later turn = first_read dir later turn (read e (f.read_private dir))
