-- ===== src/Hub/Dispatch.antt =====
-- hub.rs: the messages that Home sends. Whether the shared payload budget takes an allocation is an
-- argument of the message (`admits`), since readers hold and drop their payloads at any time; the
-- JSON text of a snapshot, made by legacy.rs, comes with its message too.
use hmux.Base.{
  ℕ, ◌+◌, Bool, true, false, not, ◌||◌, List, [], ◌∷◌, Option, none, some, length, leb, ltb, ◌==◌,
  if◌then◌else◌,
}
use hmux.Base.Eq.{bytes_eq}
use hmux.Base.Map.{lookup, insert, remove}
use hmux.Flow.{chunk, max_frames}
use hmux.Hub.State.{
  Error, stale, capacity, invalid, Operation, ResponseContext, operation, terminal_open, empty,
  upload, ResultKind, Response, Pending, output, exit, refresh_result, answered, close, Channels,
  ViewState, State, Outcome, done, fail, is_live, output_full, view_exited,
}
use hmux.Hub.Peers.{cleanup}
use hmux.Hub.Leases.{retire_view}

abbrev pub matches_operation : Operation → ResultKind → Bool
matches_operation Operation.profiles ResultKind.profiles = true
matches_operation Operation.create ResultKind.created = true
matches_operation Operation.alias ResultKind.ok = true
matches_operation Operation.hidden ResultKind.ok = true
matches_operation Operation.conversation ResultKind.conversation = true
matches_operation Operation.workspace ResultKind.workspace = true
matches_operation Operation.providers ResultKind.providers = true
matches_operation Operation.provider_key ResultKind.providers = true
matches_operation Operation.provider_job_start ResultKind.providers = true
matches_operation Operation.provider_job ResultKind.providers = true
matches_operation Operation.provider_job_input ResultKind.providers = true
matches_operation Operation.provider_job_cancel ResultKind.providers = true
matches_operation _ _ = false

abbrev pub matches_result : ResponseContext → Option ResultKind → Bool
matches_result (operation op) (some r) = matches_operation op r
matches_result terminal_open (some ResultKind.ok) = true
matches_result empty none = true
matches_result upload (some ResultKind.staged) = true
matches_result _ _ = false

abbrev pub is_none {ℓ} : {A : Type ℓ} → Option A → Bool
is_none none = true
is_none (some a) = false

abbrev pub is_nil : List ℕ → Bool
is_nil [] = true
is_nil (x ∷ xs) = false

unfoldable pub response_matches : Response → ResponseContext → Bool
response_matches v context =
    if not (is_nil v.error) then is_none v.result else matches_result context v.result

pub record Reply : Type 0 where
  pub response : Response
  pub admits : Bool

-- A snapshot's browser-facing text, or `none` where legacy.rs refuses the snapshot.
pub record Update : Type 0 where
  pub text : Option (List ℕ)
  pub admits : Bool

pub data Provider : Type 0 where
  claude codex unknown : Provider

pub data Body : Type 0 where
  hello : Bool → Bool → Body
  catalog : Update → Body
  usage : Provider → Update → Body
  usage_unavailable : Body
  response : Reply → Body
  terminal_output : List ℕ → List ℕ → Bool → Body
  terminal_exit : Response → Body
  refreshed : Response → Body
  upload_ready : List ℕ → Body
  upload_ack : List ℕ → ℕ → Body
  upload_complete upload_error : Reply → Body
  task_complete : Body
  other : Body

module _ (c : Channels) where
  -- `retain`: empty bytes need no allocation.
  abbrev pub retained : List ℕ → Bool → Option (List ℕ)
  retained raw admits = if is_nil raw || admits then some raw else none

  -- The old snapshot is dropped before the new one is charged.
  abbrev pub fill : Option (List ℕ) → State c → State c → Outcome c
  fill none emptied filled = fail c emptied capacity
  fill (some raw) emptied filled = done c filled

  unfoldable pub cache_catalog : State c → ℕ → ℕ → Update → Outcome c
  cache_catalog s generation now u = elim u.text [
    | none ↦ fail c s invalid
    | some raw ↦
        if not (is_live s.peer generation)
        then fail c s stale
        else fill (retained raw u.admits) (record s { catalog = none })
            (record s { catalog = some raw; updated = some now })
  ]

  unfoldable pub cache_usage : State c → ℕ → Provider → Update → Outcome c
  cache_usage s generation unknown u = fail c s invalid
  cache_usage s generation claude u = elim u.text [
    | none ↦ fail c s invalid
    | some raw ↦
        if not (is_live s.peer generation)
        then fail c s stale
        else fill (retained raw u.admits) (record s { claude_usage = none })
            (record s { claude_usage = some raw })
  ]
  cache_usage s generation codex u = elim u.text [
    | none ↦ fail c s invalid
    | some raw ↦
        if not (is_live s.peer generation)
        then fail c s stale
        else fill (retained raw u.admits) (record s { codex_usage = none })
            (record s { codex_usage = some raw })
  ]

  abbrev pub answered_with : State c → List ℕ → Option Error → Outcome c
  answered_with s id error = record { state = s; effects = answered id error ∷ []; error = error }

  -- The request is no longer pending whatever the answer is.
  unfoldable pub answer : State c → ℕ → Reply → Option Pending → Outcome c
  answer s generation r none = done c s
  answer s generation r (some p) =
      let s' = record s { pending = remove r.response.id s.pending } in
      if not (p.generation == generation)
      then done c s'
      else if not (response_matches r.response p.context)
      then answered_with s' r.response.id (some invalid)
      else if r.admits
      then answered_with s' r.response.id none
      else answered_with s' r.response.id (some capacity)

  unfoldable pub dispatch_response : State c → ℕ → Reply → Outcome c
  unfolding answer response_matches
  dispatch_response s generation r = answer s generation r (lookup r.response.id s.pending)

  -- A view that cannot take an event is closed as full, and Home is told.
  unfoldable pub overflow : State c → ℕ → List ℕ → Bool → Outcome c
  unfolding retire_view cleanup
  overflow s generation id clean =
      let s' = retire_view c s id output_full in
      record {
        state = s';
        effects = if clean then cleanup c s' generation (close id) else [];
        error = none;
      }

  abbrev pub keep_view : State c → List ℕ → ViewState c → Outcome c
  keep_view s id v = done c (record s { views = insert id v s.views })

  unfoldable pub send_output : State c → ℕ → List ℕ → List ℕ → Bool → ViewState c → Outcome c
  unfolding overflow
  send_output s generation id raw admits v =
      if is_nil raw || ltb chunk (length raw) || leb max_frames v.queued_data
      then overflow s generation id true
      else elim (retained raw admits) [
        | none ↦ overflow s generation id true
        | some data_ ↦ elim (c.view.try_send v.events (output data_)) [
          | none ↦ overflow s generation id true
          | some events ↦
              keep_view s id (record v { events = events; queued_data = v.queued_data + 1 })
        ]
      ]

  unfoldable pub output_view :
      State c → ℕ → List ℕ → List ℕ → Bool → Option (ViewState c) → Outcome c
  unfolding send_output
  output_view s generation id raw admits none = done c s
  output_view s generation id raw admits (some v) =
      if v.generation == generation then send_output s generation id raw admits v else done c s

  unfoldable pub dispatch_output : State c → ℕ → List ℕ → List ℕ → Bool → Outcome c
  unfolding output_view
  dispatch_output s generation id raw admits =
      output_view s generation id raw admits (lookup id s.views)

  -- The lease stays bound until its browser has drained the queue; a full queue closes the view and
  -- sends no cleanup, since Home has ended it.
  unfoldable pub exit_view : State c → ℕ → Response → Option (ViewState c) → Outcome c
  unfolding overflow
  exit_view s generation r none = done c s
  exit_view s generation r (some v) = elim (c.view.try_send v.events (exit r.error)) [
    | none ↦ overflow s generation r.id false
    | some events ↦ keep_view s r.id (record v { events = events; closed = view_exited })
  ]

  unfoldable pub dispatch_exit : State c → ℕ → Response → Outcome c
  unfolding exit_view
  dispatch_exit s generation r = exit_view s generation r (lookup r.id s.views)

  unfoldable pub refresh_view : State c → ℕ → Response → Option (ViewState c) → Outcome c
  unfolding overflow
  refresh_view s generation r none = done c s
  refresh_view s generation r (some v) =
      elim (c.view.try_send v.events (refresh_result (is_nil r.error))) [
        | none ↦ overflow s generation r.id true
        | some events ↦ keep_view s r.id (record v { events = events })
      ]

  unfoldable pub dispatch_refresh : State c → ℕ → Response → Outcome c
  unfolding refresh_view
  dispatch_refresh s generation r = refresh_view s generation r (lookup r.id s.views)
