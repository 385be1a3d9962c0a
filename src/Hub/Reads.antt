-- ===== src/Hub/Reads.antt =====
-- hub.rs: what the owners of views and uploads read. A step is what follows the wait for an event.
use hmux.Base.{
  ℕ, ◌-◌, Bool, true, false, not, List, [], ◌∷◌, Option, none, some, length, ◌==◌, if◌then◌else◌,
}
use hmux.Base.Int.{ℤ}
use hmux.Base.Eq.{bytes_eq}
use hmux.Base.Map.{lookup, insert}
use hmux.Flow as Flow
use hmux.Hub.State.{
  Error, offline, stale, unsupported, invalid, output_overflow, ViewEvent, output, exit,
  refresh_result, UploadEvent, ready, ack, complete, failed, Channels, ViewState, UploadState,
  State, Outcome, done, fail, home_offline, output_full,
}
use hmux.Hub.Peers.{u64_max, check_peer}
use hmux.Hub.Leases.{remove_view, ensure_view}

pub record ViewLease : Type 0 where
  pub generation : ℕ
  pub id : List ℕ
  pub window : Flow.OutputWindow
  pub home_flow : Bool
  pub exited : Bool

-- `left` are the events of an upload that the hub has let go of.
pub record UploadLease : Type 0 where
  pub generation : ℕ
  pub id : List ℕ
  pub left : List UploadEvent
  pub terminal : Bool

abbrev pub closed_error : ℕ → Error
closed_error code =
    if code == output_full then output_overflow else if code == home_offline then offline else stale

-- `fetch_sub` of a `usize`.
abbrev pub one_less : ℕ → ℕ
one_less n = if n == 0 then u64_max else n - 1

abbrev pub is_last : UploadEvent → Bool
is_last ready = false
is_last (ack n) = false
is_last (complete r) = true
is_last (failed r) = true

module _ (c : Channels) where
  -- The state and the error are those of the outcome; without an error and an event the owner waits.
  pub record ViewRead : Type 0 where
    pub outcome : Outcome c
    pub lease : ViewLease
    pub event : Option ViewEvent

  pub record UploadRead : Type 0 where
    pub outcome : Outcome c
    pub lease : UploadLease
    pub event : Option UploadEvent

  abbrev pub view_error : State c → ViewLease → Error → ViewRead
  view_error s lease x = record { outcome = fail c s x; lease = lease; event = none }

  abbrev pub view_given : State c → ViewLease → ViewEvent → ViewRead
  view_given s lease event = record { outcome = done c s; lease = lease; event = some event }

  abbrev pub popped : ViewState c → ViewEvent → c.view.Chan → ViewState c
  popped v (output raw) events = record v { events = events; queued_data = one_less v.queued_data }
  popped v (exit text) events = record v { events = events }
  popped v (refresh_result b) events = record v { events = events }

  abbrev pub closes_lease : State c → ViewLease → Error → ViewRead
  closes_lease s lease x = record {
    outcome = record (remove_view c s lease.generation lease.id output_full true) {
      error = some x;
    };
    lease = lease;
    event = none;
  }

  -- The credit of a frame.
  abbrev pub window_taken : State c → ViewLease → ViewEvent → Flow.OutputWindow × Bool → ViewRead
  window_taken s lease event (window, true) = view_given s (record lease { window = window }) event
  window_taken s lease event (window, false) = closes_lease s lease output_overflow

  abbrev pub view_event : State c → ViewLease → ℕ → ViewEvent → ViewRead
  view_event s lease now (output raw) =
      if lease.home_flow
      then window_taken s lease (output raw) (Flow.reserve lease.window (length raw) now)
      else view_given s lease (output raw)
  view_event s lease now (exit text) = view_given s (record lease { exited = true }) (exit text)
  view_event s lease now (refresh_result b) = view_given s lease (refresh_result b)

  -- An event that is taken after Home has gone is dropped.
  abbrev pub view_checked :
      State c → ViewLease → ℕ → ViewState c → ViewEvent → Option Error → ViewRead
  view_checked s lease now v event (some x) = view_error s lease x
  view_checked s lease now v event none =
      if v.closed == output_full
      then view_error s lease output_overflow
      else view_event s lease now event

  abbrev pub view_taken :
      (ViewState c → State c)
      → State c
      → ViewLease
      → ℕ
      → Bool
      → ViewState c
      → Option (ViewEvent × c.view.Chan)
      → ViewRead
  view_taken put s lease now held v none =
      if held
      then record { outcome = done c s; lease = lease; event = none }
      else view_error s lease (closed_error v.closed)
  view_taken put s lease now held v (some (event, events)) =
      let next = popped v event events in
      view_checked (put next) lease now next event (check_peer c (put next) lease.generation)

  abbrev pub put_view : State c → List ℕ → ViewState c → State c
  put_view s id v = record s { views = insert id v s.views }

  abbrev pub put_gone : State c → List ℕ → ViewState c → State c
  put_gone s id v = record s { gone = insert id v s.gone }

  -- A cell that the hub has removed has no sender: its reader does not wait.
  abbrev pub receive_gone : State c → ViewLease → ℕ → Option (ViewState c) → ViewRead
  receive_gone s lease now none = view_error s lease stale
  receive_gone s lease now (some v) =
      view_taken (put_gone s lease.id) s lease now false v (c.view.recv v.events)

  abbrev pub receive_held : State c → ViewLease → ℕ → Option (ViewState c) → ViewRead
  receive_held s lease now none = receive_gone s lease now (lookup lease.id s.gone)
  receive_held s lease now (some v) =
      if v.generation == lease.generation
      then view_taken (put_view s lease.id) s lease now true v (c.view.recv v.events)
      else receive_gone s lease now (lookup lease.id s.gone)

  -- `ViewLease::receive`.
  unfoldable pub receive_view : State c → ViewLease → ℕ → ViewRead
  receive_view s lease now =
      if lease.exited
      then view_error s lease stale
      else receive_held s lease now (lookup lease.id s.views)

  abbrev pub window_released : State c → ViewLease → Flow.OutputWindow × Bool → ViewRead
  window_released s lease (window, true) = record {
    outcome = done c s;
    lease = record lease { window = window };
    event = none;
  }
  window_released s lease (window, false) = closes_lease s lease invalid

  abbrev pub acknowledged : State c → ViewLease → ℤ → Option Error → ViewRead
  acknowledged s lease n (some x) = view_error s lease x
  acknowledged s lease n none =
      if not lease.home_flow
      then view_error s lease unsupported
      else window_released s lease (Flow.acknowledge lease.window n)

  -- `ViewLease::acknowledge` up to the frame that it sends to Home.
  unfoldable pub acknowledge_view : State c → ViewLease → ℤ → ViewRead
  acknowledge_view s lease n = acknowledged s lease n (ensure_view c s lease.generation lease.id)

  abbrev pub upload_error : State c → UploadLease → Error → UploadRead
  upload_error s lease x = record { outcome = fail c s x; lease = lease; event = none }

  abbrev pub upload_checked : State c → UploadLease → UploadEvent → Option Error → UploadRead
  upload_checked s lease event (some x) = upload_error s lease x
  upload_checked s lease event none = record {
    outcome = done c s;
    lease = if is_last event then record lease { terminal = true } else lease;
    event = some event;
  }

  abbrev pub receive_left : State c → UploadLease → List UploadEvent → UploadRead
  receive_left s lease [] = upload_error s lease stale
  receive_left s lease (event ∷ events) =
      upload_checked s (record lease { left = events }) event (check_peer c s lease.generation)

  abbrev pub put_upload : State c → List ℕ → UploadState c → State c
  put_upload s id u = record s { uploads = insert id u s.uploads }

  abbrev pub upload_taken :
      State c → UploadLease → UploadState c → Option (UploadEvent × c.upload.Chan) → UploadRead
  upload_taken s lease u none = record { outcome = done c s; lease = lease; event = none }
  upload_taken s lease u (some (event, events)) =
      let t = put_upload s lease.id (record u { events = events }) in
      upload_checked t lease event (check_peer c t lease.generation)

  abbrev pub receive_of : State c → UploadLease → Option (UploadState c) → UploadRead
  receive_of s lease none = receive_left s lease lease.left
  receive_of s lease (some u) =
      if u.generation == lease.generation
      then upload_taken s lease u (c.upload.recv u.events)
      else receive_left s lease lease.left

  -- `UploadLease::receive`, which has seen Home attached before it waits.
  unfoldable pub receive_upload : State c → UploadLease → UploadRead
  receive_upload s lease =
      if lease.terminal
      then upload_error s lease stale
      else receive_of s lease (lookup lease.id s.uploads)
