-- ===== src/Hub/Leases.antt =====
-- hub.rs: what the HTTP owners do under the lock. A request, a view and an upload are each begun by
-- one function, up to the frame that is submitted; the guard or lease that the owner drops ends it.
use hmux.Base.{
  ℕ, ◌+◌, Bool, true, false, not, ◌&&◌, ◌||◌, List, [], ◌∷◌, Option, none, some, length, leb, ◌==◌,
  if◌then◌else◌,
}
use hmux.Base.Eq.{bytes_eq}
use hmux.Base.Map.{lookup, insert, remove}
use hmux.Hub.Ids.{format_id}
use hmux.Hub.State.{
  Error, stale, busy, capacity, invalid, unsupported, Operation, operation, terminal_open, Pending,
  close, cancel, upload_cancel, Channels, ViewState, UploadState, State, Outcome, done, fail,
  is_live, max_pending, max_views, max_uploads, view_frames, upload_events, view_exited,
}
use hmux.Hub.Peers.{cleanup, u64_max}

module _ (c : Channels) where
  -- What an owner gets from a beginning: the outcome, and the id if there was no error.
  pub record Started : Type 0 where
    pub outcome : Outcome c
    pub id : Option (List ℕ)

  abbrev pub refused : State c → Error → Started
  refused s e = record { outcome = fail c s e; id = none }

  -- Counts up and formats the id, for the state with the new counter.
  unfoldable pub with_next_id : State c → ℕ → (State c → List ℕ → Started) → Started
  with_next_id s generation k =
      if s.next_id == u64_max
      then refused s capacity
      else k (record s { next_id = s.next_id + 1 }) (format_id generation (s.next_id + 1))

  unfoldable pub insert_request : ℕ → Option Operation → State c → List ℕ → Started
  insert_request generation none s id = refused s invalid
  insert_request generation (some op) s id = record {
    outcome = done c (record s {
      pending = insert id (record { generation = generation; context = operation op }) s.pending;
    });
    id = some id;
  }

  -- `request_observed` under the lock; `none` is an operation number that the protocol lacks.
  unfoldable pub begin_request : State c → ℕ → Option Operation → Started
  unfolding insert_request with_next_id
  begin_request s generation op =
      if not (is_live s.peer generation)
      then refused s stale
      else if leb max_pending (length s.pending)
      then refused s busy
      else with_next_id s generation (insert_request generation op)

  unfoldable pub insert_view : ℕ → State c → List ℕ → Started
  insert_view generation s id = record {
    outcome = done c (record s {
      views =
          insert id
            (record {
              generation = generation;
              events = c.view.channel view_frames;
              closed = 0;
              queued_data = 0;
            })
            s.views;
      pending = insert id (record { generation = generation; context = terminal_open }) s.pending;
    });
    id = some id;
  }

  -- `open_view_observed` under the lock.
  unfoldable pub begin_view : State c → ℕ → Started
  unfolding insert_view with_next_id
  begin_view s generation =
      if not (is_live s.peer generation)
      then refused s stale
      else if leb max_views (length s.views)
      then refused s capacity
      else if leb max_pending (length s.pending)
      then refused s busy
      else with_next_id s generation (insert_view generation)

  unfoldable pub insert_upload : ℕ → State c → List ℕ → Started
  insert_upload generation s id = record {
    outcome = done c (record s {
      uploads =
          insert id
            (record {
              generation = generation;
              events = c.upload.channel upload_events;
              terminal = false;
            })
            s.uploads;
    });
    id = some id;
  }

  -- `open_upload` under the lock.
  unfoldable pub begin_upload : State c → ℕ → Started
  unfolding insert_upload with_next_id
  begin_upload s generation =
      if not (is_live s.peer generation)
      then refused s stale
      else if not s.upload_cap
      then refused s unsupported
      else if leb max_uploads (length s.uploads)
      then refused s capacity
      else with_next_id s generation (insert_upload generation)

  -- Entries of another generation than the caller's are left alone.
  abbrev pub pending_of : Option Pending → ℕ → Bool
  pending_of none g = false
  pending_of (some p) g = p.generation == g

  abbrev pub view_of : Option (ViewState c) → ℕ → Bool
  view_of none g = false
  view_of (some v) g = v.generation == g

  abbrev pub upload_of : Option (UploadState c) → Bool → ℕ → Bool
  upload_of none allow_terminal g = false
  upload_of (some u) allow_terminal g = u.generation == g && (allow_terminal || not u.terminal)

  unfoldable pub ensure_view : State c → ℕ → List ℕ → Option Error
  ensure_view s generation id =
      if not (is_live s.peer generation)
      then some stale
      else if view_of (lookup id s.views) generation
      then none
      else some stale

  unfoldable pub check_upload : State c → ℕ → List ℕ → Bool → Option Error
  check_upload s generation id allow_terminal =
      if not (is_live s.peer generation)
      then some stale
      else if upload_of (lookup id s.uploads) allow_terminal generation
      then none
      else some stale

  unfoldable pub remove_pending : State c → ℕ → List ℕ → State c
  remove_pending s generation id =
      if pending_of (lookup id s.pending) generation
      then record s { pending = remove id s.pending }
      else s

  -- `PendingGuard::drop`: the owner of a request or of a view's opening has ended or given up.
  unfoldable pub drop_pending : State c → ℕ → List ℕ → Bool → Bool → Outcome c
  unfolding remove_pending cleanup
  drop_pending s generation id sent cancel_on_drop =
      let s' = remove_pending s generation id in
      record {
        state = s';
        effects = if sent && cancel_on_drop then cleanup c s' generation (cancel id) else [];
        error = none;
      }

  -- The cell of a removed view gets its code and stays with the lease.
  unfoldable pub retire : State c → List ℕ → ℕ → Option (ViewState c) → State c
  retire s id code none = s
  retire s id code (some v) = record s {
    views = remove id s.views;
    gone = (id, record v { closed = code }) ∷ s.gone;
  }

  unfoldable pub retire_view : State c → List ℕ → ℕ → State c
  unfolding retire
  retire_view s id code = retire s id code (lookup id s.views)

  unfoldable pub remove_view : State c → ℕ → List ℕ → ℕ → Bool → Outcome c
  unfolding retire_view cleanup
  remove_view s generation id code clean =
      if view_of (lookup id s.views) generation
      then (let s' = retire_view s id code in
          record {
            state = s';
            effects = if clean then cleanup c s' generation (close id) else [];
            error = none;
          })
      else done c s

  -- `ViewLease::drop`; the lease's cell goes with it.
  unfoldable pub drop_view : State c → ℕ → List ℕ → Bool → Outcome c
  unfolding remove_view
  drop_view s generation id sent =
      let o = remove_view s generation id view_exited sent in
      record o { state = record (o.state) { gone = remove id o.state.gone } }

  unfoldable pub remove_upload : State c → ℕ → List ℕ → Bool → Outcome c
  unfolding cleanup
  remove_upload s generation id clean =
      if upload_of (lookup id s.uploads) true generation
      then (let s' = record s { uploads = remove id s.uploads } in
          record {
            state = s';
            effects =
                if upload_of (lookup id s.uploads) false generation && clean
                then cleanup c s' generation (upload_cancel id)
                else [];
            error = none;
          })
      else done c s
