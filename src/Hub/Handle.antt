-- ===== src/Hub/Handle.antt =====
-- hub.rs: `dispatch`, which gives each message of Home to its handler, and the runs of a hub: any
-- sequence of what Home and the HTTP owners do.
use hmux.Base.{ℕ, Bool, not, List, [], ◌∷◌, ◌++◌, Option, none, some, if◌then◌else◌}
use hmux.Base.Int.{ℤ}
use hmux.Hub.State.{
  Error, stale, invalid, Operation, Protocol, Effect, Channels, State, Outcome, done, fail, is_live,
  ready, ack, complete, failed,
}
use hmux.Hub.Peers.{attach, detach_with_reason}
use hmux.Hub.Leases.{
  begin_request, begin_view, begin_upload, drop_pending, drop_view, remove_view, remove_upload,
}
use hmux.Hub.Dispatch.{
  Body, hello, catalog, usage, usage_unavailable, response, terminal_output, terminal_exit,
  refreshed, upload_ready, upload_ack, upload_complete, upload_error, task_complete, cache_catalog,
  cache_usage, dispatch_response, dispatch_output, dispatch_exit, dispatch_refresh,
}
use hmux.Hub.Reads.{ViewLease, UploadLease, receive_view, acknowledge_view, receive_upload}
use hmux.Hub.Uploads.{dispatch_progress, dispatch_finish}

-- What Home and the HTTP owners do to a hub.
pub data Call : Type 0 where
  attaches : Protocol → Call
  detaches : ℕ → Error → Call
  requests : ℕ → Option Operation → Call
  opens_view opens_upload : ℕ → Call
  drops_pending : ℕ → List ℕ → Bool → Bool → Call
  drops_view : ℕ → List ℕ → Bool → Call
  closes_view : ℕ → List ℕ → ℕ → Bool → Call
  drops_upload : ℕ → List ℕ → Bool → Call
  receives : ℕ → ℕ → Option Body → Call
  reads_view : ViewLease → ℕ → Call
  acknowledges_view : ViewLease → ℤ → Call
  reads_upload : UploadLease → Call

module _ (c : Channels) where
  -- The messages that `dispatch` handles under the lock. The ledger of completion notices that
  -- `task_complete` feeds has a state of its own.
  unfoldable pub dispatch_live : State c → ℕ → Body → Outcome c
  dispatch_live s generation (hello output_cap upload_cap) =
      done c (record s { output_cap = output_cap; upload_cap = upload_cap })
  dispatch_live s generation usage_unavailable =
      done c (record s { claude_usage = none; codex_usage = none })
  dispatch_live s generation (response r) = dispatch_response c s generation r
  dispatch_live s generation (terminal_output id raw admits) =
      dispatch_output c s generation id raw admits
  dispatch_live s generation (terminal_exit r) = dispatch_exit c s generation r
  dispatch_live s generation (refreshed r) = dispatch_refresh c s generation r
  dispatch_live s generation (upload_ready id) = dispatch_progress c s generation id ready
  dispatch_live s generation (upload_ack id received) =
      dispatch_progress c s generation id (ack received)
  dispatch_live s generation (upload_complete r) = dispatch_finish c s r (complete r.response)
  dispatch_live s generation (upload_error r) = dispatch_finish c s r (failed r.response)
  dispatch_live s generation task_complete = done c s
  dispatch_live s generation _ = fail c s invalid

  abbrev pub under_lock : State c → ℕ → Body → Outcome c
  under_lock s generation body =
      if not (is_live s.peer generation) then fail c s stale else dispatch_live s generation body

  unfoldable pub dispatch : State c → ℕ → ℕ → Option Body → Outcome c
  dispatch s generation now none = fail c s invalid
  dispatch s generation now (some (catalog u)) = cache_catalog c s generation now u
  dispatch s generation now (some (usage provider u)) = cache_usage c s generation provider u
  dispatch s generation now (some body) = under_lock s generation body

  unfoldable pub step : State c → Call → Outcome c
  step s (attaches protocol) = attach c s protocol
  step s (detaches g reason) = detach_with_reason c s g reason
  step s (requests g op) = (begin_request c s g op).outcome
  step s (opens_view g) = (begin_view c s g).outcome
  step s (opens_upload g) = (begin_upload c s g).outcome
  step s (drops_pending g id sent cancel_on_drop) = drop_pending c s g id sent cancel_on_drop
  step s (drops_view g id sent) = drop_view c s g id sent
  step s (closes_view g id code clean) = remove_view c s g id code clean
  step s (drops_upload g id sent) = remove_upload c s g id sent
  step s (receives g now body) = dispatch s g now body
  step s (reads_view lease now) = (receive_view c s lease now).outcome
  step s (acknowledges_view lease n) = (acknowledge_view c s lease n).outcome
  step s (reads_upload lease) = (receive_upload c s lease).outcome

  unfoldable pub run : State c → List Call → State c
  run s [] = s
  run s (x ∷ xs) = run (step s x).state xs

  -- The effects of a run, in order.
  unfoldable pub effects : State c → List Call → List Effect
  effects s [] = []
  effects s (x ∷ xs) = (step s x).effects ++ effects (step s x).state xs
