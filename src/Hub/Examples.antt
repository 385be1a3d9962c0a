-- ===== src/Hub/Examples.antt =====
-- A hub over a channel that is a list with a limit: the laws of the channel can hold, and the
-- theorems apply to runs.
use hmux.Base.{
  ℕ, ◌<◌, ◌≡◌, inl, refl, true, false, List, [], ◌∷◌, ◌++◌, Option, none, some, arith, length, ltb,
  if◌then◌else◌,
}
use hmux.Base.Eq.{bytes_eq}
use hmux.Base.Map.{lookup, insert, remove}
use hmux.Base.Channel.{Mpsc}
use hmux.Hub.Ids.{format_id}
use hmux.Hub.State.{
  Channels, State, offline, Operation, protobuf_v2, ResultKind, UploadEvent, UploadState, ready,
  complete, answered, closed_sender, new, done,
}
use hmux.Hub.Peers.{attach, detach_with_reason, cleanup}
use hmux.Hub.Leases.{
  begin_request, begin_view, begin_upload, drop_pending, remove_view, drop_view, remove_upload,
}
use hmux.Hub.Reads.{UploadLease, receive_upload}
use hmux.Hub.Dispatch.{Reply, hello, upload_ready, response, dispatch_response, response_matches}
use hmux.Hub.Uploads.{dispatch_finish, dispatch_progress}
use hmux.Hub.Handle.{
  Call, attaches, detaches, requests, opens_upload, receives, reads_upload, dispatch, dispatch_live,
  step, run, effects,
}
use hmux.Hub.Runs.{run-new-Inv}
use hmux.Hub.Generations.{step-other_generation, started-fresh, dispatch_finish_delivers}

abbrev Queue : Type 0 → Type 0
Queue E = List E × ℕ

abbrev queue_send : {E : Type 0} → Queue E → E → Option (Queue E)
queue_send (xs, n) e = if ltb (length xs) n then some (xs ++ e ∷ [], n) else none

abbrev queue_recv : {E : Type 0} → Queue E → Option (E × Queue E)
queue_recv ([], n) = none
queue_recv (x ∷ xs, n) = some (x, (xs, n))

queue_room :
    {E : Type 0} (q : Queue E) (e : E)
    → false ≡ false
    → length q.0 < q.1
    → (q' : Queue E) × (queue_send q e ≡ some q')
queue_room (xs, n) e unclosed h = ((xs ++ e ∷ [], n), ground arith)

queue_sent :
    {E : Type 0} (q q' : Queue E) (e : E)
    → queue_send q e ≡ some q'
    → (q'.0 ≡ q.0 ++ e ∷ []) × (q'.1 ≡ q.1) × (length q.0 < q.1)
queue_sent (xs, n) (ys, m) e h = (ground arith, ground arith, ground arith)

queue_received :
    {E : Type 0} (q q' : Queue E) (e : E)
    → queue_recv q ≡ some (e, q')
    → (q.0 ≡ e ∷ q'.0) × (q'.1 ≡ q.1)
queue_received ([], n) (ys, m) e h = cc
queue_received (x ∷ xs, n) (ys, m) e h = (ground arith, ground arith)

abbrev queue : (E : Type 0) → Mpsc E
queue E = record {
  Chan = Queue E;
  channel = λ n. ([], n);
  contents = λ q. q.0;
  limit = λ q. q.1;
  closed = λ q. false;
  try_send = queue_send;
  recv = queue_recv;
  contents-channel = λ n. refl;
  limit-channel = λ n. refl;
  closed-channel = λ n. refl;
  try_send_room = queue_room;
  try_send_open = λ q q' e h. refl;
  try_send_sent = queue_sent;
  recv_sent = queue_received;
  recv_closed = λ q q' e h. refl;
}

abbrev queues : Channels
queues = record { view = queue _; upload = queue _ }

program : Unit {0}
unfolding new attach detach_with_reason begin_request begin_view begin_upload drop_pending
    remove_view drop_view remove_upload dispatch_response response_matches dispatch_finish
    dispatch_progress dispatch dispatch_live step run effects lookup insert remove format_id cleanup
    receive_upload
program = tt

abbrev ok_reply : Reply
ok_reply = record {
  response = record {
    id = format_id 1 1;
    error = [];
    result = some ResultKind.profiles;
    contents = [];
  };
  admits = true;
}

-- One request is answered, another is cut off when Home leaves.
abbrev history : List Call
history =
    attaches protobuf_v2
    ∷ requests 1 (some Operation.profiles)
    ∷ requests 1 (some Operation.create)
    ∷ receives 1 5 (some (response ok_reply))
    ∷ detaches 1 offline
    ∷ []

history_effects :
    effects queues (new queues) history
    ≡ answered (format_id 1 1) none ∷ closed_sender 1 ∷ answered (format_id 1 2) (some offline) ∷ []
unfolding program
history_effects = refl

-- A hub with one upload under way.
abbrev uploading : List Call
uploading = attaches protobuf_v2 ∷ receives 1 0 (some (hello true true)) ∷ opens_upload 1 ∷ []

abbrev uploading_state : State queues
uploading_state = run queues (new queues) uploading

-- The owner of the upload reads what Home has told it.
abbrev upload_lease : UploadLease
upload_lease = record { generation = 1; id = format_id 1 1; left = []; terminal = false }

abbrev told : State queues
told = run queues uploading_state (receives 1 1 (some (upload_ready (format_id 1 1))) ∷ [])

ready_read : (receive_upload queues told upload_lease).event ≡ some ready
unfolding program
ready_read = refl

abbrev reading : List Call
reading =
    attaches protobuf_v2
    ∷ receives 1 0 (some (hello true true))
    ∷ opens_upload 1
    ∷ receives 1 1 (some (upload_ready (format_id 1 1)))
    ∷ reads_upload upload_lease
    ∷ []

step-other_generation_example :
    ((step queues uploading_state (requests 7 none)).state ≡ uploading_state)
    × ((step queues uploading_state (requests 7 none)).effects ≡ [])
unfolding program
step-other_generation_example =
    step-other_generation queues uploading_state (requests 7 none) 7 (run-new-Inv queues uploading)
      refl refl

started-fresh_example :
    (lookup (format_id 1 2) uploading_state.pending ≡ none)
    × (lookup (format_id 1 2) uploading_state.views ≡ none)
    × (lookup (format_id 1 2) uploading_state.uploads ≡ none)
unfolding program
started-fresh_example =
    started-fresh queues uploading_state 1 (some Operation.create) (format_id 1 2)
      (run-new-Inv queues uploading) (inl refl)

abbrev begun : UploadState queues
begun = record { generation = 1; events = ([], 3); terminal = false }

abbrev last_event : UploadEvent
last_event = complete ok_reply.response

dispatch_finish_delivers_example :
    (events : Queue UploadEvent) × (events.0 ≡ [] ++ last_event ∷ [])
    × (dispatch_finish queues uploading_state ok_reply last_event
        ≡ done queues (record uploading_state {
          uploads =
              insert
                (format_id 1 1)
                (record begun { terminal = true; events = events })
                uploading_state.uploads;
        }))
unfolding program
dispatch_finish_delivers_example =
    dispatch_finish_delivers queues uploading_state ok_reply last_event begun
      (run-new-Inv queues uploading) refl refl refl
