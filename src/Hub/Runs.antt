-- ===== src/Hub/Runs.antt =====
-- The invariant holds after any run of the hub.
use hmux.Base.{
  ℕ, ◌≡◌, ◌∙◌, refl, true, List, [], ◌∷◌, Option, none, some, arith, length-append, Option-cases,
  Bool-cases, inl, inr, leb,
}
use hmux.Base.Eq.{bytes_eq}
use hmux.Base.Map.{lookup}
use hmux.Base.Channel as Channel
use hmux.Hub.State.{Channels, UploadState, State, UploadEvent, is_live}
use hmux.Hub.Dispatch.{Reply}
use hmux.Hub.Uploads.{
  cancel_upload, progress, dispatch_progress, finish, dispatch_finish, keep_upload,
}
use hmux.Hub.Holds.{Holds-replace, Holds-lookup}
use hmux.Hub.Invariant.{Inv, UploadOf}
use hmux.Hub.Keeps.{Attached-live}
use hmux.Hub.State.{new, ready, ack, complete, failed}
use hmux.Hub.Dispatch.{
  Body, hello, catalog, usage, usage_unavailable, response, terminal_output, terminal_exit,
  refreshed, upload_ready, upload_ack, upload_complete, upload_error, task_complete, other,
}
use hmux.Hub.Handle.{
  dispatch, dispatch_live, under_lock, Call, attaches, detaches, requests, opens_view, opens_upload,
  drops_pending, drops_view, closes_view, drops_upload, receives, reads_view, acknowledges_view,
  reads_upload, step, run,
}
use hmux.Hub.Keeps.{begin_request-Inv, begin_view-Inv, begin_upload-Inv}
use hmux.Hub.Removes.{
  attach-Inv, detach-Inv, drop_pending-Inv, drop_view-Inv, remove_view-Inv, remove_upload-Inv,
  without_upload,
}
use hmux.Hub.Receives.{
  Inv-caches, cache_catalog-Inv, cache_usage-Inv, dispatch_response-Inv, dispatch_output-Inv,
  dispatch_exit-Inv, dispatch_refresh-Inv,
}
use hmux.Hub.Reading.{receive_view-Inv, acknowledge_view-Inv, receive_upload-Inv}
use hmux.Hub.Invariant.{new-Inv}

module _ (c : Channels) where
  keep_upload-Inv :
      (s : State c) (g : ℕ) (id : List ℕ) (old next : UploadState c)
      → is_live s.peer g ≡ true
      → lookup id s.uploads ≡ some old
      → UploadOf c s.next_generation next
      → Inv c s
      → Inv c (keep_upload c s id next)
  keep_upload-Inv s g id old next live e ok v = record {
    attached = Attached-live c s (keep_upload c s id next) s.peer g live refl v.attached;
    pending = v.pending;
    views = v.views;
    uploads = Holds-replace v.uploads id old next e ok;
    generation_u64 = v.generation_u64;
    id_u64 = v.id_u64;
  }

  module _ (s : State c) (g : ℕ) (live : is_live s.peer g ≡ true) (v : Inv c s) where
    -- A progress event is taken only where the last event still fits after it.
    progress-Inv :
        (id : List ℕ) (event : UploadEvent) (o : Option (UploadState c))
        → lookup id s.uploads ≡ o
        → Inv c (progress c s g id event o).state
    unfolding progress cancel_upload
    progress-Inv id event none e = v
    progress-Inv id event (some u) e = elim (Bool-cases u.terminal) [
      | inl over ↦ rw (over, progress) v
      | inr runs ↦ elim (Bool-cases (leb (Channel.capacity c.upload u.events) 1)) [
        | inl last ↦ rw (runs, last, progress) (without_upload c s id v)
        | inr room ↦ elim (Option-cases (c.upload.try_send u.events event)) [
          | inl full ↦ rw (runs, room, full, progress) (without_upload c s id v)
          | inr (events, sent) ↦
              let ok : UploadOf c s.next_generation u = Holds-lookup v.uploads id u e in
              let (contents, limit, fits) = c.upload.try_send_sent u.events events event sent in
              rw (runs, room, sent, progress)
                (keep_upload-Inv s g id u (record u { events = events }) live e
                  (record {
                    of_generation = ok.of_generation;
                    limit = limit ∙ ok.limit;
                    unclosed = c.upload.try_send_open u.events events event sent;
                    room = λ h. ground (
                      arith,
                      contents,
                      ok.limit,
                      ok.room runs,
                      length-append (c.upload.contents u.events) (event ∷ []),
                    );
                  })
                  v)
        ]
      ]
    ]

    finish-Inv :
        (r : Reply) (event : UploadEvent) (o : Option (UploadState c))
        → lookup r.response.id s.uploads ≡ o
        → Inv c (finish c s r event o).state
    unfolding finish
    finish-Inv r event none e = v
    finish-Inv r event (some u) e = elim (Bool-cases u.terminal) [
      | inl over ↦ rw (over, finish) v
      | inr runs ↦ elim (Bool-cases r.admits) [
        | inr full ↦ rw (runs, full, finish) v
        | inl fits ↦
            let ok : UploadOf c s.next_generation u = Holds-lookup v.uploads r.response.id u e in
            elim (Option-cases (c.upload.try_send u.events event)) [
              | inl full ↦
                  rw (runs, fits, full, finish)
                    (keep_upload-Inv s g r.response.id u (record u { terminal = true }) live e
                      (record {
                        of_generation = ok.of_generation;
                        limit = ok.limit;
                        unclosed = ok.unclosed;
                        room = λ h. cc;
                      })
                      v)
              | inr (events, sent) ↦
                  let (contents, limit, room) = c.upload.try_send_sent u.events events event sent in
                  rw (runs, fits, sent, finish)
                    (keep_upload-Inv s g r.response.id u
                      (record u { terminal = true; events = events }) live e
                      (record {
                        of_generation = ok.of_generation;
                        limit = limit ∙ ok.limit;
                        unclosed = c.upload.try_send_open u.events events event sent;
                        room = λ h. cc;
                      })
                      v)
            ]
      ]
    ]

    dispatch_live-Inv : (body : Body) → Inv c (dispatch_live c s g body).state
    unfolding dispatch_live dispatch_progress dispatch_finish
    dispatch_live-Inv (hello oc uc) = Inv-caches c s g _ _ _ _ _ _ live v
    dispatch_live-Inv usage_unavailable = Inv-caches c s g _ _ _ _ _ _ live v
    dispatch_live-Inv (response r) = dispatch_response-Inv c s g r v
    dispatch_live-Inv (terminal_output id raw admits) =
        dispatch_output-Inv c s g live v id raw admits
    dispatch_live-Inv (terminal_exit r) = dispatch_exit-Inv c s g live v r
    dispatch_live-Inv (refreshed r) = dispatch_refresh-Inv c s g live v r
    dispatch_live-Inv (upload_ready id) = progress-Inv id ready (lookup id s.uploads) refl
    dispatch_live-Inv (upload_ack id n) = progress-Inv id (ack n) (lookup id s.uploads) refl
    dispatch_live-Inv (upload_complete r) =
        finish-Inv r (complete r.response) (lookup r.response.id s.uploads) refl
    dispatch_live-Inv (upload_error r) =
        finish-Inv r (failed r.response) (lookup r.response.id s.uploads) refl
    dispatch_live-Inv task_complete = v
    dispatch_live-Inv other = v
    dispatch_live-Inv (catalog u) = v
    dispatch_live-Inv (usage p u) = v

  under_lock-Inv :
      (s : State c) (g : ℕ) (body : Body) → Inv c s → Inv c (under_lock c s g body).state
  under_lock-Inv s g body v = elim (Bool-cases (is_live s.peer g)) [
    | inr dead ↦ rw dead v
    | inl live ↦ rw live (dispatch_live-Inv s g live v body)
  ]

  dispatch-Inv :
      (s : State c) (g now : ℕ) (body : Option Body)
      → Inv c s
      → Inv c (dispatch c s g now body).state
  unfolding dispatch
  dispatch-Inv s g now none v = v
  dispatch-Inv s g now (some (catalog u)) v = cache_catalog-Inv c s g now u v
  dispatch-Inv s g now (some (usage p u)) v = cache_usage-Inv c s g p u v
  dispatch-Inv s g now (some body) v = under_lock-Inv s g body v

  pub step-Inv : (s : State c) (x : Call) → Inv c s → Inv c (step c s x).state
  unfolding step
  step-Inv s (attaches p) v = attach-Inv c s p v
  step-Inv s (detaches g reason) v = detach-Inv c s g reason v
  step-Inv s (requests g op) v = begin_request-Inv c s g op v
  step-Inv s (opens_view g) v = begin_view-Inv c s g v
  step-Inv s (opens_upload g) v = begin_upload-Inv c s g v
  step-Inv s (drops_pending g id sent cancel) v = drop_pending-Inv c s g id sent cancel v
  step-Inv s (drops_view g id sent) v = drop_view-Inv c s g id sent v
  step-Inv s (closes_view g id code clean) v = remove_view-Inv c s g id code clean v
  step-Inv s (drops_upload g id sent) v = remove_upload-Inv c s g id sent v
  step-Inv s (receives g now body) v = dispatch-Inv s g now body v
  step-Inv s (reads_view lease now) v = receive_view-Inv c s lease now v
  step-Inv s (acknowledges_view lease n) v = acknowledge_view-Inv c s lease n v
  step-Inv s (reads_upload lease) v = receive_upload-Inv c s lease v

  run-Inv : (s : State c) (xs : List Call) → Inv c s → Inv c (run c s xs)
  unfolding run
  run-Inv s [] v = v
  run-Inv s (x ∷ xs) v = run-Inv (step c s x).state xs (step-Inv s x v)

  pub run-new-Inv : (xs : List Call) → Inv c (run c (new c) xs)
  run-new-Inv xs = run-Inv (new c) xs (new-Inv c)
