-- ===== src/Hub/Reading.antt =====
-- hub.rs: what the owners read keeps the invariant.
use hmux.Base.{
  ℕ, ◌≡◌, ◌∙◌, refl, Bool, true, false, not, List, [], ◌∷◌, Option, none, some, arith, length,
  if_lem, ◌==◌,
}
use hmux.Base.Int.{ℤ}
use hmux.Base.Eq.{bytes_eq}
use hmux.Base.Map.{lookup}
use hmux.Flow as Flow
use hmux.Hub.State.{
  Error, ViewEvent, output, exit, refresh_result, UploadEvent, Channels, ViewState, UploadState,
  Peer, State, output_full,
}
use hmux.Hub.Reads.{
  ViewLease, UploadLease, ViewRead, UploadRead, receive_view, acknowledge_view, receive_upload,
  window_taken, window_released, acknowledged, view_event, view_checked, view_taken, popped,
  put_view, put_gone, receive_gone, receive_held, put_upload, upload_checked, upload_taken,
  receive_of, receive_left,
}
use hmux.Hub.Holds.{Holds-replace, Holds-lookup}
use hmux.Hub.Invariant.{Inv, Attached, UploadOf}
use hmux.Hub.Removes.{remove_view-Inv, without_gone}

module _ (c : Channels) where
  module _ (s : State c) (v : Inv c s) where
    put_view-Attached :
        (id : List ℕ) (old next : ViewState c) (o : Option Peer)
        → lookup id s.views ≡ some old
        → Attached c s o
        → Attached c (put_view c s id next) o
    unfolding lookup
    put_view-Attached id old next none e a = absurd (ground (arith, a, e))
    put_view-Attached id old next (some p) e a = a

    put_view-Inv :
        (id : List ℕ) (old next : ViewState c)
        → lookup id s.views ≡ some old
        → next.generation ≡ old.generation
        → Inv c (put_view c s id next)
    put_view-Inv id old next e g = record {
      attached = put_view-Attached id old next s.peer e v.attached;
      pending = v.pending;
      views = Holds-replace v.views id old next e (g ∙ Holds-lookup v.views id old e);
      uploads = v.uploads;
      generation_u64 = v.generation_u64;
      id_u64 = v.id_u64;
    }

    put_upload-Attached :
        (id : List ℕ) (old next : UploadState c) (o : Option Peer)
        → lookup id s.uploads ≡ some old
        → Attached c s o
        → Attached c (put_upload c s id next) o
    unfolding lookup
    put_upload-Attached id old next none e a = absurd (ground (arith, a, e))
    put_upload-Attached id old next (some p) e a = a

    put_upload-Inv :
        (id : List ℕ) (old next : UploadState c)
        → lookup id s.uploads ≡ some old
        → UploadOf c s.next_generation next
        → Inv c (put_upload c s id next)
    put_upload-Inv id old next e g = record {
      attached = put_upload-Attached id old next s.peer e v.attached;
      pending = v.pending;
      views = v.views;
      uploads = Holds-replace v.uploads id old next e g;
      generation_u64 = v.generation_u64;
      id_u64 = v.id_u64;
    }

    window_taken-Inv :
        (lease : ViewLease) (event : ViewEvent) (w : Flow.OutputWindow × Bool)
        → Inv c (window_taken c s lease event w).outcome.state
    window_taken-Inv lease event (w, true) = v
    window_taken-Inv lease event (w, false) =
        remove_view-Inv c s lease.generation lease.id output_full true v

    window_released-Inv :
        (lease : ViewLease) (w : Flow.OutputWindow × Bool)
        → Inv c (window_released c s lease w).outcome.state
    window_released-Inv lease (w, true) = v
    window_released-Inv lease (w, false) =
        remove_view-Inv c s lease.generation lease.id output_full true v

    view_event-Inv :
        (lease : ViewLease) (now : ℕ) (event : ViewEvent)
        → Inv c (view_event c s lease now event).outcome.state
    view_event-Inv lease now (output raw) =
        if_lem (λ (r : ViewRead c). Inv c r.outcome.state) lease.home_flow
          (λ yes. window_taken-Inv lease (output raw) (Flow.reserve lease.window (length raw) now))
          (λ no. v)
    view_event-Inv lease now (exit text) = v
    view_event-Inv lease now (refresh_result b) = v

    view_checked-Inv :
        (lease : ViewLease) (now : ℕ) (x : ViewState c) (event : ViewEvent) (o : Option Error)
        → Inv c (view_checked c s lease now x event o).outcome.state
    view_checked-Inv lease now x event (some y) = v
    view_checked-Inv lease now x event none =
        if_lem (λ (r : ViewRead c). Inv c r.outcome.state) (x.closed == output_full) (λ full. v)
          (λ other. view_event-Inv lease now event)

    upload_checked-Inv :
        (lease : UploadLease) (event : UploadEvent) (o : Option Error)
        → Inv c (upload_checked c s lease event o).outcome.state
    upload_checked-Inv lease event (some x) = v
    upload_checked-Inv lease event none = v

    acknowledged-Inv :
        (lease : ViewLease) (n : ℤ) (o : Option Error)
        → Inv c (acknowledged c s lease n o).outcome.state
    acknowledged-Inv lease n (some x) = v
    acknowledged-Inv lease n none =
        if_lem (λ (r : ViewRead c). Inv c r.outcome.state) (not lease.home_flow) (λ no. v)
          (λ yes. window_released-Inv lease (Flow.acknowledge lease.window n))

  view_taken-Inv :
      (put : ViewState c → State c) (s : State c) (lease : ViewLease) (now : ℕ) (held : Bool)
      (x : ViewState c) (o : Option (ViewEvent × c.view.Chan))
      → Inv c s
      → ((next : ViewState c) → next.generation ≡ x.generation → Inv c (put next))
      → Inv c (view_taken c put s lease now held x o).outcome.state
  view_taken-Inv put s lease now true x none v f = v
  view_taken-Inv put s lease now false x none v f = v
  view_taken-Inv put s lease now held x (some (output raw, events)) v f =
      let next = popped c x (output raw) events in
      view_checked-Inv (put next) (f next refl) lease now next (output raw) _
  view_taken-Inv put s lease now held x (some (exit text, events)) v f =
      let next = popped c x (exit text) events in
      view_checked-Inv (put next) (f next refl) lease now next (exit text) _
  view_taken-Inv put s lease now held x (some (refresh_result b, events)) v f =
      let next = popped c x (refresh_result b) events in
      view_checked-Inv (put next) (f next refl) lease now next (refresh_result b) _

  receive_gone-Inv :
      (s : State c) (lease : ViewLease) (now : ℕ) (o : Option (ViewState c))
      → Inv c s
      → Inv c (receive_gone c s lease now o).outcome.state
  receive_gone-Inv s lease now none v = v
  receive_gone-Inv s lease now (some x) v =
      view_taken-Inv (put_gone c s lease.id) s lease now false x _ v
        (λ next e. without_gone c s _ v)

  receive_held-Inv :
      (s : State c) (lease : ViewLease) (now : ℕ) (o : Option (ViewState c))
      → lookup lease.id s.views ≡ o
      → Inv c s
      → Inv c (receive_held c s lease now o).outcome.state
  receive_held-Inv s lease now none e v = receive_gone-Inv s lease now _ v
  receive_held-Inv s lease now (some x) e v =
      if_lem (λ (r : ViewRead c). Inv c r.outcome.state) (x.generation == lease.generation)
        (λ mine.
          view_taken-Inv (put_view c s lease.id) s lease now true x _ v
            (λ next g. put_view-Inv s v lease.id x next e g))
        (λ other. receive_gone-Inv s lease now _ v)

  pub receive_view-Inv :
      (s : State c) (lease : ViewLease) (now : ℕ)
      → Inv c s
      → Inv c (receive_view c s lease now).outcome.state
  unfolding receive_view
  receive_view-Inv s lease now v =
      if_lem (λ (r : ViewRead c). Inv c r.outcome.state) lease.exited (λ yes. v)
        (λ no. receive_held-Inv s lease now (lookup lease.id s.views) refl v)

  pub acknowledge_view-Inv :
      (s : State c) (lease : ViewLease) (n : ℤ)
      → Inv c s
      → Inv c (acknowledge_view c s lease n).outcome.state
  unfolding acknowledge_view
  acknowledge_view-Inv s lease n v = acknowledged-Inv s v lease n _

  receive_left-Inv :
      (s : State c) (lease : UploadLease) (left : List UploadEvent)
      → Inv c s
      → Inv c (receive_left c s lease left).outcome.state
  receive_left-Inv s lease [] v = v
  receive_left-Inv s lease (x ∷ left) v = upload_checked-Inv s v _ x _

  -- A read makes room.
  upload_taken-Inv :
      (s : State c) (lease : UploadLease) (u : UploadState c)
      (o : Option (UploadEvent × c.upload.Chan))
      → lookup lease.id s.uploads ≡ some u
      → c.upload.recv u.events ≡ o
      → Inv c s
      → Inv c (upload_taken c s lease u o).outcome.state
  upload_taken-Inv s lease u none e r v = v
  upload_taken-Inv s lease u (some (event, events)) e r v =
      let next : UploadState c = record u { events = events } in
      let ok : UploadOf c s.next_generation u = Holds-lookup v.uploads lease.id u e in
      let (contents, limit) = c.upload.recv_sent u.events events event r in
      upload_checked-Inv (put_upload c s lease.id next)
        (put_upload-Inv s v lease.id u next e (record {
          of_generation = ok.of_generation;
          limit = limit ∙ ok.limit;
          unclosed = c.upload.recv_closed u.events events event r ∙ ok.unclosed;
          room = λ h. ground (arith, contents, ok.room h);
        }))
        lease event _

  receive_of-Inv :
      (s : State c) (lease : UploadLease) (o : Option (UploadState c))
      → lookup lease.id s.uploads ≡ o
      → Inv c s
      → Inv c (receive_of c s lease o).outcome.state
  receive_of-Inv s lease none e v = receive_left-Inv s lease lease.left v
  receive_of-Inv s lease (some u) e v =
      if_lem (λ (r : UploadRead c). Inv c r.outcome.state) (u.generation == lease.generation)
        (λ mine. upload_taken-Inv s lease u (c.upload.recv u.events) e refl v)
        (λ other. receive_left-Inv s lease lease.left v)

  pub receive_upload-Inv :
      (s : State c) (lease : UploadLease) → Inv c s → Inv c (receive_upload c s lease).outcome.state
  unfolding receive_upload
  receive_upload-Inv s lease v =
      if_lem (λ (r : UploadRead c). Inv c r.outcome.state) lease.terminal (λ yes. v)
        (λ no. receive_of-Inv s lease (lookup lease.id s.uploads) refl v)
