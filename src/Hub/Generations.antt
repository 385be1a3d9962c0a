-- ===== src/Hub/Generations.antt =====
-- Generations keep the connections apart: callers of another generation than the live one change
-- nothing, ids are never handed out twice, and the last event of an upload is always queued.
use mathlib.Core.Path.{subst}
use hmux.Base.{
  if_lem, ◌==◌, ℕ, ap, sym, ◌+◌, ◌<◌, ◌≡◌, ◌≢◌, ◌∙◌, refl, Bool, true, false, List, [], ◌∷◌, ◌++◌,
  Option, none, some, arith, Option-cases, inl, inr, ◌⊎◌, if◌then◌else◌,
}
use hmux.Base.Eq.{bytes_eq}
use hmux.Base.Map.{lookup, insert}
use hmux.Hub.Ids.{rank, format_id}
use hmux.Hub.State.{
  Cleanup, Channels, UploadState, State, Outcome, UploadEvent, Operation, is_live, done,
}
use hmux.Hub.Peers.{cleanup, u64_max, detach_with_reason}
use hmux.Hub.Leases.{
  begin_request, begin_view, begin_upload, drop_pending, remove_view, remove_upload, pending_of,
  ensure_view, view_of, upload_of,
}
use hmux.Hub.Dispatch.{
  Reply, Update, Provider, unknown, Body, catalog, usage, cache_catalog, cache_usage,
}
use hmux.Hub.Uploads.{finish, dispatch_finish}
use hmux.Hub.Handle.{
  dispatch, Call, attaches, detaches, requests, opens_view, opens_upload, drops_pending, drops_view,
  closes_view, drops_upload, receives, reads_view, acknowledges_view, reads_upload, step,
}
use hmux.Hub.Reads.{
  ViewLease, UploadLease, UploadRead, acknowledge_view, receive_upload, receive_of, receive_left,
  upload_checked, upload_taken,
}
use hmux.Base.Int.{ℤ}
use hmux.Hub.State.{Error}
use hmux.Hub.Holds.{Holds-absent, Holds-lookup}
use hmux.Hub.Invariant.{Inv, UploadOf, mark, fresh_id, rank-fresh_id}
use hmux.Hub.Keeps.{live-eq}

-- The calls that name a generation and may touch what the hub holds; a view's lease also reads and lets
-- go of its own cell, which the hub has no part in.
abbrev pub caller : Call → Option ℕ
caller (attaches p) = none
caller (detaches g reason) = some g
caller (requests g op) = some g
caller (opens_view g) = some g
caller (opens_upload g) = some g
caller (drops_pending g id sent cancel) = some g
caller (drops_view g id sent) = none
caller (closes_view g id code clean) = some g
caller (drops_upload g id sent) = some g
caller (receives g now body) = some g
caller (reads_view lease now) = none
caller (acknowledges_view lease n) = some lease.generation
caller (reads_upload lease) = some lease.generation

module _ (c : Channels) where
  -- What is in a map belongs to the live connection.
  entry_live :
      (s : State c) (g : ℕ)
      → Inv c s
      → s.peer ≢ none
      → s.next_generation ≡ g
      → is_live s.peer g ≡ true
  entry_live s g v h e = elim (Option-cases s.peer) [
    | inl n ↦ absurd (h n)
    | inr (p, q) ↦ ground (arith, v.attached)
  ]

  pending_dead :
      (s : State c) (g : ℕ) (id : List ℕ)
      → Inv c s
      → is_live s.peer g ≡ false
      → pending_of c (lookup id s.pending) g ≡ false
  unfolding lookup
  pending_dead s g id v dead = elim (Option-cases (lookup id s.pending)) [
    | inl e ↦ rw e
    | inr (p, e) ↦ elim (Option-cases s.peer) [
      | inl n ↦ ground (arith, v.attached)
      | inr (q, n) ↦ ground (arith, v.attached, Holds-lookup v.pending id p e)
    ]
  ]

  view_dead :
      (s : State c) (g : ℕ) (id : List ℕ)
      → Inv c s
      → is_live s.peer g ≡ false
      → view_of c (lookup id s.views) g ≡ false
  unfolding lookup
  view_dead s g id v dead = elim (Option-cases (lookup id s.views)) [
    | inl e ↦ rw e
    | inr (p, e) ↦ elim (Option-cases s.peer) [
      | inl n ↦ ground (arith, v.attached)
      | inr (q, n) ↦ ground (arith, v.attached, Holds-lookup v.views id p e)
    ]
  ]

  upload_dead :
      (s : State c) (g : ℕ) (id : List ℕ)
      → Inv c s
      → is_live s.peer g ≡ false
      → upload_of c (lookup id s.uploads) true g ≡ false
  unfolding lookup
  upload_dead s g id v dead = elim (Option-cases (lookup id s.uploads)) [
    | inl e ↦ rw e
    | inr (p, e) ↦ elim (Option-cases s.peer) [
      | inl n ↦ ground (arith, v.attached)
      | inr (q, n) ↦
          let ok : UploadOf c s.next_generation p = Holds-lookup v.uploads id p e in
          ground (arith, v.attached, ok.of_generation)
    ]
  ]

  abbrev pub Unchanged : State c → Outcome c → Type 0
  Unchanged s o = (o.state ≡ s) × (o.effects ≡ [])

  cache_dead :
      (s : State c) (g now : ℕ) (p : Provider) (u : Update)
      → is_live s.peer g ≡ false
      → Unchanged s (cache_catalog c s g now u) × Unchanged s (cache_usage c s g p u)
  unfolding cache_catalog cache_usage
  cache_dead s g now p u dead = ground arith

  receives_dead :
      (s : State c) (g now : ℕ) (body : Option Body)
      → is_live s.peer g ≡ false
      → Unchanged s (dispatch c s g now body)
  unfolding dispatch
  receives_dead s g now none dead = (refl, refl)
  receives_dead s g now (some (catalog u)) dead = (cache_dead s g now unknown u dead).0
  receives_dead s g now (some (usage p u)) dead = (cache_dead s g now p u dead).1
  receives_dead s g now (some body) dead = (rw dead, rw dead)

  cleanup_dead :
      (s : State c) (g : ℕ) (b : Bool) (body : Cleanup)
      → is_live s.peer g ≡ false
      → (if b then cleanup c s g body else []) ≡ []
  unfolding cleanup
  cleanup_dead s g b body dead = ground arith

  dead_drop :
      (s : State c) (g : ℕ) (id : List ℕ) (sent cancel_on_drop : Bool)
      → is_live s.peer g ≡ false
      → pending_of c (lookup id s.pending) g ≡ false
      → (drop_pending c s g id sent cancel_on_drop).effects ≡ []
  unfolding drop_pending
  dead_drop s g id sent cancel_on_drop dead mine = rw mine (cleanup_dead s g _ _ dead)

  dead_of :
      (s : State c) (g h : ℕ)
      → ◌≡◌ {A = Option ℕ} (some h) (some g)
      → is_live s.peer g ≡ false
      → is_live s.peer h ≡ false
  dead_of s g h e dead = ground arith

  acknowledge_dead :
      (s : State c) (lease : ViewLease) (n : ℤ)
      → is_live s.peer lease.generation ≡ false
      → Unchanged s (acknowledge_view c s lease n).outcome
  unfolding acknowledge_view ensure_view
  acknowledge_dead s lease n dead = (rw dead refl, rw dead refl)

  upload_checked-Unchanged :
      (s : State c) (lease : UploadLease) (event : UploadEvent) (o : Option Error)
      → Unchanged s (upload_checked c s lease event o).outcome
  upload_checked-Unchanged s lease event none = (refl, refl)
  upload_checked-Unchanged s lease event (some x) = (refl, refl)

  receive_left-Unchanged :
      (s : State c) (lease : UploadLease) (left : List UploadEvent)
      → Unchanged s (receive_left c s lease left).outcome
  receive_left-Unchanged s lease [] = (refl, refl)
  receive_left-Unchanged s lease (x ∷ left) = upload_checked-Unchanged s _ x _

  receive_of-Unchanged :
      (s : State c) (lease : UploadLease) (o : Option (UploadState c))
      → upload_of c o true lease.generation ≡ false
      → Unchanged s (receive_of c s lease o).outcome
  receive_of-Unchanged s lease none dead = receive_left-Unchanged s lease lease.left
  receive_of-Unchanged s lease (some u) dead =
      let other : (u.generation == lease.generation) ≡ false = ground arith in
      subst
        (λ b.
          Unchanged s
            (if b
              then upload_taken c s lease u (c.upload.recv u.events)
              else receive_left c s lease lease.left).outcome)
        (sym other) (receive_left-Unchanged s lease lease.left)

  upload_read_dead :
      (s : State c) (lease : UploadLease)
      → upload_of c (lookup lease.id s.uploads) true lease.generation ≡ false
      → Unchanged s (receive_upload c s lease).outcome
  unfolding receive_upload
  upload_read_dead s lease dead =
      if_lem (λ (r : UploadRead c). Unchanged s r.outcome) lease.terminal (λ yes. (refl, refl))
        (λ no. receive_of-Unchanged s lease (lookup lease.id s.uploads) dead)

  -- A request, lease, message or detachment of any generation but the live one, other than the reading
  -- and the end of a view's lease, leaves a hub that satisfies the invariant as it is and has no effect.
  pub step-other_generation :
      (s : State c) (x : Call) (g : ℕ)
      → Inv c s
      → caller x ≡ some g
      → is_live s.peer g ≡ false
      → ((step c s x).state ≡ s) × ((step c s x).effects ≡ [])
  unfolding step detach_with_reason begin_request begin_view begin_upload drop_pending remove_view
      remove_upload
  step-other_generation s (attaches p) g v e dead = cc
  step-other_generation s (detaches h reason) g v e dead =
      let d = dead_of s g h e dead in (rw d, rw d)
  step-other_generation s (requests h none) g v e dead =
      let d = dead_of s g h e dead in (ground arith, ground arith)
  step-other_generation s (requests h (some op)) g v e dead =
      let d = dead_of s g h e dead in (ground arith, ground arith)
  step-other_generation s (opens_view h) g v e dead =
      let d = dead_of s g h e dead in (ground arith, ground arith)
  step-other_generation s (opens_upload h) g v e dead =
      let d = dead_of s g h e dead in (ground arith, ground arith)
  step-other_generation s (drops_pending h id sent cancel) g v e dead =
      let d = dead_of s g h e dead in
      let mine = pending_dead s h id v d in (rw mine, dead_drop s h id sent cancel d mine)
  step-other_generation s (drops_view h id sent) g v e dead = cc
  step-other_generation s (closes_view h id code clean) g v e dead =
      let mine = view_dead s h id v (dead_of s g h e dead) in (rw mine, rw mine)
  step-other_generation s (drops_upload h id sent) g v e dead =
      let mine = upload_dead s h id v (dead_of s g h e dead) in (rw mine, rw mine)
  step-other_generation s (reads_view lease now) g v e dead = cc
  step-other_generation s (acknowledges_view lease n) g v e dead =
      let d = dead_of s g lease.generation e dead in acknowledge_dead s lease n d
  step-other_generation s (reads_upload lease) g v e dead =
      let d = dead_of s g lease.generation e dead in
      upload_read_dead s lease (upload_dead s lease.generation lease.id v d)
  step-other_generation s (receives h now body) g v e dead =
      receives_dead s h now body (dead_of s g h e dead)

  -- The id that a request gets is that of no entry, in any of the hub's maps.
  fresh_absent :
      (s : State c)
      → Inv c s
      → s.next_id ≢ u64_max
      → (lookup (fresh_id c s) s.pending ≡ none)
        × (lookup (fresh_id c s) s.views ≡ none)
        × (lookup (fresh_id c s) s.uploads ≡ none)
  fresh_absent s v h =
      let lt : mark c s < rank (fresh_id c s) = omega (arith, rank-fresh_id c s v h) in
      (
        Holds-absent v.pending (fresh_id c s) lt,
        Holds-absent v.views (fresh_id c s) lt,
        Holds-absent v.uploads (fresh_id c s) lt,
      )

  abbrev IsNext : State c → ℕ → List ℕ → Type 0
  IsNext s g id =
      (is_live s.peer g ≡ true) × (s.next_id ≢ u64_max) × (id ≡ format_id g (s.next_id + 1))

  begin_request-IsNext :
      (s : State c) (g : ℕ) (op : Option Operation) (id : List ℕ)
      → (begin_request c s g op).id ≡ some id
      → IsNext s g id
  unfolding begin_request
  begin_request-IsNext s g none id h = absurd (ground arith)
  begin_request-IsNext s g (some op) id h = (ground arith, λ e. ground arith, ground arith)

  begin_view-IsNext :
      (s : State c) (g : ℕ) (id : List ℕ) → (begin_view c s g).id ≡ some id → IsNext s g id
  unfolding begin_view
  begin_view-IsNext s g id h = (ground arith, λ e. ground arith, ground arith)

  begin_upload-IsNext :
      (s : State c) (g : ℕ) (id : List ℕ) → (begin_upload c s g).id ≡ some id → IsNext s g id
  unfolding begin_upload
  begin_upload-IsNext s g id h = (ground arith, λ e. ground arith, ground arith)

  next_absent :
      (s : State c) (g : ℕ) (id : List ℕ)
      → Inv c s
      → IsNext s g id
      → (lookup id s.pending ≡ none) × (lookup id s.views ≡ none) × (lookup id s.uploads ≡ none)
  next_absent s g id v (live, room, e) =
      let same : fresh_id c s ≡ id =
        ap (λ k. format_id k (s.next_id + 1)) (sym (live-eq c s g v live)) ∙ sym e in
      subst
        (λ i. (lookup i s.pending ≡ none) × (lookup i s.views ≡ none) × (lookup i s.uploads ≡ none))
        same (fresh_absent s v room)

  -- The id that `begin_request`, `begin_view` or `begin_upload` hands out is new: no pending
  -- request, view or upload of the hub has it.
  pub started-fresh :
      (s : State c) (g : ℕ) (op : Option Operation) (id : List ℕ)
      → Inv c s
      → ((begin_request c s g op).id ≡ some id)
        ⊎ ((begin_view c s g).id ≡ some id)
        ⊎ ((begin_upload c s g).id ≡ some id)
      → (lookup id s.pending ≡ none) × (lookup id s.views ≡ none) × (lookup id s.uploads ≡ none)
  started-fresh s g op id v (inl h) = next_absent s g id v (begin_request-IsNext s g op id h)
  started-fresh s g op id v (inr (inl h)) = next_absent s g id v (begin_view-IsNext s g id h)
  started-fresh s g op id v (inr (inr h)) = next_absent s g id v (begin_upload-IsNext s g id h)

  -- In a state with the invariant of a hub there is room for the last event of an upload: an
  -- UploadComplete or UploadError for an unfinished upload of the hub, whose response the payload budget
  -- admits, is queued behind the earlier events for the owner, the upload is then finished, and Home's
  -- connection is not failed.
  pub dispatch_finish_delivers :
      (s : State c) (r : Reply) (event : UploadEvent) (u : UploadState c)
      → Inv c s
      → lookup r.response.id s.uploads ≡ some u
      → u.terminal ≡ false
      → r.admits ≡ true
      → (events : c.upload.Chan) × (c.upload.contents events
          ≡ c.upload.contents u.events ++ event ∷ [])
        × (dispatch_finish c s r event
            ≡ done c (record s {
              uploads =
                  insert r.response.id (record u { terminal = true; events = events }) s.uploads;
            }))
  unfolding dispatch_finish finish
  dispatch_finish_delivers s r event u v e runs fits =
      let ok : UploadOf c s.next_generation u = Holds-lookup v.uploads r.response.id u e in
      let (events, sent) =
        c.upload.try_send_room u.events event ok.unclosed (omega (arith, ok.room runs, ok.limit)) in
      let (contents, limit, room) = c.upload.try_send_sent u.events events event sent in
      (events, contents, rw (e, finish, runs, fits, sent) refl)
