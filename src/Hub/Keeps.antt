-- ===== src/Hub/Keeps.antt =====
-- Every operation of the HTTP owners keeps the invariant.
use hmux.Base.{
  ℕ, sym, ◌+◌, ◌<◌, ◌≡◌, ◌≢◌, refl, Bool, true, false, not, List, Option, none, some, arith, length,
  Bool-cases, inl, inr, leb, ◌==◌, if◌then◌else◌,
}
use mathlib.Core.Path.{subst}
use hmux.Base.Eq.{bytes_eq}
use hmux.Base.Map.{insert}
use hmux.Hub.State.{
  Channels, State, Peer, Operation, operation, terminal_open, max_pending, max_views, max_uploads,
  upload_events, view_frames, is_live,
}
use hmux.Hub.Peers.{u64_max}
use hmux.Hub.Leases.{
  with_next_id, insert_request, insert_view, insert_upload, begin_request, begin_view, begin_upload,
  Started,
}
use hmux.Hub.Holds.{Holds, Holds-mono, Holds-insert}
use hmux.Hub.Invariant.{Inv, Attached, mark, fresh_id, rank-fresh_id}

pub live_some :
    (o : Option Peer) (g : ℕ) → is_live o g ≡ true → (p : Peer) × (o ≡ some p) × (p.generation ≡ g)
live_some none g h = cc
live_some (some p) g h = (p, refl, ground arith)

module _ (c : Channels) where
  pub live-eq : (s : State c) (g : ℕ) → Inv c s → is_live s.peer g ≡ true → g ≡ s.next_generation
  live-eq s g v h = ground (arith, live_some s.peer g h, v.attached)

  -- Under a live connection only the generation matters.
  pub Attached-live :
      (s s' : State c) (o : Option Peer) (g : ℕ)
      → is_live o g ≡ true
      → s'.next_generation ≡ s.next_generation
      → Attached c s o
      → Attached c s' o
  Attached-live s s' none g h e a = cc
  Attached-live s s' (some p) g h e a = ground arith

  abbrev counted_up : State c → State c
  counted_up s = record s { next_id = s.next_id + 1 }

  counted_up-Inv :
      (s : State c) (g : ℕ)
      → Inv c s
      → is_live s.peer g ≡ true
      → s.next_id ≢ u64_max
      → Inv c (counted_up s)
  counted_up-Inv s g v live h = record {
    attached = Attached-live s (counted_up s) s.peer g live refl v.attached;
    pending = Holds-mono v.pending (mark c (counted_up s)) (omega arith);
    views = Holds-mono v.views (mark c (counted_up s)) (omega arith);
    uploads = Holds-mono v.uploads (mark c (counted_up s)) (omega arith);
    generation_u64 = v.generation_u64;
    id_u64 = omega (arith, v.id_u64);
  }

  -- An entry under the fresh id, in one of the maps.
  Holds-fresh :
      {V : Type 0} {limit : ℕ} {P : V → Type 0} {m : List (List ℕ × V)} (s : State c)
      → Inv c s
      → s.next_id ≢ u64_max
      → Holds limit (mark c s) P m
      → (x : V) → length m < limit
      → P x
      → Holds limit (mark c (counted_up s)) P (insert (fresh_id c s) x m)
  Holds-fresh {limit = limit} {P = P} {m = m} s v room h x lt p =
      let e : mark c s + 1 ≡ mark c (counted_up s) = omega arith in
      subst (λ (top : ℕ). Holds limit top P (insert (fresh_id c s) x m)) e
        (Holds-insert h (fresh_id c s) x (rank-fresh_id c s v room) lt p)

  -- A live caller's generation is the hub's, its counter has room, or nothing changes.
  with_next_id-Inv :
      (s : State c) (k : State c → List ℕ → Started c)
      → Inv c s
      → is_live s.peer s.next_generation ≡ true
      → (s.next_id ≢ u64_max
          → Inv c (counted_up s)
          → Inv c (k (counted_up s) (fresh_id c s)).outcome.state)
      → Inv c (with_next_id c s s.next_generation k).outcome.state
  unfolding with_next_id
  with_next_id-Inv s k v live h = elim (Bool-cases (s.next_id == u64_max)) [
    | inl top ↦ rw top v
    | inr room ↦
        let ok : s.next_id ≢ u64_max = λ e. ground arith in
        rw room (h ok (counted_up-Inv s s.next_generation v live ok))
  ]

  insert_request-Inv :
      (s : State c) (op : Option Operation)
      → Inv c s
      → length s.pending < max_pending
      → is_live s.peer s.next_generation ≡ true
      → Inv c
          (with_next_id c s s.next_generation (insert_request c s.next_generation op)).outcome.state
  unfolding insert_request
  insert_request-Inv s none v lt live = with_next_id-Inv s _ v live (λ room u. u)
  insert_request-Inv s (some op) v lt live = with_next_id-Inv s _ v live λ room u. record {
    attached =
        Attached-live s
          (insert_request c s.next_generation (some op) (counted_up s) (fresh_id c s)).outcome.state
          s.peer s.next_generation live refl v.attached;
    pending =
        Holds-fresh s v room v.pending
          (record { generation = s.next_generation; context = operation op }) lt refl;
    views = u.views;
    uploads = u.uploads;
    generation_u64 = u.generation_u64;
    id_u64 = u.id_u64;
  }

  pub begin_request-Inv :
      (s : State c) (g : ℕ) (op : Option Operation)
      → Inv c s
      → Inv c (begin_request c s g op).outcome.state
  unfolding begin_request
  begin_request-Inv s g op v = elim (Bool-cases (is_live s.peer g)) [
    | inr dead ↦ rw dead v
    | inl live ↦ elim (Bool-cases (leb max_pending (length s.pending))) [
      | inl full ↦ rw (live, full) v
      | inr room ↦
          let e : s.next_generation ≡ g = sym (live-eq s g v live) in
          rw (live, room)
            (subst (λ g. Inv c (with_next_id c s g (insert_request c g op)).outcome.state) e
              (insert_request-Inv s op v (ground arith) (rw e live)))
    ]
  ]

  insert_view-Inv :
      (s : State c)
      → Inv c s
      → length s.views < max_views
      → length s.pending < max_pending
      → is_live s.peer s.next_generation ≡ true
      → Inv c (with_next_id c s s.next_generation (insert_view c s.next_generation)).outcome.state
  unfolding insert_view
  insert_view-Inv s v lt lt' live = with_next_id-Inv s _ v live λ room u. record {
    attached =
        Attached-live s
          (insert_view c s.next_generation (counted_up s) (fresh_id c s)).outcome.state s.peer
          s.next_generation live refl v.attached;
    pending =
        Holds-fresh s v room v.pending
          (record { generation = s.next_generation; context = terminal_open }) lt' refl;
    views =
        Holds-fresh s v room v.views
          (record {
            generation = s.next_generation;
            events = c.view.channel view_frames;
            closed = 0;
            queued_data = 0;
          })
          lt refl;
    uploads = u.uploads;
    generation_u64 = u.generation_u64;
    id_u64 = u.id_u64;
  }

  pub begin_view-Inv : (s : State c) (g : ℕ) → Inv c s → Inv c (begin_view c s g).outcome.state
  unfolding begin_view
  begin_view-Inv s g v = elim (Bool-cases (is_live s.peer g)) [
    | inr dead ↦ rw dead v
    | inl live ↦ elim (Bool-cases (leb max_views (length s.views))) [
      | inl full ↦ rw (live, full) v
      | inr room ↦ elim (Bool-cases (leb max_pending (length s.pending))) [
        | inl full ↦ rw (live, room, full) v
        | inr room' ↦
            let e : s.next_generation ≡ g = sym (live-eq s g v live) in
            rw (live, room, room')
              (subst (λ g. Inv c (with_next_id c s g (insert_view c g)).outcome.state) e
                (insert_view-Inv s v (ground arith) (ground arith) (rw e live)))
      ]
    ]
  ]

  if-Inv :
      (b : Bool) (x y : Started c)
      → Inv c x.outcome.state
      → Inv c y.outcome.state
      → Inv c (if b then x else y).outcome.state
  if-Inv true x y h k = h
  if-Inv false x y h k = k

  insert_upload-Inv :
      (s : State c)
      → Inv c s
      → length s.uploads < max_uploads
      → is_live s.peer s.next_generation ≡ true
      → Inv c (with_next_id c s s.next_generation (insert_upload c s.next_generation)).outcome.state
  unfolding insert_upload
  insert_upload-Inv s v lt live = with_next_id-Inv s _ v live λ room u. record {
    attached =
        Attached-live s
          (insert_upload c s.next_generation (counted_up s) (fresh_id c s)).outcome.state s.peer
          s.next_generation live refl v.attached;
    pending = u.pending;
    views = u.views;
    uploads =
        Holds-fresh s v room v.uploads
          (record {
            generation = s.next_generation;
            events = c.upload.channel upload_events;
            terminal = false;
          })
          lt
          (record {
            of_generation = refl;
            limit = c.upload.limit-channel upload_events;
            unclosed = c.upload.closed-channel upload_events;
            room = λ e. rw (c.upload.contents-channel upload_events) (omega arith);
          });
    generation_u64 = u.generation_u64;
    id_u64 = u.id_u64;
  }

  pub begin_upload-Inv : (s : State c) (g : ℕ) → Inv c s → Inv c (begin_upload c s g).outcome.state
  unfolding begin_upload
  begin_upload-Inv s g v = elim (Bool-cases (is_live s.peer g)) [
    | inr dead ↦ rw dead v
    | inl live ↦ rw live (
        if-Inv (not s.upload_cap) _ _ v (elim (Bool-cases (leb max_uploads (length s.uploads))) [
          | inl full ↦ rw full v
          | inr room ↦
              let e : s.next_generation ≡ g = sym (live-eq s g v live) in
              rw room (
                subst (λ g. Inv c (with_next_id c s g (insert_upload c g)).outcome.state) e
                  (insert_upload-Inv s v (ground arith) (rw e live)))
        ]))
  ]
