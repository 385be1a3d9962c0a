-- ===== src/Hub/Invariant.antt =====
-- The invariant of the hub: its limits, one generation for all that it holds, ids that were counted,
-- and room in every upload's queue for the last event.
use hmux.Base.{
  ℕ, ◌+◌, ◌*◌, ◌^◌, ◌≤◌, ◌<◌, ◌≡◌, ◌≢◌, refl, false, List, [], Option, none, some, arith, length,
}
use hmux.Hub.Ids.{rank, format_id, rank-format_id}
use hmux.Hub.State.{
  Channels, ViewState, UploadState, State, Pending, Peer, max_pending, max_views, max_uploads,
  upload_events, new,
}
use hmux.Hub.Peers.{u64_max}
use hmux.Hub.Holds.{Holds, Holds-nil}

module _ (c : Channels) where
  -- All ids handed out so far stand for numbers up to this one.
  abbrev pub mark : State c → ℕ
  mark s = s.next_generation * 2 ^ 64 + s.next_id

  -- The id that comes next, and the state in which it is handed out.
  abbrev pub fresh_id : State c → List ℕ
  fresh_id s = format_id s.next_generation (s.next_id + 1)

  abbrev pub PendingOf : ℕ → Pending → Type 0
  PendingOf g p = p.generation ≡ g

  abbrev pub ViewOf : ℕ → ViewState c → Type 0
  ViewOf g v = v.generation ≡ g

  -- Until its last event is sent, an upload's queue holds at most two of its three events.
  pub record UploadOf (g : ℕ) (u : UploadState c) : Type 0 where
    pub of_generation : u.generation ≡ g
    pub limit : c.upload.limit u.events ≡ upload_events
    pub unclosed : c.upload.closed u.events ≡ false
    pub room : u.terminal ≡ false → length (c.upload.contents u.events) < upload_events

  -- Without a connection the hub holds nothing for one.
  abbrev pub Attached : State c → Option Peer → Type 0
  Attached s (some p) = p.generation ≡ s.next_generation
  Attached s none =
      (s.pending ≡ [])
      × (s.views ≡ [])
      × (s.uploads ≡ [])
      × (s.catalog ≡ none)
      × (s.claude_usage ≡ none)
      × (s.codex_usage ≡ none)
      × (s.updated ≡ none)
      × (s.output_cap ≡ false)
      × (s.upload_cap ≡ false)

  pub record Inv (s : State c) : Type 0 where
    pub attached : Attached s s.peer
    pub pending : Holds max_pending (mark s) (PendingOf s.next_generation) s.pending
    pub views : Holds max_views (mark s) (ViewOf s.next_generation) s.views
    pub uploads : Holds max_uploads (mark s) (UploadOf s.next_generation) s.uploads
    pub generation_u64 : s.next_generation ≤ u64_max
    pub id_u64 : s.next_id ≤ u64_max

  pub rank-fresh_id : (s : State c) → Inv s → s.next_id ≢ u64_max → rank (fresh_id s) ≡ mark s + 1
  rank-fresh_id s v h = omega (
    arith,
    v.generation_u64,
    v.id_u64,
    rank-format_id s.next_generation (s.next_id + 1) (omega arith) (omega arith),
  )

  pub new-Inv : Inv (new c)
  unfolding new
  new-Inv = record {
    attached = (refl, refl, refl, refl, refl, refl, refl, refl, refl);
    pending = Holds-nil _ _ _;
    views = Holds-nil _ _ _;
    uploads = Holds-nil _ _ _;
    generation_u64 = omega arith;
    id_u64 = omega arith;
  }
