-- ===== src/Hub/Removes.antt =====
-- What ends a request, a view, an upload or the connection keeps the invariant.
use hmux.Base.{
  ℕ, refl, Bool, true, List, Option, none, some, arith, Option-cases, Bool-cases, inl, inr, ◌==◌,
}
use hmux.Base.Eq.{bytes_eq}
use hmux.Base.Map.{lookup, remove}
use hmux.Hub.State.{Error, Channels, ViewState, State, Peer, Protocol, is_live}
use hmux.Hub.Peers.{u64_max, attach, detach_with_reason}
use hmux.Hub.Leases.{
  drop_pending, remove_view, retire, retire_view, drop_view, remove_upload, pending_of, view_of,
  upload_of,
}
use hmux.Hub.Holds.{Holds-nil, Holds-remove}
use hmux.Hub.Invariant.{Inv, Attached}

module _ (c : Channels) where
  pub without_pending :
      (s : State c) (id : List ℕ) → Inv c s → Inv c (record s { pending = remove id s.pending })
  without_pending s id v = record {
    attached = kept s.peer v.attached;
    pending = Holds-remove v.pending id;
    views = v.views;
    uploads = v.uploads;
    generation_u64 = v.generation_u64;
    id_u64 = v.id_u64;
  }
    where
      kept :
          (o : Option Peer)
          → Attached c s o
          → Attached c (record s { pending = remove id s.pending }) o
      kept none a = unfold remove in ground arith
      kept (some p) a = a

  pub without_view :
      (s : State c) (id : List ℕ) (gone : List (List ℕ × ViewState c))
      → Inv c s
      → Inv c (record s { views = remove id s.views; gone = gone })
  without_view s id gone v = record {
    attached = kept s.peer v.attached;
    pending = v.pending;
    views = Holds-remove v.views id;
    uploads = v.uploads;
    generation_u64 = v.generation_u64;
    id_u64 = v.id_u64;
  }
    where
      kept :
          (o : Option Peer)
          → Attached c s o
          → Attached c (record s { views = remove id s.views; gone = gone }) o
      kept none a = unfold remove in ground arith
      kept (some p) a = a

  pub without_upload :
      (s : State c) (id : List ℕ) → Inv c s → Inv c (record s { uploads = remove id s.uploads })
  without_upload s id v = record {
    attached = kept s.peer v.attached;
    pending = v.pending;
    views = v.views;
    uploads = Holds-remove v.uploads id;
    generation_u64 = v.generation_u64;
    id_u64 = v.id_u64;
  }
    where
      kept :
          (o : Option Peer)
          → Attached c s o
          → Attached c (record s { uploads = remove id s.uploads }) o
      kept none a = unfold remove in ground arith
      kept (some p) a = a

  pub drop_pending-Inv :
      (s : State c) (g : ℕ) (id : List ℕ) (sent cancel : Bool)
      → Inv c s
      → Inv c (drop_pending c s g id sent cancel).state
  unfolding drop_pending
  drop_pending-Inv s g id sent cancel v = elim (Bool-cases (pending_of c (lookup id s.pending) g)) [
    | inl mine ↦ rw mine (without_pending s id v)
    | inr other ↦ rw other v
  ]

  retire-Inv :
      (s : State c) (id : List ℕ) (code : ℕ) (o : Option (ViewState c))
      → Inv c s
      → Inv c (retire c s id code o)
  unfolding retire
  retire-Inv s id code none v = v
  retire-Inv s id code (some x) v = without_view s id _ v

  pub retire_view-Inv :
      (s : State c) (id : List ℕ) (code : ℕ) → Inv c s → Inv c (retire_view c s id code)
  unfolding retire_view
  retire_view-Inv s id code v = retire-Inv s id code (lookup id s.views) v

  pub remove_view-Inv :
      (s : State c) (g : ℕ) (id : List ℕ) (code : ℕ) (clean : Bool)
      → Inv c s
      → Inv c (remove_view c s g id code clean).state
  unfolding remove_view
  remove_view-Inv s g id code clean v = elim (Bool-cases (view_of c (lookup id s.views) g)) [
    | inl mine ↦ rw mine (retire_view-Inv s id code v)
    | inr other ↦ rw other v
  ]

  pub without_gone :
      (s : State c) (gone : List (List ℕ × ViewState c))
      → Inv c s
      → Inv c (record s { gone = gone })
  without_gone s gone v = record {
    attached = kept s.peer v.attached;
    pending = v.pending;
    views = v.views;
    uploads = v.uploads;
    generation_u64 = v.generation_u64;
    id_u64 = v.id_u64;
  }
    where
      kept : (o : Option Peer) → Attached c s o → Attached c (record s { gone = gone }) o
      kept none a = a
      kept (some p) a = a

  pub drop_view-Inv :
      (s : State c) (g : ℕ) (id : List ℕ) (sent : Bool)
      → Inv c s
      → Inv c (drop_view c s g id sent).state
  unfolding drop_view
  drop_view-Inv s g id sent v = without_gone _ _ (remove_view-Inv s g id _ sent v)

  pub remove_upload-Inv :
      (s : State c) (g : ℕ) (id : List ℕ) (clean : Bool)
      → Inv c s
      → Inv c (remove_upload c s g id clean).state
  unfolding remove_upload
  remove_upload-Inv s g id clean v = elim (Bool-cases (upload_of c (lookup id s.uploads) true g)) [
    | inl mine ↦ rw mine (without_upload s id v)
    | inr other ↦ rw other v
  ]

  pub detach-Inv :
      (s : State c) (g : ℕ) (reason : Error)
      → Inv c s
      → Inv c (detach_with_reason c s g reason).state
  unfolding detach_with_reason
  detach-Inv s g reason v = elim (Bool-cases (is_live s.peer g)) [
    | inr dead ↦ rw dead v
    | inl live ↦ rw live (record {
      attached = (refl, refl, refl, refl, refl, refl, refl, refl, refl);
      pending = Holds-nil _ _ _;
      views = Holds-nil _ _ _;
      uploads = Holds-nil _ _ _;
      generation_u64 = v.generation_u64;
      id_u64 = v.id_u64;
    })
  ]

  pub attach-Inv : (s : State c) (p : Protocol) → Inv c s → Inv c (attach c s p).state
  unfolding attach
  attach-Inv s p v = elim (Option-cases s.peer) [
    | inr (q, e) ↦ rw (e, attach) v
    | inl e ↦ elim (Bool-cases (s.next_generation == u64_max)) [
      | inl top ↦ rw (e, attach, top) v
      | inr room ↦
          let a : Attached c s none = rw e at v.attached in
          rw (e, attach, room)
            (record {
              attached = refl;
              pending = rw a.0 (Holds-nil _ _ _);
              views = rw a.1 (Holds-nil _ _ _);
              uploads = rw a.2 (Holds-nil _ _ _);
              generation_u64 = ground (arith, v.generation_u64);
              id_u64 = v.id_u64;
            })
    ]
  ]
