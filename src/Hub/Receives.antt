-- ===== src/Hub/Receives.antt =====
-- Every message of Home keeps the invariant.
use hmux.Base.{
  ℕ, ◌≡◌, ◌∙◌, refl, Bool, true, false, ◌||◌, List, Option, none, some, length, Option-cases,
  Bool-cases, inl, inr, leb, ltb, ◌==◌,
}
use hmux.Base.Eq.{bytes_eq}
use hmux.Base.Map.{lookup, insert}
use hmux.Flow.{chunk, max_frames}
use hmux.Hub.State.{
  Channels, ViewState, State, Pending, Response, output, exit, refresh_result, is_live,
}
use hmux.Hub.Dispatch.{
  Reply, Update, Provider, claude, codex, unknown, is_nil, retained, fill, cache_catalog,
  cache_usage, answer, dispatch_response, response_matches, overflow, send_output, output_view,
  dispatch_output, exit_view, dispatch_exit, refresh_view, dispatch_refresh,
}
use hmux.Hub.Holds.{Holds-replace, Holds-lookup}
use hmux.Hub.Invariant.{Inv}
use hmux.Hub.Keeps.{Attached-live}
use hmux.Hub.Removes.{retire_view-Inv, without_pending}

module _ (c : Channels) where
  fill-Inv : (o : Option (List ℕ)) (x y : State c) → Inv c x → Inv c y → Inv c (fill c o x y).state
  fill-Inv none x y h k = h
  fill-Inv (some raw) x y h k = k

  -- The snapshots, their time and the capabilities of a live connection are free.
  pub Inv-caches :
      (s : State c) (g : ℕ) (catalog claude_usage codex_usage : Option (List ℕ))
      (updated : Option ℕ) (output_cap upload_cap : Bool)
      → is_live s.peer g ≡ true
      → Inv c s
      → Inv c (record s {
        catalog = catalog;
        claude_usage = claude_usage;
        codex_usage = codex_usage;
        updated = updated;
        output_cap = output_cap;
        upload_cap = upload_cap;
      })
  Inv-caches s g ca cl co up oc uc live v = record {
    attached =
        Attached-live c s
          (record s {
            catalog = ca;
            claude_usage = cl;
            codex_usage = co;
            updated = up;
            output_cap = oc;
            upload_cap = uc;
          })
          s.peer g live refl v.attached;
    pending = v.pending;
    views = v.views;
    uploads = v.uploads;
    generation_u64 = v.generation_u64;
    id_u64 = v.id_u64;
  }

  pub cache_catalog-Inv :
      (s : State c) (g now : ℕ) (u : Update) → Inv c s → Inv c (cache_catalog c s g now u).state
  unfolding cache_catalog
  cache_catalog-Inv s g now u v = elim (Option-cases u.text) [
    | inl e ↦ rw (e, cache_catalog) v
    | inr (raw, e) ↦ elim (Bool-cases (is_live s.peer g)) [
      | inr dead ↦ rw (e, cache_catalog, dead) v
      | inl live ↦
          rw (e, cache_catalog, live)
            (fill-Inv _ _ _ (Inv-caches s g _ _ _ _ _ _ live v) (Inv-caches s g _ _ _ _ _ _ live v))
    ]
  ]

  pub cache_usage-Inv :
      (s : State c) (g : ℕ) (p : Provider) (u : Update)
      → Inv c s
      → Inv c (cache_usage c s g p u).state
  unfolding cache_usage
  cache_usage-Inv s g unknown u v = v
  cache_usage-Inv s g claude u v = elim (Option-cases u.text) [
    | inl e ↦ rw (e, cache_usage) v
    | inr (raw, e) ↦ elim (Bool-cases (is_live s.peer g)) [
      | inr dead ↦ rw (e, cache_usage, dead) v
      | inl live ↦
          rw (e, cache_usage, live)
            (fill-Inv _ _ _ (Inv-caches s g _ _ _ _ _ _ live v) (Inv-caches s g _ _ _ _ _ _ live v))
    ]
  ]
  cache_usage-Inv s g codex u v = elim (Option-cases u.text) [
    | inl e ↦ rw (e, cache_usage) v
    | inr (raw, e) ↦ elim (Bool-cases (is_live s.peer g)) [
      | inr dead ↦ rw (e, cache_usage, dead) v
      | inl live ↦
          rw (e, cache_usage, live)
            (fill-Inv _ _ _ (Inv-caches s g _ _ _ _ _ _ live v) (Inv-caches s g _ _ _ _ _ _ live v))
    ]
  ]

  answer-Inv :
      (s : State c) (g : ℕ) (r : Reply) (o : Option Pending)
      → Inv c s
      → Inv c (answer c s g r o).state
  unfolding answer
  answer-Inv s g r none v = v
  answer-Inv s g r (some p) v = elim (Bool-cases (p.generation == g)) [
    | inr other ↦ rw other (without_pending c s r.response.id v)
    | inl mine ↦ elim (Bool-cases (response_matches r.response p.context)) [
      | inr wrong ↦ rw (mine, wrong) (without_pending c s r.response.id v)
      | inl right ↦ elim (Bool-cases r.admits) [
        | inl fits ↦ rw (mine, right, fits) (without_pending c s r.response.id v)
        | inr full ↦ rw (mine, right, full) (without_pending c s r.response.id v)
      ]
    ]
  ]

  pub dispatch_response-Inv :
      (s : State c) (g : ℕ) (r : Reply) → Inv c s → Inv c (dispatch_response c s g r).state
  unfolding dispatch_response
  dispatch_response-Inv s g r v = answer-Inv s g r (lookup r.response.id s.pending) v

  keep_view-Inv :
      (s : State c) (g : ℕ) (id : List ℕ) (old new : ViewState c)
      → is_live s.peer g ≡ true
      → lookup id s.views ≡ some old
      → new.generation ≡ old.generation
      → Inv c s
      → Inv c (record s { views = insert id new s.views })
  keep_view-Inv s g id old new live e same v = record {
    attached =
        Attached-live c s (record s { views = insert id new s.views }) s.peer g live refl
          v.attached;
    pending = v.pending;
    views = Holds-replace v.views id old new e (same ∙ Holds-lookup v.views id old e);
    uploads = v.uploads;
    generation_u64 = v.generation_u64;
    id_u64 = v.id_u64;
  }

  overflow-Inv :
      (s : State c) (g : ℕ) (id : List ℕ) (clean : Bool)
      → Inv c s
      → Inv c (overflow c s g id clean).state
  unfolding overflow
  overflow-Inv s g id clean v = retire_view-Inv c s id _ v

  module _ (s : State c) (g : ℕ) (live : is_live s.peer g ≡ true) (v : Inv c s) where
    send_output-Inv :
        (id raw : List ℕ) (admits : Bool) (x : ViewState c)
        → lookup id s.views ≡ some x
        → Inv c (send_output c s g id raw admits x).state
    unfolding send_output
    send_output-Inv id raw admits x e =
        elim (Bool-cases (is_nil raw || ltb chunk (length raw) || leb max_frames x.queued_data)) [
          | inl refused ↦ rw refused (overflow-Inv s g id true v)
          | inr fits ↦ elim (Option-cases (retained c raw admits)) [
            | inl full ↦ rw (fits, full) (overflow-Inv s g id true v)
            | inr (text, kept) ↦ elim (Option-cases (c.view.try_send x.events (output text))) [
              | inl full ↦ rw (fits, kept, full) (overflow-Inv s g id true v)
              | inr (events, sent) ↦ rw (fits, kept, sent) (keep_view-Inv s g id x _ live e refl v)
            ]
          ]
        ]

    output_view-Inv :
        (id raw : List ℕ) (admits : Bool) (o : Option (ViewState c))
        → lookup id s.views ≡ o
        → Inv c (output_view c s g id raw admits o).state
    unfolding output_view
    output_view-Inv id raw admits none e = v
    output_view-Inv id raw admits (some x) e = elim (Bool-cases (x.generation == g)) [
      | inl mine ↦ rw mine (send_output-Inv id raw admits x e)
      | inr other ↦ rw other v
    ]

    exit_view-Inv :
        (r : Response) (o : Option (ViewState c))
        → lookup r.id s.views ≡ o
        → Inv c (exit_view c s g r o).state
    unfolding exit_view
    exit_view-Inv r none e = v
    exit_view-Inv r (some x) e = elim (Option-cases (c.view.try_send x.events (exit r.error))) [
      | inl full ↦ rw (full, exit_view) (overflow-Inv s g r.id false v)
      | inr (events, sent) ↦ rw (sent, exit_view) (keep_view-Inv s g r.id x _ live e refl v)
    ]

    refresh_view-Inv :
        (r : Response) (o : Option (ViewState c))
        → lookup r.id s.views ≡ o
        → Inv c (refresh_view c s g r o).state
    unfolding refresh_view
    refresh_view-Inv r none e = v
    refresh_view-Inv r (some x) e =
        elim (Option-cases (c.view.try_send x.events (refresh_result (is_nil r.error)))) [
          | inl full ↦ rw (full, refresh_view) (overflow-Inv s g r.id true v)
          | inr (events, sent) ↦ rw (sent, refresh_view) (keep_view-Inv s g r.id x _ live e refl v)
        ]

    pub dispatch_output-Inv :
        (id raw : List ℕ) (admits : Bool) → Inv c (dispatch_output c s g id raw admits).state
    unfolding dispatch_output
    dispatch_output-Inv id raw admits = output_view-Inv id raw admits (lookup id s.views) refl

    pub dispatch_exit-Inv : (r : Response) → Inv c (dispatch_exit c s g r).state
    unfolding dispatch_exit
    dispatch_exit-Inv r = exit_view-Inv r (lookup r.id s.views) refl

    pub dispatch_refresh-Inv : (r : Response) → Inv c (dispatch_refresh c s g r).state
    unfolding dispatch_refresh
    dispatch_refresh-Inv r = refresh_view-Inv r (lookup r.id s.views) refl
