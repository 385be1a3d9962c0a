-- ===== src/Workflow/Finished.antt =====
-- workflow.rs: a turn that ended is not opened again by a tool.
use hmux.Base.{ℕ, ◌≡◌, refl, sym, subst, ◌∙◌, ap, Bool, true, false, some, List, [], if_lem}
use hmux.Base.Eq.{Bytes, bytes_eq}
use hmux.Base.Map.{lookup}
use hmux.Model.Ids.{SessionIdentity}
use hmux.Workflow.Types.{
  Env, Status, Node, Item, State, Result, ok, err, hash, running, waiting_approval, safe_text,
  is_empty,
}
use hmux.Workflow.Texts.{root_type, root, cx, codex}
use hmux.Workflow.Items.{put_node, make_place, refresh, closed}
use hmux.Workflow.Hooks.{
  HookEvent, bind, prompted, hooked, record_hook, transition, set_root, with_model, same_turn,
  turn_key, ends_session, EventName, user_prompt_submit, subagent_start, subagent_stop,
  permission_request, pre_tool_use, post_tool_use, stop, session_end,
}
use hmux.Workflow.Endings.{put_item-lookup}

-- The hooks of tools.
abbrev pub is_tool : EventName → Bool
is_tool permission_request = true
is_tool pre_tool_use = true
is_tool post_tool_use = true
is_tool _ = false

put_node-closed :
    (item : Item) (id parent kind provider : Bytes) (target : Status) (now : ℕ) (n : Node)
    → lookup id item.nodes ≡ some n
    → closed false n ≡ true
    → put_node item id parent kind provider target now false ≡ ok item
unfolding put_node make_place
put_node-closed item id parent kind provider target now n f c = rw (f, c) refl

abbrev SameNodes : List (Bytes × Node) → Result Item → Type 0
SameNodes nodes (err x) = Unit
SameNodes nodes (ok t) = t.nodes ≡ nodes

module _ (e : Env) where
  set_root-closed :
      (item : Item) (id : Bytes) (target : Status) (now : ℕ) (n : Node)
      → lookup id item.nodes ≡ some n
      → closed false n ≡ true
      → SameNodes item.nodes (set_root e item id target now false)
  set_root-closed item id target now n f c =
      subst (λ r. SameNodes item.nodes r)
        (sym (put_node-closed item id [] root_type codex target now n f c)) refl

  transition-closed :
      (v : HookEvent) (name : EventName) (id : Bytes) (now : ℕ) (item : Item) (n : Node)
      → is_tool name ≡ true
      → lookup id item.nodes ≡ some n
      → closed false n ≡ true
      → SameNodes item.nodes (transition e v name id now item)
  transition-closed v permission_request id now item n k f c =
      set_root-closed item id waiting_approval now n f c
  transition-closed v pre_tool_use id now item n k f c = set_root-closed item id _ now n f c
  transition-closed v post_tool_use id now item n k f c = set_root-closed item id running now n f c
  transition-closed v user_prompt_submit id now item n k f c = cc
  transition-closed v subagent_start id now item n k f c = cc
  transition-closed v subagent_stop id now item n k f c = cc
  transition-closed v stop id now item n k f c = cc
  transition-closed v session_end id now item n k f c = cc

  refreshed-SameNodes :
      (nodes : List (Bytes × Node)) (now : ℕ) (r : Result Item) (u : Item)
      → SameNodes nodes r
      → bind r (λ (t : Item). ok (refresh t now)) ≡ ok u
      → u.nodes ≡ nodes
  unfolding refresh
  refreshed-SameNodes nodes now (err x) u h eq = cc
  refreshed-SameNodes nodes now (ok t) u h eq =
      let same : refresh t now ≡ u = cc eq in subst (λ (w : Item). w.nodes ≡ nodes) same h

  with_model-nodes : (item : Item) (text : Bytes) → (with_model e item text).nodes ≡ item.nodes
  with_model-nodes item text =
      if_lem (λ (t : Item). t.nodes ≡ item.nodes) (is_empty text) (λ yes. refl) (λ no. refl)

  hooked-closed :
      (b : SessionIdentity) (v : HookEvent) (now : ℕ) (old : Item) (n : Node) (u : Item)
      → is_tool v.name ≡ true
      → lookup (hash e root v.session_id) old.nodes ≡ some n
      → closed false n ≡ true
      → hooked e b v now old ≡ ok u
      → u.nodes ≡ old.nodes
  hooked-closed b v now old n u k f c =
      let modelled : Item = with_model e old (safe_text e v.model 128) in
      let nodes : modelled.nodes ≡ old.nodes = with_model-nodes old (safe_text e v.model 128) in
      if_lem (λ (x : Result Item). x ≡ ok u → u.nodes ≡ old.nodes) (same_turn e b v old)
        (λ yes eq.
          refreshed-SameNodes modelled.nodes now _ u
            (transition-closed v v.name (hash e root v.session_id) now modelled n k
              (ap (λ m. lookup (hash e root v.session_id) m) nodes ∙ f) c)
            eq
          ∙ nodes)
        (λ no eq. cc)

  prompted-tool :
      (b : SessionIdentity) (sid id : Bytes) (now : ℕ) (name : EventName) (m : List (Bytes × Item))
      → is_tool name ≡ true
      → (prompted e b sid id now name m ≡ m) × (ends_session name ≡ false)
  prompted-tool b sid id now permission_request m k = (refl, refl)
  prompted-tool b sid id now pre_tool_use m k = (refl, refl)
  prompted-tool b sid id now post_tool_use m k = (refl, refl)
  prompted-tool b sid id now user_prompt_submit m k = cc
  prompted-tool b sid id now subagent_start m k = cc
  prompted-tool b sid id now subagent_stop m k = cc
  prompted-tool b sid id now stop m k = cc
  prompted-tool b sid id now session_end m k = cc

  -- A permission request or a tool's hook that is recorded for a turn whose root ended, and is not
  -- stale, changes no node of the turn.
  pub record_hook-finished :
      (s : State) (b : SessionIdentity) (v : HookEvent) (now : ℕ) (t : State) (item : Item)
      (n : Node)
      → is_tool v.name ≡ true
      → lookup (turn_key e v) s.workflows ≡ some item
      → lookup (hash e root v.session_id) item.nodes ≡ some n
      → closed false n ≡ true
      → record_hook e s b v now ≡ ok t
      → (u : Item) × (lookup (turn_key e v) t.workflows ≡ some u) × (u.nodes ≡ item.nodes)
  unfolding record_hook
  record_hook-finished s b v now t item n k known f c =
      let tool : (prompted e b (hash e cx v.session_id) (turn_key e v) now v.name s.workflows
            ≡ s.workflows)
          × (ends_session v.name ≡ false) =
        prompted-tool b (hash e cx v.session_id) (turn_key e v) now v.name s.workflows k in
      rw (tool.1, tool.0, known)
        (λ eq.
          put_item-lookup e (λ u. u.nodes ≡ item.nodes) s (turn_key e v) s.workflows _ t
            (λ u g. hooked-closed b v now item n u k f c g) eq)
