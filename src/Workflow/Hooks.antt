-- ===== src/Workflow/Hooks.antt =====
-- workflow.rs: what a hook or a report changes.
use hmux.Base.{
  ℕ, Bool, true, false, not, ◌&&◌, ◌||◌, Option, none, some, List, [], ◌∷◌, ◌++◌, ltb, leb, length,
  any, if◌then◌else◌,
}
use hmux.Base.Eq.{Bytes, bytes_beq, bytes_eq}
use hmux.Base.Map.{lookup, insert}
use hmux.Model.Ids.{SessionIdentity}
use hmux.Workflow.Types.{
  Env, Status, codex_hook, codex_orchestra, is_hook, Node, Item, State, Result, ok, err, invalid,
  running, waiting_approval, waiting_input, completed, active, safe_text, opaque, hash, is_empty,
  max_hook,
}
use hmux.Workflow.Texts.{
  wf, orch, cx, turn, root, agent, task, root_type, task_type, subagent, codex, native,
  detached_codex, asks,
}
use hmux.Workflow.Items.{
  map_values, new_item, matches, put_node, refresh, interrupt, interrupted_at,
}

-- The names that `validate` accepts.
pub data EventName : Type 0 where
  user_prompt_submit subagent_start subagent_stop permission_request pre_tool_use post_tool_use stop
        session_end :
      EventName

pub record HookEvent : Type 0 where
  pub session_id : Bytes
  pub turn_id : Bytes
  pub name : EventName
  pub model : Bytes
  pub agent_id : Bytes
  pub agent_type : Bytes
  pub tool_name : Bytes

pub record Report : Type 0 where
  pub task_id : Bytes
  pub status : Status

-- `0` ends the first part.
abbrev pub joined : Bytes → Bytes → Bytes
joined a b = a ++ 0 ∷ b

abbrev pub names_agent : EventName → Bool
names_agent subagent_start = true
names_agent subagent_stop = true
names_agent _ = false

abbrev pub ends_session : EventName → Bool
ends_session session_end = true
ends_session _ = false

abbrev pub or_subagent : Bytes → Bytes
or_subagent [] = subagent
or_subagent (b ∷ bs) = b ∷ bs

-- `?` between the transitions.
abbrev pub bind {ℓ κ} : {A : Type ℓ} {B : Type κ} → Result A → (A → Result B) → Result B
bind (ok a) f = f a
bind (err x) f = err x

module _ (e : Env) where
  -- `HookEvent::validate`; a name that is not one of the eight is refused with the parse.
  abbrev pub event_valid : HookEvent → Bool
  event_valid v =
      opaque e v.session_id 512
      && (ends_session v.name || opaque e v.turn_id 512)
      && not (any (λ n. ltb 256 n) (length v.model ∷ length v.agent_type ∷ length v.tool_name ∷ []))
      && (not (names_agent v.name) || opaque e v.agent_id 512)

  abbrev pub parsed : Option HookEvent → Result HookEvent
  parsed none = err invalid
  parsed (some v) = if event_valid v then ok v else err invalid

  -- `HookEvent::parse`, where `read` is what serde_json makes of the bytes.
  unfoldable pub parse_event : (Bytes → Option HookEvent) → Bytes → Result HookEvent
  parse_event read raw =
      if leb (length raw) 0 || ltb max_hook (length raw) then err invalid else parsed (read raw)

  abbrev pub set_root : Item → Bytes → Status → ℕ → Bool → Result Item
  set_root item id target now force = put_node item id [] root_type codex target now force

  abbrev pub set_agent : HookEvent → Bytes → Status → ℕ → Item → Result Item
  set_agent v id target now item =
      put_node item (hash e agent v.agent_id) id (or_subagent (safe_text e v.agent_type 128)) native
        target now true

  abbrev pub stop_others : Bytes → ℕ → Item → Result Item
  stop_others id now item = ok (record item {
    nodes =
        map_values (λ (n : Node). if not (bytes_beq n.id id) then interrupted_at now n else n)
          item.nodes;
  })

  -- The `match` on the name, with the id of the root.
  abbrev pub transition : HookEvent → EventName → Bytes → ℕ → Item → Result Item
  transition v user_prompt_submit id now item = set_root item id running now true
  transition v subagent_start id now item =
      bind (set_root item id running now false) (set_agent v id running now)
  transition v subagent_stop id now item =
      bind (set_root item id running now false) (set_agent v id completed now)
  transition v permission_request id now item = set_root item id waiting_approval now false
  transition v pre_tool_use id now item =
      set_root item id (if asks (e.lowercase (e.trim v.tool_name)) then waiting_input else running)
        now false
  transition v post_tool_use id now item = set_root item id running now false
  transition v stop id now item = bind (set_root item id completed now true) (stop_others id now)
  transition v session_end id now item = err invalid

  abbrev pub with_model : Item → Bytes → Item
  with_model item text = if is_empty text then item else record item { model = text }

  abbrev pub end_item : SessionIdentity → Bytes → ℕ → Item → Item
  end_item binding session_id now item =
      if matches item binding && bytes_beq item.session_id session_id
      then interrupt item now
      else item

  abbrev pub end_other : SessionIdentity → Bytes → Bytes → ℕ → Item → Item
  end_other binding session_id id now item =
      if not (bytes_beq item.id id)
        && is_hook item.source
        && bytes_beq item.session_id session_id
        && matches item binding
        && active item.status
      then interrupt item now
      else item

  abbrev pub prompted :
      SessionIdentity → Bytes → Bytes → ℕ → EventName → List (Bytes × Item) → List (Bytes × Item)
  prompted binding session_id id now user_prompt_submit m =
      map_values (end_other binding session_id id now) m
  prompted binding session_id id now _ m = m

  abbrev pub hook_item : SessionIdentity → HookEvent → Bytes → ℕ → Option Item → Item
  hook_item binding v id now (some item) = item
  hook_item binding v id now none = record (new_item id binding codex_hook now) {
    session_id = hash e cx v.session_id;
    turn_id = hash e turn v.turn_id;
  }

  abbrev pub same_turn : SessionIdentity → HookEvent → Item → Bool
  same_turn binding v item =
      matches item binding
      && is_hook item.source
      && bytes_beq item.session_id (hash e cx v.session_id)
      && bytes_beq item.turn_id (hash e turn v.turn_id)

  abbrev pub hooked : SessionIdentity → HookEvent → ℕ → Item → Result Item
  hooked binding v now item =
      if same_turn binding v item
      then bind
          (transition v v.name (hash e root v.session_id) now
            (with_model item (safe_text e v.model 128)))
          (λ (t : Item). ok (refresh t now))
      else err invalid

  abbrev pub put_item : State → Bytes → List (Bytes × Item) → Result Item → Result State
  put_item s id m (err x) = err x
  put_item s id m (ok item) = ok (record s { workflows = insert id item m })

  abbrev pub record_turn :
      State → SessionIdentity → HookEvent → Bytes → List (Bytes × Item) → ℕ → Result State
  record_turn s binding v id m now =
      put_item s id m (hooked binding v now (hook_item binding v id now (lookup id m)))

  abbrev pub turn_key : HookEvent → Bytes
  turn_key v = hash e wf (joined v.session_id v.turn_id)

  unfoldable pub record_hook : State → SessionIdentity → HookEvent → ℕ → Result State
  record_hook s binding v now =
      if ends_session v.name
      then ok (record s {
        workflows = map_values (end_item binding (hash e cx v.session_id) now) s.workflows;
      })
      else record_turn s binding v (turn_key v)
          (prompted binding (hash e cx v.session_id) (turn_key v) now v.name s.workflows) now

  abbrev pub report_item : SessionIdentity → Bytes → ℕ → Option Item → Item
  report_item binding id now (some item) = item
  report_item binding id now none = new_item id binding codex_orchestra now

  abbrev pub same_report : SessionIdentity → Item → Bool
  same_report binding item = matches item binding && not (is_hook item.source)

  abbrev pub reported : SessionIdentity → Report → ℕ → Item → Result Item
  reported binding r now item =
      if same_report binding item
      then bind
          (put_node item (hash e task r.task_id) [] task_type detached_codex r.status now true)
          (λ (t : Item). ok (refresh t now))
      else err invalid

  -- `created` is the text of the binding's time.
  abbrev pub report_key : SessionIdentity → Bytes → Bytes
  report_key binding created = hash e orch (joined binding.id created)

  unfoldable pub record_report : State → SessionIdentity → Bytes → Report → ℕ → Result State
  record_report s binding created r now = put_item s (report_key binding created) s.workflows (
      reported binding r now (
        report_item binding (report_key binding created) now
          (lookup (report_key binding created) s.workflows)))
