-- ===== src/Workflow/Files.antt =====
-- workflow.rs: the checks, the pruning and the file of the state.
use hmux.Base.{
  ℕ, zero, suc, ◌+◌, Bool, true, false, not, ◌&&◌, ◌||◌, Option, none, some, List, [], ◌∷◌, ◌++◌,
  ltb, leb, ◌==◌, length, if◌then◌else◌,
}
use hmux.Base.Eq.{Bytes, bytes_beq, bytes_eq}
use hmux.Base.Map.{lookup, remove, retain}
use hmux.Workflow.Texts.{wf, orch, cx, turn, root, agent, task}
use hmux.Workflow.Types.{
  Env, Source, codex_hook, codex_orchestra, Node, Item, State, Result, ok, err, invalid,
  unavailable, stale, active, terminal, stale_after, retain_for, max_workflows, max_nodes,
  max_bytes, hashed, binding_valid, is_empty, safe_text,
}
use hmux.Workflow.Items.{map_values, any_value, min_by, earlier}
use hmux.Workflow.Hooks.{bind}

abbrev pub all_entries {ℓ} : {V : Type ℓ} → (Bytes → V → Bool) → List (Bytes × V) → Bool
all_entries p [] = true
all_entries p ((k, v) ∷ m) = p k v && all_entries p m

abbrev pub is_some {ℓ} : {A : Type ℓ} → Option A → Bool
is_some none = false
is_some (some a) = true

abbrev pub overdue : ℕ → Item → Bool
overdue now item = active item.status && ltb (item.updated_at + stale_after) now

abbrev pub stale_node : Node → Node
stale_node n = if active n.status then record n { status = stale; ended_at = n.updated_at } else n

abbrev pub expire : ℕ → Item → Item
expire now item =
    if overdue now item
    then record item {
      nodes = map_values stale_node item.nodes;
      status = stale;
      ended_at = item.updated_at;
    }
    else item

abbrev pub kept : ℕ → Item → Bool
kept now item = not (terminal item.status) || leb now (item.updated_at + retain_for)

abbrev pub older_item : Item → Item → Bool
older_item v w = earlier v.updated_at v.id w.updated_at w.id

abbrev pub always {ℓ} : {A : Type ℓ} → A → Bool
always a = true

abbrev pub drop_item : List (Bytes × Item) → Option Item → List (Bytes × Item)
drop_item m none = m
drop_item m (some item) = remove item.id m

-- The `while` of `prune`, at most as often as there are workflows.
abbrev pub shrink : ℕ → List (Bytes × Item) → List (Bytes × Item)
shrink zero m = m
shrink (suc n) m =
    let rest = shrink n (drop_item m (min_by older_item always none m)) in
    if ltb max_workflows (length m) then rest else m

abbrev pub pruned : ℕ → List (Bytes × Item) → List (Bytes × Item)
pruned now m = retain (kept now) (map_values (expire now) m)

-- The second component says whether something changed.
unfoldable pub prune : State → ℕ → State × Bool
prune s now =
    let m = pruned now s.workflows in
    (
      record s { workflows = shrink (length m) m },
      any_value (overdue now) s.workflows
          || not (length s.workflows == length m)
          || ltb max_workflows (length m),
    )

-- The terminal first, then the older.
abbrev pub less_needed : Item → Item → Bool
less_needed v w =
    if terminal v.status
    then not (terminal w.status) || older_item v w
    else not (terminal w.status) && older_item v w

module _ (e : Env) where
  abbrev pub node_valid : List (Bytes × Node) → Bytes → Node → Bool
  node_valid nodes id n =
      bytes_beq id n.id
      && hashed id (root ∷ agent ∷ task ∷ [])
      && (is_empty n.parent_id
          || (hashed n.parent_id (root ∷ agent ∷ []) && is_some (lookup n.parent_id nodes)))
      && ltb 0 n.started_at
      && leb n.started_at n.updated_at
      && bytes_beq (safe_text e n.node_type 128) n.node_type
      && bytes_beq (safe_text e n.provider 64) n.provider

  abbrev pub source_valid : Source → Item → Bool
  source_valid codex_hook item = hashed item.session_id (cx ∷ []) && hashed item.turn_id (turn ∷ [])
  source_valid codex_orchestra item = is_empty item.session_id && is_empty item.turn_id

  abbrev pub item_valid : Bytes → Item → Bool
  item_valid id item =
      bytes_beq id item.id
      && hashed id (wf ∷ orch ∷ [])
      && binding_valid record { id = item.tmux_session_id; created_at = item.tmux_created_at }
      && source_valid item.source item
      && bytes_beq (safe_text e item.model 128) item.model
      && ltb 0 item.started_at
      && leb item.started_at item.updated_at
      && leb (length item.nodes) max_nodes
      && all_entries (node_valid item.nodes) item.nodes

  unfoldable pub valid : State → Bool
  valid s =
      s.version == 1 && leb (length s.workflows) max_workflows && all_entries item_valid s.workflows

  -- The `loop` of `bytes`, at most as often as there are workflows; with no workflow left it ends.
  abbrev pub fit_again :
      (State → Result (Bytes × State)) → State → Option Item → Result (Bytes × State)
  fit_again again s none = err invalid
  fit_again again s (some item) = again (record s { workflows = remove item.id s.workflows })

  abbrev pub fit_raw :
      (State → Result (Bytes × State)) → State → Option Bytes → Result (Bytes × State)
  fit_raw again s none = err invalid
  fit_raw again s (some raw) =
      if leb (length (raw ++ 10 ∷ [])) max_bytes
      then ok (raw ++ 10 ∷ [], s)
      else fit_again again s (min_by less_needed always none s.workflows)

  abbrev pub fit : ℕ → State → Result (Bytes × State)
  fit zero s = fit_raw (λ t. err invalid) s (e.json s)
  fit (suc n) s = fit_raw (fit n) s (e.json s)

  -- `bytes`, with the state that it leaves.
  unfoldable pub bytes : State → Result (Bytes × State)
  bytes s = fit (length s.workflows) s

  abbrev pub checked : Bytes × State → Result (Bytes × State)
  checked (raw, s) = if valid s then ok (raw, s) else err invalid

  -- What `update` writes after the action, with the text of the time.
  unfoldable pub settle : State → ℕ → Bytes → Result (Bytes × State)
  settle s now stamp = bind (bytes (record (prune s now).0 { updated_at = stamp })) checked

  abbrev pub default_state : State
  default_state = record { version = 1; workflows = []; updated_at = [] }

  abbrev pub read_state : Option State → Result (Option State)
  read_state none = err invalid
  read_state (some s) = if valid s then ok (some s) else err invalid

  -- `read`: the directory fails, has no file, or has the bytes of one.
  unfoldable pub read : Option (Option Bytes) → Result (Option State)
  read none = err unavailable
  read (some none) = ok none
  read (some (some raw)) = read_state (e.parse raw)

  abbrev pub or_default : Option State → State
  or_default none = default_state
  or_default (some s) = s
