-- ===== src/Workflow/Examples.antt =====
-- workflow.rs: a turn that is prompted, works and stops, and a file that is pruned.
use hmux.Base.{
  ℕ, zero, suc, ◌≡◌, ◌≤◌, refl, arith, true, false, Option, none, some, List, [], ◌∷◌, ◌++◌, length,
  All, any, map,
}
use hmux.Base.Eq.{Bytes, bytes_eq}
use hmux.Base.Int.{pos}
use hmux.Base.Map.{lookup, insert, retain}
use hmux.Model.Ids.{SessionIdentity, valid_session_id}
use hmux.Workflow.Types.{
  Env, running, completed, Node, Item, State, Result, ok, err, codex_hook, active, hash, safe_text,
  max_workflows,
}
use hmux.Workflow.Texts.{wf, root, cx, turn, root_type, codex}
use hmux.Workflow.Items.{put_node, make_place, closed, refresh, status_of}
use hmux.Workflow.Hooks.{
  HookEvent, Report, record_hook, turn_key, EventName, user_prompt_submit, subagent_start,
  subagent_stop, post_tool_use, stop,
}
use hmux.Workflow.Files.{prune, read, valid, settle, bytes}
use hmux.Workflow.Update.{Turn, update, store_hook, store_report, refreshed}
use hmux.Workflow.View.{visible, node_status}
use hmux.Workflow.Private.{PrivateDir, Steps, private_directory, read_private, write_atomic_private}
use hmux.Workflow.Samples.{to_json, of_json, of_json-to_json}
use hmux.Workflow.Writes.{Did}
use hmux.Workflow.Runs.{Call, hook, show, step, run}
use hmux.Workflow.Active.{AllAgree}
use hmux.Workflow.Agreement.{InFile, run-AllAgree, store-Did}
use hmux.Workflow.Prunes.{Keyed, prune-prune}
use hmux.Workflow.Families.{AllFamily}
use hmux.Workflow.Recorded.{record_hook-AllFamily}
use hmux.Workflow.Endings.{Idle, record_hook-stop}
use hmux.Workflow.Finished.{record_hook-finished}
use hmux.Workflow.Prompts.{other_turn, record_hook-prompt}
use hmux.Workflow.Shown.{visible-active}

abbrev zeros : ℕ → Bytes
zeros zero = []
zeros (suc n) = b'0' ∷ zeros n

abbrev old_node : Node
old_node = record {
  id = root ++ zeros 32;
  parent_id = [];
  node_type = root_type;
  provider = codex;
  status = running;
  started_at = 5;
  updated_at = 6;
  ended_at = 0;
}

abbrev binding : SessionIdentity
binding = record { id = b'$' ∷ b'1' ∷ []; created_at = pos 3 }

abbrev old_item : Item
old_item = record {
  id = wf ++ zeros 32;
  tmux_session_id = binding.id;
  tmux_created_at = binding.created_at;
  source = codex_hook;
  session_id = cx ++ zeros 32;
  turn_id = turn ++ zeros 32;
  status = running;
  model = [];
  started_at = 5;
  updated_at = 6;
  ended_at = 0;
  nodes = (root ++ zeros 32, old_node) ∷ [];
}

abbrev old_state : State
old_state = record { version = 1; workflows = (old_item.id, old_item) ∷ []; updated_at = [] }

abbrev empty_at : Bytes → State
empty_at stamp = record { version = 1; workflows = []; updated_at = stamp }

-- Texts are their characters, and the hash of a text its first 16 bytes.
abbrev hashing : Env
hashing = record {
  chars = λ text. text;
  encode = λ c. c ∷ [];
  is_control = λ c. false;
  trim = λ text. text;
  lowercase = λ text. text;
  digest = λ text. text ++ zeros 16;
  json = λ s. none;
  parse = λ raw. none;
}

abbrev event : EventName → HookEvent
event name = record {
  session_id = b's' ∷ [];
  turn_id = b't' ∷ [];
  name = name;
  model = [];
  agent_id = b'a' ∷ [];
  agent_type = [];
  tool_name = [];
}

abbrev state_of : Result State → State
state_of (ok t) = t
state_of (err x) = empty_at []

-- A prompt in a store without a file, then the stop of its turn.
abbrev running_state : State
running_state = state_of (record_hook hashing (empty_at []) binding (event user_prompt_submit) 9)

abbrev ended_state : State
ended_state = state_of (record_hook hashing running_state binding (event stop) 12)

abbrev env : Env
env = record hashing {
  json = to_json running_state ended_state;
  parse = of_json running_state ended_state;
}

-- Every step of a write ends well, or all but the last.
abbrev good : Steps
good = record {
  named = true;
  created = true;
  restricted = true;
  written = true;
  synced = true;
  renamed = true;
  directory_synced = true;
}

abbrev without_sync : Steps
without_sync = record good { directory_synced = false }

abbrev no_file : PrivateDir
no_file = record { file = none; opens = true; writes = good ∷ without_sync ∷ [] }

abbrev at : ℕ → Turn
at now = record {
  permit = true;
  cancelled_before = false;
  directory = true;
  lock = none;
  cancelled_after = false;
  now = now;
  stamp = [];
}

no_file-InFile : InFile env no_file
unfolding read read_private
no_file-InFile s h = cc

abbrev calls : List Call
calls =
    hook (at 9) binding (event user_prompt_submit)
    ∷ hook (at 12) binding (event stop)
    ∷ show (at 700_000)
    ∷ []

-- The two states are written, the second with an error after the rename.
first_written :
    store_hook env private_directory no_file (at 9) binding (event user_prompt_submit)
    ≡ (record no_file { file = some (1 ∷ 10 ∷ []); writes = without_sync ∷ [] }, ok tt)
unfolding run step store_hook update refreshed settle bytes prune retain read read_private
    write_atomic_private valid lookup safe_text valid_session_id record_hook insert put_node
    make_place refresh status_of hash
first_written = refl

both_written : (run env private_directory no_file calls).file ≡ some (2 ∷ 10 ∷ [])
unfolding run step store_hook update refreshed settle bytes prune retain read read_private
    write_atomic_private valid lookup safe_text valid_session_id record_hook insert put_node
    make_place refresh status_of hash
both_written = refl

run-AllAgree_example : InFile env (run env private_directory no_file calls)
run-AllAgree_example =
    run-AllAgree env no_file calls (of_json-to_json running_state ended_state) no_file-InFile

abbrev finished_report : Report
finished_report = record { task_id = b'j' ∷ []; status = completed }

store-Did_example :
    Did env private_directory AllAgree no_file
      (store_hook env private_directory no_file (at 9) binding (event user_prompt_submit))
    × Did env private_directory AllAgree no_file
        (store_report env private_directory no_file (at 9) binding (b'3' ∷ []) finished_report)
store-Did_example =
    store-Did env no_file (at 9) binding (event user_prompt_submit) (b'3' ∷ []) finished_report
      (of_json-to_json running_state ended_state) no_file-InFile

prune-prune_example :
    (prune (prune old_state 8000).0 8000 ≡ ((prune old_state 8000).0, false))
    × (length (prune old_state 8000).0.workflows ≤ max_workflows)
prune-prune_example = prune-prune old_state 8000 (refl, tt)

visible-active_example :
    active (visible 8000 old_item).status
    ≡ any active (map node_status (visible 8000 old_item).nodes)
visible-active_example = visible-active 8000 old_item (omega arith, tt)

-- A subagent starts in a turn that is not known.
abbrev started : State
started = state_of (record_hook hashing (empty_at []) binding (event subagent_start) 20)

started-ok : record_hook hashing (empty_at []) binding (event subagent_start) 20 ≡ ok started
unfolding record_hook lookup insert put_node make_place refresh status_of hash safe_text
started-ok = refl

-- It stops.
abbrev stopped : State
stopped = state_of (record_hook hashing started binding (event stop) 30)

started-AllFamily : AllFamily started
unfolding record_hook lookup insert put_node make_place refresh status_of hash safe_text
started-AllFamily = (((refl, (refl, tt)), (refl, (refl, tt)), (refl, (refl, tt))), tt)

-- The subagent ends before.
abbrev agent_ended : State
agent_ended = state_of (record_hook hashing started binding (event subagent_stop) 25)

agent_ended-ok : record_hook hashing started binding (event subagent_stop) 25 ≡ ok agent_ended
unfolding record_hook lookup insert put_node make_place refresh status_of hash safe_text
agent_ended-ok = refl

record_hook-AllFamily_example : AllFamily (prune agent_ended 25).0
record_hook-AllFamily_example =
    record_hook-AllFamily hashing started binding (event subagent_stop) 25 agent_ended
      started-AllFamily agent_ended-ok

stopped-ok : record_hook hashing started binding (event stop) 30 ≡ ok stopped
unfolding record_hook lookup insert put_node make_place refresh status_of hash safe_text
stopped-ok = refl

record_hook-stop_example :
    (item : Item) × (lookup (turn_key hashing (event stop)) stopped.workflows ≡ some item)
    × Idle item
record_hook-stop_example =
    record_hook-stop hashing started binding (event stop) 30 stopped refl started-AllFamily
      stopped-ok

abbrev item_of : Option Item → Item
item_of none = old_item
item_of (some item) = item

abbrev node_of : Option Node → Node
node_of none = old_node
node_of (some n) = n

abbrev stopped_item : Item
stopped_item = item_of (lookup (turn_key hashing (event stop)) stopped.workflows)

abbrev stopped_root : Node
stopped_root = node_of (lookup (hash hashing root (b's' ∷ [])) stopped_item.nodes)

-- A late hook of a tool.
abbrev after : State
after = state_of (record_hook hashing stopped binding (event post_tool_use) 40)

item-there : lookup (turn_key hashing (event stop)) stopped.workflows ≡ some stopped_item
unfolding record_hook lookup insert put_node make_place refresh status_of hash safe_text
item-there = refl

root-there : lookup (hash hashing root (b's' ∷ [])) stopped_item.nodes ≡ some stopped_root
unfolding record_hook lookup insert put_node make_place refresh status_of hash safe_text
root-there = refl

root-closed : closed false stopped_root ≡ true
unfolding record_hook lookup insert put_node make_place refresh status_of hash safe_text
root-closed = refl

after-ok : record_hook hashing stopped binding (event post_tool_use) 40 ≡ ok after
unfolding record_hook lookup insert put_node make_place refresh status_of hash safe_text
after-ok = refl

record_hook-finished_example :
    (u : Item) × (lookup (turn_key hashing (event post_tool_use)) after.workflows ≡ some u)
    × (u.nodes ≡ stopped_item.nodes)
record_hook-finished_example =
    record_hook-finished hashing stopped binding (event post_tool_use) 40 after stopped_item
      stopped_root refl item-there root-there root-closed after-ok

-- The next prompt of the session.
abbrev prompt : HookEvent
prompt = record (event user_prompt_submit) { turn_id = b'u' ∷ [] }

abbrev prompted_state : State
prompted_state = state_of (record_hook hashing started binding prompt 25)

prompted-ok : record_hook hashing started binding prompt 25 ≡ ok prompted_state
unfolding record_hook lookup insert put_node make_place refresh status_of hash safe_text
prompted-ok = refl

started-Keyed : All Keyed started.workflows
unfolding record_hook lookup insert put_node make_place refresh status_of hash safe_text
started-Keyed = (refl, tt)

record_hook-prompt_example :
    All
      (λ x. other_turn binding (hash hashing cx (b's' ∷ [])) (turn_key hashing prompt) x.1 ≡ false)
      prompted_state.workflows
record_hook-prompt_example =
    record_hook-prompt hashing started binding prompt 25 prompted_state refl started-Keyed
      prompted-ok
