-- ===== src/Snapshots/Convert.antt =====
-- snapshots.rs: the conversions of the parts of a catalog.
use hmux.Base.{if◌then◌else◌, Option, none, some, List, map}
use hmux.Base.Int.{pos}
use hmux.Base.Eq.{Bytes}
use hmux.Model.Ids.{SessionIdentity}
use hmux.Model.Catalog.{
  WorkflowSummary, WorkflowNode, Workflow, Session, Readings, HostMetrics, metrics_valid,
  default_metrics,
}
use hmux.Snapshots.Proto.{
  ProtoSession, CatalogStrings, CatalogWorkflowSummary, CatalogWorkflowNode, CatalogWorkflowNodes,
  CatalogWorkflow, CatalogWorkflows, CatalogSession, CatalogHostMetrics,
}
use hmux.Snapshots.Check.{invalid, Result, ok, err, map_option}

unfoldable pub to_identity : SessionIdentity → ProtoSession
to_identity s = record { id = s.id; created_at = s.created_at }

unfoldable pub from_identity : ProtoSession → SessionIdentity
from_identity s = record { id = s.id; created_at = s.created_at }

unfoldable pub to_strings : Option (List Bytes) → Option CatalogStrings
to_strings xs = map_option (λ (items : List Bytes). record { items = items }) xs

unfoldable pub from_strings : Option CatalogStrings → Option (List Bytes)
from_strings xs = map_option (λ (v : CatalogStrings). v.items) xs

unfoldable pub to_summary : WorkflowSummary → CatalogWorkflowSummary
to_summary w = record {
  running = w.running;
  waiting_approval = w.waiting_approval;
  waiting_input = w.waiting_input;
  completed = w.completed;
  failed = w.failed;
  interrupted = w.interrupted;
  stale = w.stale;
  updated_at = w.updated_at;
}

unfoldable pub from_summary : CatalogWorkflowSummary → WorkflowSummary
from_summary w = record {
  running = w.running;
  waiting_approval = w.waiting_approval;
  waiting_input = w.waiting_input;
  completed = w.completed;
  failed = w.failed;
  interrupted = w.interrupted;
  stale = w.stale;
  updated_at = w.updated_at;
}

unfoldable pub to_node : WorkflowNode → CatalogWorkflowNode
to_node n = record {
  id = n.id;
  parent_id = n.parent_id;
  node_type = n.node_type;
  provider = n.provider;
  status = n.status;
  started_at = n.started_at;
  updated_at = n.updated_at;
  ended_at = n.ended_at;
}

unfoldable pub from_node : CatalogWorkflowNode → WorkflowNode
from_node n = record {
  id = n.id;
  parent_id = n.parent_id;
  node_type = n.node_type;
  provider = n.provider;
  status = n.status;
  started_at = n.started_at;
  updated_at = n.updated_at;
  ended_at = n.ended_at;
}

abbrev pub to_nodes : List WorkflowNode → CatalogWorkflowNodes
to_nodes items = record { items = map to_node items }

unfoldable pub to_workflow : Workflow → CatalogWorkflow
to_workflow w = record {
  id = w.id;
  source = w.source;
  session_id = w.session_id;
  turn_id = w.turn_id;
  status = w.status;
  model = w.model;
  started_at = w.started_at;
  updated_at = w.updated_at;
  ended_at = w.ended_at;
  nodes = map_option to_nodes w.nodes;
}

unfoldable pub from_workflow : CatalogWorkflow → Workflow
from_workflow w = record {
  id = w.id;
  source = w.source;
  session_id = w.session_id;
  turn_id = w.turn_id;
  status = w.status;
  model = w.model;
  started_at = w.started_at;
  updated_at = w.updated_at;
  ended_at = w.ended_at;
  nodes = map_option (λ (xs : CatalogWorkflowNodes). map from_node xs.items) w.nodes;
}

abbrev pub to_workflows : List Workflow → CatalogWorkflows
to_workflows items = record { items = map to_workflow items }

unfoldable pub to_session : Session → CatalogSession
to_session s = record {
  identity = some (record { id = s.id; created_at = s.created_at });
  name = s.name;
  alias = s.alias;
  hidden = s.hidden;
  restored_from = map_option to_identity s.restored_from;
  activity_at = s.activity_at;
  attached_clients = s.attached;
  window_count = s.window_count;
  window_names = to_strings s.window_names;
  active_window = s.active_window;
  current_path = s.current_path;
  current_command = s.current_command;
  profile = s.profile;
  label = s.label;
  tags = to_strings s.tags;
  kind = s.kind;
  runtime = s.runtime;
  model = s.model;
  state = s.state;
  process = s.process;
  working_since = s.working_since;
  width = s.width;
  height = s.height;
  workflow = map_option to_summary s.workflow;
  workflows = map_option to_workflows s.workflows;
}

-- With the identity of the session.
unfoldable pub from_identified : ProtoSession → CatalogSession → Session
from_identified id s = record {
  id = id.id;
  name = s.name;
  alias = s.alias;
  hidden = s.hidden;
  created_at = id.created_at;
  restored_from = map_option from_identity s.restored_from;
  activity_at = s.activity_at;
  attached = s.attached_clients;
  window_count = s.window_count;
  window_names = from_strings s.window_names;
  active_window = s.active_window;
  current_path = s.current_path;
  current_command = s.current_command;
  profile = s.profile;
  label = s.label;
  tags = from_strings s.tags;
  kind = s.kind;
  runtime = s.runtime;
  model = s.model;
  state = s.state;
  process = s.process;
  working_since = s.working_since;
  width = s.width;
  height = s.height;
  workflow = map_option from_summary s.workflow;
  workflows = map_option (λ (xs : CatalogWorkflows). map from_workflow xs.items) s.workflows;
  pane_pid = pos 0;
}

abbrev pub identified : Option ProtoSession → CatalogSession → Result Session
identified none s = err invalid
identified (some id) s = ok (from_identified id s)

unfoldable pub from_session : CatalogSession → Result Session
from_session s = identified s.identity s

module _ (e : Readings) where
  unfoldable pub to_metrics : HostMetrics e → CatalogHostMetrics e
  to_metrics x = record {
    observed_at = x.observed_at;
    cpu_percent = x.cpu_percent;
    gpu_percent = x.gpu_percent;
    memory_used_bytes = x.memory_used_bytes;
    memory_total_bytes = x.memory_total_bytes;
    disk_used_bytes = x.disk_used_bytes;
    disk_total_bytes = x.disk_total_bytes;
  }

  unfoldable pub from_metrics : CatalogHostMetrics e → HostMetrics e
  from_metrics x = record {
    observed_at = x.observed_at;
    cpu_percent = x.cpu_percent;
    gpu_percent = x.gpu_percent;
    memory_used_bytes = x.memory_used_bytes;
    memory_total_bytes = x.memory_total_bytes;
    disk_used_bytes = x.disk_used_bytes;
    disk_total_bytes = x.disk_total_bytes;
  }

  abbrev pub or_default : HostMetrics e → HostMetrics e
  or_default v = if metrics_valid e v then v else default_metrics e

  unfoldable pub normalized_metrics : Option (HostMetrics e) → Option (HostMetrics e)
  normalized_metrics x = map_option or_default x
