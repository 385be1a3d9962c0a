-- ===== src/Snapshots/Examples.antt =====
-- A catalog of one session, with the times of the length that RFC 3339 gives them.
use hmux.Base.{ℕ, ◌+◌, ◌≡◌, refl, arith, false, none, some, [], ◌∷◌, length, leb, ◌==◌}
use hmux.Base.Int.{pos}
use hmux.Model.Ids.{valid_session_id}
use hmux.Model.Catalog.{
  Session, Workflow, WorkflowNode, Readings, HostMetrics, Catalog, go_zero_time, metrics_valid,
}
use hmux.Snapshots.Proto.{CatalogSnapshot}
use hmux.Snapshots.Check.{
  ok, check_catalog, check_proto_catalog, strings, opt_strings, identity, check_node,
  check_workflow, check_session, check_proto_node, check_proto_workflow, check_proto_session,
  identity_check_proto,
}
use hmux.Snapshots.Convert.{
  to_session, from_session, to_identity, from_identity, to_strings, from_strings, to_summary,
  from_summary, to_node, from_node, to_workflow, from_workflow, from_identified, to_metrics,
  from_metrics, normalized_metrics,
}
use hmux.Snapshots.Budget.{
  Sizes, charge, charge_list, charge_text, charge_strings, budget_node, budget_workflow,
  budget_session, budget_model_catalog, budget_proto_node, budget_proto_workflow,
  budget_proto_session, budget_proto_catalog,
}
use hmux.Snapshots.Typed.{
  Outside, to_proto, from_proto, validate_catalog, catalog_to_proto, catalog_from_proto,
}
use hmux.Snapshots.RoundTrip.{restored, check_proto_catalog-to_proto, catalog_round_trip}
use hmux.Snapshots.Cost.{capped, retained, budget_model_catalog-eq}

abbrev sizes : Sizes
sizes = record {
  string = 24;
  catalog = 168;
  metrics = 120;
  session = 600;
  identity = 32;
  summary = 64;
  workflow = 200;
  node = 150;
}

abbrev readings : Readings
readings = record { F = ℕ; observed_ok = λ t. length t == 20; percent_ok = λ p. leb p 100 }

abbrev outside : Outside
outside = record {
  readings = readings;
  parse_time = λ t. length t == 20;
  model_sizes = sizes;
  proto_sizes = sizes;
  encoded_len = λ p. 300;
}

abbrev node : WorkflowNode
node = record {
  id = b'n' ∷ [];
  parent_id = [];
  node_type = [];
  provider = [];
  status = b'r' ∷ [];
  started_at = pos 1;
  updated_at = pos 2;
  ended_at = pos 0;
}

abbrev workflow : Workflow
workflow = record {
  id = b'w' ∷ [];
  source = [];
  session_id = [];
  turn_id = [];
  status = [];
  model = [];
  started_at = pos 1;
  updated_at = pos 2;
  ended_at = pos 0;
  nodes = some (node ∷ []);
}

abbrev session : Session
session = record {
  id = b'$' ∷ b'3' ∷ [];
  name = b'a' ∷ [];
  alias = [];
  hidden = false;
  created_at = pos 9;
  restored_from = some (record { id = b'$' ∷ b'2' ∷ []; created_at = pos 4 });
  activity_at = pos 12;
  attached = pos 1;
  window_count = pos 1;
  window_names = some ((b'w' ∷ []) ∷ []);
  active_window = b'w' ∷ [];
  current_path = b'/' ∷ [];
  current_command = [];
  profile = [];
  label = [];
  tags = none;
  kind = [];
  runtime = [];
  model = [];
  state = [];
  process = [];
  working_since = pos 0;
  width = pos 80;
  height = pos 24;
  workflow = none;
  workflows = some (workflow ∷ []);
  pane_pid = pos 4242;
}

-- A CPU cannot be busy for 140 percent.
abbrev metrics : HostMetrics readings
metrics = record {
  observed_at = go_zero_time;
  cpu_percent = some 140;
  gpu_percent = none;
  memory_used_bytes = none;
  memory_total_bytes = none;
  disk_used_bytes = none;
  disk_total_bytes = none;
}

abbrev catalog : Catalog readings
catalog = record {
  protocol_version = pos 1;
  generated_at = go_zero_time;
  sessions = some (session ∷ []);
  host_metrics = some metrics;
}

program : Unit {0}
unfolding valid_session_id metrics_valid check_catalog check_proto_catalog strings opt_strings
    identity check_node check_workflow check_session check_proto_node check_proto_workflow
    check_proto_session identity_check_proto to_session from_session to_identity from_identity
    to_strings from_strings to_summary from_summary to_node from_node to_workflow from_workflow
    from_identified to_metrics from_metrics normalized_metrics charge charge_list charge_text
    charge_strings budget_node budget_workflow budget_session budget_model_catalog budget_proto_node
    budget_proto_workflow budget_proto_session budget_proto_catalog to_proto from_proto
    validate_catalog catalog_to_proto catalog_from_proto
program = tt

abbrev proto : CatalogSnapshot readings
unfolding program
proto =
    to_proto outside (record catalog { host_metrics = normalized_metrics readings (some metrics) })

converts : catalog_to_proto outside catalog ≡ ok proto
unfolding program
converts = refl

catalog_round_trip_example : catalog_from_proto outside proto ≡ ok (restored outside catalog)
catalog_round_trip_example = catalog_round_trip outside catalog proto converts refl

check_proto_catalog-to_proto_example :
    check_proto_catalog readings (λ t. length t == 20) (to_proto outside catalog)
    ≡ check_catalog readings (λ t. length t == 20) catalog
check_proto_catalog-to_proto_example = check_proto_catalog-to_proto outside catalog

budget_model_catalog-eq_example :
    budget_model_catalog sizes readings catalog ≡ capped (168 + retained sizes readings catalog)
budget_model_catalog-eq_example = budget_model_catalog-eq sizes readings catalog (omega arith)
