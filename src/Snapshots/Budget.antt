-- ===== src/Snapshots/Budget.antt =====
-- snapshots.rs: `TreeBudget`, which bounds the memory that a decoded catalog retains. A step takes the
-- bytes charged so far. The sizes of the types are those that `size_of` gives.
use hmux.Base.{ℕ, ◌+◌, ◌*◌, ◌^◌, Option, none, some, List, [], ◌∷◌, ltb, leb, length, if◌then◌else◌}
use hmux.Base.Eq.{Bytes}
use hmux.Model.Ids.{SessionIdentity}
use hmux.Model.Catalog.{
  WorkflowSummary, WorkflowNode, Workflow, Session, Readings, HostMetrics, Catalog,
}
use hmux.Snapshots.Proto.{
  ProtoSession, CatalogStrings, CatalogWorkflowSummary, CatalogWorkflowNode, CatalogWorkflowNodes,
  CatalogWorkflow, CatalogWorkflows, CatalogSession, CatalogSessions, CatalogHostMetrics,
  CatalogSnapshot,
}
use hmux.Snapshots.Check.{limit, Result, ok, err, ◌>>=◌, require}

-- 16 MiB.
abbrev pub max_decoded_snapshot_bytes : ℕ
max_decoded_snapshot_bytes = 16 * 2 ^ 20

abbrev pub usize_limit : ℕ
usize_limit = 2 ^ 64

abbrev pub Step : Type 0
Step = ℕ → Result ℕ

unfoldable pub charge : ℕ → Step
charge bytes b =
    if leb usize_limit (b + bytes)
    then err limit
    else if ltb max_decoded_snapshot_bytes (b + bytes)
    then err limit
    else ok (b + bytes)

-- `size` is `size_of` of the elements.
unfoldable pub charge_list : ℕ → ℕ → Step
charge_list size count b =
    if leb usize_limit (count * (2 * size)) then err limit else charge (count * (2 * size)) b

infixr 6 ◌⨾◌
abbrev pub ◌⨾◌ : Step → Step → Step
(f ⨾ g) b = f b >>= g

abbrev pub each {ℓ} : {A : Type ℓ} → (A → Step) → List A → Step
each f [] b = ok b
each f (x ∷ xs) b = f x b >>= each f xs

abbrev pub maybe {ℓ} : {A : Type ℓ} → (A → Step) → Option A → Step
maybe f none b = ok b
maybe f (some a) b = f a b

unfoldable pub charge_text : Bytes → Step
charge_text s = charge (length s)

pub record Sizes : Type 0 where
  pub string : ℕ
  pub catalog : ℕ
  pub metrics : ℕ
  pub session : ℕ
  pub identity : ℕ
  pub summary : ℕ
  pub workflow : ℕ
  pub node : ℕ

module _ (z : Sizes) where
  unfoldable pub charge_strings : List Bytes → Step
  charge_strings items = charge_list z.string (length items) ⨾ each charge_text items

  unfoldable pub budget_node : WorkflowNode → Step
  budget_node n = each charge_text (n.id ∷ n.parent_id ∷ n.node_type ∷ n.provider ∷ n.status ∷ [])

  abbrev pub budget_nodes : List WorkflowNode → Step
  budget_nodes ns = charge_list z.node (length ns) ⨾ each budget_node ns

  unfoldable pub budget_workflow : Workflow → Step
  budget_workflow w =
      each charge_text (w.id ∷ w.source ∷ w.session_id ∷ w.turn_id ∷ w.status ∷ w.model ∷ [])
      ⨾ maybe budget_nodes w.nodes

  abbrev pub budget_workflows : List Workflow → Step
  budget_workflows ws = charge_list z.workflow (length ws) ⨾ each budget_workflow ws

  abbrev pub budget_identity : SessionIdentity → Step
  budget_identity x = charge (2 * z.identity) ⨾ charge_text x.id

  abbrev pub budget_summary : WorkflowSummary → Step
  budget_summary x = charge (2 * z.summary)

  unfoldable pub budget_session : Session → Step
  budget_session s =
      each charge_text (
        s.id ∷ s.name ∷ s.alias ∷ s.active_window ∷ s.current_path ∷ s.current_command ∷ s.profile
        ∷ s.label ∷ s.kind ∷ s.runtime ∷ s.model ∷ s.state ∷ s.process ∷ [])
      ⨾ maybe budget_identity s.restored_from
      ⨾ maybe charge_strings s.window_names
      ⨾ maybe charge_strings s.tags
      ⨾ maybe budget_summary s.workflow
      ⨾ maybe budget_workflows s.workflows

  abbrev pub budget_sessions : List Session → Step
  budget_sessions ss = charge_list z.session (length ss) ⨾ each budget_session ss

  unfoldable pub budget_proto_node : CatalogWorkflowNode → Step
  budget_proto_node n =
      each charge_text (n.id ∷ n.parent_id ∷ n.node_type ∷ n.provider ∷ n.status ∷ [])

  abbrev pub budget_proto_nodes : CatalogWorkflowNodes → Step
  budget_proto_nodes ns = charge_list z.node (length ns.items) ⨾ each budget_proto_node ns.items

  unfoldable pub budget_proto_workflow : CatalogWorkflow → Step
  budget_proto_workflow w =
      each charge_text (w.id ∷ w.source ∷ w.session_id ∷ w.turn_id ∷ w.status ∷ w.model ∷ [])
      ⨾ maybe budget_proto_nodes w.nodes

  abbrev pub budget_proto_workflows : CatalogWorkflows → Step
  budget_proto_workflows ws =
      charge_list z.workflow (length ws.items) ⨾ each budget_proto_workflow ws.items

  abbrev pub budget_proto_identity : ProtoSession → Step
  budget_proto_identity x = charge (2 * z.identity) ⨾ charge_text x.id

  abbrev pub charge_catalog_strings : CatalogStrings → Step
  charge_catalog_strings xs = charge_strings xs.items

  abbrev pub budget_proto_summary : CatalogWorkflowSummary → Step
  budget_proto_summary x = charge (2 * z.summary)

  unfoldable pub budget_proto_session : CatalogSession → Step
  budget_proto_session s b = do
    id ← require s.identity
    (charge_text id.id
          ⨾ each charge_text (
              s.name ∷ s.alias ∷ s.active_window ∷ s.current_path ∷ s.current_command ∷ s.profile
              ∷ s.label ∷ s.kind ∷ s.runtime ∷ s.model ∷ s.state ∷ s.process ∷ [])
          ⨾ maybe budget_proto_identity s.restored_from
          ⨾ maybe charge_catalog_strings s.window_names
          ⨾ maybe charge_catalog_strings s.tags
          ⨾ maybe budget_proto_summary s.workflow
          ⨾ maybe budget_proto_workflows s.workflows)
        b

  abbrev pub budget_proto_sessions : CatalogSessions → Step
  budget_proto_sessions ss =
      charge_list z.session (length ss.items) ⨾ each budget_proto_session ss.items

  module _ (e : Readings) where
    abbrev pub budget_metrics : HostMetrics e → Step
    budget_metrics m = charge (2 * z.metrics) ⨾ charge_text m.observed_at

    unfoldable pub budget_model_catalog : Catalog e → Result ℕ
    budget_model_catalog c =
        (charge_text c.generated_at
            ⨾ maybe budget_metrics c.host_metrics
            ⨾ maybe budget_sessions c.sessions)
          z.catalog

    abbrev pub budget_proto_metrics : CatalogHostMetrics e → Step
    budget_proto_metrics m = charge (2 * z.metrics) ⨾ charge_text m.observed_at

    unfoldable pub budget_proto_catalog : CatalogSnapshot e → Result ℕ
    budget_proto_catalog c =
        (charge_text c.generated_at
            ⨾ maybe budget_proto_metrics c.host_metrics
            ⨾ maybe budget_proto_sessions c.sessions)
          z.catalog
