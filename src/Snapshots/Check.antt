-- ===== src/Snapshots/Check.antt =====
-- snapshots.rs: the bounds of a catalog in either form.
use hmux.Base.{
  ℕ, Bool, not, ◌&&◌, Option, none, some, List, [], ◌∷◌, ltb, ◌==◌, length, if◌then◌else◌,
}
use hmux.Base.Int.{ℤ, pos, int_beq}
use hmux.Base.Eq.{Bytes}
use hmux.Model.Ids.{valid_session_id, is_positive}
use hmux.Model.Catalog.{WorkflowNode, Workflow, Session, Readings, Catalog}
use hmux.Snapshots.Proto.{
  ProtoSession, CatalogWorkflowNode, CatalogWorkflowNodes, CatalogWorkflow, CatalogWorkflows,
  CatalogSession, CatalogSessions, CatalogSnapshot,
}

pub data Error : Type 0 where
  limit invalid : Error

pub data Result {ℓ} (A : Type ℓ) : Type ℓ where
  ok : A → Result A
  err : Error → Result A

infixl 5 ◌>>=◌ ◌>>◌
abbrev pub ◌>>=◌ {ℓ κ} : {A : Type ℓ} {B : Type κ} → Result A → (A → Result B) → Result B
ok a >>= f = f a
err e >>= f = err e

abbrev pub Checked : Type 0
Checked = Result (Unit {0})

abbrev pub ◌>>◌ {ℓ} : {B : Type ℓ} → Checked → Result B → Result B
m >> k = m >>= λ _. k

abbrev pub map_option {ℓ κ} : {A : Type ℓ} {B : Type κ} → (A → B) → Option A → Option B
map_option f none = none
map_option f (some a) = some (f a)

abbrev pub max_catalog_sessions : ℕ
max_catalog_sessions = 10_000

abbrev pub max_catalog_windows : ℕ
max_catalog_windows = 100_000

abbrev pub max_catalog_tags : ℕ
max_catalog_tags = 64

abbrev pub max_workflows : ℕ
max_workflows = 1024

abbrev pub max_workflow_nodes : ℕ
max_workflow_nodes = 128

abbrev pub max_catalog_text : ℕ
max_catalog_text = 4096

abbrev pub within : ℕ → ℕ → Checked
within n max = if ltb max n then err limit else ok tt

abbrev pub text : Bytes → ℕ → Checked
text s max = within (length s) max

-- A `for` loop that stops at the first error.
abbrev pub for_each {ℓ} : {A : Type ℓ} → (A → Checked) → List A → Checked
for_each f [] = ok tt
for_each f (x ∷ xs) = f x >> for_each f xs

abbrev pub texts : List Bytes → Checked
texts xs = for_each (λ x. text x max_catalog_text) xs

unfoldable pub strings : List Bytes → ℕ → Checked
strings xs max = within (length xs) max >> texts xs

abbrev pub opt {ℓ} : {A : Type ℓ} → (A → Checked) → Option A → Checked
opt f none = ok tt
opt f (some a) = f a

unfoldable pub opt_strings : Option (List Bytes) → ℕ → Checked
opt_strings xs max = opt (λ xs. strings xs max) xs

unfoldable pub identity : Bytes → ℤ → Checked
identity id created_at =
    if length id == 0 && int_beq created_at (pos 0)
    then ok tt
    else if not (valid_session_id id)
    then err invalid
    else if is_positive created_at
    then ok tt
    else err invalid

unfoldable pub check_node : WorkflowNode → Checked
check_node n = texts (n.id ∷ n.parent_id ∷ n.node_type ∷ n.provider ∷ n.status ∷ [])

abbrev pub check_nodes : List WorkflowNode → Checked
check_nodes ns = within (length ns) max_workflow_nodes >> for_each check_node ns

unfoldable pub check_workflow : Workflow → Checked
check_workflow w = do
  texts (w.id ∷ w.source ∷ w.session_id ∷ w.turn_id ∷ w.status ∷ w.model ∷ [])
  opt check_nodes w.nodes

abbrev pub check_workflows : List Workflow → Checked
check_workflows ws = within (length ws) max_workflows >> for_each check_workflow ws

unfoldable pub check_session : Session → Checked
check_session s = do
  identity s.id s.created_at
  opt (λ r. identity r.id r.created_at) s.restored_from
  texts (
      s.name ∷ s.alias ∷ s.active_window ∷ s.current_path ∷ s.current_command ∷ s.profile ∷ s.label
      ∷ s.kind ∷ s.runtime ∷ s.model ∷ s.state ∷ s.process ∷ [])
  opt_strings s.window_names max_catalog_windows
  opt_strings s.tags max_catalog_tags
  opt check_workflows s.workflows

-- `parse_time` says that chrono reads the text.
abbrev pub check_time : (Bytes → Bool) → Bytes → Checked
check_time parse_time t = do
  text t 128
  if not (length t == 0) && not (parse_time t) then err invalid else ok tt

abbrev pub check_sessions : List Session → Checked
check_sessions ss = within (length ss) max_catalog_sessions >> for_each check_session ss

unfoldable pub check_proto_node : CatalogWorkflowNode → Checked
check_proto_node n = texts (n.id ∷ n.parent_id ∷ n.node_type ∷ n.provider ∷ n.status ∷ [])

abbrev pub check_proto_nodes : CatalogWorkflowNodes → Checked
check_proto_nodes ns =
    within (length ns.items) max_workflow_nodes >> for_each check_proto_node ns.items

unfoldable pub check_proto_workflow : CatalogWorkflow → Checked
check_proto_workflow w = do
  texts (w.id ∷ w.source ∷ w.session_id ∷ w.turn_id ∷ w.status ∷ w.model ∷ [])
  opt check_proto_nodes w.nodes

abbrev pub check_proto_workflows : CatalogWorkflows → Checked
check_proto_workflows ws =
    within (length ws.items) max_workflows >> for_each check_proto_workflow ws.items

unfoldable pub identity_check_proto : ProtoSession → Checked
identity_check_proto v = identity v.id v.created_at

abbrev pub require {ℓ} : {A : Type ℓ} → Option A → Result A
require none = err invalid
require (some a) = ok a

unfoldable pub check_proto_session : CatalogSession → Checked
check_proto_session s = do
  id ← require s.identity
  identity_check_proto id
  opt identity_check_proto s.restored_from
  texts (
      s.name ∷ s.alias ∷ s.active_window ∷ s.current_path ∷ s.current_command ∷ s.profile ∷ s.label
      ∷ s.kind ∷ s.runtime ∷ s.model ∷ s.state ∷ s.process ∷ [])
  opt (λ xs. strings xs.items max_catalog_windows) s.window_names
  opt (λ xs. strings xs.items max_catalog_tags) s.tags
  opt check_proto_workflows s.workflows

abbrev pub check_proto_sessions : CatalogSessions → Checked
check_proto_sessions ss =
    within (length ss.items) max_catalog_sessions >> for_each check_proto_session ss.items

module _ (e : Readings) (parse_time : Bytes → Bool) where
  unfoldable pub check_catalog : Catalog e → Checked
  check_catalog c = do check_time parse_time c.generated_at; opt check_sessions c.sessions

  unfoldable pub check_proto_catalog : CatalogSnapshot e → Checked
  check_proto_catalog c = do
    check_time parse_time c.generated_at
    opt check_proto_sessions c.sessions
