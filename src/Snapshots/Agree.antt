-- ===== src/Snapshots/Agree.antt =====
-- snapshots.rs: the two forms of a catalog keep the same bounds, and the conversions lose nothing but
-- the process of a pane.
use hmux.Base.{suc, ap, ◌≡◌, refl, Option, none, some, List, [], ◌∷◌, map, length}
use hmux.Base.Int.{pos}
use hmux.Base.Eq.{Bytes}
use hmux.Model.Catalog.{WorkflowNode, Workflow, Session}
use hmux.Snapshots.Proto.{CatalogStrings}
use hmux.Snapshots.Check.{
  ok, Checked, map_option, for_each, opt, check_node, check_nodes, check_workflow, check_workflows,
  check_session, check_sessions, check_proto_node, check_proto_nodes, check_proto_workflow,
  check_proto_workflows, check_proto_session, check_proto_sessions, identity_check_proto,
  opt_strings, identity, strings, max_catalog_windows, max_catalog_tags,
}
use hmux.Snapshots.Convert.{
  to_identity, from_identity, to_strings, from_strings, to_summary, from_summary, to_node,
  from_node, to_nodes, to_workflow, from_workflow, to_workflows, to_session, from_identified,
  from_session,
}
use hmux.Snapshots.Typed.{to_sessions}

module _ {ℓ κ} {A : Type ℓ} {B : Type κ} where
  pub length-map : (f : A → B) (xs : List A) → length (map f xs) ≡ length xs
  length-map f [] = refl
  length-map f (x ∷ xs) = ap suc (length-map f xs)

  pub for_each-map :
      (f : A → B) (p : B → Checked) (q : A → Checked) (xs : List A)
      → ((x : A) → p (f x) ≡ q x)
      → for_each p (map f xs) ≡ for_each q xs
  for_each-map f p q [] h = refl
  for_each-map f p q (x ∷ xs) h = rw (h x, for_each-map f p q xs h)

  pub opt-map :
      (f : A → B) (p : B → Checked) (q : A → Checked) (o : Option A)
      → ((x : A) → p (f x) ≡ q x)
      → opt p (map_option f o) ≡ opt q o
  opt-map f p q none h = refl
  opt-map f p q (some x) h = h x

  pub map_option-map :
      (f : A → B) (g : B → A) (o : Option A)
      → ((x : A) → g (f x) ≡ x)
      → map_option g (map_option f o) ≡ o
  map_option-map f g none h = refl
  map_option-map f g (some x) h = ap some (h x)

  map-map : (f : A → B) (g : B → A) (xs : List A) → ((x : A) → g (f x) ≡ x) → map g (map f xs) ≡ xs
  map-map f g [] h = refl
  map-map f g (x ∷ xs) h = rw (h x, map-map f g xs h)

check_node-eq : (n : WorkflowNode) → check_proto_node (to_node n) ≡ check_node n
unfolding check_proto_node check_node to_node
check_node-eq n = refl

check_nodes-eq : (ns : List WorkflowNode) → check_proto_nodes (to_nodes ns) ≡ check_nodes ns
check_nodes-eq ns =
    rw (length-map to_node ns, for_each-map to_node check_proto_node check_node ns check_node-eq)

check_workflow-eq : (w : Workflow) → check_proto_workflow (to_workflow w) ≡ check_workflow w
unfolding check_proto_workflow check_workflow to_workflow
check_workflow-eq w = rw (opt-map to_nodes check_proto_nodes check_nodes w.nodes check_nodes-eq)

check_workflows-eq :
    (ws : List Workflow) → check_proto_workflows (to_workflows ws) ≡ check_workflows ws
check_workflows-eq ws = rw (
  length-map to_workflow ws,
  for_each-map to_workflow check_proto_workflow check_workflow ws check_workflow-eq,
)

abbrev strings_of : List Bytes → CatalogStrings
strings_of xs = record { items = xs }

check_session-eq : (s : Session) → check_proto_session (to_session s) ≡ check_session s
unfolding check_proto_session check_session to_session to_identity to_strings opt_strings
    identity_check_proto
check_session-eq s =
    let a =
      opt-map to_identity identity_check_proto (λ r. identity r.id r.created_at) s.restored_from
        (λ r. refl) in
    let b =
      opt-map strings_of (λ xs. strings xs.items max_catalog_windows)
        (λ xs. strings xs max_catalog_windows) s.window_names (λ xs. refl) in
    let c =
      opt-map strings_of (λ xs. strings xs.items max_catalog_tags)
        (λ xs. strings xs max_catalog_tags) s.tags (λ xs. refl) in
    let d =
      opt-map to_workflows check_proto_workflows check_workflows s.workflows check_workflows-eq in
    rw (a, b, c, d)

pub check_sessions-eq :
    (ss : List Session) → check_proto_sessions (to_sessions ss) ≡ check_sessions ss
check_sessions-eq ss = rw (
  length-map to_session ss,
  for_each-map to_session check_proto_session check_session ss check_session-eq,
)

from_node-to_node : (n : WorkflowNode) → from_node (to_node n) ≡ n
unfolding from_node to_node
from_node-to_node n = refl

from_workflow-to_workflow : (w : Workflow) → from_workflow (to_workflow w) ≡ w
unfolding from_workflow to_workflow
from_workflow-to_workflow w =
    ap (λ (ns : Option (List WorkflowNode)). record w { nodes = ns })
      (map_option-map to_nodes (λ xs. map from_node xs.items) w.nodes
        (λ ns. map-map to_node from_node ns from_node-to_node))

-- The process of the pane stays with Home.
abbrev pub without_pane : Session → Session
without_pane s = record s { pane_pid = pos 0 }

-- A session comes back from its protobuf form as it was, but for the process of its pane.
pub from_session-to_session : (s : Session) → from_session (to_session s) ≡ ok (without_pane s)
unfolding from_session to_session from_identified to_identity from_identity to_strings from_strings
    to_summary from_summary
from_session-to_session s =
    let a = map_option-map to_identity from_identity s.restored_from (λ r. refl) in
    let b = map_option-map strings_of (λ xs. xs.items) s.window_names (λ r. refl) in
    let c = map_option-map strings_of (λ xs. xs.items) s.tags (λ r. refl) in
    let d = map_option-map to_summary from_summary s.workflow (λ r. refl) in
    let f =
      map_option-map to_workflows (λ xs. map from_workflow xs.items) s.workflows
        (λ ws. map-map to_workflow from_workflow ws from_workflow-to_workflow) in
    rw (a, b, c, d, f)
