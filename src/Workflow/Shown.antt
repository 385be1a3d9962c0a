-- ===== src/Workflow/Shown.antt =====
-- workflow.rs: the status that a catalog shows.
use hmux.Base.{
  ℕ, ◌+◌, ◌≡◌, ◌≤◌, refl, sym, ◌∙◌, arith, Bool, true, false, ◌&&◌, List, [], ◌∷◌, All, any, map,
  ltb, if◌then◌else◌, if_lem,
}
use hmux.Base.Eq.{Bytes}
use hmux.Workflow.Types.{Status, Node, Item, active, stale_after}
use hmux.Workflow.Items.{values}
use hmux.Workflow.View.{
  visible, shown_node, shown_nodes, node_status, node_before, sort_by, insert_sorted,
}
use hmux.Workflow.Active.{status_of-active}

abbrev any_node : List Node → Bool
any_node ns = any active (map node_status ns)

any-insert_sorted :
    (n : Node) (ns : List Node)
    → any_node (insert_sorted node_before n ns) ≡ (if active n.status then true else any_node ns)
any-insert_sorted n [] = refl
any-insert_sorted n (x ∷ ns) = ground (arith, any-insert_sorted n ns)

any-sort_by : (ns : List Node) → any_node (sort_by node_before ns) ≡ any_node ns
any-sort_by [] = refl
any-sort_by (n ∷ ns) = ground (arith, any-insert_sorted n (sort_by node_before ns), any-sort_by ns)

abbrev NotNewer : ℕ → Bytes × Node → Type 0
NotNewer time (k, n) = n.updated_at ≤ time

overdue-nodes :
    (now time : ℕ) (m : List (Bytes × Node))
    → ltb (time + stale_after) now ≡ true
    → All (NotNewer time) m
    → any_node (map (shown_node now) (values m)) ≡ false
overdue-nodes now time [] o h = refl
overdue-nodes now time ((k, n) ∷ m) o h = ground (arith, overdue-nodes now time m o h.1, h.0, o)

-- The status shown for a workflow whose nodes are not newer than it is active exactly when that of a
-- node shown with it is.
pub visible-active :
    (now : ℕ) (item : Item)
    → All (NotNewer item.updated_at) item.nodes
    → active (visible now item).status ≡ any active (map node_status (visible now item).nodes)
unfolding visible
visible-active now item h =
    if_lem (λ (s : Status). active s ≡ any_node (shown_nodes now item))
      (active item.status && ltb (item.updated_at + stale_after) now)
      (λ old. sym (
        any-sort_by (map (shown_node now) (values item.nodes))
        ∙ overdue-nodes now item.updated_at item.nodes (ground (arith, old)) h))
      (λ recent. status_of-active (map node_status (shown_nodes now item)))
