-- ===== src/Workflow/Families.antt =====
-- workflow.rs: changes of all nodes, and pruning, leave every node its parent.
use hmux.Base.{ℕ, ◌≡◌, refl, arith, Bool, not, List, [], ◌∷◌, All, if◌then◌else◌, if_lem}
use hmux.Base.Eq.{Bytes, bytes_eq, bytes_beq}
use hmux.Base.Map.{lookup, Distinct}
use hmux.Workflow.Types.{Node, Item, State}
use hmux.Workflow.Items.{map_values, refresh, interrupt, interrupted_at}
use hmux.Workflow.Files.{is_some, prune, expire, overdue, kept, stale_node}
use hmux.Workflow.Active.{All-map_values, All-retain, shrink-All}
use hmux.Workflow.Parents.{Typed, Fathered, Family}

abbrev pub ItemFamily : Bytes × Item → Type 0
ItemFamily (k, item) = Family item.nodes

abbrev pub AllFamily : State → Type 0
AllFamily s = All ItemFamily s.workflows

-- A change of the nodes that keeps ids, types and parents.
abbrev Keeps : (Node → Node) → Type 0
Keeps f =
    (n : Node)
    → ((f n).id ≡ n.id) × ((f n).node_type ≡ n.node_type) × ((f n).parent_id ≡ n.parent_id)

is_some-map_values :
    (f : Node → Node) (k : Bytes) (m : List (Bytes × Node))
    → is_some (lookup k (map_values f m)) ≡ is_some (lookup k m)
unfolding lookup
is_some-map_values f k [] = refl
is_some-map_values f k ((j, n) ∷ m) = ground (arith, is_some-map_values f k m)

Distinct-map_values :
    (f : Node → Node) (m : List (Bytes × Node)) → Distinct m → Distinct (map_values f m)
Distinct-map_values f [] d = tt
Distinct-map_values f ((k, n) ∷ m) d =
    (ground (arith, is_some-map_values f k m, d.0), Distinct-map_values f m d.1)

Fathered-map_values :
    (f : Node → Node) (nodes m : List (Bytes × Node))
    → Keeps f
    → All (Fathered nodes) m
    → All (Fathered (map_values f nodes)) (map_values f m)
Fathered-map_values f nodes [] k h = tt
Fathered-map_values f nodes ((j, n) ∷ m) k h = (
  rw ((k n).2) (ground (arith, is_some-map_values f n.parent_id nodes, h.0)),
  Fathered-map_values f nodes m k h.1,
)

Typed-map_values :
    (f : Node → Node) (m : List (Bytes × Node)) → Keeps f → All Typed m → All Typed (map_values f m)
Typed-map_values f [] k h = tt
Typed-map_values f ((j, n) ∷ m) k h = (rw ((k n).0) (rw ((k n).1) h.0), Typed-map_values f m k h.1)

pub Family-map_values :
    (f : Node → Node) (m : List (Bytes × Node)) → Keeps f → Family m → Family (map_values f m)
Family-map_values f m k h =
    (Distinct-map_values f m h.0, Typed-map_values f m k h.1, Fathered-map_values f m m k h.2)

interrupted_at-Keeps : (now : ℕ) → Keeps (interrupted_at now)
interrupted_at-Keeps now n = ground arith

pub refresh-Family :
    (k : Bytes) (item : Item) (now : ℕ) → Family item.nodes → ItemFamily (k, refresh item now)
unfolding refresh
refresh-Family k item now h = h

pub if_Family :
    (k : Bytes) (b : Bool) (item : Item) (now : ℕ)
    → Family item.nodes
    → ItemFamily (k, if b then interrupt item now else item)
if_Family k b item now h =
    if_lem (λ (t : Item). ItemFamily (k, t)) b
      (λ yes.
        refresh-Family k _ now
          (Family-map_values (interrupted_at now) item.nodes (interrupted_at-Keeps now) h))
      (λ no. h)

pub stop_node-Keeps :
    (id : Bytes) (now : ℕ)
    → Keeps (λ (n : Node). if not (bytes_beq n.id id) then interrupted_at now n else n)
stop_node-Keeps id now n = ground arith

stale_node-Keeps : Keeps stale_node
stale_node-Keeps n = ground arith

pub prune-AllFamily : (s : State) (now : ℕ) → AllFamily s → AllFamily (prune s now).0
unfolding prune
prune-AllFamily s now h = shrink-All ItemFamily _ _ (
    All-retain ItemFamily (kept now) _ (
      All-map_values ItemFamily (expire now) _
        (λ k item g.
          if_lem (λ (t : Item). ItemFamily (k, t)) (overdue now item)
            (λ yes. Family-map_values stale_node item.nodes stale_node-Keeps g) (λ no. g))
        h))
