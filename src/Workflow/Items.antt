-- ===== src/Workflow/Items.antt =====
-- workflow.rs: the transitions of one workflow and of its nodes.
use hmux.Base.{
  ℕ, Bool, true, false, not, ◌&&◌, ◌||◌, Option, none, some, List, [], ◌∷◌, ltb, leb, length, any,
  find, if◌then◌else◌,
}
use hmux.Base.Int.{int_beq}
use hmux.Base.Eq.{Bytes, bytes_beq, bytes_eq}
use hmux.Base.Map.{lookup, insert, remove}
use hmux.Model.Ids.{SessionIdentity}
use hmux.Workflow.Texts.{root_type}
use hmux.Workflow.Types.{
  Status, Source, Node, Item, Result, ok, err, invalid, running, waiting_approval, waiting_input,
  completed, failed, interrupted, stale, active, terminal, status_beq, max_nodes,
}

-- `values_mut`, and `any` of the values.
abbrev pub map_values {ℓ} : {V : Type ℓ} → (V → V) → List (Bytes × V) → List (Bytes × V)
map_values f [] = []
map_values f ((k, v) ∷ m) = (k, f v) ∷ map_values f m

abbrev pub any_value {ℓ} : {V : Type ℓ} → (V → Bool) → List (Bytes × V) → Bool
any_value p [] = false
any_value p ((k, v) ∷ m) = p v || any_value p m

abbrev pub values {ℓ} : {V : Type ℓ} → List (Bytes × V) → List V
values [] = []
values ((k, v) ∷ m) = v ∷ values m

-- The order of strings.
abbrev pub bytes_ltb : Bytes → Bytes → Bool
bytes_ltb [] [] = false
bytes_ltb [] (y ∷ ys) = true
bytes_ltb (x ∷ xs) [] = false
bytes_ltb (x ∷ xs) (y ∷ ys) = if ltb x y then true else not (ltb y x) && bytes_ltb xs ys

-- The order of pairs of a time and an id.
abbrev pub earlier : ℕ → Bytes → ℕ → Bytes → Bool
earlier s a t b = if ltb s t then true else not (ltb t s) && bytes_ltb a b

-- `min_by_key` of the values that pass the test.
unfoldable pub min_by {ℓ} :
    {V : Type ℓ} → (V → V → Bool) → (V → Bool) → Option V → List (Bytes × V) → Option V
min_by less p best [] = best
min_by less p none ((k, v) ∷ m) =
    let this = min_by less p (some v) m in
    let other = min_by less p none m in if p v then this else other
min_by less p (some w) ((k, v) ∷ m) =
    let this = min_by less p (some v) m in
    let other = min_by less p (some w) m in if p v && less v w then this else other

abbrev pub precedence : List Status
precedence = waiting_approval ∷ waiting_input ∷ running ∷ failed ∷ stale ∷ interrupted ∷ []

abbrev pub first_of : List Status → Option Status → Status
first_of values none = completed
first_of values (some s) = s

-- `status`: the first in precedence of those that occur.
unfoldable pub status_of : List Status → Status
status_of values = first_of values (find (λ s. any (status_beq s) values) precedence)

abbrev pub new_item : Bytes → SessionIdentity → Source → ℕ → Item
new_item id binding source now = record {
  id = id;
  tmux_session_id = binding.id;
  tmux_created_at = binding.created_at;
  source = source;
  session_id = [];
  turn_id = [];
  status = running;
  model = [];
  started_at = now;
  updated_at = now;
  ended_at = 0;
  nodes = [];
}

abbrev pub matches : Item → SessionIdentity → Bool
matches item binding =
    bytes_beq item.tmux_session_id binding.id && int_beq item.tmux_created_at binding.created_at

abbrev pub is_parent : List (Bytes × Node) → Node → Bool
is_parent nodes v = any_value (λ (n : Node). bytes_beq n.parent_id v.id) nodes

abbrev pub evictable : List (Bytes × Node) → Node → Bool
evictable nodes v =
    terminal v.status && not (bytes_beq v.node_type root_type) && not (is_parent nodes v)

abbrev pub older_node : Node → Node → Bool
older_node v w = earlier v.updated_at v.id w.updated_at w.id

abbrev pub evicted : List (Bytes × Node) → Option Node → Result (List (Bytes × Node))
evicted nodes none = err invalid
evicted nodes (some v) = ok (remove v.id nodes)

-- A new node takes the place of the oldest one that may go, when there is no other.
unfoldable pub make_place : List (Bytes × Node) → Option Node → Result (List (Bytes × Node))
make_place nodes (some n) = ok nodes
make_place nodes none =
    if leb max_nodes (length nodes)
    then evicted nodes (min_by older_node (evictable nodes) none nodes)
    else ok nodes

-- The status of a default node is empty, which is neither active nor terminal; it is set at once.
abbrev pub new_node : Bytes → Bytes → Bytes → Bytes → Status → ℕ → Node
new_node id parent kind provider target now = record {
  id = id;
  parent_id = parent;
  node_type = kind;
  provider = provider;
  status = target;
  started_at = now;
  updated_at = now;
  ended_at = if terminal target then now else 0;
}

abbrev pub moved : Node → Status → ℕ → Node
moved n target now = record n {
  status = target;
  updated_at = now;
  ended_at = if terminal target then now else 0;
}

-- A node that ended stays so unless forced, or stale.
abbrev pub closed : Bool → Node → Bool
closed force n = not force && terminal n.status && not (status_beq n.status stale)

abbrev pub set_node : Item → Bytes → Node → ℕ → Item
set_node item id n now = record item { nodes = insert id n item.nodes; updated_at = now }

abbrev pub placed :
    Item
    → Bytes
    → Bytes
    → Bytes
    → Bytes
    → Status
    → ℕ
    → Bool
    → Option Node
    → Result (List (Bytes × Node))
    → Result Item
placed item id parent kind provider target now force old (err x) = err x
placed item id parent kind provider target now force none (ok nodes) =
    ok (
      set_node (record item { nodes = nodes }) id (new_node id parent kind provider target now) now)
placed item id parent kind provider target now force (some n) (ok nodes) = ok (
    if closed force n
    then record item { nodes = nodes }
    else set_node (record item { nodes = nodes }) id (moved n target now) now)

-- `Item::node`.
unfoldable pub put_node : Item → Bytes → Bytes → Bytes → Bytes → Status → ℕ → Bool → Result Item
put_node item id parent kind provider target now force =
    placed item id parent kind provider target now force (lookup id item.nodes)
      (make_place item.nodes (lookup id item.nodes))

abbrev pub statuses : List (Bytes × Node) → List Status
statuses [] = []
statuses ((k, n) ∷ m) = n.status ∷ statuses m

unfoldable pub refresh : Item → ℕ → Item
refresh item now =
    let status : Status = status_of (statuses item.nodes) in
    record item { status = status; updated_at = now; ended_at = if terminal status then now else 0 }

abbrev pub interrupted_at : ℕ → Node → Node
interrupted_at now n =
    if active n.status
    then record n { status = interrupted; updated_at = now; ended_at = now }
    else n

abbrev pub interrupt : Item → ℕ → Item
interrupt item now =
    refresh (record item { nodes = map_values (interrupted_at now) item.nodes }) now
