-- ===== src/Workflow/Parents.antt =====
-- workflow.rs: the nodes of a workflow keep their parents.
use hmux.Base.{
  ℕ, ◌≡◌, sym, subst, arith, Bool, true, false, not, ◌&&◌, ◌||◌, Option, none, some, List, [], ◌∷◌,
  ◌==◌, All, if_lem, Option-cases, inl, inr, leb, length,
}
use hmux.Base.Eq.{Bytes, bytes_eq, bytes_beq, bytes_beq_iff}
use hmux.Base.Map.{
  lookup, insert, remove, Distinct, Distinct-insert, Distinct-remove, All-insert, All-remove,
  lookup-All, lookup-insert, lookup-remove,
}
use hmux.Workflow.Types.{Status, Node, Item, Result, ok, err, is_empty, max_nodes}
use hmux.Workflow.Texts.{root_type}
use hmux.Workflow.Items.{
  any_value, put_node, placed, make_place, evicted, evictable, older_node, min_by, new_node, moved,
  closed,
}
use hmux.Workflow.Files.{is_some}
use hmux.Workflow.Minimum.{OptionAll, min_by-All, min_by-passes}

-- The key of a root: no agent's and no task's starts like it.
abbrev pub is_root : Bytes → Bool
is_root [] = false
is_root (b ∷ bs) = b == b'r'

-- A node has its key for an id and, when its key is that of a root, the type "root". `State::valid` does
-- not check the type; the hooks and reports never write another.
abbrev pub Typed : Bytes × Node → Type 0
Typed (k, n) = (bytes_beq k n.id && (not (is_root k) || bytes_beq n.node_type root_type)) ≡ true

abbrev pub has_parent : List (Bytes × Node) → Bytes → Bool
has_parent nodes parent = is_empty parent || is_some (lookup parent nodes)

abbrev pub Fathered : List (Bytes × Node) → Bytes × Node → Type 0
Fathered nodes (k, n) = has_parent nodes n.parent_id ≡ true

-- The keys are distinct, each node is typed as above, and each parent is a node of the workflow too.
abbrev pub Family : List (Bytes × Node) → Type 0
Family nodes = Distinct nodes × All Typed nodes × All (Fathered nodes) nodes

Fathered-remove :
    (id : Bytes) (nodes m : List (Bytes × Node))
    → any_value (λ (n : Node). bytes_beq n.parent_id id) m ≡ false
    → All (Fathered nodes) m
    → All (Fathered (remove id nodes)) m
Fathered-remove id nodes [] f h = tt
Fathered-remove id nodes ((k, n) ∷ m) f h = (
  ground (
    arith,
    lookup-remove id n.parent_id nodes,
    bytes_beq_iff id n.parent_id,
    bytes_beq_iff n.parent_id id,
    h.0,
  ),
  Fathered-remove id nodes m (ground arith) h.1,
)

Fathered-insert :
    (id : Bytes) (x : Node) (nodes m : List (Bytes × Node))
    → All (Fathered nodes) m
    → All (Fathered (insert id x nodes)) m
Fathered-insert id x nodes [] h = tt
Fathered-insert id x nodes ((k, n) ∷ m) h =
    (ground (arith, lookup-insert id n.parent_id x nodes, h.0), Fathered-insert id x nodes m h.1)

-- A node that goes leaves the parents, and the roots.
abbrev Placed : List (Bytes × Node) → Result (List (Bytes × Node)) → Type 0
Placed nodes (err x) = Unit
Placed nodes (ok left) =
    Family left
    × ((p : Bytes)
        → (is_root p && is_some (lookup p nodes)) ≡ true
        → is_some (lookup p left) ≡ true)

evicted-Placed :
    (nodes : List (Bytes × Node)) (o : Option Node)
    → Family nodes
    → OptionAll (λ n. Typed (n.id, n)) o
    → OptionAll (λ n. evictable nodes n ≡ true) o
    → Placed nodes (evicted nodes o)
evicted-Placed nodes none h t v = tt
evicted-Placed nodes (some n) h t v = (
  (
    Distinct-remove n.id nodes h.0,
    All-remove Typed n.id nodes h.1,
    All-remove (Fathered (remove n.id nodes)) n.id nodes
        (Fathered-remove n.id nodes nodes (ground arith) h.2),
  ),
  λ p r. ground (arith, lookup-remove n.id p nodes, bytes_beq_iff n.id p, t, v, r),
)

Typed-ids : (m : List (Bytes × Node)) → All Typed m → All (λ x. Typed (x.1.id, x.1)) m
Typed-ids [] h = tt
Typed-ids ((k, n) ∷ m) h = (
  subst (λ j. Typed (j, n)) ((bytes_beq_iff k n.id).0 (ground (arith, h.0))) h.0,
  Typed-ids m h.1,
)

make_place-Placed :
    (nodes : List (Bytes × Node)) (o : Option Node)
    → Family nodes
    → Placed nodes (make_place nodes o)
unfolding make_place
make_place-Placed nodes (some n) h = (h, λ p r. ground (arith, r))
make_place-Placed nodes none h =
    if_lem (λ (r : Result (List (Bytes × Node))). Placed nodes r) (leb max_nodes (length nodes))
      (λ full.
        evicted-Placed nodes (min_by older_node (evictable nodes) none nodes) h
          (min_by-All (λ n. Typed (n.id, n)) older_node (evictable nodes) none nodes tt
            (Typed-ids nodes h.1))
          (min_by-passes older_node (evictable nodes) none nodes tt))
      (λ room. (h, λ p r. ground (arith, r)))

insert-Family :
    (id : Bytes) (n : Node) (nodes : List (Bytes × Node))
    → Family nodes
    → Typed (id, n)
    → has_parent nodes n.parent_id ≡ true
    → Family (insert id n nodes)
insert-Family id n nodes h t p = (
  Distinct-insert id n nodes h.0,
  All-insert Typed id n nodes t h.1,
  All-insert (Fathered (insert id n nodes)) id n nodes
      (ground (arith, lookup-insert id n.parent_id n nodes, p))
      (Fathered-insert id n nodes nodes h.2),
)

is_some-insert :
    (id j : Bytes) (n : Node) (nodes : List (Bytes × Node))
    → is_some (lookup j nodes) ≡ true
    → is_some (lookup j (insert id n nodes)) ≡ true
is_some-insert id j n nodes h = ground (arith, lookup-insert id j n nodes, h)

is_some-insert_same :
    (id : Bytes) (n : Node) (nodes : List (Bytes × Node))
    → is_some (lookup id (insert id n nodes)) ≡ true
is_some-insert_same id n nodes = ground (arith, lookup-insert id id n nodes, bytes_beq_iff id id)

-- What `put_node` leaves: the family, the node and the roots.
abbrev pub Put : Bytes → List (Bytes × Node) → Result Item → Type 0
Put id nodes (err x) = Unit
Put id nodes (ok t) =
    Family t.nodes
    × (is_some (lookup id t.nodes) ≡ true)
    × ((p : Bytes)
        → (is_root p && is_some (lookup p nodes)) ≡ true
        → is_some (lookup p t.nodes) ≡ true)

abbrev pub may_father : List (Bytes × Node) → Bytes → Bool
may_father nodes parent = is_empty parent || (is_root parent && is_some (lookup parent nodes))

abbrev pub may_be : Bytes → Bytes → Bool
may_be id kind = not (is_root id) || bytes_beq kind root_type

module _ (item : Item) (id parent kind provider : Bytes) (target : Status) (now : ℕ)
    (force : Bool) where
  placed-new :
      (r : Result (List (Bytes × Node)))
      → Placed item.nodes r
      → may_father item.nodes parent ≡ true
      → may_be id kind ≡ true
      → Put id item.nodes (placed item id parent kind provider target now force none r)
  placed-new (err x) h f k = tt
  placed-new (ok nodes) h f k =
      let n : Node = new_node id parent kind provider target now in
      (
        insert-Family id n nodes h.0 (ground (arith, bytes_beq_iff id id, k))
            (ground (arith, h.1 parent, f)),
        is_some-insert_same id n nodes,
        λ p r. is_some-insert id p n nodes (h.1 p r),
      )

  placed-old :
      (n : Node)
      → Family item.nodes
      → lookup id item.nodes ≡ some n
      → Put id item.nodes
          (placed item id parent kind provider target now force (some n) (ok item.nodes))
  placed-old n h f =
      let typed : Typed (id, n) = lookup-All Typed id n item.nodes h.1 f in
      let fathered : Fathered item.nodes (id, n) =
        lookup-All (Fathered item.nodes) id n item.nodes h.2 f in
      if_lem (λ (t : Item). Put id item.nodes (ok t)) (closed force n)
        (λ yes. (h, ground (arith, f), λ p r. ground (arith, r)))
        (λ no. (
          insert-Family id (moved n target now) item.nodes h typed fathered,
          is_some-insert_same id (moved n target now) item.nodes,
          λ p r. is_some-insert id p (moved n target now) item.nodes (ground (arith, r)),
        ))

  pub put_node-Put :
      Family item.nodes
      → may_father item.nodes parent ≡ true
      → may_be id kind ≡ true
      → Put id item.nodes (put_node item id parent kind provider target now force)
  unfolding put_node make_place
  put_node-Put h f k = elim (Option-cases (lookup id item.nodes)) [
    | inl none_there ↦
        subst
          (λ o.
            Put id item.nodes
              (placed item id parent kind provider target now force o (make_place item.nodes o)))
          (sym none_there)
          (placed-new (make_place item.nodes none) (make_place-Placed item.nodes none h) f k)
    | inr (n, there) ↦
        subst
          (λ o.
            Put id item.nodes
              (placed item id parent kind provider target now force o (make_place item.nodes o)))
          (sym there) (placed-old n h there)
  ]
