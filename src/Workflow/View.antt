-- ===== src/Workflow/View.antt =====
-- workflow.rs: the workflows that a catalog shows for a session.
use hmux.Base.{
  ℕ, suc, ◌+◌, Bool, true, not, ◌&&◌, Option, none, some, List, [], ◌∷◌, ltb, take, any, filter,
  map, if◌then◌else◌,
}
use hmux.Base.Eq.{Bytes}
use hmux.Model.Ids.{SessionIdentity}
use hmux.Workflow.Types.{Status, Source, Node, Item, stale, active, stale_after}
use hmux.Workflow.Items.{values, matches, earlier, bytes_ltb, status_of}

-- The model's `Workflow`, whose nodes are always given here.
pub record Shown : Type 0 where
  pub id : Bytes
  pub source : Source
  pub session_id : Bytes
  pub turn_id : Bytes
  pub status : Status
  pub model : Bytes
  pub started_at : ℕ
  pub updated_at : ℕ
  pub ended_at : ℕ
  pub nodes : List Node

pub record Summary : Type 0 where
  pub running : ℕ
  pub waiting_approval : ℕ
  pub waiting_input : ℕ
  pub completed : ℕ
  pub failed : ℕ
  pub interrupted : ℕ
  pub stale : ℕ
  pub updated_at : ℕ

abbrev pub insert_sorted {ℓ} : {A : Type ℓ} → (A → A → Bool) → A → List A → List A
insert_sorted less x [] = x ∷ []
insert_sorted less x (y ∷ ys) = if less y x then y ∷ insert_sorted less x ys else x ∷ y ∷ ys

-- A stable sort.
abbrev pub sort_by {ℓ} : {A : Type ℓ} → (A → A → Bool) → List A → List A
sort_by less [] = []
sort_by less (x ∷ xs) = insert_sorted less x (sort_by less xs)

abbrev pub shown_node : ℕ → Node → Node
shown_node now n =
    if active n.status && ltb (n.updated_at + stale_after) now
    then record n { status = stale; ended_at = 0 }
    else n

abbrev pub node_before : Node → Node → Bool
node_before a b = earlier a.started_at a.id b.started_at b.id

abbrev pub shown_nodes : ℕ → Item → List Node
shown_nodes now item = sort_by node_before (map (shown_node now) (values item.nodes))

abbrev pub node_status : Node → Status
node_status n = n.status

abbrev pub shown_status : ℕ → Item → Status
shown_status now item =
    if active item.status && ltb (item.updated_at + stale_after) now
    then stale
    else status_of (map node_status (shown_nodes now item))

unfoldable pub visible : ℕ → Item → Shown
visible now item = record {
  id = item.id;
  source = item.source;
  session_id = item.session_id;
  turn_id = item.turn_id;
  status = shown_status now item;
  model = item.model;
  started_at = item.started_at;
  updated_at = item.updated_at;
  ended_at = item.ended_at;
  nodes = shown_nodes now item;
}

abbrev pub shown_before : Shown → Shown → Bool
shown_before a b =
    if ltb b.updated_at a.updated_at
    then true
    else not (ltb a.updated_at b.updated_at) && bytes_ltb a.id b.id

unfoldable pub items_of : ℕ → SessionIdentity → List (Bytes × Item) → List Shown
items_of now session m =
    take 32
      (sort_by shown_before (map (visible now) (filter (λ item. matches item session) (values m))))

abbrev pub is_active : Shown → Bool
is_active w = active w.status

abbrev pub counted : List Shown → List Shown
counted items =
    let first = take 1 items in
    let active_ones = take 32 (filter is_active items) in
    if any is_active items then active_ones else first

abbrev pub empty_summary : Summary
empty_summary = record {
  running = 0;
  waiting_approval = 0;
  waiting_input = 0;
  completed = 0;
  failed = 0;
  interrupted = 0;
  stale = 0;
  updated_at = 0;
}

abbrev pub count_status : Status → Summary → Summary
count_status Status.running s = record s { running = suc s.running }
count_status Status.waiting_approval s = record s { waiting_approval = suc s.waiting_approval }
count_status Status.waiting_input s = record s { waiting_input = suc s.waiting_input }
count_status Status.completed s = record s { completed = suc s.completed }
count_status Status.failed s = record s { failed = suc s.failed }
count_status Status.interrupted s = record s { interrupted = suc s.interrupted }
count_status Status.stale s = record s { stale = suc s.stale }

abbrev pub count_nodes : List Node → Summary → Summary
count_nodes [] s = s
count_nodes (n ∷ ns) s = count_nodes ns (count_status n.status s)

abbrev pub latest : ℕ → ℕ → ℕ
latest a b = if ltb a b then b else a

abbrev pub count_items : List Shown → Summary → Summary
count_items [] s = s
count_items (w ∷ ws) s =
    count_items ws
      (count_nodes w.nodes (record s { updated_at = latest s.updated_at w.updated_at }))

-- A session without a workflow keeps what it has.
abbrev pub summarised : List Shown → Option (Summary × List Shown)
summarised [] = none
summarised (w ∷ ws) = some (count_items (counted (w ∷ ws)) empty_summary, w ∷ ws)

-- What `apply` gives the session.
unfoldable pub session_view :
    ℕ → SessionIdentity → List (Bytes × Item) → Option (Summary × List Shown)
session_view now session m = summarised (items_of now session m)
