-- ===== src/Workflow/Endings.antt =====
-- workflow.rs: what ends with a turn, and what a turn that ended keeps.
use hmux.Base.{
  ℕ, ◌≡◌, refl, sym, subst, ◌∙◌, arith, true, false, not, Option, none, some, List, [], ◌∷◌, All,
  any, if◌then◌else◌, if_lem, Bool-cases, inl, inr,
}
use hmux.Base.Eq.{Bytes, bytes_eq, bytes_beq, bytes_beq_iff}
use hmux.Base.Map.{lookup, insert, lookup-insert, Distinct}
use hmux.Model.Ids.{SessionIdentity}
use hmux.Workflow.Types.{
  Env, Status, Node, Item, State, Result, ok, err, hash, completed, active, safe_text,
}
use hmux.Workflow.Texts.{root_type, root, cx, codex}
use hmux.Workflow.Items.{
  map_values, put_node, placed, make_place, new_node, moved, refresh, interrupted_at, statuses,
}
use hmux.Workflow.Hooks.{
  HookEvent, bind, prompted, put_item, hooked, record_hook, transition, set_root, stop_others,
  same_turn, turn_key, ends_session, EventName, stop,
}
use hmux.Workflow.Active.{status_of-active}
use hmux.Workflow.Parents.{Typed, Family, Put}
use hmux.Workflow.Families.{AllFamily, ItemFamily}
use hmux.Workflow.Recorded.{hook_item-Family, prompted-Family, with_model-Family, set_root-Put}

-- A forced transition leaves the node with the status.
abbrev Sets : Bytes → Status → Result Item → Type 0
Sets id target (err x) = Unit
Sets id target (ok t) = (n : Node) × (lookup id t.nodes ≡ some n) × (n.status ≡ target)

lookup-insert_same :
    (id : Bytes) (n : Node) (m : List (Bytes × Node)) → lookup id (insert id n m) ≡ some n
lookup-insert_same id n m = ground (arith, lookup-insert id id n m, bytes_beq_iff id id)

placed-Sets :
    (item : Item) (id parent kind provider : Bytes) (target : Status) (now : ℕ) (old : Option Node)
    (r : Result (List (Bytes × Node)))
    → Sets id target (placed item id parent kind provider target now true old r)
placed-Sets item id parent kind provider target now old (err x) = tt
placed-Sets item id parent kind provider target now none (ok nodes) =
    (new_node id parent kind provider target now, lookup-insert_same id _ nodes, refl)
placed-Sets item id parent kind provider target now (some n) (ok nodes) =
    (moved n target now, lookup-insert_same id _ nodes, refl)

All-found :
    (m all : List (Bytes × Node))
    → ((k : Bytes) (n : Node) → lookup k m ≡ some n → lookup k all ≡ some n)
    → Distinct m
    → All (λ x. lookup x.0 all ≡ some x.1) m
unfolding lookup
All-found [] all g d = tt
All-found ((k, n) ∷ m) all g d = (
  g k n (ground (arith, bytes_beq_iff k k)),
  All-found m all (λ j x f. g j x (ground (arith, f, d.0, bytes_beq_iff k j))) d.1,
)

stopped-active :
    (id : Bytes) (now : ℕ) (all m : List (Bytes × Node)) (x : Node)
    → lookup id all ≡ some x
    → active x.status ≡ false
    → All Typed m
    → All (λ y. lookup y.0 all ≡ some y.1) m
    → any active (
        statuses (
          map_values (λ (n : Node). if not (bytes_beq n.id id) then interrupted_at now n else n) m))
      ≡ false
stopped-active id now all [] x f i t h = refl
stopped-active id now all ((k, n) ∷ m) x f i t h = elim (Bool-cases (bytes_beq n.id id)) [
  | inl same ↦
      let key : k ≡ id =
        (bytes_beq_iff k n.id).0 (ground (arith, t.0)) ∙ (bytes_beq_iff n.id id).0 same in
      let found : lookup id all ≡ some n = subst (λ j. lookup j all ≡ some n) key h.0 in
      let node : x ≡ n = cc (f, found) in
      let idle : active n.status ≡ false = subst (λ (y : Node). active y.status ≡ false) node i in
      ground (arith, stopped-active id now all m x f i t.1 h.1)
  | inr other ↦ ground (arith, stopped-active id now all m x f i t.1 h.1)
]

-- Nothing of the workflow is active.
abbrev pub Idle : Item → Type 0
Idle item = (any active (statuses item.nodes) ≡ false) × (active item.status ≡ false)

abbrev IdleResult : Result Item → Type 0
IdleResult (err x) = Unit
IdleResult (ok t) = any active (statuses t.nodes) ≡ false

abbrev AllIdle : Result Item → Type 0
AllIdle (err x) = Unit
AllIdle (ok t) = Idle t

refreshed-Idle :
    (now : ℕ) (r : Result Item) → IdleResult r → AllIdle (bind r (λ (t : Item). ok (refresh t now)))
unfolding refresh
refreshed-Idle now (err x) h = tt
refreshed-Idle now (ok t) h = (h, status_of-active (statuses t.nodes) ∙ h)

pub put_item-lookup :
    (e : Env) (P : Item → Type 0) (s : State) (id : Bytes) (m : List (Bytes × Item))
    (r : Result Item) (t : State)
    → ((item : Item) → r ≡ ok item → P item)
    → put_item e s id m r ≡ ok t
    → (item : Item) × (lookup id t.workflows ≡ some item) × P item
put_item-lookup e P s id m (err x) t h eq = cc
put_item-lookup e P s id m (ok item) t h eq =
    let next : State = record s { workflows = insert id item m } in
    let same : next ≡ t = cc eq in
    (
      item,
      subst (λ (u : State). lookup id u.workflows ≡ some item) same
          (ground (arith, lookup-insert id id item m, bytes_beq_iff id id)),
      h item refl,
    )

module _ (e : Env) where
  stop_others-Idle :
      (id : Bytes) (now : ℕ) (nodes : List (Bytes × Node)) (r : Result Item)
      → Put id nodes r
      → Sets id completed r
      → IdleResult (bind r (stop_others e id now))
  stop_others-Idle id now nodes (err x) p h = tt
  stop_others-Idle id now nodes (ok t) p (x, f, target) =
      stopped-active id now t.nodes t.nodes x f (rw target refl) p.0.1
        (All-found t.nodes t.nodes (λ k n g. g) p.0.0)

  transition-Idle :
      (v : HookEvent) (name : EventName) (id : Bytes) (now : ℕ) (item : Item)
      → name ≡ stop
      → Family item.nodes
      → IdleResult (transition e v name id now item)
  unfolding put_node
  transition-Idle v name id now item eq h =
      subst (λ n. IdleResult (transition e v n id now item)) (sym eq)
        (stop_others-Idle id now item.nodes (set_root e item id completed now true)
          (set_root-Put e item id completed now true h)
          (placed-Sets item id [] root_type codex completed now (lookup id item.nodes)
            (make_place item.nodes (lookup id item.nodes))))

  hooked-Idle :
      (b : SessionIdentity) (v : HookEvent) (now : ℕ) (old : Item)
      → v.name ≡ stop
      → Family old.nodes
      → AllIdle (hooked e b v now old)
  hooked-Idle b v now old eq h =
      if_lem (λ (x : Result Item). AllIdle x) (same_turn e b v old)
        (λ yes. refreshed-Idle now _ (
          transition-Idle v v.name (hash e root v.session_id) now _ eq
            (with_model-Family e old (safe_text e v.model 128) h)))
        (λ no. tt)

  AllIdle-ok : (r : Result Item) (item : Item) → AllIdle r → r ≡ ok item → Idle item
  AllIdle-ok (err x) item h eq = cc
  AllIdle-ok (ok t) item h eq = let same : t ≡ item = cc eq in subst Idle same h

  -- A stop that is recorded leaves no node of its turn active, nor the workflow, in a file whose nodes
  -- have their ids for keys and their parents.
  pub record_hook-stop :
      (s : State) (b : SessionIdentity) (v : HookEvent) (now : ℕ) (t : State)
      → v.name ≡ stop
      → AllFamily s
      → record_hook e s b v now ≡ ok t
      → (item : Item) × (lookup (turn_key e v) t.workflows ≡ some item) × Idle item
  unfolding record_hook
  record_hook-stop s b v now t name h =
      let m : List (Bytes × Item) =
        prompted e b (hash e cx v.session_id) (turn_key e v) now v.name s.workflows in
      let family : All ItemFamily m =
        prompted-Family e b (hash e cx v.session_id) (turn_key e v) now v.name s.workflows h in
      let not_end : ends_session v.name ≡ false = rw name refl in
      rw not_end (λ eq.
        put_item-lookup e Idle s (turn_key e v) m _ t
          (λ item f.
            AllIdle-ok _ item
              (hooked-Idle b v now _ name (hook_item-Family e b v now (turn_key e v) m family)) f)
          eq)
