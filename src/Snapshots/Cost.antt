-- ===== src/Snapshots/Cost.antt =====
-- snapshots.rs: what `TreeBudget` adds up to.
use hmux.Base.{
  ℕ, ◌+◌, ◌*◌, ◌≤◌, ◌≡◌, arith, Option, none, some, List, [], ◌∷◌, ltb, length, if◌then◌else◌,
}
use hmux.Base.Eq.{Bytes}
use hmux.Model.Ids.{SessionIdentity}
use hmux.Model.Catalog.{WorkflowNode, Workflow, Session, Readings, HostMetrics, Catalog}
use hmux.Snapshots.Check.{limit, Result, ok, err}
use hmux.Snapshots.Budget.{
  max_decoded_snapshot_bytes, Step, charge, charge_list, ◌⨾◌, each, maybe, charge_text, Sizes,
  charge_strings, budget_node, budget_nodes, budget_workflow, budget_workflows, budget_identity,
  budget_summary, budget_session, budget_sessions, budget_metrics, budget_model_catalog,
}

-- The charge, if it stays within the bound.
abbrev pub capped : ℕ → Result ℕ
capped n = if ltb max_decoded_snapshot_bytes n then err limit else ok n

abbrev Costs : Step → ℕ → Type 0
Costs f n = (b : ℕ) → b ≤ max_decoded_snapshot_bytes → f b ≡ capped (b + n)

charge-Costs : (n : ℕ) → Costs (charge n) n
unfolding charge
charge-Costs n b h = ground arith

charge_list-Costs : (size count : ℕ) → Costs (charge_list size count) (count * (2 * size))
unfolding charge_list charge
charge_list-Costs size count b h = ground arith

⨾-Costs : (f g : Step) (m n : ℕ) → Costs f m → Costs g n → Costs (f ⨾ g) (m + n)
⨾-Costs f g m n p q b h = ground (arith, p b h, q (b + m))

abbrev total {ℓ} : {A : Type ℓ} → (A → ℕ) → List A → ℕ
total cost [] = 0
total cost (x ∷ xs) = cost x + total cost xs

each-Costs {ℓ} :
    {A : Type ℓ} (f : A → Step) (cost : A → ℕ) (xs : List A)
    → ((x : A) → Costs (f x) (cost x))
    → Costs (each f xs) (total cost xs)
each-Costs f cost [] p b h = ground arith
each-Costs f cost (x ∷ xs) p b h = ground (arith, p x b h, each-Costs f cost xs p (b + cost x))

abbrev optional {ℓ} : {A : Type ℓ} → (A → ℕ) → Option A → ℕ
optional cost none = 0
optional cost (some x) = cost x

maybe-Costs {ℓ} :
    {A : Type ℓ} (f : A → Step) (cost : A → ℕ) (o : Option A)
    → ((x : A) → Costs (f x) (cost x))
    → Costs (maybe f o) (optional cost o)
maybe-Costs f cost none p b h = ground arith
maybe-Costs f cost (some x) p b h = p x b h

charge_text-Costs : (s : Bytes) → Costs (charge_text s) (length s)
unfolding charge_text
charge_text-Costs s = charge-Costs (length s)

texts-Costs : (xs : List Bytes) → Costs (each charge_text xs) (total length xs)
texts-Costs xs = each-Costs charge_text length xs charge_text-Costs

module _ (z : Sizes) where
  abbrev retained_list {ℓ} : {A : Type ℓ} → ℕ → (A → ℕ) → List A → ℕ
  retained_list size cost xs = length xs * (2 * size) + total cost xs

  list-Costs {ℓ} :
      {A : Type ℓ} (size : ℕ) (f : A → Step) (cost : A → ℕ) (xs : List A)
      → ((x : A) → Costs (f x) (cost x))
      → Costs (charge_list size (length xs) ⨾ each f xs) (retained_list size cost xs)
  list-Costs size f cost xs p =
      ⨾-Costs (charge_list size (length xs)) (each f xs) (length xs * (2 * size)) (total cost xs)
        (charge_list-Costs size (length xs)) (each-Costs f cost xs p)

  abbrev retained_strings : List Bytes → ℕ
  retained_strings xs = retained_list z.string length xs

  strings-Costs : (xs : List Bytes) → Costs (charge_strings z xs) (retained_strings xs)
  unfolding charge_strings
  strings-Costs xs = list-Costs z.string charge_text length xs charge_text-Costs

  abbrev retained_node : WorkflowNode → ℕ
  retained_node n = total length (n.id ∷ n.parent_id ∷ n.node_type ∷ n.provider ∷ n.status ∷ [])

  node-Costs : (n : WorkflowNode) → Costs (budget_node z n) (retained_node n)
  unfolding budget_node
  node-Costs n = texts-Costs (n.id ∷ n.parent_id ∷ n.node_type ∷ n.provider ∷ n.status ∷ [])

  abbrev retained_workflow : Workflow → ℕ
  retained_workflow w =
      total length (w.id ∷ w.source ∷ w.session_id ∷ w.turn_id ∷ w.status ∷ w.model ∷ [])
      + optional (retained_list z.node retained_node) w.nodes

  workflow-Costs : (w : Workflow) → Costs (budget_workflow z w) (retained_workflow w)
  unfolding budget_workflow
  workflow-Costs w =
      ⨾-Costs _ (maybe (budget_nodes z) w.nodes) _ _
        (texts-Costs (w.id ∷ w.source ∷ w.session_id ∷ w.turn_id ∷ w.status ∷ w.model ∷ []))
        (maybe-Costs (budget_nodes z) (retained_list z.node retained_node) w.nodes
          (λ ns. list-Costs z.node (budget_node z) retained_node ns node-Costs))

  abbrev retained_identity : SessionIdentity → ℕ
  retained_identity x = 2 * z.identity + length x.id

  identity-Costs : (x : SessionIdentity) → Costs (budget_identity z x) (retained_identity x)
  identity-Costs x = ⨾-Costs _ _ _ _ (charge-Costs (2 * z.identity)) (charge_text-Costs x.id)

  abbrev session_texts : Session → List Bytes
  session_texts s =
      s.id ∷ s.name ∷ s.alias ∷ s.active_window ∷ s.current_path ∷ s.current_command ∷ s.profile
      ∷ s.label ∷ s.kind ∷ s.runtime ∷ s.model ∷ s.state ∷ s.process ∷ []

  abbrev retained_session : Session → ℕ
  retained_session s =
      total length (session_texts s)
      + (optional retained_identity s.restored_from
          + (optional retained_strings s.window_names
              + (optional retained_strings s.tags
                  + (optional (λ w. 2 * z.summary) s.workflow
                      + optional (retained_list z.workflow retained_workflow) s.workflows))))

  session-Costs : (s : Session) → Costs (budget_session z s) (retained_session s)
  unfolding budget_session
  session-Costs s = ⨾-Costs _ _ _ _ (texts-Costs (session_texts s)) (
      ⨾-Costs _ _ _ _
        (maybe-Costs (budget_identity z) retained_identity s.restored_from identity-Costs)
        (⨾-Costs _ _ _ _
          (maybe-Costs (charge_strings z) retained_strings s.window_names strings-Costs)
          (⨾-Costs _ _ _ _ (maybe-Costs (charge_strings z) retained_strings s.tags strings-Costs) (
            ⨾-Costs _ _ _ _
              (maybe-Costs (budget_summary z) (λ w. 2 * z.summary) s.workflow
                (λ w. charge-Costs (2 * z.summary)))
              (maybe-Costs (budget_workflows z) (retained_list z.workflow retained_workflow)
                s.workflows
                (λ ws.
                  list-Costs z.workflow (budget_workflow z) retained_workflow ws
                    workflow-Costs))))))

  module _ (e : Readings) where
    abbrev retained_metrics : HostMetrics e → ℕ
    retained_metrics m = 2 * z.metrics + length m.observed_at

    -- The bytes that a catalog retains: of every text its bytes, and twice the size of every element of a
    -- list and of every optional part.
    abbrev pub retained : Catalog e → ℕ
    retained c =
        length c.generated_at
        + (optional retained_metrics c.host_metrics
            + optional (retained_list z.session retained_session) c.sessions)

    -- The budget check adds up exactly the bytes that the catalog retains, and passes exactly if these and
    -- the size of the catalog are at most 16 MiB.
    pub budget_model_catalog-eq :
        (c : Catalog e)
        → z.catalog ≤ max_decoded_snapshot_bytes
        → budget_model_catalog z e c ≡ capped (z.catalog + retained c)
    unfolding budget_model_catalog
    budget_model_catalog-eq c h =
        ⨾-Costs _ _ _ _ (charge_text-Costs c.generated_at)
          (⨾-Costs _ _ _ _
            (maybe-Costs (budget_metrics z e) retained_metrics c.host_metrics (λ m.
              ⨾-Costs _ _ _ _ (charge-Costs (2 * z.metrics)) (charge_text-Costs m.observed_at)))
            (maybe-Costs (budget_sessions z) (retained_list z.session retained_session) c.sessions
              (λ ss. list-Costs z.session (budget_session z) retained_session ss session-Costs)))
          z.catalog h
