-- ===== src/Workflow/Samples.antt =====
-- workflow.rs: a JSON for examples, which knows two states.
use hmux.Base.{
  ℕ, ◌≡◌, refl, sym, ap, ◌∙◌, arith, Bool, true, false, ◌&&◌, Option, none, some, List, [], ◌∷◌,
  ◌++◌, ◌==◌, if◌then◌else◌, Bool-cases, inl, inr,
}
use hmux.Base.Eq.{Bytes, bytes_beq, bytes_beq_iff}
use hmux.Base.Int.{int_beq, int_beq_iff}
use hmux.Workflow.Types.{
  Status, running, waiting_approval, waiting_input, completed, failed, interrupted, stale, Source,
  codex_hook, codex_orchestra, Node, Item, State,
}

abbrev status_code : Status → ℕ
status_code running = 0
status_code waiting_approval = 1
status_code waiting_input = 2
status_code completed = 3
status_code failed = 4
status_code interrupted = 5
status_code stale = 6

abbrev of_code : ℕ → Status
of_code n =
    if n == 0
    then running
    else if n == 1
    then waiting_approval
    else if n == 2
    then waiting_input
    else if n == 3
    then completed
    else if n == 4
    then failed
    else if n == 5
    then interrupted
    else stale

of_code-status_code : (a : Status) → of_code (status_code a) ≡ a
of_code-status_code running = refl
of_code-status_code waiting_approval = refl
of_code-status_code waiting_input = refl
of_code-status_code completed = refl
of_code-status_code failed = refl
of_code-status_code interrupted = refl
of_code-status_code stale = refl

status_code-eq : (a b : Status) → status_code a ≡ status_code b → a ≡ b
status_code-eq a b h = sym (of_code-status_code a) ∙ ap of_code h ∙ of_code-status_code b

abbrev same_source : Source → Source → Bool
same_source codex_hook codex_hook = true
same_source codex_orchestra codex_orchestra = true
same_source _ _ = false

same_source-eq : (a b : Source) → same_source a b ≡ true → a ≡ b
same_source-eq codex_hook codex_hook h = refl
same_source-eq codex_hook codex_orchestra h = cc
same_source-eq codex_orchestra codex_hook h = cc
same_source-eq codex_orchestra codex_orchestra h = refl

abbrev same_node : Node → Node → Bool
same_node a b =
    bytes_beq a.id b.id
    && bytes_beq a.parent_id b.parent_id
    && bytes_beq a.node_type b.node_type
    && bytes_beq a.provider b.provider
    && status_code a.status == status_code b.status
    && a.started_at == b.started_at
    && a.updated_at == b.updated_at
    && a.ended_at == b.ended_at

same_node-eq : (a b : Node) → same_node a b ≡ true → a ≡ b
same_node-eq a b h = ground (
  arith,
  bytes_beq_iff a.id b.id,
  bytes_beq_iff a.parent_id b.parent_id,
  bytes_beq_iff a.node_type b.node_type,
  bytes_beq_iff a.provider b.provider,
  status_code-eq a.status b.status,
)

abbrev same_entries {ℓ} : {V : Type ℓ} → (V → V → Bool) → List (Bytes × V) → List (Bytes × V) → Bool
same_entries same [] [] = true
same_entries same ((j, v) ∷ m) ((k, w) ∷ n) = bytes_beq j k && same v w && same_entries same m n
same_entries same _ _ = false

same_entries-eq {ℓ} :
    {V : Type ℓ} (same : V → V → Bool) (m n : List (Bytes × V))
    → ((v w : V) → same v w ≡ true → v ≡ w)
    → same_entries same m n ≡ true
    → m ≡ n
same_entries-eq same [] [] f h = refl
same_entries-eq same [] (y ∷ n) f h = cc
same_entries-eq same (x ∷ m) [] f h = cc
same_entries-eq same ((j, v) ∷ m) ((k, w) ∷ n) f h =
    ground (arith, bytes_beq_iff j k, f v w, same_entries-eq same m n f)

abbrev same_owner : Item → Item → Bool
same_owner a b =
    bytes_beq a.id b.id
    && bytes_beq a.tmux_session_id b.tmux_session_id
    && int_beq a.tmux_created_at b.tmux_created_at
    && same_source a.source b.source
    && bytes_beq a.session_id b.session_id
    && bytes_beq a.turn_id b.turn_id

abbrev same_progress : Item → Item → Bool
same_progress a b =
    status_code a.status == status_code b.status
    && bytes_beq a.model b.model
    && a.started_at == b.started_at
    && a.updated_at == b.updated_at
    && a.ended_at == b.ended_at
    && same_entries same_node a.nodes b.nodes

same_owner-eq :
    (a b : Item)
    → same_owner a b ≡ true
    → (a.id ≡ b.id)
      × (a.tmux_session_id ≡ b.tmux_session_id)
      × (a.tmux_created_at ≡ b.tmux_created_at)
      × (a.source ≡ b.source)
      × (a.session_id ≡ b.session_id)
      × (a.turn_id ≡ b.turn_id)
same_owner-eq a b h = (
  (bytes_beq_iff a.id b.id).0 (ground arith),
  (bytes_beq_iff a.tmux_session_id b.tmux_session_id).0 (ground arith),
  (int_beq_iff a.tmux_created_at b.tmux_created_at).0 (ground arith),
  same_source-eq a.source b.source (ground arith),
  (bytes_beq_iff a.session_id b.session_id).0 (ground arith),
  (bytes_beq_iff a.turn_id b.turn_id).0 (ground arith),
)

same_progress-eq :
    (a b : Item)
    → same_progress a b ≡ true
    → (a.status ≡ b.status)
      × (a.model ≡ b.model)
      × (a.started_at ≡ b.started_at)
      × (a.updated_at ≡ b.updated_at)
      × (a.ended_at ≡ b.ended_at)
      × (a.nodes ≡ b.nodes)
same_progress-eq a b h = (
  status_code-eq a.status b.status (ground arith),
  (bytes_beq_iff a.model b.model).0 (ground arith),
  ground arith,
  ground arith,
  ground arith,
  same_entries-eq same_node a.nodes b.nodes same_node-eq (ground arith),
)

abbrev same_item : Item → Item → Bool
same_item a b = same_owner a b && same_progress a b

and_both : (p q : Bool) → (p && q) ≡ true → (p ≡ true) × (q ≡ true)
and_both true true h = (refl, refl)
and_both true false h = cc
and_both false q h = cc

same_item-eq : (a b : Item) → same_item a b ≡ true → a ≡ b
same_item-eq a b h =
    let (x, y) = and_both (same_owner a b) (same_progress a b) h in
    let o = same_owner-eq a b x in
    let p = same_progress-eq a b y in
    cc (o.0, o.1, o.2, o.3, o.4, o.5, p.0, p.1, p.2, p.3, p.4, p.5)

abbrev same_state : State → State → Bool
same_state a b =
    a.version == b.version
    && same_entries same_item a.workflows b.workflows
    && bytes_beq a.updated_at b.updated_at

same_state-eq : (a b : State) → same_state a b ≡ true → a ≡ b
same_state-eq a b h = ground (
  arith,
  same_entries-eq same_item a.workflows b.workflows same_item-eq,
  bytes_beq_iff a.updated_at b.updated_at,
)

-- The byte 1 is the first state and the byte 2 the second.
abbrev pub to_json : State → State → State → Option Bytes
to_json one two s =
    if same_state s one then some (1 ∷ []) else if same_state s two then some (2 ∷ []) else none

abbrev pub of_json : State → State → Bytes → Option State
of_json one two [] = none
of_json one two (b ∷ bs) = if b == 1 then some one else if b == 2 then some two else none

pub of_json-to_json :
    (one two s : State) (raw : Bytes)
    → to_json one two s ≡ some raw
    → of_json one two (raw ++ 10 ∷ []) ≡ some s
of_json-to_json one two s raw h = elim (Bool-cases (same_state s one)) [
  | inl first ↦
      let text : raw ≡ 1 ∷ [] = cc (rw first at h) in
      rw text (ap (λ x. some x) (sym (same_state-eq s one first)))
  | inr other ↦ elim (Bool-cases (same_state s two)) [
    | inl second ↦
        let text : raw ≡ 2 ∷ [] = cc (rw (other, second) at h) in
        rw text (ap (λ x. some x) (sym (same_state-eq s two second)))
    | inr neither ↦ absurd (cc (rw (other, neither) at h))
  ]
]
