-- ===== src/Workflow/Active.antt =====
-- workflow.rs: a workflow is active when one of its nodes is.
use hmux.Base.{
  ℕ, zero, suc, ◌≡◌, refl, sym, subst, ◌∙◌, arith, Bool, false, ◌||◌, Option, none, some, List, [],
  ◌∷◌, any, All, if◌then◌else◌, if_lem, ltb, length,
}
use hmux.Base.Eq.{Bytes, bytes_eq}
use hmux.Base.Map.{insert, retain, All-insert, All-remove}
use hmux.Model.Ids.{SessionIdentity}
use hmux.Workflow.Types.{
  Env, Status, Node, Item, State, Result, ok, err, running, waiting_approval, waiting_input,
  completed, failed, interrupted, stale, active, hash, status_beq, max_workflows,
}
use hmux.Workflow.Items.{map_values, status_of, statuses, refresh, interrupt, min_by}
use hmux.Workflow.Texts.{cx}
use hmux.Workflow.Hooks.{
  HookEvent, Report, bind, end_item, end_other, prompted, put_item, hooked, reported, record_hook,
  record_report, same_turn, same_report, turn_key, report_key, ends_session, EventName,
  user_prompt_submit, subagent_start, subagent_stop, permission_request, pre_tool_use,
  post_tool_use, stop, session_end,
}
use hmux.Workflow.Files.{
  expire, overdue, stale_node, kept, shrink, drop_item, prune, older_item, always,
}

has : Status → List Status → Bool
has s values = any (status_beq s) values

status_of-has :
    (values : List Status)
    → active (status_of values)
      ≡ (has waiting_approval values || has waiting_input values || has running values)
unfolding status_of has
status_of-has values = ground arith

any-has :
    (values : List Status)
    → any active values
      ≡ (has waiting_approval values || has waiting_input values || has running values)
unfolding has
any-has [] = refl
any-has (running ∷ values) = ground (arith, any-has values)
any-has (waiting_approval ∷ values) = ground (arith, any-has values)
any-has (waiting_input ∷ values) = ground (arith, any-has values)
any-has (completed ∷ values) = any-has values
any-has (failed ∷ values) = any-has values
any-has (interrupted ∷ values) = any-has values
any-has (stale ∷ values) = any-has values

-- `status` is active when one of the statuses is.
pub status_of-active : (values : List Status) → active (status_of values) ≡ any active values
status_of-active values = status_of-has values ∙ sym (any-has values)

-- A workflow and its nodes agree.
abbrev pub Agrees : Bytes × Item → Type 0
Agrees (k, item) = active item.status ≡ any active (statuses item.nodes)

abbrev pub AllAgree : State → Type 0
AllAgree s = All Agrees s.workflows

refresh-Agrees : (k : Bytes) (item : Item) (now : ℕ) → Agrees (k, refresh item now)
unfolding refresh
refresh-Agrees k item now = status_of-active (statuses item.nodes)

pub All-map_values {ℓ κ} :
    {V : Type ℓ} (P : Bytes × V → Type κ) (f : V → V) (m : List (Bytes × V))
    → ((k : Bytes) (v : V) → P (k, v) → P (k, f v))
    → All P m
    → All P (map_values f m)
All-map_values P f [] g h = tt
All-map_values P f ((k, v) ∷ m) g h = (g k v h.0, All-map_values P f m g h.1)

pub All-retain {ℓ κ} :
    {V : Type ℓ} (P : Bytes × V → Type κ) (q : V → Bool) (m : List (Bytes × V))
    → All P m
    → All P (retain q m)
unfolding retain
All-retain P q [] h = tt
All-retain P q ((k, v) ∷ m) h =
    if_lem (λ xs. All P xs) (q v) (λ yes. (h.0, All-retain P q m h.1)) (λ no. All-retain P q m h.1)

stale_nodes-active :
    (m : List (Bytes × Node)) → any active (statuses (map_values stale_node m)) ≡ false
stale_nodes-active [] = refl
stale_nodes-active ((k, n) ∷ m) = ground (arith, stale_nodes-active m)

expire-Agrees : (now : ℕ) (k : Bytes) (item : Item) → Agrees (k, item) → Agrees (k, expire now item)
expire-Agrees now k item h =
    if_lem (λ (t : Item). Agrees (k, t)) (overdue now item)
      (λ yes. sym (stale_nodes-active item.nodes)) (λ no. h)

pub drop_item-All {κ} :
    (P : Bytes × Item → Type κ) (m : List (Bytes × Item)) (o : Option Item)
    → All P m
    → All P (drop_item m o)
drop_item-All P m none h = h
drop_item-All P m (some item) h = All-remove P item.id m h

pub shrink-All {κ} :
    (P : Bytes × Item → Type κ) (n : ℕ) (m : List (Bytes × Item)) → All P m → All P (shrink n m)
shrink-All P zero m h = h
shrink-All P (suc n) m h =
    if_lem (λ xs. All P xs) (ltb max_workflows (length m))
      (λ yes. shrink-All P n _ (drop_item-All P m (min_by older_item always none m) h)) (λ no. h)

pub prune-AllAgree : (s : State) (now : ℕ) → AllAgree s → AllAgree (prune s now).0
unfolding prune
prune-AllAgree s now h =
    shrink-All Agrees _ _
      (All-retain Agrees (kept now) _ (All-map_values Agrees (expire now) _ (expire-Agrees now) h))

if_Agrees :
    (k : Bytes) (b : Bool) (item : Item) (now : ℕ)
    → Agrees (k, item)
    → Agrees (k, if b then interrupt item now else item)
if_Agrees k b item now h =
    if_lem (λ (t : Item). Agrees (k, t)) b (λ yes. refresh-Agrees k _ now) (λ no. h)

module _ (e : Env) where
  pub put_item-All :
      (P : Bytes × Item → Type 0) (s : State) (id : Bytes) (m : List (Bytes × Item))
      (r : Result Item) (t : State)
      → All P m
      → ((item : Item) → r ≡ ok item → P (id, item))
      → put_item e s id m r ≡ ok t
      → All P t.workflows
  put_item-All P s id m (err x) t h f eq = cc
  put_item-All P s id m (ok item) t h f eq =
      let next : State = record s { workflows = insert id item m } in
      let same : next ≡ t = cc eq in
      subst (λ (u : State). All P u.workflows) same (All-insert P id item m (f item refl) h)

  bind-refresh :
      (id : Bytes) (now : ℕ) (r : Result Item) (item : Item)
      → bind r (λ (t : Item). ok (refresh t now)) ≡ ok item
      → Agrees (id, item)
  bind-refresh id now (err x) item eq = cc
  bind-refresh id now (ok t) item eq =
      let same : refresh t now ≡ item = cc eq in
      subst (λ u. Agrees (id, u)) same (refresh-Agrees id t now)

  prompted-Agrees :
      (b : SessionIdentity) (sid id : Bytes) (now : ℕ) (name : EventName) (m : List (Bytes × Item))
      → All Agrees m
      → All Agrees (prompted e b sid id now name m)
  prompted-Agrees b sid id now user_prompt_submit m h =
      All-map_values Agrees (end_other e b sid id now) m (λ k item g. if_Agrees k _ item now g) h
  prompted-Agrees b sid id now subagent_start m h = h
  prompted-Agrees b sid id now subagent_stop m h = h
  prompted-Agrees b sid id now permission_request m h = h
  prompted-Agrees b sid id now pre_tool_use m h = h
  prompted-Agrees b sid id now post_tool_use m h = h
  prompted-Agrees b sid id now stop m h = h
  prompted-Agrees b sid id now session_end m h = h

  hooked-Agrees :
      (b : SessionIdentity) (v : HookEvent) (now : ℕ) (old item : Item) (id : Bytes)
      → hooked e b v now old ≡ ok item
      → Agrees (id, item)
  hooked-Agrees b v now old item id =
      if_lem (λ (x : Result Item). x ≡ ok item → Agrees (id, item)) (same_turn e b v old)
        (λ yes eq. bind-refresh id now _ item eq) (λ no eq. cc)

  pub record_hook-Agrees :
      (s : State) (b : SessionIdentity) (v : HookEvent) (now : ℕ) (t : State)
      → AllAgree s
      → record_hook e s b v now ≡ ok t
      → AllAgree t
  unfolding record_hook
  record_hook-Agrees s b v now t h =
      if_lem (λ (x : Result State). x ≡ ok t → AllAgree t) (ends_session v.name)
        (λ yes eq. ended eq)
        (λ no eq.
          put_item-All Agrees s (turn_key e v) _ _ t
            (prompted-Agrees b (hash e cx v.session_id) (turn_key e v) now v.name s.workflows h)
            (λ item f. hooked-Agrees b v now _ item (turn_key e v) f) eq)
    where
      next : State
      next = record s {
        workflows = map_values (end_item e b (hash e cx v.session_id) now) s.workflows;
      }

      ended : ok next ≡ ok t → AllAgree t
      ended eq =
          let same : next ≡ t = cc eq in
          subst (λ u. AllAgree u) same
            (All-map_values Agrees (end_item e b (hash e cx v.session_id) now) s.workflows
              (λ k item g. if_Agrees k _ item now g) h)

  reported-Agrees :
      (b : SessionIdentity) (r : Report) (now : ℕ) (old item : Item) (id : Bytes)
      → reported e b r now old ≡ ok item
      → Agrees (id, item)
  reported-Agrees b r now old item id =
      if_lem (λ (x : Result Item). x ≡ ok item → Agrees (id, item)) (same_report e b old)
        (λ yes eq. bind-refresh id now _ item eq) (λ no eq. cc)

  pub record_report-Agrees :
      (s : State) (b : SessionIdentity) (created : Bytes) (r : Report) (now : ℕ) (t : State)
      → AllAgree s
      → record_report e s b created r now ≡ ok t
      → AllAgree t
  unfolding record_report
  record_report-Agrees s b created r now t h eq =
      put_item-All Agrees s (report_key e b created) s.workflows _ t h
        (λ item f. reported-Agrees b r now _ item (report_key e b created) f) eq
