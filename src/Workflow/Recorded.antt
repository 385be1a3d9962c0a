-- ===== src/Workflow/Recorded.antt =====
-- workflow.rs: a hook and a report leave every node its parent.
use hmux.Base.{
  ℕ, ◌≡◌, refl, subst, arith, Bool, true, false, List, [], All, if_lem, Option-cases, inl, inr,
}
use hmux.Base.Eq.{Bytes, bytes_eq}
use hmux.Base.Map.{lookup, All-insert, lookup-All}
use hmux.Model.Ids.{SessionIdentity}
use hmux.Workflow.Types.{
  Env, Status, Node, Item, State, Result, ok, err, is_empty, hash, running, waiting_approval,
  completed, safe_text,
}
use hmux.Workflow.Texts.{root_type, task_type, root, agent, task, cx, codex, native, detached_codex}
use hmux.Workflow.Items.{refresh}
use hmux.Workflow.Hooks.{
  HookEvent, Report, bind, end_item, end_other, prompted, put_item, hooked, reported, record_hook,
  record_report, hook_item, report_item, transition, set_root, set_agent, stop_others, with_model,
  or_subagent, same_turn, same_report, turn_key, report_key, ends_session, EventName,
  user_prompt_submit, subagent_start, subagent_stop, permission_request, pre_tool_use,
  post_tool_use, stop, session_end,
}
use hmux.Workflow.Files.{prune}
use hmux.Workflow.Active.{All-map_values}
use hmux.Workflow.Parents.{Family, Put, put_node-Put, is_root}
use hmux.Workflow.Families.{
  ItemFamily, AllFamily, Family-map_values, if_Family, stop_node-Keeps, prune-AllFamily,
}

abbrev ResFamily : Result Item → Type 0
ResFamily (err x) = Unit
ResFamily (ok t) = Family t.nodes

Put-ResFamily :
    (id : Bytes) (nodes : List (Bytes × Node)) (r : Result Item) → Put id nodes r → ResFamily r
Put-ResFamily id nodes (err x) h = tt
Put-ResFamily id nodes (ok t) h = h.0

module _ (e : Env) where
  pub set_root-Put :
      (item : Item) (id : Bytes) (target : Status) (now : ℕ) (force : Bool)
      → Family item.nodes
      → Put id item.nodes (set_root e item id target now force)
  set_root-Put item id target now force h =
      put_node-Put item id [] root_type codex target now force h refl (ground arith)

  set_agent-Family :
      (v : HookEvent) (id : Bytes) (target : Status) (now : ℕ) (nodes : List (Bytes × Node))
      (r : Result Item)
      → is_root id ≡ true
      → Put id nodes r
      → ResFamily (bind r (set_agent e v id target now))
  unfolding hash
  set_agent-Family v id target now nodes (err x) root h = tt
  set_agent-Family v id target now nodes (ok t) root h = Put-ResFamily _ t.nodes _ (
      put_node-Put t (hash e agent v.agent_id) id (or_subagent (safe_text e v.agent_type 128))
        native target now true h.0 (ground (arith, root, h.1)) refl)

  stop_others-Family :
      (id : Bytes) (now : ℕ) (nodes : List (Bytes × Node)) (r : Result Item)
      → Put id nodes r
      → ResFamily (bind r (stop_others e id now))
  stop_others-Family id now nodes (err x) h = tt
  stop_others-Family id now nodes (ok t) h =
      Family-map_values _ t.nodes (stop_node-Keeps id now) h.0

  transition-Family :
      (v : HookEvent) (name : EventName) (id : Bytes) (now : ℕ) (item : Item)
      → is_root id ≡ true
      → Family item.nodes
      → ResFamily (transition e v name id now item)
  transition-Family v user_prompt_submit id now item r h =
      Put-ResFamily id item.nodes _ (set_root-Put item id running now true h)
  transition-Family v subagent_start id now item r h =
      set_agent-Family v id running now item.nodes _ r (set_root-Put item id running now false h)
  transition-Family v subagent_stop id now item r h =
      set_agent-Family v id completed now item.nodes _ r (set_root-Put item id running now false h)
  transition-Family v permission_request id now item r h =
      Put-ResFamily id item.nodes _ (set_root-Put item id waiting_approval now false h)
  transition-Family v pre_tool_use id now item r h =
      Put-ResFamily id item.nodes _ (set_root-Put item id _ now false h)
  transition-Family v post_tool_use id now item r h =
      Put-ResFamily id item.nodes _ (set_root-Put item id running now false h)
  transition-Family v stop id now item r h =
      stop_others-Family id now item.nodes _ (set_root-Put item id completed now true h)
  transition-Family v session_end id now item r h = tt

  refreshed-Family :
      (now : ℕ) (r : Result Item)
      → ResFamily r
      → ResFamily (bind r (λ (t : Item). ok (refresh t now)))
  unfolding refresh
  refreshed-Family now (err x) h = tt
  refreshed-Family now (ok t) h = h

  pub with_model-Family :
      (item : Item) (text : Bytes) → Family item.nodes → Family (with_model e item text).nodes
  with_model-Family item text h =
      if_lem (λ (t : Item). Family t.nodes) (is_empty text) (λ yes. h) (λ no. h)

  hooked-Family :
      (b : SessionIdentity) (v : HookEvent) (now : ℕ) (old : Item)
      → Family old.nodes
      → ResFamily (hooked e b v now old)
  unfolding hash
  hooked-Family b v now old h =
      if_lem (λ (x : Result Item). ResFamily x) (same_turn e b v old)
        (λ yes. refreshed-Family now _ (
          transition-Family v v.name (hash e root v.session_id) now _ refl
            (with_model-Family old (safe_text e v.model 128) h)))
        (λ no. tt)

  reported-Family :
      (b : SessionIdentity) (r : Report) (now : ℕ) (old : Item)
      → Family old.nodes
      → ResFamily (reported e b r now old)
  unfolding hash
  reported-Family b r now old h =
      if_lem (λ (x : Result Item). ResFamily x) (same_report e b old)
        (λ yes. refreshed-Family now _ (
          Put-ResFamily _ old.nodes _ (
            put_node-Put old (hash e task r.task_id) [] task_type detached_codex r.status now true h
              refl refl)))
        (λ no. tt)

  abbrev ResAll : Result State → Type 0
  ResAll (err x) = Unit
  ResAll (ok t) = AllFamily t

  put_item-ResAll :
      (s : State) (id : Bytes) (m : List (Bytes × Item)) (r : Result Item)
      → All ItemFamily m
      → ResFamily r
      → ResAll (put_item e s id m r)
  put_item-ResAll s id m (err x) h f = tt
  put_item-ResAll s id m (ok item) h f = All-insert ItemFamily id item m f h

  pub prompted-Family :
      (b : SessionIdentity) (sid id : Bytes) (now : ℕ) (name : EventName) (m : List (Bytes × Item))
      → All ItemFamily m
      → All ItemFamily (prompted e b sid id now name m)
  prompted-Family b sid id now user_prompt_submit m h =
      All-map_values ItemFamily (end_other e b sid id now) m (λ k item g. if_Family k _ item now g)
        h
  prompted-Family b sid id now subagent_start m h = h
  prompted-Family b sid id now subagent_stop m h = h
  prompted-Family b sid id now permission_request m h = h
  prompted-Family b sid id now pre_tool_use m h = h
  prompted-Family b sid id now post_tool_use m h = h
  prompted-Family b sid id now stop m h = h
  prompted-Family b sid id now session_end m h = h

  pub hook_item-Family :
      (b : SessionIdentity) (v : HookEvent) (now : ℕ) (id : Bytes) (m : List (Bytes × Item))
      → All ItemFamily m
      → Family (hook_item e b v id now (lookup id m)).nodes
  hook_item-Family b v now id m h = elim (Option-cases (lookup id m)) [
    | inl absent ↦ rw absent (tt, tt, tt)
    | inr (item, there) ↦ rw there (lookup-All ItemFamily id item m h there)
  ]

  report_item-Family :
      (b : SessionIdentity) (now : ℕ) (id : Bytes) (m : List (Bytes × Item))
      → All ItemFamily m
      → Family (report_item e b id now (lookup id m)).nodes
  report_item-Family b now id m h = elim (Option-cases (lookup id m)) [
    | inl absent ↦ rw absent (tt, tt, tt)
    | inr (item, there) ↦ rw there (lookup-All ItemFamily id item m h there)
  ]

  record_hook-ResAll :
      (s : State) (b : SessionIdentity) (v : HookEvent) (now : ℕ)
      → AllFamily s
      → ResAll (record_hook e s b v now)
  unfolding record_hook
  record_hook-ResAll s b v now h =
      let m : List (Bytes × Item) =
        prompted e b (hash e cx v.session_id) (turn_key e v) now v.name s.workflows in
      let family : All ItemFamily m =
        prompted-Family b (hash e cx v.session_id) (turn_key e v) now v.name s.workflows h in
      if_lem (λ (x : Result State). ResAll x) (ends_session v.name)
        (λ yes.
          All-map_values ItemFamily (end_item e b (hash e cx v.session_id) now) s.workflows
            (λ k item g. if_Family k _ item now g) h)
        (λ no.
          put_item-ResAll s (turn_key e v) m _ family
            (hooked-Family b v now _ (hook_item-Family b v now (turn_key e v) m family)))

  record_report-ResAll :
      (s : State) (b : SessionIdentity) (created : Bytes) (r : Report) (now : ℕ)
      → AllFamily s
      → ResAll (record_report e s b created r now)
  unfolding record_report
  record_report-ResAll s b created r now h =
      put_item-ResAll s (report_key e b created) s.workflows _ h (
        reported-Family b r now _ (report_item-Family b now (report_key e b created) s.workflows h))

  ResAll-prune :
      (r : Result State) (t : State) (now : ℕ) → ResAll r → r ≡ ok t → AllFamily (prune t now).0
  ResAll-prune (err x) t now h eq = cc
  ResAll-prune (ok u) t now h eq =
      let same : u ≡ t = cc eq in prune-AllFamily t now (subst (λ w. AllFamily w) same h)

  -- In every workflow let the keys of the nodes be distinct and equal to their ids, the nodes whose key
  -- starts with "r", like that of a root, have the type "root", and every parent be a node of the
  -- workflow. All of this is so after a hook too, whatever node it puts in place of another, and after
  -- the pruning that follows it.
  pub record_hook-AllFamily :
      (s : State) (b : SessionIdentity) (v : HookEvent) (now : ℕ) (t : State)
      → AllFamily s
      → record_hook e s b v now ≡ ok t
      → AllFamily (prune t now).0
  record_hook-AllFamily s b v now t h eq = ResAll-prune _ t now (record_hook-ResAll s b v now h) eq

  -- The same of a report.
  record_report-AllFamily :
      (s : State) (b : SessionIdentity) (created : Bytes) (r : Report) (now : ℕ) (t : State)
      → AllFamily s
      → record_report e s b created r now ≡ ok t
      → AllFamily (prune t now).0
  record_report-AllFamily s b created r now t h eq =
      ResAll-prune _ t now (record_report-ResAll s b created r now h) eq
