-- ===== src/Workflow/Prompts.antt =====
-- workflow.rs: a prompt ends the other turns of its session.
use hmux.Base.{
  ℕ, ◌≡◌, refl, sym, subst, ◌∙◌, ap, arith, Bool, true, false, not, ◌&&◌, Option, none, some, List,
  [], ◌∷◌, All, any, if_lem, Option-cases, inl, inr,
}
use hmux.Base.Eq.{Bytes, bytes_eq, bytes_beq, bytes_beq_iff}
use hmux.Base.Map.{lookup, lookup-All}
use hmux.Model.Ids.{SessionIdentity}
use hmux.Workflow.Types.{
  Env, Status, Node, Item, State, Result, ok, err, hash, running, active, safe_text, is_hook,
  is_empty,
}
use hmux.Workflow.Texts.{root_type, root, cx, codex}
use hmux.Workflow.Items.{
  map_values, put_node, placed, refresh, interrupt, interrupted_at, statuses, closed, matches,
}
use hmux.Workflow.Hooks.{
  HookEvent, bind, prompted, hooked, record_hook, hook_item, transition, with_model, same_turn,
  turn_key, ends_session, end_other, user_prompt_submit,
}
use hmux.Workflow.Prunes.{Keyed}
use hmux.Workflow.Active.{put_item-All, All-map_values, status_of-active}

-- Another turn of the session that is active.
abbrev pub other_turn : SessionIdentity → Bytes → Bytes → Item → Bool
other_turn binding session_id id item =
    not (bytes_beq item.id id)
    && is_hook item.source
    && bytes_beq item.session_id session_id
    && matches item binding
    && active item.status

interrupted-active :
    (now : ℕ) (m : List (Bytes × Node))
    → any active (statuses (map_values (interrupted_at now) m)) ≡ false
interrupted-active now [] = refl
interrupted-active now ((k, n) ∷ m) = ground (arith, interrupted-active now m)

interrupt-active : (item : Item) (now : ℕ) → active (interrupt item now).status ≡ false
unfolding refresh
interrupt-active item now = status_of-active _ ∙ interrupted-active now item.nodes

abbrev HasId : Bytes → Result Item → Type 0
HasId id (err x) = Unit
HasId id (ok t) = t.id ≡ id

placed-HasId :
    (item : Item) (id parent kind provider : Bytes) (target : Status) (now : ℕ) (force : Bool)
    (old : Option Node) (r : Result (List (Bytes × Node)))
    → HasId item.id (placed item id parent kind provider target now force old r)
placed-HasId item id parent kind provider target now force old (err x) = tt
placed-HasId item id parent kind provider target now force none (ok nodes) = refl
placed-HasId item id parent kind provider target now force (some n) (ok nodes) =
    if_lem (λ (t : Item). t.id ≡ item.id) (closed force n) (λ yes. refl) (λ no. refl)

refreshed-HasId :
    (id : Bytes) (now : ℕ) (r : Result Item) (u : Item)
    → HasId id r
    → bind r (λ (t : Item). ok (refresh t now)) ≡ ok u
    → u.id ≡ id
unfolding refresh
refreshed-HasId id now (err x) u h eq = cc
refreshed-HasId id now (ok t) u h eq =
    let same : refresh t now ≡ u = cc eq in subst (λ (w : Item). w.id ≡ id) same h

module _ (e : Env) where
  end_other-ends :
      (b : SessionIdentity) (sid id : Bytes) (now : ℕ) (item : Item)
      → other_turn b sid id (end_other e b sid id now item) ≡ false
  end_other-ends b sid id now item =
      if_lem (λ (t : Item). other_turn b sid id t ≡ false) (other_turn b sid id item)
        (λ yes. ground (arith, interrupt-active item now)) (λ no. no)

  ended-others :
      (b : SessionIdentity) (sid id : Bytes) (now : ℕ) (m : List (Bytes × Item))
      → All (λ x. other_turn b sid id x.1 ≡ false) (map_values (end_other e b sid id now) m)
  ended-others b sid id now [] = tt
  ended-others b sid id now ((k, item) ∷ m) =
      (end_other-ends b sid id now item, ended-others b sid id now m)

  end_other-Keyed :
      (b : SessionIdentity) (sid id : Bytes) (now : ℕ) (k : Bytes) (item : Item)
      → Keyed (k, item)
      → Keyed (k, end_other e b sid id now item)
  unfolding refresh
  end_other-Keyed b sid id now k item h =
      if_lem (λ (t : Item). Keyed (k, t)) (other_turn b sid id item) (λ yes. h) (λ no. h)

  hook_item-id :
      (b : SessionIdentity) (v : HookEvent) (now : ℕ) (id : Bytes) (m : List (Bytes × Item))
      → All Keyed m
      → (hook_item e b v id now (lookup id m)).id ≡ id
  hook_item-id b v now id m h = elim (Option-cases (lookup id m)) [
    | inl absent ↦ rw absent refl
    | inr (item, there) ↦ rw there (sym (lookup-All Keyed id item m h there))
  ]

  hooked-id :
      (b : SessionIdentity) (v : HookEvent) (now : ℕ) (old u : Item)
      → v.name ≡ user_prompt_submit
      → hooked e b v now old ≡ ok u
      → u.id ≡ old.id
  unfolding put_node
  hooked-id b v now old u name =
      let modelled : Item = with_model e old (safe_text e v.model 128) in
      let id : modelled.id ≡ old.id =
        if_lem (λ (t : Item). t.id ≡ old.id) (is_empty (safe_text e v.model 128)) (λ yes. refl)
          (λ no. refl) in
      if_lem (λ (x : Result Item). x ≡ ok u → u.id ≡ old.id) (same_turn e b v old)
        (λ yes eq.
          refreshed-HasId modelled.id now _ u
            (subst
              (λ n. HasId modelled.id (transition e v n (hash e root v.session_id) now modelled))
              (sym name)
              (placed-HasId modelled (hash e root v.session_id) [] root_type codex running now true
                _ _))
            eq
          ∙ id)
        (λ no eq. cc)

  -- A prompt that is recorded leaves no other turn of its session and binding active, in a file whose
  -- workflows have their ids for keys.
  pub record_hook-prompt :
      (s : State) (b : SessionIdentity) (v : HookEvent) (now : ℕ) (t : State)
      → v.name ≡ user_prompt_submit
      → All Keyed s.workflows
      → record_hook e s b v now ≡ ok t
      → All (λ x. other_turn b (hash e cx v.session_id) (turn_key e v) x.1 ≡ false) t.workflows
  unfolding record_hook
  record_hook-prompt s b v now t name h =
      let sid : Bytes = hash e cx v.session_id in
      let id : Bytes = turn_key e v in
      let m : List (Bytes × Item) = map_values (end_other e b sid id now) s.workflows in
      let keyed : All Keyed m =
        All-map_values Keyed (end_other e b sid id now) s.workflows (end_other-Keyed b sid id now)
          h in
      let not_end : ends_session v.name ≡ false = rw name refl in
      let ended : prompted e b sid id now v.name s.workflows ≡ m =
        ap (λ n. prompted e b sid id now n s.workflows) name in
      rw (not_end, ended)
        (λ eq.
          put_item-All e (λ x. other_turn b sid id x.1 ≡ false) s id m _ t
            (ended-others b sid id now s.workflows)
            (λ item f.
              let same : item.id ≡ id =
                hooked-id b v now _ item name f ∙ hook_item-id b v now id m keyed in
              ground (arith, bytes_beq_iff item.id id, same))
            eq)
