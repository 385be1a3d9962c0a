-- ===== src/Workflow/Prunes.antt =====
-- workflow.rs: `prune` twice, and a `prune` that reports no change.
use hmux.Base.{
  ℕ, zero, suc, ◌≡◌, ◌≤◌, ◌<◌, refl, sym, ◌∙◌, ap, arith, Bool, true, false, Option, none, some,
  List, [], ◌∷◌, All, if_lem, ltb, length,
}
use hmux.Base.Eq.{Bytes, bytes_eq, bytes_beq_iff}
use hmux.Base.Map.{lookup, remove, retain, length-retain-le, length-remove-le}
use hmux.Workflow.Types.{Item, State, max_workflows}
use hmux.Workflow.Items.{map_values, any_value, min_by}
use hmux.Workflow.Files.{
  expire, overdue, kept, pruned, shrink, drop_item, prune, older_item, always, is_some,
}
use hmux.Workflow.Minimum.{OptionAll, min_by-All, min_by-some}
use hmux.Workflow.Active.{All-map_values, All-retain, shrink-All, drop_item-All}

-- The maps of the file are keyed by the ids.
abbrev pub Keyed : Bytes × Item → Type 0
Keyed (k, item) = k ≡ item.id

length-map_values {ℓ} :
    {V : Type ℓ} (f : V → V) (m : List (Bytes × V)) → length (map_values f m) ≡ length m
length-map_values f [] = refl
length-map_values f ((k, v) ∷ m) = ap suc (length-map_values f m)

retain-same {ℓ} :
    {V : Type ℓ} (p : V → Bool) (m : List (Bytes × V))
    → length (retain p m) ≡ length m
    → retain p m ≡ m
unfolding retain
retain-same p [] h = refl
retain-same p ((k, v) ∷ m) h = ground (arith, retain-same p m, length-retain-le p m)

expire-current : (now : ℕ) (item : Item) → overdue now item ≡ false → expire now item ≡ item
expire-current now item h = ground arith

expire-same :
    (now : ℕ) (m : List (Bytes × Item))
    → any_value (overdue now) m ≡ false
    → map_values (expire now) m ≡ m
expire-same now [] h = refl
expire-same now ((k, item) ∷ m) h =
    rw (expire-same now m (ground arith)) (rw (expire-current now item (ground arith)) refl)

-- Neither overdue nor to be dropped.
abbrev Current : ℕ → Bytes × Item → Type 0
Current now (k, item) = (overdue now item ≡ false) × (kept now item ≡ true)

expire-overdue : (now : ℕ) (item : Item) → overdue now (expire now item) ≡ false
expire-overdue now item =
    if_lem (λ (t : Item). overdue now t ≡ false) (overdue now item) (λ yes. refl) (λ no. no)

All-Current-retain :
    (now : ℕ) (m : List (Bytes × Item))
    → All (Current now) (retain (kept now) (map_values (expire now) m))
unfolding retain
All-Current-retain now [] = tt
All-Current-retain now ((k, item) ∷ m) =
    if_lem (λ xs. All (Current now) xs) (kept now (expire now item))
      (λ yes. ((expire-overdue now item, yes), All-Current-retain now m))
      (λ no. All-Current-retain now m)

Current-overdue :
    (now : ℕ) (m : List (Bytes × Item)) → All (Current now) m → any_value (overdue now) m ≡ false
Current-overdue now [] h = refl
Current-overdue now ((k, item) ∷ m) h = ground (arith, Current-overdue now m h.1)

Current-kept : (now : ℕ) (m : List (Bytes × Item)) → All (Current now) m → retain (kept now) m ≡ m
unfolding retain
Current-kept now [] h = refl
Current-kept now ((k, item) ∷ m) h = ground (arith, Current-kept now m h.1)

-- A key of the part is one of the whole.
abbrev Known : List (Bytes × Item) → Bytes × Item → Type 0
Known m (k, item) = is_some (lookup item.id m) ≡ true

All-Known :
    (m all : List (Bytes × Item))
    → ((k : Bytes) → is_some (lookup k m) ≡ true → is_some (lookup k all) ≡ true)
    → All Keyed m
    → All (Known all) m
unfolding lookup
All-Known [] all g h = tt
All-Known ((k, item) ∷ m) all g h = (
  g item.id (ground (arith, bytes_beq_iff k item.id)),
  All-Known m all (λ j f. g j (ground (arith, f))) h.1,
)

length-remove-lt :
    (k : Bytes) (m : List (Bytes × Item))
    → is_some (lookup k m) ≡ true
    → length (remove k m) < length m
unfolding lookup remove
length-remove-lt k [] h = ground arith
length-remove-lt k ((j, v) ∷ m) h = ground (arith, length-remove-lt k m, length-remove-le k m)

drop_found :
    (m : List (Bytes × Item)) (o : Option Item)
    → is_some o ≡ true
    → OptionAll (λ item. is_some (lookup item.id m) ≡ true) o
    → length (drop_item m o) < length m
drop_found m none f h = ground arith
drop_found m (some item) f h = length-remove-lt item.id m h

pub drop_item-lt :
    (less : Item → Item → Bool) (m : List (Bytes × Item))
    → All Keyed m
    → 0 < length m
    → length (drop_item m (min_by less always none m)) < length m
unfolding min_by
drop_item-lt less [] h l = omega (arith, l)
drop_item-lt less ((k, v) ∷ m) h l =
    drop_found ((k, v) ∷ m) (min_by less always (some v) m) (min_by-some less v m) (
      min_by-All (λ item. is_some (lookup item.id ((k, v) ∷ m)) ≡ true) less always none
        ((k, v) ∷ m) tt (All-Known ((k, v) ∷ m) ((k, v) ∷ m) (λ j f. f) h))

shrink-le :
    (n : ℕ) (m : List (Bytes × Item))
    → All Keyed m
    → length m ≤ n
    → length (shrink n m) ≤ max_workflows
shrink-le zero m h l = omega (arith, l)
shrink-le (suc n) m h l =
    if_lem (λ (t : List (Bytes × Item)). length t ≤ max_workflows) (ltb max_workflows (length m))
      (λ more.
        shrink-le n (drop_item m (min_by older_item always none m))
          (drop_item-All Keyed m (min_by older_item always none m) h)
          (ground (arith, drop_item-lt older_item m h)))
      (λ fits. ground arith)

shrink-small : (n : ℕ) (m : List (Bytes × Item)) → length m ≤ max_workflows → shrink n m ≡ m
shrink-small zero m h = refl
shrink-small (suc n) m h = ground arith

pruned-Keyed : (now : ℕ) (m : List (Bytes × Item)) → All Keyed m → All Keyed (pruned now m)
pruned-Keyed now m h = All-retain Keyed (kept now) _ (
    All-map_values Keyed (expire now) m
      (λ k item g. if_lem (λ (t : Item). Keyed (k, t)) (overdue now item) (λ yes. g) (λ no. g)) h)

prune-le :
    (s : State) (now : ℕ) → All Keyed s.workflows → length (prune s now).0.workflows ≤ max_workflows
unfolding prune
prune-le s now h =
    shrink-le (length (pruned now s.workflows)) (pruned now s.workflows)
      (pruned-Keyed now s.workflows h) (omega arith)

pruned-Current : (now : ℕ) (m : List (Bytes × Item)) → All (Current now) m → pruned now m ≡ m
pruned-Current now m h =
    ap (λ w. retain (kept now) w) (expire-same now m (Current-overdue now m h))
    ∙ Current-kept now m h

prune-Current :
    (s : State) (now : ℕ)
    → All (Current now) s.workflows
    → length s.workflows ≤ max_workflows
    → prune s now ≡ (s, false)
unfolding prune
prune-Current s now h l =
    rw
      (
        pruned-Current now s.workflows h,
        shrink-small (length s.workflows) s.workflows l,
        Current-overdue now s.workflows h,
      )
      (ground arith)

prune_again :
    (s : State) (now : ℕ)
    → All Keyed s.workflows
    → prune (prune s now).0 now ≡ ((prune s now).0, false)
unfolding prune
prune_again s now h =
    prune-Current (prune s now).0 now
      (shrink-All (Current now) _ _ (All-Current-retain now s.workflows)) (prune-le s now h)

-- In a file keyed by the ids of its workflows `prune` leaves at most 1,024 of them, and a second run
-- at the same time changes nothing and says so.
pub prune-prune :
    (s : State) (now : ℕ)
    → All Keyed s.workflows
    → (prune (prune s now).0 now ≡ ((prune s now).0, false))
      × (length (prune s now).0.workflows ≤ max_workflows)
prune-prune s now h = (prune_again s now h, prune-le s now h)

-- A `prune` that reports no change has made none.
prune-unchanged : (s : State) (now : ℕ) → (prune s now).1 ≡ false → (prune s now).0 ≡ s
unfolding prune
prune-unchanged s now h =
    let due : any_value (overdue now) s.workflows ≡ false = ground arith in
    let size : length (pruned now s.workflows) ≡ length s.workflows = ground arith in
    let few : length (pruned now s.workflows) ≤ max_workflows = ground arith in
    let current : map_values (expire now) s.workflows ≡ s.workflows =
      expire-same now s.workflows due in
    let same : pruned now s.workflows ≡ s.workflows =
      retain-same (kept now) (map_values (expire now) s.workflows)
        (size ∙ sym (length-map_values (expire now) s.workflows))
      ∙ current in
    ap (λ m. record s { workflows = m }) (shrink-small _ _ few ∙ same)
