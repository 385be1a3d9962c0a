-- ===== src/Workflow/Fits.antt =====
-- workflow.rs: the loop of `bytes` is given enough rounds.
use hmux.Base.{
  ℕ, zero, suc, ◌+◌, ◌∙◌, ◌≡◌, ◌≤◌, ◌<◌, refl, subst, ap, arith, Option, none, some, List, [], ◌∷◌,
  All, length,
}
use hmux.Base.Eq.{Bytes, bytes_eq}
use hmux.Base.Map.{remove, All-remove}
use hmux.Workflow.Types.{Env, Item, State, Result, err, invalid}
use hmux.Workflow.Items.{min_by}
use hmux.Workflow.Files.{fit, fit_raw, fit_again, bytes, less_needed, always, drop_item}
use hmux.Workflow.Prunes.{Keyed, drop_item-lt}

min_by-nothing : (m : List (Bytes × Item)) → length m ≤ 0 → min_by less_needed always none m ≡ none
unfolding min_by
min_by-nothing [] l = refl
min_by-nothing (x ∷ m) l = ground (arith, l)

remove-min :
    (m : List (Bytes × Item)) (item : Item) (n : ℕ)
    → All Keyed m
    → min_by less_needed always none m ≡ some item
    → length m ≤ suc n
    → length (remove item.id m) ≤ n
unfolding min_by
remove-min [] item n k f l = cc
remove-min (x ∷ m) item n k f l =
    let fewer : length (drop_item (x ∷ m) (some item)) < length (x ∷ m) =
      subst (λ o. length (drop_item (x ∷ m) o) < length (x ∷ m)) f
        (drop_item-lt less_needed (x ∷ m) k (omega arith)) in
    omega (arith, fewer, l)

module _ (e : Env) where
  fit_again-same :
      (f g : State → Result (Bytes × State)) (s : State) (o : Option Item)
      → ((item : Item)
          → o ≡ some item
          → f (record s { workflows = remove item.id s.workflows })
            ≡ g (record s { workflows = remove item.id s.workflows }))
      → fit_again e f s o ≡ fit_again e g s o
  fit_again-same f g s none h = refl
  fit_again-same f g s (some item) h = h item refl

  fit_raw-same :
      (f g : State → Result (Bytes × State)) (s : State) (o : Option Bytes)
      → fit_again e f s (min_by less_needed always none s.workflows)
        ≡ fit_again e g s (min_by less_needed always none s.workflows)
      → fit_raw e f s o ≡ fit_raw e g s o
  fit_raw-same f g s none h = refl
  fit_raw-same f g s (some raw) h = rw h refl

  -- One more round than there are workflows changes nothing.
  fit-suc :
      (n : ℕ) (s : State)
      → All Keyed s.workflows
      → length s.workflows ≤ n
      → fit e (suc n) s ≡ fit e n s
  fit-suc zero s k l =
      fit_raw-same (fit e zero) (λ t. err invalid) s (e.json s)
        (rw (min_by-nothing s.workflows l) refl)
  fit-suc (suc n) s k l = fit_raw-same (fit e (suc n)) (fit e n) s (e.json s) (
      fit_again-same (fit e (suc n)) (fit e n) s (min_by less_needed always none s.workflows)
        (λ item f.
          fit-suc n (record s { workflows = remove item.id s.workflows })
            (All-remove Keyed item.id s.workflows k) (remove-min s.workflows item n k f l)))

  -- `bytes` has its result with any number of rounds from that of the workflows on, in a file keyed by
  -- the ids of its workflows.
  bytes-fit :
      (more : ℕ) (s : State)
      → All Keyed s.workflows
      → fit e (more + length s.workflows) s ≡ bytes e s
  unfolding bytes
  bytes-fit zero s k =
      let same : zero + length s.workflows ≡ length s.workflows = omega arith in
      ap (λ n. fit e n s) same
  bytes-fit (suc more) s k =
      let next : suc more + length s.workflows ≡ suc (more + length s.workflows) = omega arith in
      ap (λ n. fit e n s) next
      ∙ fit-suc (more + length s.workflows) s k (omega arith)
      ∙ bytes-fit more s k
