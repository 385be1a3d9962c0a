-- ===== src/Workspace/Members.antt =====
-- workspace.rs: which tabs a merge keeps, opens and closes.
use hmux.Base.{
  ap, ℕ, zero, suc, ◌≡◌, refl, arith, Bool, true, false, not, ◌&&◌, ◌||◌, List, [], ◌∷◌, ◌++◌,
  filter, Bool-cases, inl, inr, if◌then◌else◌,
}
use hmux.Base.Eq.{Eq, bytes_beq, bytes_beq_iff}
use hmux.Model.Ids.{SessionIdentity, identity_eq, identity_beq, identity_beq_iff}
use hmux.Workspace.State.{Tabs, Change, contains, has_id, valid_after}
use hmux.Workspace.Merge.{insert_at, place, other_id, open_tab, open_tabs, push_missing, reorder}

module _ {ℓ} {A : Type ℓ} ⦃e : Eq A⦄ where
  pub contains-filter :
      (p : A → Bool) (x : A) (xs : List A) → contains x (filter p xs) ≡ (contains x xs && p x)
  unfolding contains
  contains-filter p x [] = refl
  contains-filter p x (y ∷ ys) = elim (Bool-cases (e.beq y x)) [
    | inl h ↦ rw ((e.beq_iff y x).0 h) (ground (arith, e.beq_iff x x, contains-filter p x ys))
    | inr h ↦ ground (arith, contains-filter p x ys)
  ]

  pub contains-append :
      (x : A) (xs ys : List A) → contains x (xs ++ ys) ≡ (contains x xs || contains x ys)
  unfolding contains
  contains-append x [] ys = refl
  contains-append x (y ∷ xs) ys = ground (arith, contains-append x xs ys)

contains-insert_at :
    (x : SessionIdentity) (n : ℕ) (y : SessionIdentity) (xs : Tabs)
    → contains x (insert_at n y xs) ≡ (identity_beq y x || contains x xs)
unfolding contains insert_at
contains-insert_at x zero y xs = refl
contains-insert_at x (suc n) y [] = refl
contains-insert_at x (suc n) y (z ∷ xs) = ground (arith, contains-insert_at x n y xs)

had :
    (x id : SessionIdentity) (o ids : Tabs)
    → contains id o ≡ true
    → (contains x o || contains x ids) ≡ (contains x o || contains x (id ∷ ids))
had x id o ids h = elim (Bool-cases (identity_beq id x)) [
  | inl e ↦
      let e' : id ≡ x = (identity_beq_iff id x).0 e in
      let k : contains x o ≡ true = rw (← e') h in rw k
  | inr e ↦ unfold contains in ground (arith, e)
]

contains-push_missing :
    (x : SessionIdentity) (o ids : Tabs)
    → contains x (push_missing o ids) ≡ (contains x o || contains x ids)
unfolding push_missing
contains-push_missing x o [] = unfold contains in ground arith
contains-push_missing x o (id ∷ ids) = elim (Bool-cases (contains id o)) [
  | inl h ↦ rw (h, contains-push_missing x o ids) (had x id o ids h)
  | inr h ↦
      rw (h, contains-push_missing x (o ++ id ∷ []) ids, contains-append x o (id ∷ []))
        (unfold contains in ground arith)
]

pub contains-reorder :
    (x : SessionIdentity) (change : Change) (tabs : Tabs)
    → contains x (reorder change tabs) ≡ contains x tabs
unfolding reorder
contains-reorder x change tabs = ground (
  arith,
  contains-push_missing x (filter (λ id. contains id tabs) change.tabs) tabs,
  contains-filter (λ id. contains id tabs) x change.tabs,
)

contains-open_tab :
    (x : SessionIdentity) (base previous next : Tabs) (id : SessionIdentity) (tabs : Tabs)
    → contains x (open_tab base previous next id tabs) ≡ (
        if contains id base || contains id tabs
        then contains x tabs
        else identity_beq id x || contains x tabs && other_id id x)
unfolding open_tab
contains-open_tab x base previous next id tabs = ground (
  arith,
  contains-insert_at x (place previous next (filter (other_id id) tabs)) id
      (filter (other_id id) tabs),
  contains-filter (other_id id) x tabs,
)

from_step :
    (x : SessionIdentity) (base previous next : Tabs) (id : SessionIdentity) (tabs : Tabs)
    → (contains x (open_tab base previous next id tabs) || contains x next && not (contains x base))
      ≡ true
    → (contains x tabs || contains x (id ∷ next) && not (contains x base)) ≡ true
from_step x base previous next id tabs h = elim (Bool-cases (identity_beq id x)) [
  | inl e ↦
      let q : id ≡ x = (identity_beq_iff id x).0 e in
      unfold contains in
      ground (
        arith,
        contains-open_tab x base previous next id tabs,
        ap (λ (t : SessionIdentity). contains t base) q,
        ap (λ (t : SessionIdentity). contains t tabs) q,
        e,
      )
  | inr e ↦ unfold contains in ground (arith, contains-open_tab x base previous next id tabs, e)
]

-- The result has no tab but those of `tabs` and those that the change opens.
pub open_tabs-from :
    (x : SessionIdentity) (base previous next tabs : Tabs)
    → contains x (open_tabs base previous next tabs) ≡ true
    → (contains x tabs || contains x next && not (contains x base)) ≡ true
unfolding open_tabs
open_tabs-from x base previous [] tabs h = ground arith
open_tabs-from x base previous (id ∷ next) tabs h =
    let ih = open_tabs-from x base (id ∷ previous) next (open_tab base previous next id tabs) h in
    from_step x base previous next id tabs ih

-- A tab of the list with the id of `x` and another lifetime.
abbrev pub clashes : SessionIdentity → Tabs → Bool
clashes x [] = false
clashes x (y ∷ ys) = bytes_beq x.id y.id && not (identity_beq y x) || clashes x ys

open_tab-keeps :
    (x : SessionIdentity) (base previous next : Tabs) (id : SessionIdentity) (tabs : Tabs)
    → contains x tabs ≡ true
    → (bytes_beq x.id id.id && not (identity_beq id x)) ≡ false
    → contains x (open_tab base previous next id tabs) ≡ true
open_tab-keeps x base previous next id tabs h c =
    ground (arith, contains-open_tab x base previous next id tabs)

pub open_tabs-keeps :
    (x : SessionIdentity) (base previous next tabs : Tabs)
    → contains x tabs ≡ true
    → clashes x next ≡ false
    → contains x (open_tabs base previous next tabs) ≡ true
unfolding open_tabs
open_tabs-keeps x base previous [] tabs h c = h
open_tabs-keeps x base previous (id ∷ next) tabs h c =
    open_tabs-keeps x base (id ∷ previous) next (open_tab base previous next id tabs)
      (open_tab-keeps x base previous next id tabs h (ground arith)) (ground arith)

valid_after-fresh :
    (i : List ℕ) (previous ts : Tabs)
    → valid_after previous ts ≡ true
    → has_id i previous ≡ true
    → has_id i ts ≡ false
unfolding valid_after has_id
valid_after-fresh i previous [] v h = refl
valid_after-fresh i previous (t ∷ ts) v h = elim (Bool-cases (bytes_beq t.id i)) [
  | inl e ↦
      let q : t.id ≡ i = (bytes_beq_iff t.id i).0 e in
      absurd (ground (arith, ap (λ (j : List ℕ). has_id j previous) q))
  | inr e ↦ ground (arith, e, valid_after-fresh i (t ∷ previous) ts)
]

fresh-clashes : (x : SessionIdentity) (ts : Tabs) → has_id x.id ts ≡ false → clashes x ts ≡ false
unfolding has_id
fresh-clashes x [] h = refl
fresh-clashes x (t ∷ ts) h =
    ground (arith, bytes_beq_iff x.id t.id, bytes_beq_iff t.id x.id, fresh-clashes x ts)

valid_after-head :
    (t : SessionIdentity) (previous ts : Tabs)
    → valid_after previous (t ∷ ts) ≡ true
    → has_id t.id ts ≡ false
unfolding valid_after has_id
valid_after-head t previous ts v =
    valid_after-fresh t.id (t ∷ previous) ts (ground arith)
      (ground (arith, bytes_beq_iff t.id t.id))

opened :
    (x : SessionIdentity) (base previous next : Tabs) (id : SessionIdentity) (tabs : Tabs)
    → id ≡ x
    → contains x base ≡ false
    → contains x (open_tab base previous next id tabs) ≡ true
opened x base previous next id tabs q b =
    rw q (ground (arith, contains-open_tab x base previous next x tabs, identity_beq_iff x x))

-- What the change opens is in the result.
pub open_tabs-opens :
    (x : SessionIdentity) (base previous next tabs : Tabs)
    → valid_after previous next ≡ true
    → contains x next ≡ true
    → contains x base ≡ false
    → contains x (open_tabs base previous next tabs) ≡ true
unfolding open_tabs
open_tabs-opens x base previous [] tabs v h b = absurd (unfold contains in ground arith)
open_tabs-opens x base previous (id ∷ next) tabs v h b = elim (Bool-cases (identity_beq id x)) [
  | inl e ↦
      let q : id ≡ x = (identity_beq_iff id x).0 e in
      open_tabs-keeps x base (id ∷ previous) next (open_tab base previous next id tabs)
        (opened x base previous next id tabs q b)
        (fresh-clashes x next (rw (← q) (valid_after-head id previous next v)))
  | inr e ↦
      open_tabs-opens x base (id ∷ previous) next (open_tab base previous next id tabs)
        (unfold valid_after in ground arith) (unfold contains in ground (arith, e)) b
]
