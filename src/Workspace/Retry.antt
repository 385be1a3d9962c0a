-- ===== src/Workspace/Retry.antt =====
-- workspace.rs: a change that is sent again is not applied again.
use hmux.Base.{
  if_lem, sym, ap, subst, ◌⊎◌, ◌≢◌, ◌∙◌, ℕ, ◌+◌, ◌≤◌, ◌≡◌, refl, arith, Bool, true, false, Option,
  none, some, List, [], ◌∷◌, ◌++◌, Bool-cases, inl, inr, if◌then◌else◌, length, ◌==◌, drop,
}
use hmux.Base.Int.{int_beq_iff}
use hmux.Base.Eq.{Bytes, bytes_beq_iff, bytes_eq, string_eq}
use hmux.Model.Ids.{SessionIdentity, identity_eq, identity_beq_iff}
use hmux.Workspace.State.{
  Tabs, SessionLineage, Snapshot, Change, Result, ok, err, contains, valid_after, valid_ids,
  snapshot_valid, history,
}
use hmux.Workspace.Merge.{merge, same_tabs}
use hmux.Workspace.Members.{contains-append}
use hmux.Workspace.Merged.{merge_cases}
use hmux.Workspace.Reconcile.{
  Transition, rebased, merged_or_conflict, merge_checked, recorded, apply_change, rebased_state,
  same_bytes, same_selected, same_flag, same_snapshot, max_revision, apply_option, settled,
  reconcile, outdated, any_tab, opens_dead,
}
use hmux.Workspace.Rebase.{AllFixed, rebase-Fixed, rebase-valid}

same_bytes_refl : (xs : List Bytes) → same_bytes xs xs ≡ true
same_bytes_refl [] = refl
same_bytes_refl (x ∷ xs) = ground (arith, bytes_beq_iff x x, same_bytes_refl xs)

same_tabs_refl : (xs : Tabs) → same_tabs xs xs ≡ true
same_tabs_refl [] = refl
same_tabs_refl (x ∷ xs) = ground (arith, identity_beq_iff x x, same_tabs_refl xs)

same_selected_refl : (o : Option SessionIdentity) → same_selected o o ≡ true
same_selected_refl none = refl
same_selected_refl (some x) = (identity_beq_iff x x).1 refl

same_flag_refl : (b : Bool) → same_flag b b ≡ true
same_flag_refl true = refl
same_flag_refl false = refl

same_snapshot_refl : (s : Snapshot) → same_snapshot s s ≡ true
unfolding same_snapshot
same_snapshot_refl s = ground (
  arith,
  string_eq.beq_iff s.conflict s.conflict,
  same_bytes_refl s.applied,
  int_beq_iff s.version s.version,
  same_flag_refl s.initialized,
  same_tabs_refl s.tabs,
  same_selected_refl s.selected,
)

-- What a successful change leaves: its id, no selection and no conflict, and fixed tabs.
record IsSettled (ss : List SessionLineage) (op : Bytes) (s : Snapshot) : Type 0 where
  known : contains op s.applied ≡ true
  unselected : s.selected ≡ none
  clean : s.conflict ≡ ""
  fixed : AllFixed ss s.tabs

snapshot_valid-tabs : (s : Snapshot) → snapshot_valid s ≡ true → valid_after [] s.tabs ≡ true
unfolding snapshot_valid valid_ids
snapshot_valid-tabs s h = ground arith

rebased_known :
    (ss : List SessionLineage) (s : Snapshot) (change : Change)
    → snapshot_valid s ≡ true
    → IsSettled ss change.operation_id s
    → rebased_state s ss ≡ s
rebased_known ss s change v i =
    let q = rebase-valid ss s.tabs (snapshot_valid-tabs s v) i.fixed in
    ground (arith, q, i.unselected, i.clean)

contains_last : (op : Bytes) (ops : List Bytes) → contains op (ops ++ op ∷ []) ≡ true
contains_last op ops =
    unfold contains in ground (arith, contains-append op ops (op ∷ []), bytes_beq_iff op op)

merged-AllFixed :
    (ss : List SessionLineage) (current next : Snapshot) (change : Change)
    → AllFixed ss current.tabs
    → AllFixed ss change.tabs
    → merge current change ≡ ok next
    → AllFixed ss next.tabs
merged-AllFixed ss current next change f g h x k =
    let (l, from, a, b) = merge_cases current next change x h in
    elim (Bool-cases (contains x current.tabs)) [
      | inl e ↦ f x e
      | inr e ↦ g x (ground (arith, from k, e))
    ]

merge-kept :
    (current next : Snapshot) (change : Change)
    → merge current change ≡ ok next
    → (next.conflict ≡ current.conflict) × (next.selected ≡ none)
unfolding merge
merge-kept current next change h = (ground arith, ground arith)

abbrev Settles : List SessionLineage → Bytes → Snapshot × Bool → Type 0
Settles ss op r = r.1 ≡ false → IsSettled ss op r.0

recorded-Settles :
    (ss : List SessionLineage) (current : Snapshot) (change : Change) (r : Result Snapshot)
    → current.conflict ≡ ""
    → AllFixed ss current.tabs
    → AllFixed ss change.tabs
    → merge current change ≡ r
    → Settles ss change.operation_id (recorded change.operation_id (merged_or_conflict current r))
recorded-Settles ss current change (ok next) c f g e h =
    let (q, p) = merge-kept current next change e in
    record {
      known =
          contains_last change.operation_id
            (if length next.applied == history then drop 1 next.applied else next.applied);
      unselected = p;
      clean = q ∙ c;
      fixed = merged-AllFixed ss current next change f g e;
    }
recorded-Settles ss current change (err x) c f g e h = absurd (ground arith)

apply_change-Settles :
    (ss : List SessionLineage) (current : Snapshot) (change : Change)
    → current.selected ≡ none
    → current.conflict ≡ ""
    → AllFixed ss current.tabs
    → Settles ss change.operation_id (apply_change current change ss)
unfolding apply_change
apply_change-Settles ss current change n c f =
    let op = change.operation_id in
    if_lem (Settles ss op) (contains op current.applied)
      (λ h k. record { known = h; unselected = n; clean = c; fixed = f })
      (λ h.
        if_lem (Settles ss op) (outdated current change) (λ o k. absurd (ground arith))
          (λ o.
            if_lem (λ (r : Snapshot × Bool). Settles ss op (recorded op r))
              (any_tab (opens_dead (rebased change ss) ss) (rebased change ss).tabs)
              (λ d k. absurd (ground arith))
              (λ d.
                recorded-Settles ss current (rebased change ss) (merge current (rebased change ss))
                  c f (rebase-Fixed ss change.tabs) refl)))

-- A settled valid state is left alone by the change that it knows.
reconcile_known :
    (ss : List SessionLineage) (s : Snapshot) (change : Change)
    → snapshot_valid s ≡ true
    → IsSettled ss change.operation_id s
    → reconcile s (some change) ss ≡ ok (record { state = s; changed = false; conflict = false })
unfolding reconcile apply_change
reconcile_known ss s change v i =
    let r : rebased_state s ss ≡ s = rebased_known ss s change v i in
    rw r (ground (arith, v, i.known, same_snapshot_refl s))

settled-ok :
    (before s : Snapshot) (c : Bool) (t : Transition)
    → settled before (s, c) ≡ ok t
    → (t.state ≡ record s { revision = t.state.revision })
      × (t.conflict ≡ c)
      × (snapshot_valid s ≡ true)
settled-ok before s c t h = (ground arith, ground arith, ground arith)

snapshot_valid_revision :
    (s : Snapshot) (n : ℕ)
    → snapshot_valid s ≡ true
    → snapshot_valid (record s { revision = n }) ≡ true
unfolding snapshot_valid
snapshot_valid_revision s n h = h

reconcile-settled :
    (ss : List SessionLineage) (current : Snapshot) (change : Change) (t : Transition)
    → reconcile current (some change) ss ≡ ok t
    → settled current (apply_change (rebased_state current ss) change ss) ≡ ok t
unfolding reconcile
reconcile-settled ss current change t h = ground arith

-- When a change was applied without a conflict, sending it again with the same sessions changes nothing and
-- reports no conflict.
pub reconcile_again :
    (ss : List SessionLineage) (current : Snapshot) (change : Change) (t : Transition)
    → reconcile current (some change) ss ≡ ok t
    → t.conflict ≡ false
    → reconcile t.state (some change) ss
      ≡ ok (record { state = t.state; changed = false; conflict = false })
reconcile_again ss current change t h n =
    let r = apply_change (rebased_state current ss) change ss in
    let (e, c, v) = settled-ok current r.0 r.1 t (reconcile-settled ss current change t h) in
    let i =
      apply_change-Settles ss (rebased_state current ss) change refl refl
        (rebase-Fixed ss current.tabs) (sym c ∙ n) in
    rw e (
      reconcile_known ss (record r.0 { revision = t.state.revision }) change
        (snapshot_valid_revision r.0 t.state.revision v)
        (record { known = i.known; unselected = i.unselected; clean = i.clean; fixed = i.fixed }))

same_bytes-eq : (xs ys : List Bytes) → same_bytes xs ys ≡ true → xs ≡ ys
same_bytes-eq [] [] h = refl
same_bytes-eq [] (y ∷ ys) h = cc
same_bytes-eq (x ∷ xs) [] h = cc
same_bytes-eq (x ∷ xs) (y ∷ ys) h = ground (arith, bytes_beq_iff x y, same_bytes-eq xs ys)

same_tabs-eq : (xs ys : Tabs) → same_tabs xs ys ≡ true → xs ≡ ys
same_tabs-eq [] [] h = refl
same_tabs-eq [] (y ∷ ys) h = cc
same_tabs-eq (x ∷ xs) [] h = cc
same_tabs-eq (x ∷ xs) (y ∷ ys) h = ground (arith, identity_beq_iff x y, same_tabs-eq xs ys)

same_selected-eq : (a b : Option SessionIdentity) → same_selected a b ≡ true → a ≡ b
same_selected-eq none none h = refl
same_selected-eq none (some b) h = cc
same_selected-eq (some a) none h = cc
same_selected-eq (some a) (some b) h = ap (λ x. some x) ((identity_beq_iff a b).0 h)

same_flag-eq : (a b : Bool) → same_flag a b ≡ true → a ≡ b
same_flag-eq true true h = refl
same_flag-eq true false h = cc
same_flag-eq false true h = cc
same_flag-eq false false h = refl

same_snapshot-eq : (a b : Snapshot) → same_snapshot a b ≡ true → a ≡ b
unfolding same_snapshot
same_snapshot-eq a b h = ground (
  arith,
  (string_eq.beq_iff a.conflict b.conflict).0,
  same_bytes-eq a.applied b.applied,
  int_beq_iff a.version b.version,
  same_flag-eq a.initialized b.initialized,
  same_tabs-eq a.tabs b.tabs,
  same_selected-eq a.selected b.selected,
)

recorded-revision : (op : Bytes) (r : Snapshot × Bool) → (recorded op r).0.revision ≡ r.0.revision
recorded-revision op (s, true) = refl
recorded-revision op (s, false) = refl

merged_or_conflict-revision :
    (current : Snapshot) (change : Change)
    → (merged_or_conflict current (merge current change)).0.revision ≡ current.revision
unfolding merge
merged_or_conflict-revision current change = ground arith

apply_option-revision :
    (current : Snapshot) (change : Option Change) (ss : List SessionLineage)
    → (apply_option current change ss).0.revision ≡ current.revision
unfolding apply_change
apply_option-revision current none ss = refl
apply_option-revision current (some change) ss = ground (
  arith,
  recorded-revision change.operation_id (merge_checked current (rebased change ss) ss),
  merged_or_conflict-revision current (rebased change ss),
)

-- The state before, or one that differs from it in more than the revision, which is the next one.
abbrev pub Revised : Snapshot → Snapshot → Type 0
Revised before s =
    (s ≡ before)
    ⊎ ((s.revision ≡ before.revision + 1)
        × (s.revision ≤ max_revision)
        × (record s { revision = before.revision } ≢ before))

settled-Revised :
    (before s : Snapshot) (c : Bool) (t : Transition)
    → before.revision ≤ max_revision
    → s.revision ≡ before.revision
    → settled before (s, c) ≡ ok t
    → Revised before t.state
settled-Revised before s c t m e h = elim (Bool-cases (same_snapshot s before)) [
  | inl same ↦ let kept : t.state ≡ s = ground arith in inl (kept ∙ same_snapshot-eq s before same)
  | inr other ↦
      let next : t.state ≡ record s { revision = before.revision + 1 } = ground arith in
      let room : before.revision ≢ max_revision = λ f. ground arith in
      let back : record t.state { revision = before.revision } ≡ s =
        ap (λ (w : Snapshot). record w { revision = before.revision }) next
        ∙ ap (λ n. record s { revision = n }) (sym e) in
      let number : t.state.revision ≡ before.revision + 1 =
        ap (λ (w : Snapshot). w.revision) next in
      inr (
        number,
        omega (arith, number, m, room),
        λ f.
            let equal : s ≡ before = sym back ∙ f in
            let yes : same_snapshot s before ≡ true =
              subst (λ w. same_snapshot s w ≡ true) equal (same_snapshot_refl s) in
            absurd (ground (arith, yes, other)),
      )
]

-- What `reconcile` gives for a state, the revision of which an u64 holds, is valid. It is that state
-- itself, or it differs from it in more than the revision and has the next revision, which an u64
-- holds too.
pub reconcile_revision :
    (ss : List SessionLineage) (current : Snapshot) (change : Option Change) (t : Transition)
    → current.revision ≤ max_revision
    → reconcile current change ss ≡ ok t
    → (snapshot_valid t.state ≡ true) × Revised current t.state
unfolding reconcile
reconcile_revision ss current change t m h =
    let r = apply_option (rebased_state current ss) change ss in
    let q : settled current r ≡ ok t = ground (arith, h) in
    let (e, c, v) = settled-ok current r.0 r.1 t q in
    (
      rw e (snapshot_valid_revision r.0 t.state.revision v),
      settled-Revised current r.0 r.1 t m
          (apply_option-revision (rebased_state current ss) change ss) q,
    )
