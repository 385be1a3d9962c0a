-- ===== src/Workspace/Merged.antt =====
-- workspace.rs: the tabs of a merged snapshot.
use hmux.Base.{ap, ◌≡◌, ◌≤◌, arith, Bool, true, false, not, ◌&&◌, ◌||◌, [], filter, length}
use hmux.Model.Ids.{SessionIdentity, identity_eq}
use hmux.Workspace.State.{
  Tabs, Snapshot, Change, ok, contains, valid_after, valid_ids, change_valid, max_tabs,
}
use hmux.Workspace.Merge.{open_tabs, stays, merged_tabs, merge}
use hmux.Workspace.Members.{
  contains-filter, contains-reorder, open_tabs-from, open_tabs-keeps, open_tabs-opens, clashes,
}

abbrev pub implies : Bool → Bool → Bool
implies a b = not a || b

-- The tab is open and the change does not close it.
abbrev pub kept : Snapshot → Change → SessionIdentity → Bool
kept current change x =
    contains x current.tabs && (not (contains x change.base) || contains x change.tabs)

-- The tab is one that the change opens.
abbrev pub added : Change → SessionIdentity → Bool
added change x = contains x change.tabs && not (contains x change.base)

merge-ok :
    (current r : Snapshot) (change : Change)
    → merge current change ≡ ok r
    → (r.tabs ≡ merged_tabs current.tabs change)
      × (change_valid change ≡ true)
      × (length r.tabs ≤ max_tabs)
unfolding merge
merge-ok current r change h = (ground arith, ground arith, ground arith)

change_valid-tabs :
    (change : Change) → change_valid change ≡ true → valid_after [] change.tabs ≡ true
unfolding change_valid valid_ids
change_valid-tabs change h = ground arith

pub merge_cases :
    (current r : Snapshot) (change : Change) (x : SessionIdentity)
    → merge current change ≡ ok r
    → (length r.tabs ≤ max_tabs)
      × (contains x r.tabs ≡ true → (kept current change x || added change x) ≡ true)
      × (added change x ≡ true → contains x r.tabs ≡ true)
      × (kept current change x ≡ true → clashes x change.tabs ≡ false → contains x r.tabs ≡ true)
unfolding merged_tabs
merge_cases current r change x h =
    let (e, v, l) = merge-ok current r change h in
    let start = filter (stays change) current.tabs in
    let q = ap (λ (t : Tabs). contains x t) e in
    let m = contains-reorder x change (open_tabs change.base [] change.tabs start) in
    let f = contains-filter (stays change) x current.tabs in
    (
      l,
      λ k.
          ground
            (arith, f, open_tabs-from x change.base [] change.tabs start (ground (arith, q, m, k))),
      λ k. ground (
        arith,
        q,
        m,
        open_tabs-opens x change.base [] change.tabs start (change_valid-tabs change v)
            (ground (arith, k)) (ground (arith, k)),
      ),
      λ k c. ground (
        arith,
        q,
        m,
        open_tabs-keeps x change.base [] change.tabs start (ground (arith, f, k)) c,
      ),
    )

-- A successful merge has at most 32 tabs. Each of them was open and is not closed by the change, or is
-- opened by the change; every tab that the change opens is in it; and every open tab that the change does
-- not close is in it, unless the change lists the same id with another lifetime.
pub merge-members :
    (current r : Snapshot) (change : Change) (x : SessionIdentity)
    → merge current change ≡ ok r
    → (length r.tabs ≤ max_tabs)
      × (implies (contains x r.tabs) (kept current change x || added change x) ≡ true)
      × (implies (added change x) (contains x r.tabs) ≡ true)
      × (implies (kept current change x && not (clashes x change.tabs)) (contains x r.tabs) ≡ true)
merge-members current r change x h =
    let c = merge_cases current r change x h in
    (c.0, ground (arith, c.1), ground (arith, c.2), ground (arith, c.3))
