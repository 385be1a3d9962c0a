-- ===== src/Workspace/Reconcile.antt =====
-- workspace.rs: `reconcile`, which follows the restored sessions and applies a change once.
use hmux.Base.{
  ℕ, ◌+◌, ◌-◌, ◌^◌, Bool, true, false, not, ◌&&◌, ◌||◌, Option, none, some, List, [], ◌∷◌, ◌++◌,
  ltb, ◌==◌, length, drop, filter, if◌then◌else◌,
}
use hmux.Base.Eq.{bytes_beq, bytes_eq, string_eq, Bytes}
use hmux.Base.Int.{int_beq}
use hmux.Model.Ids.{SessionIdentity, identity_eq, identity_beq}
use hmux.Workspace.State.{
  Tabs, SessionLineage, Snapshot, Change, invalid, revision_exhausted, Result, ok, err, contains,
  snapshot_valid, change_valid, history,
}
use hmux.Workspace.Merge.{merge, same_tabs}

unfoldable pub live : SessionIdentity → List SessionLineage → Bool
live id [] = false
live id (s ∷ sessions) =
    bytes_beq s.id id.id && int_beq s.created_at id.created_at || live id sessions

abbrev pub restored : SessionIdentity → SessionLineage → Bool
restored id s = from s.restored_from
  where
    from : Option SessionIdentity → Bool
    from none = false
    from (some r) = identity_beq r id

abbrev pub identity_of : SessionLineage → SessionIdentity
identity_of s = record { id = s.id; created_at = s.created_at }

-- Only one candidate may change a lifetime.
abbrev pub unique : SessionIdentity → List SessionLineage → SessionIdentity
unique id [] = id
unique id (s ∷ []) = identity_of s
unique id (s ∷ t ∷ rest) = id

unfoldable pub resolve : SessionIdentity → List SessionLineage → SessionIdentity
resolve id sessions = if live id sessions then id else unique id (filter (restored id) sessions)

unfoldable pub rebase_onto : Tabs → Tabs → List SessionLineage → Tabs
rebase_onto result [] sessions = result
rebase_onto result (id ∷ ids) sessions =
    let r = resolve id sessions in
    rebase_onto (if contains r result then result else result ++ r ∷ []) ids sessions

unfoldable pub rebase : Tabs → List SessionLineage → Tabs
rebase ids sessions = rebase_onto [] ids sessions

pub record Transition : Type 0 where
  pub state : Snapshot
  pub changed : Bool
  pub conflict : Bool

unfoldable pub reply : Transition → Snapshot
reply t = record t.state {
  conflict = if t.conflict then "workspace_conflict" else t.state.conflict;
}

abbrev pub any_tab : (SessionIdentity → Bool) → Tabs → Bool
any_tab p [] = false
any_tab p (t ∷ ts) = p t || any_tab p ts

-- A tab that the change opens and that is no live session.
abbrev pub opens_dead : Change → List SessionLineage → SessionIdentity → Bool
opens_dead change sessions id = not (contains id change.base) && not (live id sessions)

abbrev pub rebased : Change → List SessionLineage → Change
rebased change sessions = record change {
  base = rebase change.base sessions;
  tabs = rebase change.tabs sessions;
  selected = none;
}

abbrev pub outdated : Snapshot → Change → Bool
outdated current change =
    not (change_valid change)
    || ltb current.revision change.revision
    || ltb history (current.revision - change.revision)

-- The state and whether there was a conflict.
abbrev pub merged_or_conflict : Snapshot → Result Snapshot → Snapshot × Bool
merged_or_conflict current (ok next) = (next, false)
merged_or_conflict current (err e) = (current, true)

abbrev pub merge_checked : Snapshot → Change → List SessionLineage → Snapshot × Bool
merge_checked current change sessions =
    if any_tab (opens_dead change sessions) change.tabs
    then (current, true)
    else merged_or_conflict current (merge current change)

-- `applied` keeps the last ids of operations, oldest first.
abbrev pub recorded : Bytes → Snapshot × Bool → Snapshot × Bool
recorded op (s, true) = (s, true)
recorded op (s, false) = (
  record s {
    applied = (if length s.applied == history then drop 1 s.applied else s.applied) ++ op ∷ [];
  },
  false,
)

unfoldable pub apply_change : Snapshot → Change → List SessionLineage → Snapshot × Bool
apply_change current change sessions =
    if contains change.operation_id current.applied
    then (current, false)
    else if outdated current change
    then (current, true)
    else recorded change.operation_id (merge_checked current (rebased change sessions) sessions)

abbrev pub apply_option : Snapshot → Option Change → List SessionLineage → Snapshot × Bool
apply_option current none sessions = (current, false)
apply_option current (some change) sessions = apply_change current change sessions

abbrev pub rebased_state : Snapshot → List SessionLineage → Snapshot
rebased_state s sessions = record s {
  tabs = rebase s.tabs sessions;
  selected = none;
  conflict = "";
}

abbrev pub same_bytes : List Bytes → List Bytes → Bool
same_bytes [] [] = true
same_bytes (x ∷ xs) (y ∷ ys) = bytes_beq x y && same_bytes xs ys
same_bytes (x ∷ xs) [] = false
same_bytes [] (y ∷ ys) = false

abbrev pub same_selected : Option SessionIdentity → Option SessionIdentity → Bool
same_selected none none = true
same_selected (some a) (some b) = identity_beq a b
same_selected _ _ = false

abbrev pub same_flag : Bool → Bool → Bool
same_flag true b = b
same_flag false b = not b

-- The derived equality.
unfoldable pub same_snapshot : Snapshot → Snapshot → Bool
same_snapshot a b =
    string_eq.beq a.conflict b.conflict
    && same_bytes a.applied b.applied
    && int_beq a.version b.version
    && same_flag a.initialized b.initialized
    && a.revision == b.revision
    && same_tabs a.tabs b.tabs
    && same_selected a.selected b.selected

abbrev pub max_revision : ℕ
max_revision = 2 ^ 64 - 1

abbrev pub settled : Snapshot → Snapshot × Bool → Result Transition
settled before (s, conflict) =
    if not (snapshot_valid s)
    then err invalid
    else if same_snapshot s before
    then ok (record { state = s; changed = false; conflict = conflict })
    else if before.revision == max_revision
    then err revision_exhausted
    else ok (record {
      state = record s { revision = before.revision + 1 };
      changed = true;
      conflict = conflict;
    })

unfoldable pub reconcile : Snapshot → Option Change → List SessionLineage → Result Transition
reconcile current change sessions =
    if not (snapshot_valid current)
    then err invalid
    else settled current (apply_option (rebased_state current sessions) change sessions)
