-- ===== src/Workspace/Examples.antt =====
-- The shared tabs of two devices.
use hmux.Base.{
  ◌&&◌, not, ℕ, ◌≤◌, ◌≡◌, refl, arith, true, false, ◌||◌, none, some, List, [], ◌∷◌, length,
}
use hmux.Base.Int.{pos}
use hmux.Base.Eq.{Bytes}
use hmux.Model.Ids.{SessionIdentity, identity_eq, valid_session_id}
use hmux.Workspace.State.{
  SessionLineage, Snapshot, Change, ok, contains, has_id, valid_after, valid_ids, snapshot_valid,
  change_valid, max_tabs, empty,
}
use hmux.Workspace.Merge.{
  position, first_position, insert_at, place, open_tab, open_tabs, push_missing, reorder,
  merged_tabs, merge,
}
use hmux.Workspace.Reconcile.{
  live, resolve, rebase_onto, rebase, Transition, apply_change, same_snapshot, reconcile,
}
use hmux.Workspace.Members.{clashes}
use hmux.Workspace.Merged.{implies, kept, added, merge-members}
use hmux.Workspace.Retry.{Revised, reconcile_again, reconcile_revision}

abbrev tab : ℕ → ℕ → SessionIdentity
tab digit time = record { id = b'$' ∷ digit ∷ []; created_at = pos time }

abbrev one : SessionIdentity
one = tab b'1' 5

abbrev two : SessionIdentity
two = tab b'2' 6

abbrev three : SessionIdentity
three = tab b'3' 7

abbrev current : Snapshot
current = record {
  conflict = "";
  applied = [];
  version = pos 1;
  initialized = true;
  revision = 4;
  tabs = one ∷ two ∷ [];
  selected = none;
}

-- Sixteen letters.
abbrev operation : Bytes
operation =
    b'a' ∷ b'a' ∷ b'a' ∷ b'a' ∷ b'a' ∷ b'a' ∷ b'a' ∷ b'a' ∷ b'a' ∷ b'a' ∷ b'a' ∷ b'a' ∷ b'a' ∷ b'a'
    ∷ b'a' ∷ b'a' ∷ []

-- A device that knows of `one` alone closes it and opens `three`.
abbrev change : Change
change = record {
  operation_id = operation;
  revision = 3;
  base = one ∷ [];
  tabs = three ∷ [];
  selected = some three;
}

abbrev lineage : SessionIdentity → SessionLineage
lineage s = record { id = s.id; created_at = s.created_at; restored_from = none }

abbrev sessions : List SessionLineage
sessions = lineage two ∷ lineage three ∷ []

program : Unit {0}
unfolding valid_session_id contains has_id valid_after valid_ids snapshot_valid change_valid empty
    position first_position insert_at place open_tab open_tabs push_missing reorder merged_tabs
    merge live resolve rebase_onto rebase apply_change same_snapshot reconcile
program = tt

abbrev merged : Snapshot
merged = record current { tabs = two ∷ three ∷ [] }

merges : merge current change ≡ ok merged
unfolding program
merges = refl

abbrev reconciled : Transition
reconciled = record {
  state = record merged { applied = operation ∷ []; revision = 5 };
  changed = true;
  conflict = false;
}

reconciles : reconcile current (some change) sessions ≡ ok reconciled
unfolding program
reconciles = refl

merge-members_example :
    (length merged.tabs ≤ max_tabs)
    × (implies (contains three merged.tabs) (kept current change three || added change three)
        ≡ true)
    × (implies (added change three) (contains three merged.tabs) ≡ true)
    × (implies
          (kept current change three && not (clashes three change.tabs))
          (contains three merged.tabs)
        ≡ true)
merge-members_example = merge-members current merged change three merges

reconcile_again_example :
    reconcile reconciled.state (some change) sessions
    ≡ ok (record { state = reconciled.state; changed = false; conflict = false })
reconcile_again_example = reconcile_again sessions current change reconciled reconciles refl

reconcile_revision_example :
    (snapshot_valid reconciled.state ≡ true) × Revised current reconciled.state
reconcile_revision_example =
    reconcile_revision sessions current (some change) reconciled (omega arith) reconciles
