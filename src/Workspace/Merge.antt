-- ===== src/Workspace/Merge.antt =====
-- workspace.rs: `merge`, the three-way merge of a device's change into the shared tabs.
use hmux.Base.{
  ℕ, zero, suc, Bool, true, false, not, ◌&&◌, ◌||◌, Option, none, some, [], ◌∷◌, ◌++◌, ltb, length,
  filter, if◌then◌else◌,
}
use hmux.Base.Int.{pos}
use hmux.Base.Eq.{bytes_beq}
use hmux.Model.Ids.{SessionIdentity, identity_eq, identity_beq}
use hmux.Workspace.State.{
  Tabs, Snapshot, Change, invalid, too_many_tabs, Result, ok, err, contains, snapshot_valid,
  change_valid, max_tabs,
}

abbrev pub shift : Option ℕ → Option ℕ
shift none = none
shift (some n) = some (suc n)

abbrev pub or_else : Option ℕ → Option ℕ → Option ℕ
or_else none o = o
or_else (some n) o = some n

unfoldable pub position : SessionIdentity → Tabs → Option ℕ
position x [] = none
position x (y ∷ ys) = if identity_beq y x then some 0 else shift (position x ys)

-- `find_map` of the positions of the first list in the second.
unfoldable pub first_position : Tabs → Tabs → Option ℕ
first_position [] tabs = none
first_position (x ∷ xs) tabs = or_else (position x tabs) (first_position xs tabs)

abbrev pub unwrap_or : Option ℕ → ℕ → ℕ
unwrap_or none d = d
unwrap_or (some n) d = n

-- `Vec::insert`; the code's positions are at most the length.
unfoldable pub insert_at : ℕ → SessionIdentity → Tabs → Tabs
insert_at zero x ys = x ∷ ys
insert_at (suc n) x [] = x ∷ []
insert_at (suc n) x (y ∷ ys) = y ∷ insert_at n x ys

-- Before the next tab of the change that is open, or after the previous one, or at the end.
unfoldable pub place : Tabs → Tabs → Tabs → ℕ
place previous next tabs =
    unwrap_or (or_else (first_position next tabs) (shift (first_position previous tabs)))
      (length tabs)

abbrev pub other_id : SessionIdentity → SessionIdentity → Bool
other_id id old = not (bytes_beq old.id id.id)

unfoldable pub open_tab : Tabs → Tabs → Tabs → SessionIdentity → Tabs → Tabs
open_tab base previous next id tabs =
    if contains id base || contains id tabs
    then tabs
    else insert_at (place previous next (filter (other_id id) tabs)) id (filter (other_id id) tabs)

-- The loop over the change's tabs; `previous` is those before, the latest first.
unfoldable pub open_tabs : Tabs → Tabs → Tabs → Tabs → Tabs
open_tabs base previous [] tabs = tabs
open_tabs base previous (id ∷ next) tabs =
    open_tabs base (id ∷ previous) next (open_tab base previous next id tabs)

abbrev pub stays : Change → SessionIdentity → Bool
stays change id = not (contains id change.base) || contains id change.tabs

abbrev pub same_tabs : Tabs → Tabs → Bool
same_tabs [] [] = true
same_tabs (x ∷ xs) (y ∷ ys) = identity_beq x y && same_tabs xs ys
same_tabs (x ∷ xs) [] = false
same_tabs [] (y ∷ ys) = false

-- The tabs that the list does not have yet, at its end.
unfoldable pub push_missing : Tabs → Tabs → Tabs
push_missing ordered [] = ordered
push_missing ordered (id ∷ ids) =
    push_missing (if contains id ordered then ordered else ordered ++ id ∷ []) ids

-- The tabs in the order of the change, if it moved one.
unfoldable pub reorder : Change → Tabs → Tabs
reorder change tabs =
    if same_tabs (filter (λ id. contains id change.tabs) change.base)
      (filter (λ id. contains id change.base) change.tabs)
    then tabs
    else push_missing (filter (λ id. contains id tabs) change.tabs) tabs

unfoldable pub merged_tabs : Tabs → Change → Tabs
merged_tabs tabs change =
    reorder change (open_tabs change.base [] change.tabs (filter (stays change) tabs))

unfoldable pub merge : Snapshot → Change → Result Snapshot
merge current change =
    if not (snapshot_valid current) || not (change_valid change)
    then err invalid
    else if ltb max_tabs (length (merged_tabs current.tabs change))
    then err too_many_tabs
    else ok (record current {
      version = pos 1;
      initialized = true;
      tabs = merged_tabs current.tabs change;
      selected = none;
    })
