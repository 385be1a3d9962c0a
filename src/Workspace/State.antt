-- ===== src/Workspace/State.antt =====
-- workspace.rs: the snapshot of the tabs, a device's change to it, and when each is valid.
use Prim.Native.String.{String}
use hmux.Base.{
  ℕ, Bool, true, false, not, ◌&&◌, ◌||◌, Option, none, some, List, [], ◌∷◌, leb, ◌==◌, length,
}
use hmux.Base.Int.{ℤ, pos, int_beq}
use hmux.Base.Eq.{Bytes, Eq, bytes_beq, bytes_eq, string_eq}
use hmux.Model.Ids.{
  SessionIdentity, identity_eq, valid_session_id, is_positive, is_digit, is_lowercase, all_bytes,
}

abbrev pub max_tabs : ℕ
max_tabs = 32

abbrev pub history : ℕ
history = 64

pub record SessionLineage : Type 0 where
  pub id : Bytes
  pub created_at : ℤ
  pub restored_from : Option SessionIdentity

abbrev pub Tabs : Type 0
Tabs = List SessionIdentity

pub record Snapshot : Type 0 where
  pub conflict : String
  pub applied : List Bytes
  pub version : ℤ
  pub initialized : Bool
  pub revision : ℕ
  pub tabs : Tabs
  pub selected : Option SessionIdentity

pub record Change : Type 0 where
  pub operation_id : Bytes
  pub revision : ℕ
  pub base : Tabs
  pub tabs : Tabs
  pub selected : Option SessionIdentity

pub data Error : Type 0 where
  invalid too_many_tabs revision_exhausted : Error

pub data Result {ℓ} (A : Type ℓ) : Type ℓ where
  ok : A → Result A
  err : Error → Result A

module _ {ℓ} {A : Type ℓ} ⦃e : Eq A⦄ where
  unfoldable pub contains : A → List A → Bool
  contains x [] = false
  contains x (y ∷ ys) = e.beq y x || contains x ys

-- Whether a tab of the list has this id, whatever its lifetime.
unfoldable pub has_id : Bytes → Tabs → Bool
has_id id [] = false
has_id id (t ∷ ts) = bytes_beq t.id id || has_id id ts

-- The tabs after those of `previous`.
unfoldable pub valid_after : Tabs → Tabs → Bool
valid_after previous [] = true
valid_after previous (t ∷ ts) =
    valid_session_id t.id
    && is_positive t.created_at
    && not (has_id t.id previous)
    && valid_after (t ∷ previous) ts

unfoldable pub valid_ids : Tabs → Bool
valid_ids ids = leb (length ids) max_tabs && valid_after [] ids

abbrev pub selects : Option SessionIdentity → Tabs → Bool
selects none tabs = true
selects (some s) tabs = contains s tabs

unfoldable pub snapshot_valid : Snapshot → Bool
snapshot_valid s =
    (string_eq.beq s.conflict "" || string_eq.beq s.conflict "workspace_conflict")
    && leb (length s.applied) history
    && int_beq s.version (pos 1)
    && valid_ids s.tabs
    && selects s.selected s.tabs

abbrev pub is_uppercase : ℕ → Bool
is_uppercase b = leb b'A' b && leb b b'Z'

abbrev pub is_operation_byte : ℕ → Bool
is_operation_byte b = is_uppercase b || is_lowercase b || is_digit b || b == b'-'

unfoldable pub change_valid : Change → Bool
change_valid c =
    leb 16 (length c.operation_id)
    && leb (length c.operation_id) 80
    && all_bytes is_operation_byte c.operation_id
    && valid_ids c.base
    && valid_ids c.tabs
    && selects c.selected c.tabs

unfoldable pub empty : Snapshot
empty = record {
  conflict = "";
  applied = [];
  version = pos 1;
  initialized = false;
  revision = 0;
  tabs = [];
  selected = none;
}
