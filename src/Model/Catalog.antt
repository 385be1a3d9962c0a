-- ===== src/Model/Catalog.antt =====
-- crates/hmux-model/src/lib.rs: the catalog of sessions. `F` stands for `f64`.
use hmux.Base.{ℕ, ◌^◌, Bool, true, false, not, ◌&&◌, Option, none, some, List, [], ◌∷◌, ltb, leb}
use hmux.Base.Int.{ℤ}
use hmux.Base.Eq.{Bytes}
use hmux.Model.Ids.{SessionIdentity}

pub record WorkflowSummary : Type 0 where
  pub running : ℤ
  pub waiting_approval : ℤ
  pub waiting_input : ℤ
  pub completed : ℤ
  pub failed : ℤ
  pub interrupted : ℤ
  pub stale : ℤ
  pub updated_at : ℤ

pub record WorkflowNode : Type 0 where
  pub id : Bytes
  pub parent_id : Bytes
  pub node_type : Bytes
  pub provider : Bytes
  pub status : Bytes
  pub started_at : ℤ
  pub updated_at : ℤ
  pub ended_at : ℤ

pub record Workflow : Type 0 where
  pub id : Bytes
  pub source : Bytes
  pub session_id : Bytes
  pub turn_id : Bytes
  pub status : Bytes
  pub model : Bytes
  pub started_at : ℤ
  pub updated_at : ℤ
  pub ended_at : ℤ
  pub nodes : Option (List WorkflowNode)

pub record Session : Type 0 where
  pub id : Bytes
  pub name : Bytes
  pub alias : Bytes
  pub hidden : Bool
  pub created_at : ℤ
  pub restored_from : Option SessionIdentity
  pub activity_at : ℤ
  pub attached : ℤ
  pub window_count : ℤ
  pub window_names : Option (List Bytes)
  pub active_window : Bytes
  pub current_path : Bytes
  pub current_command : Bytes
  pub profile : Bytes
  pub label : Bytes
  pub tags : Option (List Bytes)
  pub kind : Bytes
  pub runtime : Bytes
  pub model : Bytes
  pub state : Bytes
  pub process : Bytes
  pub working_since : ℤ
  pub width : ℤ
  pub height : ℤ
  pub workflow : Option WorkflowSummary
  pub workflows : Option (List Workflow)
  pub pane_pid : ℤ

abbrev pub maximum_host_memory_bytes : ℕ
maximum_host_memory_bytes = 2 ^ 60

-- "0001-01-01T00:00:00Z"
abbrev pub go_zero_time : Bytes
go_zero_time =
    b'0' ∷ b'0' ∷ b'0' ∷ b'1' ∷ b'-' ∷ b'0' ∷ b'1' ∷ b'-' ∷ b'0' ∷ b'1' ∷ b'T' ∷ b'0' ∷ b'0' ∷ b':'
    ∷ b'0' ∷ b'0' ∷ b':' ∷ b'0' ∷ b'0' ∷ b'Z' ∷ []

-- `observed_ok` says that chrono reads the text as a time in UTC that is not the zero time, and
-- `percent_ok` that a float is finite and from 0 to 100.
pub record Readings : Type 1 where
  pub F : Type 0
  pub observed_ok : Bytes → Bool
  pub percent_ok : F → Bool

module _ (e : Readings) where
  open e use {F, observed_ok, percent_ok}

  pub record HostMetrics : Type 0 where
    pub observed_at : Bytes
    pub cpu_percent : Option F
    pub gpu_percent : Option F
    pub memory_used_bytes : Option ℕ
    pub memory_total_bytes : Option ℕ
    pub disk_used_bytes : Option ℕ
    pub disk_total_bytes : Option ℕ

  pub record Catalog : Type 0 where
    pub protocol_version : ℤ
    pub generated_at : Bytes
    pub sessions : Option (List Session)
    pub host_metrics : Option HostMetrics

  abbrev pub default_metrics : HostMetrics
  default_metrics = record {
    observed_at = go_zero_time;
    cpu_percent = none;
    gpu_percent = none;
    memory_used_bytes = none;
    memory_total_bytes = none;
    disk_used_bytes = none;
    disk_total_bytes = none;
  }

  abbrev pub absent {ℓ} : {A : Type ℓ} → Option A → Bool
  absent none = true
  absent (some a) = false

  abbrev pub in_percent : Option F → Bool
  in_percent none = true
  in_percent (some p) = percent_ok p

  abbrev pub pair_ok : ℕ → Option ℕ → Option ℕ → Bool
  pair_ok maximum none none = true
  pair_ok maximum (some used) (some total) = ltb 0 total && leb total maximum && leb used total
  pair_ok maximum none (some total) = false
  pair_ok maximum (some used) none = false

  -- Whether `HostMetrics::validate` accepts.
  unfoldable pub metrics_valid : HostMetrics → Bool
  metrics_valid m =
      observed_ok m.observed_at
      && not (
          absent m.cpu_percent
          && absent m.gpu_percent
          && absent m.memory_used_bytes
          && absent m.memory_total_bytes
          && absent m.disk_used_bytes
          && absent m.disk_total_bytes)
      && in_percent m.cpu_percent
      && in_percent m.gpu_percent
      && pair_ok maximum_host_memory_bytes m.memory_used_bytes m.memory_total_bytes
      && pair_ok (2 ^ 53) m.disk_used_bytes m.disk_total_bytes
