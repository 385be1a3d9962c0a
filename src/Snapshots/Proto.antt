-- ===== src/Snapshots/Proto.antt =====
-- crates/hmux-protocol/src/generated/hmux.v2.rs: the protobuf form of the catalog.
use hmux.Base.{ℕ, Bool, Option, List}
use hmux.Base.Int.{ℤ}
use hmux.Base.Eq.{Bytes}
use hmux.Model.Catalog.{Readings}

pub record ProtoSession : Type 0 where
  pub id : Bytes
  pub created_at : ℤ

pub record CatalogStrings : Type 0 where
  pub items : List Bytes

pub record CatalogWorkflowSummary : Type 0 where
  pub running : ℤ
  pub waiting_approval : ℤ
  pub waiting_input : ℤ
  pub completed : ℤ
  pub failed : ℤ
  pub interrupted : ℤ
  pub stale : ℤ
  pub updated_at : ℤ

pub record CatalogWorkflowNode : Type 0 where
  pub id : Bytes
  pub parent_id : Bytes
  pub node_type : Bytes
  pub provider : Bytes
  pub status : Bytes
  pub started_at : ℤ
  pub updated_at : ℤ
  pub ended_at : ℤ

pub record CatalogWorkflowNodes : Type 0 where
  pub items : List CatalogWorkflowNode

pub record CatalogWorkflow : Type 0 where
  pub id : Bytes
  pub source : Bytes
  pub session_id : Bytes
  pub turn_id : Bytes
  pub status : Bytes
  pub model : Bytes
  pub started_at : ℤ
  pub updated_at : ℤ
  pub ended_at : ℤ
  pub nodes : Option CatalogWorkflowNodes

pub record CatalogWorkflows : Type 0 where
  pub items : List CatalogWorkflow

pub record CatalogSession : Type 0 where
  pub identity : Option ProtoSession
  pub name : Bytes
  pub alias : Bytes
  pub hidden : Bool
  pub restored_from : Option ProtoSession
  pub activity_at : ℤ
  pub attached_clients : ℤ
  pub window_count : ℤ
  pub window_names : Option CatalogStrings
  pub active_window : Bytes
  pub current_path : Bytes
  pub current_command : Bytes
  pub profile : Bytes
  pub label : Bytes
  pub tags : Option CatalogStrings
  pub kind : Bytes
  pub runtime : Bytes
  pub model : Bytes
  pub state : Bytes
  pub process : Bytes
  pub working_since : ℤ
  pub width : ℤ
  pub height : ℤ
  pub workflow : Option CatalogWorkflowSummary
  pub workflows : Option CatalogWorkflows

pub record CatalogSessions : Type 0 where
  pub items : List CatalogSession

module _ (e : Readings) where
  open e use {F}

  pub record CatalogHostMetrics : Type 0 where
    pub observed_at : Bytes
    pub cpu_percent : Option F
    pub gpu_percent : Option F
    pub memory_used_bytes : Option ℕ
    pub memory_total_bytes : Option ℕ
    pub disk_used_bytes : Option ℕ
    pub disk_total_bytes : Option ℕ

  pub record CatalogSnapshot : Type 0 where
    pub protocol_version : ℤ
    pub generated_at : Bytes
    pub sessions : Option CatalogSessions
    pub host_metrics : Option CatalogHostMetrics
