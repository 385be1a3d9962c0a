-- ===== src/Hub/State.antt =====
-- The types of crates/hmux-gateway/src/hub.rs. Ids and texts are bytes. The contents of a result
-- and of a snapshot are bytes too, and an `Instant` is a number of nanoseconds.
use hmux.Base.{ℕ, Bool, false, List, [], Option, none, some, ◌==◌}
use hmux.Base.Channel.{Mpsc}

abbrev pub max_pending : ℕ
max_pending = 16

abbrev pub max_views : ℕ
max_views = 8

abbrev pub max_uploads : ℕ
max_uploads = 2

abbrev pub view_frames : ℕ
view_frames = 64

abbrev pub upload_events : ℕ
upload_events = 3

-- Codes of a closed view; 0 while it is open.
abbrev pub home_offline : ℕ
home_offline = 4001

abbrev pub output_full : ℕ
output_full = 4002

abbrev pub view_exited : ℕ
view_exited = 4003

pub data Error : Type 0 where
  offline stale busy capacity unsupported invalid cancelled transport : Error
  output_overflow remote_operation : Error

pub data Operation : Type 0 where
  profiles create alias hidden conversation workspace providers provider_key : Operation
  provider_job_start provider_job provider_job_input provider_job_cancel unspecified : Operation

pub data ResponseContext : Type 0 where
  operation : Operation → ResponseContext
  terminal_open empty upload : ResponseContext

pub data ResultKind : Type 0 where
  profiles created ok conversation workspace providers staged : ResultKind

pub record Response : Type 0 where
  pub id : List ℕ
  pub error : List ℕ
  pub result : Option ResultKind
  pub contents : List ℕ

pub data ViewEvent : Type 0 where
  output : List ℕ → ViewEvent
  exit : List ℕ → ViewEvent
  refresh_result : Bool → ViewEvent

pub data UploadEvent : Type 0 where
  ready : UploadEvent
  ack : ℕ → UploadEvent
  complete failed : Response → UploadEvent

pub data Protocol : Type 0 where
  json_v1 protobuf_v2 : Protocol

pub record Peer : Type 0 where
  pub generation : ℕ
  pub protocol : Protocol

pub record Pending : Type 0 where
  pub generation : ℕ
  pub context : ResponseContext

-- The cleanup frames that the hub sends to Home.
pub data Cleanup : Type 0 where
  close cancel upload_cancel : List ℕ → Cleanup

-- What an operation does besides changing the state: it answers the owner of a pending request,
-- closes the sender of a connection, or hands it a cleanup frame.
pub data Effect : Type 0 where
  answered : List ℕ → Option Error → Effect
  closed_sender : ℕ → Effect
  sent_cleanup : ℕ → Cleanup → Effect

-- The channels between the hub and the owners of views and uploads.
pub record Channels : Type 1 where
  pub view : Mpsc ViewEvent
  pub upload : Mpsc UploadEvent

module _ (c : Channels) where
  -- The cell of a view that the hub and the lease of its owner share.
  pub record ViewState : Type 0 where
    pub generation : ℕ
    pub events : c.view.Chan
    pub closed : ℕ
    pub queued_data : ℕ

  pub record UploadState : Type 0 where
    pub generation : ℕ
    pub events : c.upload.Chan
    pub terminal : Bool

  -- `gone` holds the cells of views that the hub has removed and whose leases may still read them.
  pub record State : Type 0 where
    pub next_generation : ℕ
    pub next_id : ℕ
    pub peer : Option Peer
    pub pending : List (List ℕ × Pending)
    pub views : List (List ℕ × ViewState)
    pub gone : List (List ℕ × ViewState)
    pub uploads : List (List ℕ × UploadState)
    pub catalog : Option (List ℕ)
    pub claude_usage : Option (List ℕ)
    pub codex_usage : Option (List ℕ)
    pub updated : Option ℕ
    pub output_cap : Bool
    pub upload_cap : Bool

  unfoldable pub new : State
  new = record {
    next_generation = 0;
    next_id = 0;
    peer = none;
    pending = [];
    views = [];
    gone = [];
    uploads = [];
    catalog = none;
    claude_usage = none;
    codex_usage = none;
    updated = none;
    output_cap = false;
    upload_cap = false;
  }

  -- What an operation returns: the state, its effects in order, and an error if there is one.
  pub record Outcome : Type 0 where
    pub state : State
    pub effects : List Effect
    pub error : Option Error

  abbrev pub done : State → Outcome
  done s = record { state = s; effects = []; error = none }

  abbrev pub fail : State → Error → Outcome
  fail s e = record { state = s; effects = []; error = some e }

-- `state.peer.as_ref().is_none_or(|peer| peer.generation != generation)`, negated.
abbrev pub is_live : Option Peer → ℕ → Bool
is_live none g = false
is_live (some p) g = p.generation == g
