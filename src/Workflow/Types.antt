-- ===== src/Workflow/Types.antt =====
-- workflow.rs: the rows of the file, the statuses and the checks of texts and hashes.
use hmux.Base.{
  ℕ, ◌+◌, ◌/◌, ◌%◌, Bool, true, false, not, ◌&&◌, ◌||◌, Option, none, some, List, [], ◌∷◌, ◌++◌,
  ltb, leb, ◌==◌, length, take, any, if◌then◌else◌,
}
use hmux.Base.Int.{ℤ}
use hmux.Base.Eq.{Bytes, bytes_beq}
use hmux.Model.Ids.{SessionIdentity, valid_session_id, is_positive, all_bytes, is_digit}

pub data Error : Type 0 where
  invalid unavailable busy cancelled : Error

pub data Result {ℓ} (A : Type ℓ) : Type ℓ where
  ok : A → Result A
  err : Error → Result A

abbrev pub max_hook : ℕ
max_hook = 262144

abbrev pub max_bytes : ℕ
max_bytes = 16777216

abbrev pub max_workflows : ℕ
max_workflows = 1024

abbrev pub max_nodes : ℕ
max_nodes = 128

abbrev pub stale_after : ℕ
stale_after = 7200

abbrev pub retain_for : ℕ
retain_for = 604800

-- A status is one of the texts that `active` or `terminal` knows; `valid` refuses a file with another.
pub data Status : Type 0 where
  running waiting_approval waiting_input completed failed interrupted stale : Status

abbrev pub active : Status → Bool
active running = true
active waiting_approval = true
active waiting_input = true
active completed = false
active failed = false
active interrupted = false
active stale = false

abbrev pub terminal : Status → Bool
terminal running = false
terminal waiting_approval = false
terminal waiting_input = false
terminal completed = true
terminal failed = true
terminal interrupted = true
terminal stale = true

abbrev pub status_beq : Status → Status → Bool
status_beq running running = true
status_beq waiting_approval waiting_approval = true
status_beq waiting_input waiting_input = true
status_beq completed completed = true
status_beq failed failed = true
status_beq interrupted interrupted = true
status_beq stale stale = true
status_beq _ _ = false

-- The same for a source: `valid` refuses a third.
pub data Source : Type 0 where
  codex_hook codex_orchestra : Source

abbrev pub is_hook : Source → Bool
is_hook codex_hook = true
is_hook codex_orchestra = false

-- Times are seconds; `valid` refuses one that is not positive.
pub record Node : Type 0 where
  pub id : Bytes
  pub parent_id : Bytes
  pub node_type : Bytes
  pub provider : Bytes
  pub status : Status
  pub started_at : ℕ
  pub updated_at : ℕ
  pub ended_at : ℕ

pub record Item : Type 0 where
  pub id : Bytes
  pub tmux_session_id : Bytes
  pub tmux_created_at : ℤ
  pub source : Source
  pub session_id : Bytes
  pub turn_id : Bytes
  pub status : Status
  pub model : Bytes
  pub started_at : ℕ
  pub updated_at : ℕ
  pub ended_at : ℕ
  pub nodes : List (Bytes × Node)

pub record State : Type 0 where
  pub version : ℕ
  pub workflows : List (Bytes × Item)
  pub updated_at : Bytes

-- What the code uses of others: the characters of a text and their UTF-8, `char::is_control`, `trim`,
-- `to_ascii_lowercase`, SHA-256 and the JSON of the file.
pub record Env : Type 0 where
  pub chars : Bytes → List ℕ
  pub encode : ℕ → Bytes
  pub is_control : ℕ → Bool
  pub trim : Bytes → Bytes
  pub lowercase : Bytes → Bytes
  pub digest : Bytes → Bytes
  pub json : State → Option Bytes
  pub parse : Bytes → Option State

abbrev pub is_bidi_control : ℕ → Bool
is_bidi_control c =
    c == 1564 || c == 8206 || c == 8207 || (leb 8234 c && leb c 8238) || (leb 8294 c && leb c 8297)

abbrev pub hex_digit : ℕ → ℕ
hex_digit n = if ltb n 10 then b'0' + n else 87 + n

abbrev pub hex : Bytes → Bytes
hex [] = []
hex (b ∷ bs) = hex_digit (b / 16) ∷ hex_digit (b % 16) ∷ hex bs

abbrev pub is_hex : ℕ → Bool
is_hex b = is_digit b || (leb b'a' b && leb b b'f')

abbrev pub strip_prefix : Bytes → Bytes → Option Bytes
strip_prefix [] s = some s
strip_prefix (p ∷ ps) [] = none
strip_prefix (p ∷ ps) (b ∷ bs) = if p == b then strip_prefix ps bs else none

abbrev pub is_hash : Option Bytes → Bool
is_hash none = false
is_hash (some v) = (length v == 32) && all_bytes is_hex v

abbrev pub hashed : Bytes → List Bytes → Bool
hashed s prefixes = any (λ p. is_hash (strip_prefix p s)) prefixes

abbrev pub binding_valid : SessionIdentity → Bool
binding_valid b = valid_session_id b.id && is_positive b.created_at

abbrev pub is_empty : Bytes → Bool
is_empty [] = true
is_empty (b ∷ bs) = false

module _ (e : Env) where
  abbrev pub cleaned : ℕ → ℕ
  cleaned c = if e.is_control c || is_bidi_control c then 32 else c

  abbrev pub safe_chars : ℕ → Bytes → List ℕ → Bytes
  safe_chars max_len result [] = result
  safe_chars max_len result (c ∷ cs) =
      let next = result ++ e.encode (cleaned c) in
      let rest = safe_chars max_len next cs in if ltb max_len (length next) then result else rest

  unfoldable pub safe_text : Bytes → ℕ → Bytes
  safe_text value max_len =
      if max_len == 0 then [] else e.trim (safe_chars max_len [] (e.chars value))

  abbrev pub opaque : Bytes → ℕ → Bool
  opaque s max_len =
      not (is_empty s)
      && leb (length s) max_len
      && bytes_beq (e.trim s) s
      && bytes_beq (safe_text s max_len) s

  unfoldable pub hash : Bytes → Bytes → Bytes
  hash kind value = kind ++ hex (take 16 (e.digest (kind ++ 0 ∷ value)))
