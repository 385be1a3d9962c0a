-- ===== src/Hub/Peers.antt =====
-- hub.rs: the life of the Home connection, from `attach` to `detach`, and what readers see of it.
use hmux.Base.{
  ℕ, ◌+◌, ◌-◌, ◌^◌, Bool, true, false, ◌&&◌, List, [], ◌∷◌, ◌++◌, Option, none, some, ltb, ◌==◌,
  if◌then◌else◌,
}
use hmux.Hub.State.{
  Error, offline, stale, busy, capacity, Peer, Pending, Protocol, Effect, answered, closed_sender,
  sent_cleanup, Cleanup, Channels, ViewState, State, Outcome, done, fail, is_live, home_offline,
}

abbrev pub u64_max : ℕ
u64_max = 2 ^ 64 - 1

-- 40 seconds.
abbrev pub catalog_fresh : ℕ
catalog_fresh = 40_000_000_000

pub record Snapshot : Type 0 where
  pub connected : Bool
  pub online : Bool
  pub generation : Option ℕ
  pub catalog : Option (List ℕ)
  pub claude_usage : Option (List ℕ)
  pub codex_usage : Option (List ℕ)
  pub output_flow : Bool
  pub upload : Bool

-- The error that answers each request which is still pending.
abbrev pub answers : Error → List (List ℕ × Pending) → List Effect
answers reason [] = []
answers reason ((id, p) ∷ pending) = answered id (some reason) ∷ answers reason pending

abbrev pub is_fresh : Option ℕ → ℕ → Bool
is_fresh none now = false
is_fresh (some at) now = ltb (now - at) catalog_fresh

abbrev pub is_connected : Option Peer → Bool
is_connected none = false
is_connected (some p) = true

abbrev pub generation_of : Option Peer → Option ℕ
generation_of none = none
generation_of (some p) = some p.generation

module _ (c : Channels) where
  -- The part of `attach` under the lock; its reader task calls `dispatch` and then `detach`.
  unfoldable pub attach : State c → Protocol → Outcome c
  attach s protocol = elim s.peer [
    | some p ↦ fail c s busy
    | none ↦
        if s.next_generation == u64_max
        then fail c s capacity
        else done c (record s {
          next_generation = s.next_generation + 1;
          peer = some (record { generation = s.next_generation + 1; protocol = protocol });
        })
  ]

  abbrev pub store_closed : ℕ → List (List ℕ × ViewState c) → List (List ℕ × ViewState c)
  store_closed code [] = []
  store_closed code ((id, v) ∷ views) = (id, record v { closed = code }) ∷ store_closed code views

  unfoldable pub detach_with_reason : State c → ℕ → Error → Outcome c
  detach_with_reason s generation reason =
      if is_live s.peer generation
      then record {
        state = record s {
          peer = none;
          pending = [];
          views = [];
          gone = store_closed home_offline s.views ++ s.gone;
          uploads = [];
          catalog = none;
          claude_usage = none;
          codex_usage = none;
          updated = none;
          output_cap = false;
          upload_cap = false;
        };
        effects = closed_sender generation ∷ answers reason s.pending;
        error = none;
      }
      else done c s

  unfoldable pub detach : State c → ℕ → Outcome c
  unfolding detach_with_reason
  detach s generation = detach_with_reason s generation offline

  unfoldable pub snapshot : State c → ℕ → Snapshot
  snapshot s now = record {
    connected = is_connected s.peer;
    online = is_connected s.peer && is_fresh s.updated now;
    generation = generation_of s.peer;
    catalog = s.catalog;
    claude_usage = s.claude_usage;
    codex_usage = s.codex_usage;
    output_flow = s.output_cap;
    upload = s.upload_cap;
  }

  -- Whether an owner's generation is the live one.
  unfoldable pub check_peer : State c → ℕ → Option Error
  check_peer s generation = elim s.peer [
    | none ↦ some offline
    | some p ↦ if p.generation == generation then none else some stale
  ]

  -- A cleanup frame goes to the live connection of its generation or nowhere. The sender of a
  -- connection that cannot take it is closed, as part of that effect.
  unfoldable pub cleanup : State c → ℕ → Cleanup → List Effect
  unfolding check_peer
  cleanup s generation body = elim (check_peer s generation) [
    | some e ↦ []
    | none ↦ sent_cleanup generation body ∷ []
  ]
