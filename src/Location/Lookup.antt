-- ===== src/Location/Lookup.antt =====
-- session_location.rs: the steps of `lookup_inner` under the lock, and the drop of a pending lookup.
use hmux.Base.{
  ℕ, ◌+◌, ◌*◌, Bool, Option, none, some, List, [], ◌∷◌, ltb, leb, length, if◌then◌else◌,
}
use hmux.Base.Eq.{Bytes}
use hmux.Base.Map.{lookup, insert, remove, keep}
use hmux.Location.Address.{IpAddr, ip_eq}

-- An `Instant` is a number of nanoseconds.
pub record Entry : Type 0 where
  pub label : Bytes
  pub expires : ℕ

-- A receiver of `pending` carries no data.
pub record State : Type 0 where
  pub cache : List (IpAddr × Entry)
  pub pending : List (IpAddr × Unit {0})

abbrev pub empty : State
empty = record { cache = []; pending = [] }

abbrev pub max_cached : ℕ
max_cached = 256

abbrev pub max_pending : ℕ
max_pending = 2

-- What `lookup_inner` does next: answer, wait for the owner of the lookup, or own it.
pub data Next : Type 0 where
  answer : Bytes → Next
  wait own : Next

abbrev pub fresh : ℕ → Entry → Bool
fresh now x = ltb now x.expires

abbrev pub owned : State → IpAddr → State × Next
owned s address =
    if leb max_pending (length s.pending)
    then (s, answer [])
    else (record { cache = s.cache; pending = insert address tt s.pending }, own)

abbrev pub uncached : State → IpAddr → Option (Unit {0}) → State × Next
uncached s address (some p) = (s, wait)
uncached s address none = owned s address

abbrev pub next_of : State → IpAddr → Option Entry → State × Next
next_of s address (some x) = (s, answer x.label)
next_of s address none = uncached s address (lookup address s.pending)

unfoldable pub begin_lookup : State → IpAddr → ℕ → State × Next
begin_lookup s address now = next_of s address (keep (fresh now) (lookup address s.cache))

-- `min_by_key`: the first of those that expire first.
unfoldable pub first_expiring : IpAddr × Entry → List (IpAddr × Entry) → IpAddr × Entry
first_expiring best [] = best
first_expiring best (x ∷ xs) =
    let later = first_expiring best xs in
    let sooner = first_expiring x xs in if ltb x.1.expires best.1.expires then sooner else later

unfoldable pub without_oldest : List (IpAddr × Entry) → List (IpAddr × Entry)
without_oldest [] = []
without_oldest (x ∷ xs) = remove (first_expiring x xs).0 (x ∷ xs)

abbrev pub hours : Bytes → ℕ
hours [] = 1
hours (b ∷ bs) = 24

-- 3600 seconds in nanoseconds.
abbrev pub hour : ℕ
hour = 3600 * 1_000_000_000

unfoldable pub stored : List (IpAddr × Entry) → IpAddr → Option Bytes → ℕ → List (IpAddr × Entry)
stored cache address none now = cache
stored cache address (some label) now =
    insert address (record { label = label; expires = now + hours label * hour })
      (if leb max_cached (length cache) then without_oldest cache else cache)

-- The owner of a lookup ends, with a label to keep or none.
unfoldable pub drop_pending : State → IpAddr → Option Bytes → ℕ → State
drop_pending s address result now = record {
  cache = stored s.cache address result now;
  pending = remove address s.pending;
}

-- The errors of crates/hmux-gateway/src/push_transport.rs.
pub data FetchError : Type 0 where
  invalid busy unauthorized cancelled timeout unavailable redirect : FetchError

pub data Fetched : Type 0 where
  body : Bytes → Fetched
  failed : FetchError → Fetched

-- The label that the owner keeps: a lookup cut short leaves none, another failure the empty one.
unfoldable pub kept_label : (Bytes → Bytes) → Fetched → Option Bytes
kept_label label (body raw) = some (label raw)
kept_label label (failed cancelled) = none
kept_label label (failed timeout) = none
kept_label label (failed busy) = none
kept_label label (failed invalid) = some []
kept_label label (failed unauthorized) = some []
kept_label label (failed unavailable) = some []
kept_label label (failed redirect) = some []
