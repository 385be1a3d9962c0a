-- ===== src/Location/Bounds.antt =====
-- session_location.rs: sequences of calls, and the sizes of the cache and of the lookups in flight.
use hmux.Base.{
  ℕ, ◌≤◌, ◌<◌, ◌+◌, ◌*◌, ◌≢◌, refl, arith, Option, none, some, List, [], ◌∷◌, leb, length, if_lem,
}
use hmux.Base.Eq.{Bytes}
use hmux.Base.Map.{lookup, insert, remove, length-insert, length-remove-le}
use hmux.Location.Address.{IpAddr, ip_eq, ip_beq_iff}
use hmux.Location.Lookup.{
  Entry, State, empty, begin_lookup, first_expiring, without_oldest, stored, drop_pending,
  max_cached, max_pending, hours, hour,
}

pub data Call : Type 0 where
  begin : IpAddr → ℕ → Call
  end : IpAddr → Option Bytes → ℕ → Call

unfoldable pub step : State → Call → State
step s (begin address now) = (begin_lookup s address now).0
step s (end address result now) = drop_pending s address result now

unfoldable pub run : State → List Call → State
run s [] = s
run s (c ∷ calls) = run (step s c) calls

abbrev pub IsBounded : State → Type 0
IsBounded s = (length s.cache ≤ max_cached) × (length s.pending ≤ max_pending)

length-remove-lt :
    (k : IpAddr) (m : List (IpAddr × Entry)) → lookup k m ≢ none → length (remove k m) < length m
unfolding lookup remove
length-remove-lt k [] h = absurd (h refl)
length-remove-lt k ((j, w) ∷ m) h = ground (arith, length-remove-lt k m, length-remove-le k m)

first_expiring-known :
    (x : IpAddr × Entry) (xs : List (IpAddr × Entry))
    → lookup (first_expiring x xs).0 (x ∷ xs) ≢ none
unfolding lookup first_expiring
first_expiring-known x [] = ground (arith, ip_beq_iff x.0 x.0)
first_expiring-known x (y ∷ ys) =
    ground (arith, first_expiring-known x ys, first_expiring-known y ys)

length-without_oldest-le :
    (m : List (IpAddr × Entry)) → length m ≤ max_cached → length (without_oldest m) < max_cached
unfolding without_oldest
length-without_oldest-le [] h = omega arith
length-without_oldest-le (x ∷ xs) h =
    ground (arith, length-remove-lt (first_expiring x xs).0 (x ∷ xs) (first_expiring-known x xs))

length-stored-le :
    (cache : List (IpAddr × Entry)) (address : IpAddr) (result : Option Bytes) (now : ℕ)
    → length cache ≤ max_cached
    → length (stored cache address result now) ≤ max_cached
unfolding stored
length-stored-le cache address none now h = h
length-stored-le cache address (some label) now h =
    let x : Entry = record { label = label; expires = now + hours label * hour } in
    if_lem (λ m. length (insert address x m) ≤ max_cached) (leb max_cached (length cache))
      (λ full.
        ground
          (arith, length-without_oldest-le cache h, length-insert address x (without_oldest cache)))
      (λ room. ground (arith, length-insert address x cache))

step-IsBounded : (s : State) (c : Call) → IsBounded s → IsBounded (step s c)
unfolding step begin_lookup drop_pending
step-IsBounded s (begin address now) b = ground (arith, length-insert address tt s.pending)
step-IsBounded s (end address result now) b = (
  length-stored-le s.cache address result now b.0,
  ground (arith, length-remove-le address s.pending),
)

run-IsBounded : (s : State) (calls : List Call) → IsBounded s → IsBounded (run s calls)
unfolding run
run-IsBounded s [] b = b
run-IsBounded s (c ∷ calls) b = run-IsBounded (step s c) calls (step-IsBounded s c b)

-- From an empty cache, after any calls at most 256 labels are cached and at most 2 lookups are in flight.
pub calls-IsBounded : (calls : List Call) → IsBounded (run empty calls)
calls-IsBounded calls = run-IsBounded empty calls (omega arith, omega arith)
