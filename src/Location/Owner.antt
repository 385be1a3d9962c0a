-- ===== src/Location/Owner.antt =====
-- session_location.rs: the owner of a lookup, and what the next callers are told.
use hmux.Base.{
  ◌^◌, ◌/◌, ◌%◌, ℕ, ◌≤◌, ◌<◌, ◌+◌, ◌*◌, ◌≡◌, ◌≢◌, ◌⊎◌, refl, arith, Bool, false, none, some, List,
  [], ◌∷◌, leb, length, if◌then◌else◌, All,
}
use hmux.Base.Eq.{Bytes}
use hmux.Base.Map.{lookup, lookup-insert, lookup-remove}
use hmux.Location.Address.{IpAddr, ip_eq, ip_beq, ip_beq_iff, public_ip, to_canonical, v4, v6}
use hmux.Location.Lookup.{
  Entry, State, own, answer, Next, begin_lookup, stored, drop_pending, hours, hour, without_oldest,
  max_cached,
}
use hmux.Location.Bounds.{Call, begin, end, step, run}

abbrev pub ends : IpAddr → Call → Bool
ends address (begin a now) = false
ends address (end a result now) = ip_beq a address

abbrev pub Others : IpAddr → Call → Type 0
Others address c = ends address c ≡ false

begin_lookup-pending :
    (s : State) (a b : IpAddr) (now : ℕ)
    → lookup a s.pending ≢ none
    → (lookup a (begin_lookup s b now).0.pending ≢ none) × ((begin_lookup s a now).1 ≢ own)
unfolding begin_lookup
begin_lookup-pending s a b now h = ground (arith, lookup-insert b a tt s.pending)

step-pending :
    (s : State) (a : IpAddr) (c : Call)
    → Others a c
    → lookup a s.pending ≢ none
    → lookup a (step s c).pending ≢ none
unfolding step drop_pending
step-pending s a (begin b now) o h = (begin_lookup-pending s a b now h).0
step-pending s a (end b result now) o h = ground (arith, lookup-remove b a s.pending)

run-pending :
    (s : State) (a : IpAddr) (calls : List Call)
    → All (Others a) calls
    → lookup a s.pending ≢ none
    → lookup a (run s calls).pending ≢ none
unfolding run
run-pending s a [] o h = h
run-pending s a (c ∷ calls) o h = run-pending (step s c) a calls o.1 (step-pending s a c o.0 h)

begin_lookup-owned :
    (s t : State) (a : IpAddr) (now : ℕ)
    → begin_lookup s a now ≡ (t, own)
    → lookup a t.pending ≢ none
unfolding begin_lookup
begin_lookup-owned s t a now h = ground (arith, lookup-insert a a tt s.pending, ip_beq_iff a a)

-- While the owner of the lookup of an address has not ended it, no other caller owns a lookup of that
-- address, whatever happens at the others.
pub begin_lookup-run :
    (s t : State) (a : IpAddr) (now later : ℕ) (calls : List Call)
    → begin_lookup s a now ≡ (t, own)
    → All (Others a) calls
    → (begin_lookup (run t calls) a later).1 ≢ own
begin_lookup-run s t a now later calls h o =
    (begin_lookup-pending (run t calls) a a later
      (run-pending t a calls o (begin_lookup-owned s t a now h))).1

-- When a lookup ends with a label, callers are answered with it for 24 hours, or for one hour when it
-- is empty, and then own a lookup of the address or are refused.
begin_lookup-drop_pending :
    (s : State) (a : IpAddr) (label : Bytes) (now later : ℕ)
    → let next : Next = (begin_lookup (drop_pending s a (some label) now) a later).1 in
      ((later < now + hours label * hour) × (next ≡ answer label))
      ⊎ ((now + hours label * hour ≤ later) × ((next ≡ own) ⊎ (next ≡ answer [])))
unfolding begin_lookup drop_pending stored
begin_lookup-drop_pending s a label now later =
    let x : Entry = record { label = label; expires = now + hours label * hour } in
    ground (
      arith,
      lookup-insert a a x
          (if leb max_cached (length s.cache) then without_oldest s.cache else s.cache),
      lookup-remove a a s.pending,
      ip_beq_iff a a,
    )

-- An address mapped into IPv6 is treated as the IPv4 address that it maps.
public_ip-mapped : (a : ℕ) → a < 2 ^ 32 → public_ip (v6 (0xffff * 2 ^ 32 + a)) ≡ public_ip (v4 a)
unfolding public_ip to_canonical
public_ip-mapped a h =
    let high : (0xffff * 2 ^ 32 + a) / 2 ^ 32 ≡ 0xffff = omega arith in
    let low : (0xffff * 2 ^ 32 + a) % 2 ^ 32 ≡ a = omega arith in rw (high, low) refl
