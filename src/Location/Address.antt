-- ===== src/Location/Address.antt =====
-- session_location.rs: `public_ip`, over addresses as numbers of 32 and of 128 bits.
use hmux.Base.{
  ℕ, ◌-◌, ◌/◌, ◌%◌, ◌^◌, ◌≡◌, ◌↔◌, arith, Bool, true, false, not, List, [], ◌∷◌, ◌==◌,
  if◌then◌else◌, any,
}
use hmux.Base.Eq.{Eq}

pub data IpAddr : Type 0 where
  v4 : ℕ → IpAddr
  v6 : ℕ → IpAddr

abbrev pub ip_beq : IpAddr → IpAddr → Bool
ip_beq (v4 a) (v4 b) = a == b
ip_beq (v6 a) (v6 b) = a == b
ip_beq (v4 a) (v6 b) = false
ip_beq (v6 a) (v4 b) = false

pub ip_beq_iff : (a b : IpAddr) → (ip_beq a b ≡ true) ↔ (a ≡ b)
ip_beq_iff (v4 a) (v4 b) = (λ h. ground arith, λ h. ground arith)
ip_beq_iff (v6 a) (v6 b) = (λ h. ground arith, λ h. ground arith)
ip_beq_iff (v4 a) (v6 b) = (λ h. ground arith, λ h. ground arith)
ip_beq_iff (v6 a) (v4 b) = (λ h. ground arith, λ h. ground arith)

instance abbrev pub ip_eq : Eq IpAddr
ip_eq = record { beq = ip_beq; beq_iff = ip_beq_iff }

-- The standard library's: ::ffff:a.b.c.d is a.b.c.d.
unfoldable pub to_canonical : IpAddr → IpAddr
to_canonical (v4 a) = v4 a
to_canonical (v6 a) = if a / 2 ^ 32 == 0xffff then v4 (a % 2 ^ 32) else v6 a

abbrev pub internal_v4 : List (ℕ × ℕ)
internal_v4 =
    (0x00000000, 8)
    ∷ (0x0a000000, 8)
    ∷ (0x64400000, 10)
    ∷ (0x7f000000, 8)
    ∷ (0xa9fe0000, 16)
    ∷ (0xac100000, 12)
    ∷ (0xc0000000, 24)
    ∷ (0xc0000200, 24)
    ∷ (0xc0586300, 24)
    ∷ (0xc0a80000, 16)
    ∷ (0xc6120000, 15)
    ∷ (0xc6336400, 24)
    ∷ (0xcb007100, 24)
    ∷ (0xe0000000, 4)
    ∷ (0xf0000000, 4)
    ∷ []

abbrev pub internal_v6 : List (ℕ × ℕ)
internal_v6 =
    (0, 96)
    ∷ (0x0064ff9b000000000000000000000000, 96)
    ∷ (0x0064ff9b000100000000000000000000, 48)
    ∷ (0x01000000000000000000000000000000, 64)
    ∷ (0x20010000000000000000000000000000, 23)
    ∷ (0x20010db8000000000000000000000000, 32)
    ∷ (0x20020000000000000000000000000000, 16)
    ∷ (0x3fff0000000000000000000000000000, 20)
    ∷ (0x5f000000000000000000000000000000, 16)
    ∷ (0xfc000000000000000000000000000000, 7)
    ∷ (0xfe800000000000000000000000000000, 10)
    ∷ (0xff000000000000000000000000000000, 8)
    ∷ []

-- `value >> (width - bits) == base >> (width - bits)`.
abbrev pub in_network : ℕ → ℕ → ℕ × ℕ → Bool
in_network width value (base, bits) = value / 2 ^ (width - bits) == base / 2 ^ (width - bits)

unfoldable pub is_public : IpAddr → Bool
is_public (v4 a) = not (any (in_network 32 a) internal_v4)
is_public (v6 a) = not (any (in_network 128 a) internal_v6)

unfoldable pub public_ip : IpAddr → Bool
public_ip ip = is_public (to_canonical ip)
