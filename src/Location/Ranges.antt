-- ===== src/Location/Ranges.antt =====
-- session_location.rs: the addresses that `public_ip` refuses, as ranges.
use hmux.Base.{
  ℕ, ◌+◌, ◌-◌, ◌^◌, ◌≡◌, refl, ap, arith, Bool, not, ◌&&◌, List, [], ◌∷◌, ltb, leb, any, All,
}
use hmux.Location.Address.{
  IpAddr, internal_v6, v4, v6, public_ip, is_public, to_canonical, in_network, internal_v4,
}

-- The addresses from the base of a network to its last.
abbrev pub in_range : ℕ → ℕ → ℕ × ℕ → Bool
in_range width value (base, bits) = leb base value && ltb value (base + 2 ^ (width - bits))

abbrev Agrees : ℕ → ℕ → ℕ × ℕ → Type 0
Agrees width value n = in_network width value n ≡ in_range width value n

any-Agrees :
    (width value : ℕ) (ns : List (ℕ × ℕ))
    → All (Agrees width value) ns
    → any (in_network width value) ns ≡ any (in_range width value) ns
any-Agrees width value [] h = refl
any-Agrees width value ((base, bits) ∷ ns) h = rw (h.0, any-Agrees width value ns h.1) refl

internal_v4-Agrees : (a : ℕ) → All (Agrees 32 a) internal_v4
internal_v4-Agrees a = (
  ground arith,
  (
    ground arith,
    (
      ground arith,
      (
        ground arith,
        (
          ground arith,
          (
            ground arith,
            (
              ground arith,
              (
                ground arith,
                (
                  ground arith,
                  (
                    ground arith,
                    (
                      ground arith,
                      (ground arith, (ground arith, (ground arith, (ground arith, tt)))),
                    ),
                  ),
                ),
              ),
            ),
          ),
        ),
      ),
    ),
  ),
)

internal_v6-Agrees : (a : ℕ) → All (Agrees 128 a) internal_v6
internal_v6-Agrees a = (
  ground arith,
  (
    ground arith,
    (
      ground arith,
      (
        ground arith,
        (
          ground arith,
          (
            ground arith,
            (
              ground arith,
              (ground arith, (ground arith, (ground arith, (ground arith, (ground arith, tt))))),
            ),
          ),
        ),
      ),
    ),
  ),
)

-- The address is outside all ranges of its kind.
abbrev pub outside : IpAddr → Bool
outside (v4 a) = not (any (in_range 32 a) internal_v4)
outside (v6 a) = not (any (in_range 128 a) internal_v6)

is_public-eq : (ip : IpAddr) → is_public ip ≡ outside ip
unfolding is_public
is_public-eq (v4 a) = ap not (any-Agrees 32 a internal_v4 (internal_v4-Agrees a))
is_public-eq (v6 a) = ap not (any-Agrees 128 a internal_v6 (internal_v6-Agrees a))

-- The comparison of prefixes accepts the addresses whose canonical form is in none of the ranges from
-- the base of a listed network to its last address.
pub public_ip-eq : (ip : IpAddr) → public_ip ip ≡ outside (to_canonical ip)
unfolding public_ip
public_ip-eq ip = is_public-eq (to_canonical ip)
