-- ===== src/Model/Ids.antt =====
-- crates/hmux-model/src/lib.rs: identities of sessions and the checks of ids.
use hmux.Base.{
  ℕ, ◌≡◌, ◌↔◌, arith, Bool, true, false, not, ◌&&◌, ◌||◌, [], ◌∷◌, ltb, leb, ◌==◌, length,
}
use hmux.Base.Int.{ℤ, pos, negsuc, int_beq, int_beq_iff}
use hmux.Base.Eq.{Bytes, bytes_beq, bytes_beq_iff, Eq}

pub record SessionIdentity : Type 0 where
  pub id : Bytes
  pub created_at : ℤ

abbrev pub identity_beq : SessionIdentity → SessionIdentity → Bool
identity_beq a b = bytes_beq a.id b.id && int_beq a.created_at b.created_at

pub identity_beq_iff : (a b : SessionIdentity) → (identity_beq a b ≡ true) ↔ (a ≡ b)
identity_beq_iff a b = (
  λ h. ground (arith, bytes_beq_iff a.id b.id, int_beq_iff a.created_at b.created_at),
  λ h. ground (arith, bytes_beq_iff a.id b.id, int_beq_iff a.created_at b.created_at),
)

instance abbrev pub identity_eq : Eq SessionIdentity
identity_eq = record { beq = identity_beq; beq_iff = identity_beq_iff }

abbrev pub is_digit : ℕ → Bool
is_digit b = leb b'0' b && leb b b'9'

abbrev pub is_lowercase : ℕ → Bool
is_lowercase b = leb b'a' b && leb b b'z'

abbrev pub all_bytes : (ℕ → Bool) → Bytes → Bool
all_bytes p [] = true
all_bytes p (b ∷ bs) = p b && all_bytes p bs

abbrev pub is_positive : ℤ → Bool
is_positive (pos n) = ltb 0 n
is_positive (negsuc n) = false

-- Whether `validate_session_id` accepts the id.
unfoldable pub valid_session_id : Bytes → Bool
valid_session_id [] = false
valid_session_id (b ∷ digits) =
    not (ltb (length (b ∷ digits)) 2)
    && not (ltb 13 (length (b ∷ digits)))
    && b == b'$'
    && all_bytes is_digit digits

abbrev pub stable_byte : ℕ → Bool
stable_byte b = is_lowercase b || is_digit b || b == b'-'

-- Whether `validate_stable_id` accepts the id.
unfoldable pub valid_stable_id : Bytes → Bool
valid_stable_id [] = false
valid_stable_id (b ∷ bs) =
    not (ltb 63 (length (b ∷ bs))) && is_lowercase b && all_bytes stable_byte bs
