-- ===== src/Wire/Codec.antt =====
-- wire.rs: the message, the limits of its fields, `encode` and `decode`. What serde makes of a message
-- and of a text are arguments.
use hmux.Base.{
  ℕ, ◌*◌, ◌^◌, Bool, true, false, not, ◌&&◌, ◌||◌, Option, none, some, List, [], ◌∷◌, ltb, leb,
  ◌==◌, length, if◌then◌else◌,
}
use hmux.Base.Int.{ℤ}
use hmux.Base.Eq.{bytes_beq}
use hmux.Model.Ids.{SessionIdentity, is_digit, all_bytes, is_positive}
use hmux.Wire.Writer.{Bytes, max_message, new, write_all, finish, is_space, IoResult}

abbrev pub max_data : ℕ
max_data = 32 * 2 ^ 10

abbrev pub max_upload_chunk : ℕ
max_upload_chunk = 256 * 2 ^ 10

abbrev pub is_valid_id : Bytes → Bool
is_valid_id [] = false
is_valid_id (b ∷ digits) =
    b == b'$' && leb 1 (length digits) && leb (length digits) 12 && all_bytes is_digit digits

-- `SessionIdentity::is_valid`; `strip_prefix` leaves the digits.
unfoldable pub is_valid : SessionIdentity → Bool
is_valid s = is_valid_id s.id && is_positive s.created_at

pub record FileHeader : Type 0 where
  pub index : ℤ
  pub size : ℤ
  pub extension : Bytes

pub record UploadHeader : Type 0 where
  pub protocol_version : ℤ
  pub request_id : Bytes
  pub session : SessionIdentity
  pub file_count : ℤ
  pub total_bytes : ℤ
  pub files : Option (List FileHeader)

pub record Message : Type 0 where
  pub kind : Bytes
  pub id : Bytes
  pub operation : Bytes
  pub session : SessionIdentity
  pub payload : Option Bytes
  pub contents : Bytes
  pub cols : ℕ
  pub rows : ℕ
  pub error : Bytes
  pub header : Option UploadHeader
  pub received : ℤ
  pub capabilities : List Bytes

pub data CodecError : Type 0 where
  message_limit invalid_json field_limit : CodecError

pub data Result {ℓ} (A : Type ℓ) : Type ℓ where
  ok : A → Result A
  err : CodecError → Result A

-- "upload-data"
abbrev pub upload_data : Bytes
upload_data = b'u' ∷ b'p' ∷ b'l' ∷ b'o' ∷ b'a' ∷ b'd' ∷ b'-' ∷ b'd' ∷ b'a' ∷ b't' ∷ b'a' ∷ []

abbrev pub bad_capability : Bytes → Bool
bad_capability c = length c == 0 || ltb 64 (length c)

abbrev pub any {ℓ} : {A : Type ℓ} → (A → Bool) → List A → Bool
any p [] = false
any p (x ∷ xs) = p x || any p xs

abbrev pub data_limit : Message → ℕ
data_limit m = if bytes_beq m.kind upload_data then max_upload_chunk else max_data

-- Whether `validate_fields` fails.
unfoldable pub over_limits : Message → Bool
over_limits m =
    ltb (data_limit m) (length m.contents)
    || ltb 64 (length m.id)
    || ltb 128 (length m.error)
    || ltb 16 (length m.capabilities)
    || any bad_capability m.capabilities

abbrev pub first_token : Bytes → Option ℕ
first_token [] = none
first_token (b ∷ raw) = if is_space b then first_token raw else some b

abbrev pub is_brace : Option ℕ → Bool
is_brace none = false
is_brace (some b) = b == b'{'

abbrev pub checked : Option Message → Result Message
checked none = err invalid_json
checked (some m) = if over_limits m then err field_limit else ok m

unfoldable pub decode : (Bytes → Option Message) → Bytes → Result Message
decode from_slice raw =
    if ltb max_message (length raw)
    then err message_limit
    else if not (is_brace (first_token raw))
    then err invalid_json
    else checked (from_slice raw)

-- The pieces that the serializer writes, and whether it ends without an error of its own.
pub record Serialized : Type 0 where
  pub pieces : List Bytes
  pub complete : Bool

abbrev pub long_payload : Option Bytes → Bool
long_payload none = false
long_payload (some p) = ltb max_message (length p)

abbrev pub finished : IoResult → Result Bytes
finished (w, true) = ok w.bytes
finished (w, false) = err message_limit

abbrev pub written : IoResult → Bool → Result Bytes
written (w, true) true = finished (finish w)
written (w, true) false = err (if w.full then message_limit else invalid_json)
written (w, false) complete = err (if w.full then message_limit else invalid_json)

unfoldable pub encode : (Message → Serialized) → Message → Result Bytes
encode to_writer m =
    if over_limits m
    then err field_limit
    else if long_payload m.payload
    then err message_limit
    else written (write_all new (to_writer m).pieces) (to_writer m).complete
