-- ===== src/Wire/Examples.antt =====
-- The codec of wire.rs on small texts, the writer cut within a token and within a character.
use hmux.Base.{
  ◌≡◌, refl, true, false, Option, none, some, List, [], ◌∷◌, length, leb, if◌then◌else◌,
}
use hmux.Base.Int.{pos}
use hmux.Model.Ids.{SessionIdentity, valid_session_id}
use hmux.Wire.Writer.{
  Bytes, new, append, emit_byte, emit, finish, write_byte, write, write_all, concat, max_message,
}
use hmux.Wire.Codec.{
  Message, Serialized, ok, err, message_limit, encode, decode, over_limits, is_valid,
}
use hmux.Wire.Spec.{next_context, is_dropped, compact, escape_byte, separator, escape}
use hmux.Wire.Limits.{canonical, encode-eq}

abbrev terminal : SessionIdentity
terminal = record { id = b'$' ∷ b'4' ∷ []; created_at = pos 7 }

abbrev message : Message
message = record {
  kind = b'p' ∷ [];
  id = [];
  operation = [];
  session = terminal;
  payload = none;
  contents = [];
  cols = 0;
  rows = 0;
  error = [];
  header = none;
  received = pos 0;
  capabilities = [];
}

-- ` { "a <`, the first two bytes of U+2028, its last byte, `" }`.
abbrev pieces : List Bytes
pieces =
    (b' ' ∷ b'{' ∷ b' ' ∷ b'"' ∷ b'a' ∷ b' ' ∷ b'<' ∷ [])
    ∷ (0xe2 ∷ 0x80 ∷ [])
    ∷ (0xa8 ∷ b'"' ∷ b' ' ∷ b'}' ∷ [])
    ∷ []

abbrev to_writer : Message → Serialized
to_writer m = record { pieces = pieces; complete = true }

abbrev from_slice : Bytes → Option Message
from_slice raw = some message

-- `{"a \u003c\u2028"}`
abbrev text : Bytes
text =
    b'{' ∷ b'"' ∷ b'a' ∷ b' ' ∷ b'\\' ∷ b'u' ∷ b'0' ∷ b'0' ∷ b'3' ∷ b'c' ∷ b'\\' ∷ b'u' ∷ b'2'
    ∷ b'0' ∷ b'2' ∷ b'8' ∷ b'"' ∷ b'}' ∷ []

program : Unit {0}
unfolding new append emit_byte emit finish write_byte write write_all concat encode decode
    over_limits is_valid valid_session_id next_context is_dropped compact escape_byte separator
    escape
program = tt

within : (over_limits message ≡ false) × (canonical pieces ≡ text)
unfolding program
within = (refl, refl)

encoded : encode to_writer message ≡ ok text
unfolding program
encoded = refl

encode-eq_example : encode to_writer message ≡ (
    if leb (length (canonical pieces)) max_message
    then ok (canonical pieces)
    else err message_limit)
encode-eq_example = encode-eq to_writer message within.0 refl refl
