-- ===== src/Wire/Spec.antt =====
-- What the writer of wire.rs is for, without its state: white space between JSON tokens is dropped,
-- and the characters that HTML or JavaScript reads are escaped, by looking ahead.
use hmux.Base.{
  ℕ, zero, suc, Bool, false, ◌&&◌, Option, none, some, [], ◌∷◌, ◌++◌, ◌==◌, if◌then◌else◌,
}
use hmux.Wire.Writer.{Bytes, unicode_escape, is_space}

-- Where a byte of a JSON text stands.
pub data Context : Type 0 where
  outside inside after_backslash : Context

unfoldable pub next_context : Context → ℕ → Context
next_context outside byte = if byte == b'"' then inside else outside
next_context inside byte =
    if byte == b'\\' then after_backslash else if byte == b'"' then outside else inside
next_context after_backslash byte = inside

unfoldable pub is_dropped : Context → ℕ → Bool
is_dropped outside byte = is_space byte
is_dropped _ byte = false

unfoldable pub context_after : Context → Bytes → Context
unfolding next_context
context_after c [] = c
context_after c (byte ∷ raw) = context_after (next_context c byte) raw

unfoldable pub compact : Context → Bytes → Bytes
unfolding next_context is_dropped
compact c [] = []
compact c (byte ∷ raw) =
    let rest = compact (next_context c byte) raw in if is_dropped c byte then rest else byte ∷ rest

unfoldable pub escape_byte : ℕ → Bytes
escape_byte byte =
    if byte == b'&'
    then unicode_escape b'0' b'0' b'2' b'6'
    else if byte == b'<'
    then unicode_escape b'0' b'0' b'3' b'c'
    else if byte == b'>'
    then unicode_escape b'0' b'0' b'3' b'e'
    else byte ∷ []

-- The escape of U+2028 or U+2029, if the text starts with the three bytes of one.
unfoldable pub separator : Bytes → Option Bytes
separator (a ∷ b ∷ c ∷ rest) =
    if a == 0xe2 && b == 0x80
    then if c == 0xa8
      then some (unicode_escape b'2' b'0' b'2' b'8')
      else if c == 0xa9
      then some (unicode_escape b'2' b'0' b'2' b'9')
      else none
    else none
separator (a ∷ b ∷ []) = none
separator (a ∷ []) = none
separator [] = none

abbrev pub either : Option Bytes → Bytes → Bytes → Bytes → Bytes
either (some code) with_code byte rest = code ++ with_code
either none with_code byte rest = byte ++ rest

-- The number counts the bytes that a separator before them has taken.
unfoldable pub escape : ℕ → Bytes → Bytes
unfolding escape_byte separator
escape skipped [] = []
escape (suc skipped) (byte ∷ text) = escape skipped text
escape zero (byte ∷ text) =
    either (separator (byte ∷ text)) (escape 2 text) (escape_byte byte) (escape zero text)
