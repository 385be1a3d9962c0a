-- ===== src/Wire/Writer.antt =====
-- wire.rs: `BoundedJson`, the writer that compacts and escapes what the serializer writes. An
-- operation returns the writer and whether it succeeded.
use hmux.Base.{
  ℕ, ◌-◌, ◌*◌, ◌^◌, Bool, true, false, ◌||◌, List, [], ◌∷◌, ◌++◌, ltb, ◌==◌, length, if◌then◌else◌,
}
pub use hmux.Base.Eq.{Bytes}

-- 4 MiB.
abbrev pub max_message : ℕ
max_message = 4 * 2 ^ 20

pub record BoundedJson : Type 0 where
  pub bytes : Bytes
  pub full : Bool
  pub quoted : Bool
  pub escaped : Bool
  pub unicode_prefix : ℕ

unfoldable pub new : BoundedJson
new = record { bytes = []; full = false; quoted = false; escaped = false; unicode_prefix = 0 }

abbrev pub IoResult : Type 0
IoResult = BoundedJson × Bool

-- The `?` operator: the rest runs only after a success.
abbrev pub and_then : IoResult → (BoundedJson → IoResult) → IoResult
and_then (w, true) k = k w
and_then (w, false) k = (w, false)

unfoldable pub append : BoundedJson → Bytes → IoResult
append w new_bytes =
    if ltb (max_message - length w.bytes) (length new_bytes)
    then (record w { full = true }, false)
    else (record w { bytes = w.bytes ++ new_bytes }, true)

-- The six bytes of a JSON escape, for instance br"\u0026".
abbrev pub unicode_escape : ℕ → ℕ → ℕ → ℕ → Bytes
unicode_escape a b c d = b'\\' ∷ b'u' ∷ a ∷ b ∷ c ∷ d ∷ []

-- The last match of `emit`.
unfoldable pub emit_byte : BoundedJson → ℕ → IoResult
emit_byte w byte =
    let w' : BoundedJson = record w { unicode_prefix = 0 } in
    if byte == 0xe2
    then (record w { unicode_prefix = 1 }, true)
    else if byte == b'&'
    then append w' (unicode_escape b'0' b'0' b'2' b'6')
    else if byte == b'<'
    then append w' (unicode_escape b'0' b'0' b'3' b'c')
    else if byte == b'>'
    then append w' (unicode_escape b'0' b'0' b'3' b'e')
    else append w' (byte ∷ [])

unfoldable pub emit : BoundedJson → ℕ → IoResult
emit w byte =
    let plain : BoundedJson = record w { unicode_prefix = 0 } in
    if w.unicode_prefix == 1
    then if byte == 0x80
      then (record w { unicode_prefix = 2 }, true)
      else and_then (append w (0xe2 ∷ [])) (λ w. emit_byte w byte)
    else if w.unicode_prefix == 2
    then if byte == 0xa8
      then append plain (unicode_escape b'2' b'0' b'2' b'8')
      else if byte == 0xa9
      then append plain (unicode_escape b'2' b'0' b'2' b'9')
      else and_then (append w (0xe2 ∷ 0x80 ∷ [])) (λ w. emit_byte w byte)
    else emit_byte w byte

-- The bytes left by `finish`, if they fit.
unfoldable pub finish : BoundedJson → IoResult
finish w =
    if w.unicode_prefix == 1
    then append w (0xe2 ∷ [])
    else if w.unicode_prefix == 2
    then append w (0xe2 ∷ 0x80 ∷ [])
    else (w, true)

abbrev pub is_space : ℕ → Bool
is_space byte = byte == b' ' || byte == b'\n' || byte == b'\r' || byte == b'\t'

-- One round of `write`.
unfoldable pub write_byte : BoundedJson → ℕ → IoResult
write_byte w byte =
    if w.quoted
    then if w.escaped
      then emit (record w { escaped = false }) byte
      else if byte == b'\\'
      then emit (record w { escaped = true }) byte
      else if byte == b'"'
      then emit (record w { quoted = false }) byte
      else emit w byte
    else if byte == b'"'
    then emit (record w { quoted = true }) byte
    else if is_space byte
    then (w, true)
    else emit w byte

unfoldable pub write : BoundedJson → Bytes → IoResult
write w [] = (w, true)
write w (byte ∷ raw) = and_then (write_byte w byte) (λ w. write w raw)

-- The writes of a serializer, one piece after another until one fails.
unfoldable pub write_all : BoundedJson → List Bytes → IoResult
write_all w [] = (w, true)
write_all w (piece ∷ pieces) = and_then (write w piece) (λ w. write_all w pieces)

unfoldable pub concat : List Bytes → Bytes
concat [] = []
concat (piece ∷ pieces) = piece ++ concat pieces
