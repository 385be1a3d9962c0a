-- ===== src/Wire/Limits.antt =====
-- wire.rs: what `encode` and `decode` give.
use hmux.Base.{
  ◌&&◌, zero, suc, ℕ, ◌≤◌, ◌≡◌, ◌≢◌, refl, sym, ◌∙◌, arith, ◌↔◌, Bool, true, false, Option, none,
  some, List, [], ◌∷◌, leb, length, if◌then◌else◌, All, All-append,
}
use hmux.Model.Ids.{SessionIdentity, valid_session_id, is_positive}
use hmux.Wire.Writer.{Bytes, max_message, new, write_all, finish, IoResult, concat}
use hmux.Wire.Codec.{
  Message, message_limit, Result, ok, err, Serialized, over_limits, first_token, is_brace, is_valid,
  is_valid_id, checked, decode, encode, long_payload, written, finished,
}
use hmux.Wire.Spec.{
  Context, outside, compact, escape, separator, escape_byte, either, context_after,
}
use hmux.Wire.Emit.{whole, IsValid}
use hmux.Wire.Streaming.{Tracks, Steps, write_all-Steps, finish-bounded, result, bounded}

is_valid_id-eq : (id : Bytes) → is_valid_id id ≡ valid_session_id id
unfolding valid_session_id
is_valid_id-eq [] = refl
is_valid_id-eq (b ∷ digits) = ground arith

abbrev pub canonical : List Bytes → Bytes
canonical pieces = escape 0 (compact outside (concat pieces))

abbrev sized : Option Bytes → Result Bytes
sized (some text) = ok text
sized none = err message_limit

whole-new :
    (pieces : List Bytes) (c : Context) (r : IoResult)
    → Steps c (whole new (compact outside (concat pieces))) r []
    → Steps c (canonical pieces) r []
unfolding new
whole-new pieces c r h = h

sized-bounded :
    (text : Bytes)
    → sized (bounded text) ≡ (if leb (length text) max_message then ok text else err message_limit)
sized-bounded text = ground arith

new-IsValid : IsValid new
unfolding new
new-IsValid = record { fits = omega arith; prefix = omega arith }

finished-result : (r : IoResult) (o : Option Bytes) → result r ≡ o → finished r ≡ sized o
finished-result (w, true) none h = absurd (ground arith)
finished-result (w, true) (some t) h = ground arith
finished-result (w, false) none h = refl
finished-result (w, false) (some t) h = absurd (ground arith)

written-bounded :
    (c : Context) (text : Bytes) (r : IoResult)
    → Steps c text r []
    → written r true ≡ sized (bounded text)
written-bounded c text (w, true) (e, v, t) =
    finished-result (finish w) (bounded text) (rw (← e) (finish-bounded w w.unicode_prefix refl v))
written-bounded c text (w, false) (l, f) = ground arith

-- For a message within the limits, however the serializer cuts its text into pieces, `encode` gives
-- the text without the white space between its tokens and with the escapes that the lookahead
-- asks for, if that has at most 4 MiB, and reports the message limit otherwise.
pub encode-eq :
    (to_writer : Message → Serialized) (m : Message)
    → over_limits m ≡ false
    → long_payload m.payload ≡ false
    → (to_writer m).complete ≡ true
    → let text = canonical (to_writer m).pieces in
      encode to_writer m ≡ (if leb (length text) max_message then ok text else err message_limit)
encode-eq to_writer m o p c =
    let sent = write_all new (to_writer m).pieces in
    let q : encode to_writer m ≡ written sent true = unfold encode in ground (arith, o, p, c) in
    let start : Tracks outside new = unfold new in (refl, refl) in
    let steps = write_all-Steps outside new (to_writer m).pieces new-IsValid start in
    q
    ∙ (written-bounded (context_after outside (concat (to_writer m).pieces))
          (canonical (to_writer m).pieces) sent
          (whole-new (to_writer m).pieces (context_after outside (concat (to_writer m).pieces)) sent
            steps)
        ∙ sized-bounded (canonical (to_writer m).pieces))

-- A byte that neither HTML nor a script in it reads as markup.
abbrev pub IsPlain : ℕ → Type 0
IsPlain b = (b ≢ b'<') × (b ≢ b'>') × (b ≢ b'&')

escape_byte-IsPlain : (b : ℕ) → All IsPlain (escape_byte b)
unfolding escape_byte
escape_byte-IsPlain b = ground arith

abbrev AllPlain : Option Bytes → Type 0
AllPlain none = Unit
AllPlain (some code) = All IsPlain code

separator-IsPlain : (bs : Bytes) → AllPlain (separator bs)
unfolding separator
separator-IsPlain [] = tt
separator-IsPlain (a ∷ []) = tt
separator-IsPlain (a ∷ b ∷ []) = tt
separator-IsPlain (a ∷ b ∷ c ∷ bs) = ground arith

either-IsPlain :
    (o : Option Bytes) (xs bs ys : Bytes)
    → AllPlain o
    → All IsPlain xs
    → All IsPlain bs
    → All IsPlain ys
    → All IsPlain (either o xs bs ys)
either-IsPlain none xs bs ys p hx hb hy = All-append IsPlain bs ys hb hy
either-IsPlain (some code) xs bs ys p hx hb hy = All-append IsPlain code xs p hx

escape-IsPlain : (n : ℕ) (bs : Bytes) → All IsPlain (escape n bs)
unfolding escape
escape-IsPlain n [] = tt
escape-IsPlain (suc n) (b ∷ bs) = escape-IsPlain n bs
escape-IsPlain zero (b ∷ bs) =
    either-IsPlain (separator (b ∷ bs)) (escape 2 bs) (escape_byte b) (escape 0 bs)
      (separator-IsPlain (b ∷ bs)) (escape-IsPlain 2 bs) (escape_byte-IsPlain b)
      (escape-IsPlain 0 bs)

written-ok : (r : IoResult) (c : Bool) (text : Bytes) → written r c ≡ ok text → c ≡ true
written-ok (w, true) true text h = refl
written-ok (w, true) false text h = ground arith
written-ok (w, false) c text h = ground arith

encode-ok :
    (to_writer : Message → Serialized) (m : Message) (text : Bytes)
    → encode to_writer m ≡ ok text
    → (over_limits m ≡ false) × (long_payload m.payload ≡ false) × ((to_writer m).complete ≡ true)
unfolding encode
encode-ok to_writer m text h =
    let sent = write_all new (to_writer m).pieces in
    let w = written-ok sent (to_writer m).complete text in
    (ground arith, ground arith, ground (arith, w))

sized-ok :
    (t text : Bytes)
    → (if leb (length t) max_message then ok t else err message_limit) ≡ ok text
    → (length t ≤ max_message) × (t ≡ text)
sized-ok t text h = (ground arith, ground arith)

-- Whatever the serializer writes, a text that `encode` gives has at most 4 MiB and no byte of it is `<`,
-- `>` or `&`.
encode-IsPlain :
    (to_writer : Message → Serialized) (m : Message) (text : Bytes)
    → encode to_writer m ≡ ok text
    → (length text ≤ max_message) × All IsPlain text
encode-IsPlain to_writer m text h =
    let (o, p, c) = encode-ok to_writer m text h in
    let t = canonical (to_writer m).pieces in
    let (l, e) = sized-ok t text (sym (encode-eq to_writer m o p c) ∙ h) in
    rw (← e) (l, escape-IsPlain 0 (compact outside (concat (to_writer m).pieces)))

is_brace-eq : (o : Option ℕ) → is_brace o ≡ true → o ≡ some b'{'
is_brace-eq none h = ground arith
is_brace-eq (some b) h = ground arith

checked-ok :
    (o : Option Message) (m : Message) → checked o ≡ ok m → (o ≡ some m) × (over_limits m ≡ false)
checked-ok none m h = absurd (ground arith)
checked-ok (some n) m h = (ground arith, ground arith)

-- `decode` gives a message exactly if the text has at most 4 MiB, its first byte after white space is
-- `{`, serde reads the message from it, and its fields are within the limits.
decode-eq-ok_iff :
    (from_slice : Bytes → Option Message) (raw : Bytes) (m : Message)
    → (decode from_slice raw ≡ ok m) ↔ (
        (length raw ≤ max_message)
        × (first_token raw ≡ some b'{')
        × (from_slice raw ≡ some m)
        × (over_limits m ≡ false))
unfolding decode
decode-eq-ok_iff from_slice raw m = (
  λ h.
      let b = is_brace-eq (first_token raw) in
      let c = checked-ok (from_slice raw) m in
      (ground arith, ground (arith, b), ground (arith, c), ground (arith, c)),
  λ (l, f, p, o). ground (arith, l, f, p, o),
)

-- The wire envelope and the model accept the same ids of sessions: an identity is valid on the wire
-- exactly if the model accepts its id and its time of creation is positive.
is_valid-eq :
    (s : SessionIdentity) → is_valid s ≡ (valid_session_id s.id && is_positive s.created_at)
unfolding is_valid
is_valid-eq s = rw (is_valid_id-eq s.id)
