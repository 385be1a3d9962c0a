-- ===== src/Wire/Emit.antt =====
-- `emit` of wire.rs against the escape that looks ahead.
use hmux.Base.{
  ==_iff, ltb, ◌-◌, Bool-cases, inl, inr, ℕ, zero, suc, ◌≤◌, ◌<◌, ◌≡◌, refl, arith, true, false,
  none, [], ◌∷◌, ◌++◌, ◌==◌, length, length-append, append_assoc, ap,
}
use hmux.Wire.Writer.{
  unicode_escape, Bytes, BoundedJson, IoResult, and_then, append, emit_byte, emit, max_message,
}
use hmux.Wire.Spec.{escape, escape_byte, separator}

separator_other : (b : ℕ) (xs : Bytes) → (b == 0xe2) ≡ false → separator (b ∷ xs) ≡ none
unfolding separator
separator_other b [] h = refl
separator_other b (x ∷ []) h = refl
separator_other b (x ∷ y ∷ xs) h = ground arith

escape_other :
    (b : ℕ) (xs : Bytes) → (b == 0xe2) ≡ false → escape 0 (b ∷ xs) ≡ escape_byte b ++ escape 0 xs
unfolding escape
escape_other b xs h = rw (separator_other b xs h)

separator_prefix : (b : ℕ) (xs : Bytes) → (b == 0x80) ≡ false → separator (0xe2 ∷ b ∷ xs) ≡ none
unfolding separator
separator_prefix b [] h = refl
separator_prefix b (x ∷ xs) h = ground arith

escape_prefix :
    (b : ℕ) (xs : Bytes) → (b == 0x80) ≡ false → escape 0 (0xe2 ∷ b ∷ xs) ≡ 0xe2 ∷ escape 0 (b ∷ xs)
unfolding escape
escape_prefix b xs h = rw (separator_prefix b xs h)

separator_two :
    (b : ℕ) (xs : Bytes)
    → (b == 0xa8) ≡ false
    → (b == 0xa9) ≡ false
    → separator (0xe2 ∷ 0x80 ∷ b ∷ xs) ≡ none
unfolding separator
separator_two b xs h k = ground arith

escape_two :
    (b : ℕ) (xs : Bytes)
    → (b == 0xa8) ≡ false
    → (b == 0xa9) ≡ false
    → escape 0 (0xe2 ∷ 0x80 ∷ b ∷ xs) ≡ 0xe2 ∷ 0x80 ∷ escape 0 (b ∷ xs)
unfolding escape
escape_two b xs h k = rw (separator_two b xs h k) (rw (escape_other 0x80 (b ∷ xs) refl))

abbrev pub pending : ℕ → Bytes → Bytes
pending zero xs = xs
pending (suc zero) xs = 0xe2 ∷ xs
pending (suc (suc n)) xs = 0xe2 ∷ 0x80 ∷ xs

-- The whole text that a writer stands for before the bytes `xs`.
abbrev pub whole : BoundedJson → Bytes → Bytes
whole w xs = w.bytes ++ escape 0 (pending w.unicode_prefix xs)

pub record IsValid (w : BoundedJson) : Type 0 where
  pub fits : length w.bytes ≤ max_message
  pub prefix : w.unicode_prefix ≤ 2

-- Writing from `w` went on as the text asks, or failed because the text is too long.
abbrev pub Follows : BoundedJson → Bytes → IoResult → Bytes → Type 0
Follows w text (w', true) xs =
    (whole w' xs ≡ text) × IsValid w' × (w'.quoted ≡ w.quoted) × (w'.escaped ≡ w.escaped)
Follows w text (w', false) xs = (max_message < length text) × (w'.full ≡ true)

pub append-Follows :
    (w : BoundedJson) (bs xs : Bytes)
    → IsValid w
    → Follows w ((w.bytes ++ bs) ++ escape 0 (pending w.unicode_prefix xs)) (append w bs) xs
unfolding append
append-Follows w bs xs v = elim (Bool-cases (ltb (max_message - length w.bytes) (length bs))) [
  | inl e ↦
      let l = length-append (w.bytes ++ bs) (escape 0 (pending w.unicode_prefix xs)) in
      let k = length-append w.bytes bs in rw e (ground (arith, l, k), refl)
  | inr e ↦
      let k = length-append w.bytes bs in
      rw e (refl, record { fits = ground (arith, k, v.fits); prefix = v.prefix }, refl, refl)
]

-- After `append` the writer goes on, or the text was too long before.
append_then :
    (w : BoundedJson) (bs text xs : Bytes) (k : BoundedJson → IoResult)
    → IsValid w
    → (rest : Bytes) × (text ≡ (w.bytes ++ bs) ++ rest)
    → (IsValid (record w { bytes = w.bytes ++ bs })
        → Follows w text (k (record w { bytes = w.bytes ++ bs })) xs)
    → Follows w text (and_then (append w bs) k) xs
unfolding append
append_then w bs text xs k v (rest, t) f =
    elim (Bool-cases (ltb (max_message - length w.bytes) (length bs))) [
      | inl e ↦
          let l = length-append (w.bytes ++ bs) rest in
          let m = length-append w.bytes bs in
          rw e (ground (arith, l, m, ap (λ (t : Bytes). length t) t), refl)
      | inr e ↦
          let m = length-append w.bytes bs in
          rw e (f (record { fits = ground (arith, m, v.fits); prefix = v.prefix }))
    ]

emit_byte_other :
    (w : BoundedJson) (b : ℕ)
    → (b == 0xe2) ≡ false
    → emit_byte w b ≡ append (record w { unicode_prefix = 0 }) (escape_byte b)
unfolding emit_byte escape_byte
emit_byte_other w b h = ground arith

emit_byte-Follows :
    (w : BoundedJson) (b : ℕ) (xs : Bytes)
    → IsValid w
    → Follows w (w.bytes ++ escape 0 (b ∷ xs)) (emit_byte w b) xs
emit_byte-Follows w b xs v = elim (Bool-cases (b == 0xe2)) [
  | inl e ↦
      rw ((==_iff b 0xe2).0 e)
        (unfold emit_byte in (refl, record { fits = v.fits; prefix = omega arith }, refl, refl))
  | inr e ↦
      rw
        (
          emit_byte_other w b e,
          escape_other b xs e,
          ← append_assoc w.bytes (escape_byte b) (escape 0 xs),
        )
        (append-Follows (record w { unicode_prefix = 0 }) (escape_byte b) xs
          (record { fits = v.fits; prefix = omega arith }))
]

then_emit-Follows :
    (w : BoundedJson) (bs : Bytes) (b : ℕ) (xs : Bytes)
    → IsValid w
    → Follows w
        ((w.bytes ++ bs) ++ escape 0 (b ∷ xs))
        (and_then (append w bs) (λ w'. emit_byte w' b))
        xs
then_emit-Follows w bs b xs v =
    append_then w bs ((w.bytes ++ bs) ++ escape 0 (b ∷ xs)) xs (λ w'. emit_byte w' b) v
      (escape 0 (b ∷ xs), refl) (emit_byte-Follows (record w { bytes = w.bytes ++ bs }) b xs)

emit_one-Follows :
    (w : BoundedJson) (b : ℕ) (xs : Bytes)
    → w.unicode_prefix ≡ 1
    → IsValid w
    → Follows w (w.bytes ++ escape 0 (0xe2 ∷ b ∷ xs)) (emit w b) xs
unfolding emit
emit_one-Follows w b xs p v = elim (Bool-cases (b == 0x80)) [
  | inl e ↦
      let q : emit w b ≡ (record w { unicode_prefix = 2 }, true) = ground arith in
      rw (q, (==_iff b 0x80).0 e) (refl, record { fits = v.fits; prefix = omega arith }, refl, refl)
  | inr e ↦
      let q : emit w b ≡ and_then (append w (0xe2 ∷ [])) (λ w'. emit_byte w' b) = ground arith in
      rw (q, escape_prefix b xs e, ← append_assoc w.bytes (0xe2 ∷ []) (escape 0 (b ∷ xs)))
        (then_emit-Follows w (0xe2 ∷ []) b xs v)
]

abbrev line_code : Bytes
line_code = unicode_escape b'2' b'0' b'2' b'8'

abbrev paragraph_code : Bytes
paragraph_code = unicode_escape b'2' b'0' b'2' b'9'

escape_code-Follows :
    (w : BoundedJson) (code xs : Bytes)
    → IsValid w
    → Follows w
        (w.bytes ++ (code ++ escape 0 xs))
        (append (record w { unicode_prefix = 0 }) code)
        xs
escape_code-Follows w code xs v = rw (← append_assoc w.bytes code (escape 0 xs)) (
    append-Follows (record w { unicode_prefix = 0 }) code xs
      (record { fits = v.fits; prefix = omega arith }))

emit_two-Follows :
    (w : BoundedJson) (b : ℕ) (xs : Bytes)
    → w.unicode_prefix ≡ 2
    → IsValid w
    → Follows w (w.bytes ++ escape 0 (0xe2 ∷ 0x80 ∷ b ∷ xs)) (emit w b) xs
unfolding emit escape
emit_two-Follows w b xs p v = elim (Bool-cases (b == 0xa8)) [
  | inl e ↦
      let q : emit w b ≡ append (record w { unicode_prefix = 0 }) line_code = ground arith in
      rw (q, (==_iff b 0xa8).0 e) (escape_code-Follows w line_code xs v)
  | inr e ↦ elim (Bool-cases (b == 0xa9)) [
    | inl f ↦
        let q : emit w b ≡ append (record w { unicode_prefix = 0 }) paragraph_code = ground arith in
        rw (q, (==_iff b 0xa9).0 f) (escape_code-Follows w paragraph_code xs v)
    | inr f ↦
        let q : emit w b ≡ and_then (append w (0xe2 ∷ 0x80 ∷ [])) (λ w'. emit_byte w' b) =
          ground arith in
        rw (q, escape_two b xs e f, ← append_assoc w.bytes (0xe2 ∷ 0x80 ∷ []) (escape 0 (b ∷ xs)))
          (then_emit-Follows w (0xe2 ∷ 0x80 ∷ []) b xs v)
  ]
]

-- One byte: the text is what the writer stood for before it.
pub emit-Follows :
    (w : BoundedJson) (b p : ℕ) (xs : Bytes)
    → w.unicode_prefix ≡ p
    → IsValid w
    → Follows w (w.bytes ++ escape 0 (pending p (b ∷ xs))) (emit w b) xs
emit-Follows w b zero xs e v =
    let q : emit w b ≡ emit_byte w b = unfold emit in ground arith in
    rw q (emit_byte-Follows w b xs v)
emit-Follows w b (suc zero) xs e v = emit_one-Follows w b xs e v
emit-Follows w b (suc (suc zero)) xs e v = emit_two-Follows w b xs e v
emit-Follows w b (suc (suc (suc n))) xs e v = absurd (omega (arith, v.prefix))
