-- ===== src/Wire/Streaming.antt =====
-- The writer of wire.rs against what it is for.
use hmux.Base.{
  Bool-cases, inl, inr, ℕ, zero, suc, ◌<◌, ◌≡◌, refl, arith, true, false, Option, none, some, List,
  [], ◌∷◌, ◌++◌, ◌==◌, leb, length, length-append, append-nil, if◌then◌else◌, ◌∙◌,
}
use hmux.Wire.Writer.{
  write_all, concat, Bytes, BoundedJson, IoResult, and_then, append, emit, finish, write_byte,
  write, is_space, max_message,
}
use hmux.Wire.Spec.{
  context_after, Context, outside, inside, after_backslash, next_context, is_dropped, compact,
  escape,
}
use hmux.Wire.Emit.{whole, IsValid, Follows, emit-Follows}

abbrev pub Tracks : Context → BoundedJson → Type 0
Tracks outside w = (w.quoted ≡ false) × (w.escaped ≡ false)
Tracks inside w = (w.quoted ≡ true) × (w.escaped ≡ false)
Tracks after_backslash w = (w.quoted ≡ true) × (w.escaped ≡ true)

-- As `Follows`, with the context that the writer is in afterwards.
abbrev pub Steps : Context → Bytes → IoResult → Bytes → Type 0
Steps c text (w, true) xs = (whole w xs ≡ text) × IsValid w × Tracks c w
Steps c text (w, false) xs = (max_message < length text) × (w.full ≡ true)

Tracks-same :
    (c : Context) (w w' : BoundedJson)
    → w'.quoted ≡ w.quoted
    → w'.escaped ≡ w.escaped
    → Tracks c w
    → Tracks c w'
Tracks-same outside w w' p q t = (p ∙ t.0, q ∙ t.1)
Tracks-same inside w w' p q t = (p ∙ t.0, q ∙ t.1)
Tracks-same after_backslash w w' p q t = (p ∙ t.0, q ∙ t.1)

Follows-Steps :
    (c : Context) (w : BoundedJson) (text : Bytes) (r : IoResult) (xs : Bytes)
    → Follows w text r xs
    → Tracks c w
    → Steps c text r xs
Follows-Steps c w text (w', true) xs (f, v, p, q) t = (f, v, Tracks-same c w w' p q t)
Follows-Steps c w text (w', false) xs f t = f

emit-Steps :
    (c : Context) (w : BoundedJson) (b : ℕ) (xs : Bytes)
    → IsValid w
    → Tracks c w
    → Steps c (whole w (b ∷ xs)) (emit w b) xs
emit-Steps c w b xs v t =
    Follows-Steps c w (whole w (b ∷ xs)) (emit w b) xs (emit-Follows w b w.unicode_prefix xs refl v)
      t

abbrev kept : Context → ℕ → Bytes → Bytes
kept c b xs = if is_dropped c b then xs else b ∷ xs

write_byte-Steps :
    (c : Context) (w : BoundedJson) (b : ℕ) (xs : Bytes)
    → IsValid w
    → Tracks c w
    → Steps (next_context c b) (whole w (kept c b xs)) (write_byte w b) xs
unfolding write_byte next_context is_dropped
write_byte-Steps outside w b xs v t = elim (Bool-cases (b == b'"')) [
  | inl e ↦
      let q : write_byte w b ≡ emit (record w { quoted = true }) b = ground arith in
      let s : is_space b ≡ false = ground arith in
      rw (q, e, s)
        (emit-Steps inside (record w { quoted = true }) b xs
          (record { fits = v.fits; prefix = v.prefix }) (refl, t.1))
  | inr e ↦ elim (Bool-cases (is_space b)) [
    | inl s ↦ let q : write_byte w b ≡ (w, true) = ground arith in rw (q, e, s) (refl, v, t)
    | inr s ↦
        let q : write_byte w b ≡ emit w b = ground arith in
        rw (q, e, s) (emit-Steps outside w b xs v t)
  ]
]
write_byte-Steps inside w b xs v t = elim (Bool-cases (b == b'\\')) [
  | inl e ↦
      let q : write_byte w b ≡ emit (record w { escaped = true }) b = ground arith in
      rw (q, e)
        (emit-Steps after_backslash (record w { escaped = true }) b xs
          (record { fits = v.fits; prefix = v.prefix }) (t.0, refl))
  | inr e ↦ elim (Bool-cases (b == b'"')) [
    | inl f ↦
        let q : write_byte w b ≡ emit (record w { quoted = false }) b = ground arith in
        rw (q, e, f)
          (emit-Steps outside (record w { quoted = false }) b xs
            (record { fits = v.fits; prefix = v.prefix }) (refl, t.1))
    | inr f ↦
        let q : write_byte w b ≡ emit w b = ground arith in
        rw (q, e, f) (emit-Steps inside w b xs v t)
  ]
]
write_byte-Steps after_backslash w b xs v t =
    let q : write_byte w b ≡ emit (record w { escaped = false }) b = ground arith in
    rw q (
      emit-Steps inside (record w { escaped = false }) b xs
        (record { fits = v.fits; prefix = v.prefix }) (t.0, refl))

step_then :
    (c d : Context) (text ys xs : Bytes) (r : IoResult) (k : BoundedJson → IoResult)
    → Steps c text r ys
    → ((w : BoundedJson) → IsValid w → Tracks c w → Steps d (whole w ys) (k w) xs)
    → Steps d text (and_then r k) xs
step_then c d text ys xs (w, true) k (f, v, t) go = rw (← f) (go w v t)
step_then c d text ys xs (w, false) k h go = h

kept_append : (c : Context) (b : ℕ) (ys xs : Bytes) → kept c b ys ++ xs ≡ kept c b (ys ++ xs)
kept_append c b ys xs = ground arith

write-Steps :
    (c : Context) (w : BoundedJson) (raw : Bytes) (xs : Bytes)
    → IsValid w
    → Tracks c w
    → Steps (context_after c raw) (whole w (compact c raw ++ xs)) (write w raw) xs
unfolding write context_after compact
write-Steps c w [] xs v t = (refl, v, t)
write-Steps c w (b ∷ raw) xs v t =
    let c' = next_context c b in
    let ys = compact c' raw ++ xs in
    rw (kept_append c b (compact c' raw) xs) (
      step_then c' (context_after c' raw) (whole w (kept c b ys)) ys xs (write_byte w b)
        (λ w'. write w' raw) (write_byte-Steps c w b ys v t)
        (λ w' v' t'. write-Steps c' w' raw xs v' t'))

compact-append :
    (c : Context) (xs ys : Bytes)
    → compact c (xs ++ ys) ≡ compact c xs ++ compact (context_after c xs) ys
unfolding compact context_after
compact-append c [] ys = refl
compact-append c (b ∷ xs) ys = ground (arith, compact-append (next_context c b) xs ys)

context_after-append :
    (c : Context) (xs ys : Bytes)
    → context_after c (xs ++ ys) ≡ context_after (context_after c xs) ys
unfolding context_after
context_after-append c [] ys = refl
context_after-append c (b ∷ xs) ys = context_after-append (next_context c b) xs ys

-- `serde_json::to_writer` writes one piece after another, until a write fails.
pub write_all-Steps :
    (c : Context) (w : BoundedJson) (pieces : List Bytes)
    → IsValid w
    → Tracks c w
    → Steps
        (context_after c (concat pieces))
        (whole w (compact c (concat pieces)))
        (write_all w pieces)
        []
unfolding write_all concat
write_all-Steps c w [] v t = unfold compact context_after in (refl, v, t)
write_all-Steps c w (p ∷ pieces) v t =
    let d = context_after c p in
    let ys = compact d (concat pieces) in
    rw (context_after-append c p (concat pieces), compact-append c p (concat pieces))
      (step_then d (context_after d (concat pieces)) (whole w (compact c p ++ ys)) ys [] (write w p)
        (λ w'. write_all w' pieces) (write-Steps c w p ys v t)
        (λ w' v' t'. write_all-Steps d w' pieces v' t'))

abbrev pub result : IoResult → Option Bytes
result (w, true) = some w.bytes
result (w, false) = none

-- The text, if it fits a message.
abbrev pub bounded : Bytes → Option Bytes
bounded text = if leb (length text) max_message then some text else none

pub finish-bounded :
    (w : BoundedJson) (p : ℕ)
    → w.unicode_prefix ≡ p
    → IsValid w
    → result (finish w) ≡ bounded (whole w [])
unfolding finish append escape
finish-bounded w zero e v = rw e (ground (arith, append-nil w.bytes, v.fits))
finish-bounded w (suc zero) e v = rw e (ground (arith, length-append w.bytes (0xe2 ∷ []), v.fits))
finish-bounded w (suc (suc zero)) e v =
    rw e (ground (arith, length-append w.bytes (0xe2 ∷ 0x80 ∷ []), v.fits))
finish-bounded w (suc (suc (suc n))) e v = absurd (omega (arith, v.prefix))
