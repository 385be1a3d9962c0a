-- ===== src/Hub/Ids.antt =====
-- The ids of requests, views and uploads: generation and counter, each in 16 hexadecimal digits.
use native.Mathlib.Nat.{pow-suc}
use hmux.Base.{
  ℕ, zero, suc, ◌+◌, ◌-◌, ◌*◌, ◌/◌, ◌%◌, ◌^◌, ◌<◌, ◌≡◌, refl, ap, ◌∙◌, List, [], ◌∷◌, ◌++◌, arith,
  ltb, if◌then◌else◌,
}

hex_digit : ℕ → ℕ
hex_digit d = if ltb d 10 then b'0' + d else b'a' + d - 10

-- `{:0width$x}` of a number below `16 ^ width`.
hex : ℕ → ℕ → List ℕ
unfolding hex_digit
hex zero n = []
hex (suc width) n = hex width (n / 16) ++ hex_digit (n % 16) ∷ []

-- format!("{:016x}{:016x}", generation, next_id)
unfoldable pub format_id : ℕ → ℕ → List ℕ
unfolding hex
format_id generation next_id = hex 16 generation ++ hex 16 next_id

digit_value : ℕ → ℕ
digit_value c = if ltb c b'a' then c - b'0' else c - b'a' + 10

-- The number that a run of hexadecimal digits stands for, after a given start.
read_hex : ℕ → List ℕ → ℕ
unfolding digit_value
read_hex acc [] = acc
read_hex acc (c ∷ cs) = read_hex (acc * 16 + digit_value c) cs

unfoldable pub rank : List ℕ → ℕ
unfolding read_hex
rank id = read_hex 0 id

read_hex-append :
    (acc : ℕ) (xs ys : List ℕ) → read_hex acc (xs ++ ys) ≡ read_hex (read_hex acc xs) ys
unfolding read_hex
read_hex-append acc [] ys = refl
read_hex-append acc (x ∷ xs) ys = read_hex-append (acc * 16 + digit_value x) xs ys

digit_value-hex_digit : (d : ℕ) → d < 16 → digit_value (hex_digit d) ≡ d
unfolding digit_value hex_digit
digit_value-hex_digit d h = ground arith

read_hex-hex :
    (acc width n : ℕ) → n < 16 ^ width → read_hex acc (hex width n) ≡ acc * 16 ^ width + n
unfolding read_hex hex
read_hex-hex acc zero n h = omega arith
read_hex-hex acc (suc w) n h =
    let e : 16 ^ suc w ≡ 16 ^ w * 16 = pow-suc 16 w in
    let small : n / 16 < 16 ^ w = omega (arith, e) in
    read_hex-append acc (hex w (n / 16)) (hex_digit (n % 16) ∷ [])
    ∙ omega (
      arith,
      e,
      read_hex-hex acc w (n / 16) small,
      digit_value-hex_digit (n % 16) (omega arith),
      ap (λ (k : ℕ). acc * k) e,
    )

read_hex-hex_pair :
    (width a b : ℕ)
    → a < 16 ^ width
    → b < 16 ^ width
    → read_hex 0 (hex width a ++ hex width b) ≡ a * 16 ^ width + b
read_hex-hex_pair w a b ha hb =
    read_hex-append 0 (hex w a) (hex w b)
    ∙ omega (
      arith,
      read_hex-hex 0 w a ha,
      read_hex-hex (read_hex 0 (hex w a)) w b hb,
      ap (λ (k : ℕ). k * 16 ^ w) (read_hex-hex 0 w a ha),
    )

-- An id stands for the number whose upper and lower 64 bits are the generation and the counter.
pub rank-format_id :
    (generation next_id : ℕ)
    → generation < 2 ^ 64
    → next_id < 2 ^ 64
    → rank (format_id generation next_id) ≡ generation * 2 ^ 64 + next_id
unfolding rank format_id
rank-format_id g n hg hn = read_hex-hex_pair 16 g n hg hn
