-- ===== src/Auth/Draws.antt =====
-- auth_store.rs: how long the draws of a fresh token go on.
use hmux.Base.{
  All, ◌+◌, suc, ◌≡◌, ◌≢◌, ◌≤◌, ◌<◌, ◌⊎◌, ap, refl, subst, arith, Bool, true, false, ◌||◌, some,
  List, [], ◌∷◌, ◌++◌, Bool-cases, inl, inr, if◌then◌else◌, length,
}
use hmux.Base.Eq.{Bytes, bytes_eq, bytes_beq, bytes_beq_iff}
use hmux.Base.{map, length-append}
use hmux.Auth.Login.{drawn, exhausted, draw}

-- Membership of a key.
abbrev pub has : Bytes → List Bytes → Bool
has k [] = false
has k (j ∷ ks) = bytes_beq j k || has k ks

abbrev pub without_key : Bytes → List Bytes → List Bytes
without_key k [] = []
without_key k (j ∷ ks) = if bytes_beq j k then without_key k ks else j ∷ without_key k ks

length-without_key-le : (k : Bytes) (ks : List Bytes) → length (without_key k ks) ≤ length ks
length-without_key-le k [] = omega arith
length-without_key-le k (j ∷ ks) = ground (arith, length-without_key-le k ks)

length-without_key-lt :
    (k : Bytes) (ks : List Bytes) → has k ks ≡ true → length (without_key k ks) < length ks
length-without_key-lt k [] h = ground arith
length-without_key-lt k (j ∷ ks) h =
    ground (arith, length-without_key-lt k ks, length-without_key-le k ks)

has-without_key :
    (k j : Bytes) (ks : List Bytes) → j ≢ k → has j ks ≡ true → has j (without_key k ks) ≡ true
has-without_key k j [] ne h = ground arith
has-without_key k j (i ∷ ks) ne h =
    ground (arith, bytes_beq_iff i j, bytes_beq_iff i k, has-without_key k j ks ne)

-- The keys of the tokens are distinct.
abbrev pub DistinctKeys : (Bytes → Bytes) → List Bytes → Type 0
DistinctKeys f [] = Unit
DistinctKeys f (t ∷ ts) = (has (f t) (map f ts) ≡ false) × DistinctKeys f ts

-- Tokens with distinct keys, each among `ks`, are at most as many as `ks`.
pub length-le-keys :
    (f : Bytes → Bytes) (ts ks : List Bytes)
    → DistinctKeys f ts
    → All (λ t. has (f t) ks ≡ true) ts
    → length ts ≤ length ks
length-le-keys f [] ks d a = omega arith
length-le-keys f (t ∷ ts) ks d a = ground (
  arith,
  length-without_key-lt (f t) ks,
  length-le-keys f ts (without_key (f t) ks) d.1 (others ts d.0 a.1),
)
  where
    others :
        (us : List Bytes)
        → has (f t) (map f us) ≡ false
        → All (λ u. has (f u) ks ≡ true) us
        → All (λ u. has (f u) (without_key (f t) ks) ≡ true) us
    others [] h b = tt
    others (u ∷ us) h b = (
      has-without_key (f t) (f u) ks (λ e. ground (arith, bytes_beq_iff (f u) (f t))) b.0,
      others us (ground arith) b.1,
    )

-- A draw that ends after `ts` has found all of them taken.
abbrev pub Taken : (Bytes → Bool) → List Bytes → Type 0
Taken p ts = All (λ t. p t ≡ true) ts

abbrev Split : (Bytes → Bool) → List Bytes → Type 0
Split p ts =
    ((draw p (map some ts) ≡ exhausted) × Taken p ts)
    ⊎ ((us : List Bytes) × (t : Bytes) × (rest : List Bytes) × (draw p (map some ts)
          ≡ drawn t (map some rest))
        × (ts ≡ us ++ t ∷ rest)
        × Taken p us)

draw_next :
    (p : Bytes → Bool) (t : Bytes) (ts : List Bytes) → p t ≡ true → Split p ts → Split p (t ∷ ts)
draw_next p t ts h (inl (d, a)) = inl (rw h d, (h, a))
draw_next p t ts h (inr (us, u, rest, d, e, a)) =
    inr (t ∷ us, u, rest, rw h d, ap (λ xs. t ∷ xs) e, (h, a))

draw-Split : (p : Bytes → Bool) (ts : List Bytes) → Split p ts
draw-Split p [] = inl (refl, tt)
draw-Split p (t ∷ ts) = elim (Bool-cases (p t)) [
  | inl taken ↦ draw_next p t ts taken (draw-Split p ts)
  | inr free ↦ inr ([], t, ts, rw free refl, refl, tt)
]

DistinctKeys-append :
    (f : Bytes → Bytes) (us ts : List Bytes)
    → DistinctKeys f (us ++ ts)
    → DistinctKeys f us × DistinctKeys f ts
DistinctKeys-append f [] ts d = (tt, d)
DistinctKeys-append f (u ∷ us) ts d = (
  (has-map_append f u us ts d.0, (DistinctKeys-append f us ts d.1).0),
  (DistinctKeys-append f us ts d.1).1,
)
  where
    has-map_append :
        (f : Bytes → Bytes) (u : Bytes) (us ts : List Bytes)
        → has (f u) (map f (us ++ ts)) ≡ false
        → has (f u) (map f us) ≡ false
    has-map_append f u [] ts h = refl
    has-map_append f u (v ∷ us) ts h = ground (arith, has-map_append f u us ts)

-- The tokens that are taken have their keys in a list.
module _ (p : Bytes → Bool) (f : Bytes → Bytes) (ks : List Bytes) where
  abbrev pub Covers : Type 0
  Covers = (t : Bytes) → p t ≡ true → has (f t) ks ≡ true

  covered : Covers → (ts : List Bytes) → Taken p ts → All (λ t. has (f t) ks ≡ true) ts
  covered c [] a = tt
  covered c (t ∷ ts) a = (c t a.0, covered c ts a.1)

  -- With more tokens than keys a draw ends, and leaves all but as many and one.
  pub draw-ends :
      (ts : List Bytes)
      → Covers
      → DistinctKeys f ts
      → length ks < length ts
      → (t : Bytes) × (rest : List Bytes) × (draw p (map some ts) ≡ drawn t (map some rest))
        × (length ts ≤ length ks + suc (length rest))
        × DistinctKeys f rest
  draw-ends ts c d h = go (draw-Split p ts)
    where
      go :
          Split p ts
          → (t : Bytes) × (rest : List Bytes) × (draw p (map some ts) ≡ drawn t (map some rest))
            × (length ts ≤ length ks + suc (length rest))
            × DistinctKeys f rest
      go (inl (e, a)) = absurd (omega (arith, h, length-le-keys f ts ks d (covered c ts a)))
      go (inr (us, t, rest, e, same, a)) =
          let both = DistinctKeys-append f us (t ∷ rest) (subst (λ xs. DistinctKeys f xs) same d) in
          let few = length-le-keys f us ks both.0 (covered c us a) in
          (t, rest, e, rw same (omega (arith, few, length-append us (t ∷ rest))), both.1.1)
