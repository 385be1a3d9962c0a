-- ===== src/Base/Map.antt =====
-- A `HashMap` as an association list. `Distinct` says that no key occurs twice; the operations keep
-- it, and under it `lookup` after each operation is known for every key.
use hmux.Base.Tests.{if◌then◌else◌, Bool-cases, if_lem}
use hmux.Base.Lists.{length, All}
use hmux.Base.Eq.{Eq}
use Prim.Native.Nat.{suc, ◌≤◌}
use mathlib.Core.Path.{◌≡◌, refl, subst}
use mathlib.Core.Logic.{◌⊎◌, inl, inr, ◌≢◌}
use mathlib.Core.Bool.{Bool}
use mathlib.Core.List.{List, [], ◌∷◌}
use mathlib.Core.Option.{Option, none, some}
use native.Mathlib.Omega.{arith}

-- A lookup's answer, if it passes a test.
abbrev pub keep {ℓ} : {V : Type ℓ} → (V → Bool) → Option V → Option V
keep p none = none
keep p (some v) = if p v then some v else none

module _ {ℓ κ} {K : Type ℓ} {V : Type κ} ⦃e : Eq K⦄ where
  unfoldable pub lookup : K → List (K × V) → Option V
  lookup k [] = none
  lookup k ((j, v) ∷ m) = if e.beq j k then some v else lookup k m

  -- A new key goes to the end.
  unfoldable pub insert : K → V → List (K × V) → List (K × V)
  insert k v [] = (k, v) ∷ []
  insert k v ((j, w) ∷ m) = if e.beq j k then (j, v) ∷ m else (j, w) ∷ insert k v m

  unfoldable pub remove : K → List (K × V) → List (K × V)
  remove k [] = []
  remove k ((j, w) ∷ m) = if e.beq j k then remove k m else (j, w) ∷ remove k m

  abbrev pub Distinct : List (K × V) → Type κ
  Distinct [] = Unit
  Distinct ((j, v) ∷ m) = (lookup j m ≡ none) × Distinct m

  pub lookup-insert :
      (k j : K) (v : V) (m : List (K × V))
      → lookup j (insert k v m) ≡ (if e.beq k j then some v else lookup j m)
  unfolding lookup insert
  lookup-insert k j v [] = refl
  lookup-insert k j v ((i, w) ∷ m) =
      ground (arith, e.beq_iff k j, e.beq_iff i k, e.beq_iff i j, lookup-insert k j v m)

  pub lookup-remove :
      (k j : K) (m : List (K × V))
      → lookup j (remove k m) ≡ (if e.beq k j then none else lookup j m)
  unfolding lookup remove
  lookup-remove k j [] = ground arith
  lookup-remove k j ((i, w) ∷ m) =
      ground (arith, e.beq_iff k j, e.beq_iff i k, e.beq_iff i j, lookup-remove k j m)

  pub Distinct-insert : (k : K) (v : V) (m : List (K × V)) → Distinct m → Distinct (insert k v m)
  unfolding lookup insert
  Distinct-insert k v [] d = (refl, tt)
  Distinct-insert k v ((i, w) ∷ m) d =
      ground (arith, e.beq_iff i k, e.beq_iff k i, lookup-insert k i v m, Distinct-insert k v m)

  pub Distinct-remove : (k : K) (m : List (K × V)) → Distinct m → Distinct (remove k m)
  unfolding lookup remove
  Distinct-remove k [] d = tt
  Distinct-remove k ((i, w) ∷ m) d = ground (arith, lookup-remove k i m, Distinct-remove k m)

  pub length-insert :
      (k : K) (v : V) (m : List (K × V))
      → ((lookup k m ≡ none) × (length (insert k v m) ≡ suc (length m)))
        ⊎ ((w : V) × (lookup k m ≡ some w) × (length (insert k v m) ≡ length m))
  unfolding lookup insert
  length-insert k v [] = inl (refl, refl)
  length-insert k v ((i, w) ∷ m) = elim (Bool-cases (e.beq i k)) [
    | inl same ↦ inr (w, ground arith, ground arith)
    | inr other ↦ ground (arith, length-insert k v m)
  ]

module _ {ℓ κ} {K : Type ℓ} {V : Type κ} ⦃e : Eq K⦄ where
  -- `HashMap::retain` by a test of the value.
  unfoldable pub retain : (V → Bool) → List (K × V) → List (K × V)
  retain p [] = []
  retain p ((j, w) ∷ m) = if p w then (j, w) ∷ retain p m else retain p m

  pub length-retain-le : (p : V → Bool) (m : List (K × V)) → length (retain p m) ≤ length m
  unfolding retain
  length-retain-le p [] = omega arith
  length-retain-le p ((i, w) ∷ m) = ground (arith, length-retain-le p m)

  lookup-retain-none :
      (p : V → Bool) (j : K) (m : List (K × V)) → lookup j m ≡ none → lookup j (retain p m) ≡ none
  unfolding lookup retain
  lookup-retain-none p j [] h = refl
  lookup-retain-none p j ((i, w) ∷ m) h = ground (arith, lookup-retain-none p j m)

  pub lookup-retain :
      (p : V → Bool) (j : K) (m : List (K × V))
      → Distinct m
      → lookup j (retain p m) ≡ keep p (lookup j m)
  unfolding lookup retain
  lookup-retain p j [] d = refl
  lookup-retain p j ((i, w) ∷ m) d = ground (
    arith,
    e.beq_iff i j,
    lookup-retain p j m,
    lookup-retain-none p i m,
    lookup-retain-none p j m,
  )

  pub Distinct-retain : (p : V → Bool) (m : List (K × V)) → Distinct m → Distinct (retain p m)
  unfolding lookup retain
  Distinct-retain p [] d = tt
  Distinct-retain p ((i, w) ∷ m) d = ground (arith, lookup-retain-none p i m, Distinct-retain p m)

-- A predicate of every entry.
module _ {ℓ κ μ} {K : Type ℓ} {V : Type κ} ⦃e : Eq K⦄ (P : K × V → Type μ) where
  pub All-insert : (k : K) (v : V) (m : List (K × V)) → P (k, v) → All P m → All P (insert k v m)
  unfolding insert
  All-insert k v [] p h = (p, tt)
  All-insert k v ((j, w) ∷ m) p h = elim (Bool-cases (e.beq j k)) [
    | inl same ↦ rw same ((rw ((e.beq_iff j k).0 same) p, h.1))
    | inr other ↦ rw other ((h.0, All-insert k v m p h.1))
  ]

  pub All-remove : (k : K) (m : List (K × V)) → All P m → All P (remove k m)
  unfolding remove
  All-remove k [] h = tt
  All-remove k ((j, w) ∷ m) h = ground (arith, All-remove k m h.1)

  -- What is left has other keys.
  pub All-remove_ne {ν} :
      (Q : K × V → Type ν) (k : K) (m : List (K × V))
      → ((x : K × V) → x.0 ≢ k → P x → Q x)
      → All P m
      → All Q (remove k m)
  unfolding remove
  All-remove_ne Q k [] f h = tt
  All-remove_ne Q k ((j, w) ∷ m) f h =
      if_lem (λ xs. All Q xs) (e.beq j k) (λ same. All-remove_ne Q k m f h.1)
        (λ other. (f (j, w) (λ eq. ground (arith, e.beq_iff j k)) h.0, All-remove_ne Q k m f h.1))

  pub lookup-All : (k : K) (v : V) (m : List (K × V)) → All P m → lookup k m ≡ some v → P (k, v)
  unfolding lookup
  lookup-All k v [] h f = cc
  lookup-All k v ((j, w) ∷ m) h f = elim (Bool-cases (e.beq j k)) [
    | inl same ↦
        let found : some w ≡ some v = rw same at f in
        let value : w ≡ v = cc found in
        subst (λ x. P (x, v)) ((e.beq_iff j k).0 same) (subst (λ y. P (j, y)) value h.0)
    | inr other ↦ lookup-All k v m h.1 (rw other at f)
  ]

module _ {ℓ κ} {K : Type ℓ} {V : Type κ} ⦃e : Eq K⦄ where
  pub length-remove-le : (k : K) (m : List (K × V)) → length (remove k m) ≤ length m
  unfolding remove
  length-remove-le k [] = omega arith
  length-remove-le k ((j, w) ∷ m) = ground (arith, length-remove-le k m)

  -- An entry that is replaced takes no new place.
  pub length-insert_known :
      (k : K) (v w : V) (m : List (K × V)) → lookup k m ≡ some w → length (insert k v m) ≡ length m
  length-insert_known k v w m f = ground (arith, length-insert k v m)

  -- A key that no entry's test accepts is not there.
  pub lookup_of_ne : (k : K) (m : List (K × V)) → All (λ x. ¬ (x.0 ≡ k)) m → lookup k m ≡ none
  unfolding lookup
  lookup_of_ne k [] h = refl
  lookup_of_ne k ((j, w) ∷ m) h = ground (arith, e.beq_iff j k, lookup_of_ne k m h.1)
