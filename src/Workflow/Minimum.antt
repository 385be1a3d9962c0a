-- ===== src/Workflow/Minimum.antt =====
-- workflow.rs: what `min_by_key` gives.
use hmux.Base.{◌≡◌, refl, arith, Bool, true, ◌&&◌, Option, none, some, List, [], ◌∷◌, All, if_lem}
use hmux.Base.Eq.{Bytes}
use hmux.Workflow.Items.{min_by}
use hmux.Workflow.Files.{always, is_some}

module _ {ℓ} {V : Type ℓ} where
  abbrev pub OptionAll {κ} : (V → Type κ) → Option V → Type κ
  OptionAll P none = Unit
  OptionAll P (some v) = P v

  -- A value of the map, which passes the test when the best so far does.
  pub min_by-All {κ} :
      (P : V → Type κ) (less : V → V → Bool) (p : V → Bool) (best : Option V) (m : List (Bytes × V))
      → OptionAll P best
      → All (λ x. P x.1) m
      → OptionAll P (min_by less p best m)
  unfolding min_by
  min_by-All P less p best [] b h = b
  min_by-All P less p none ((k, v) ∷ m) b h =
      if_lem (λ (o : Option V). OptionAll P o) (p v) (λ yes. min_by-All P less p (some v) m h.0 h.1)
        (λ no. min_by-All P less p none m tt h.1)
  min_by-All P less p (some w) ((k, v) ∷ m) b h =
      if_lem (λ (o : Option V). OptionAll P o) (p v && less v w)
        (λ yes. min_by-All P less p (some v) m h.0 h.1) (λ no. min_by-All P less p (some w) m b h.1)

  pub min_by-passes :
      (less : V → V → Bool) (p : V → Bool) (best : Option V) (m : List (Bytes × V))
      → OptionAll (λ v. p v ≡ true) best
      → OptionAll (λ v. p v ≡ true) (min_by less p best m)
  unfolding min_by
  min_by-passes less p best [] b = b
  min_by-passes less p none ((k, v) ∷ m) b =
      if_lem (λ (o : Option V). OptionAll (λ w. p w ≡ true) o) (p v)
        (λ yes. min_by-passes less p (some v) m yes) (λ no. min_by-passes less p none m tt)
  min_by-passes less p (some w) ((k, v) ∷ m) b =
      if_lem (λ (o : Option V). OptionAll (λ w. p w ≡ true) o) (p v && less v w)
        (λ yes. min_by-passes less p (some v) m (ground (arith, yes)))
        (λ no. min_by-passes less p (some w) m b)

  pub min_by-some :
      (less : V → V → Bool) (w : V) (m : List (Bytes × V))
      → is_some (min_by less always (some w) m) ≡ true
  unfolding min_by
  min_by-some less w [] = refl
  min_by-some less w ((k, v) ∷ m) = ground (arith, min_by-some less w m, min_by-some less v m)
