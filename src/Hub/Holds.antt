-- ===== src/Hub/Holds.antt =====
-- What the invariant says of each of the hub's maps, and how the map operations keep it.
use hmux.Base.{ℕ, ap, ◌+◌, ◌≤◌, ◌<◌, ◌≡◌, List, [], ◌∷◌, none, some, arith, length, All}
use hmux.Base.Eq.{bytes_eq}
use hmux.Base.Map.{
  lookup, insert, remove, Distinct, Distinct-insert, Distinct-remove, length-insert,
  length-insert_known, length-remove-le, All-insert, All-remove, lookup-All, lookup_of_ne,
}
use hmux.Hub.Ids.{rank}

module _ {V : Type 0} where
  -- At most so many entries, no key twice, each key an id that has been counted, and a predicate of
  -- each value.
  pub record Holds (limit top : ℕ) (P : V → Type 0) (m : List (List ℕ × V)) : Type 0 where
    pub few : length m ≤ limit
    pub distinct : Distinct m
    pub counted : All (λ x. rank x.0 ≤ top) m
    pub each : All (λ x. P x.1) m

  pub Holds-nil : (limit top : ℕ) (P : V → Type 0) → Holds limit top P []
  Holds-nil limit top P = record { few = omega arith; distinct = tt; counted = tt; each = tt }

  counted_mono :
      (m n : ℕ) (xs : List (List ℕ × V))
      → m ≤ n
      → All (λ x. rank x.0 ≤ m) xs
      → All (λ x. rank x.0 ≤ n) xs
  counted_mono m n [] h k = tt
  counted_mono m n (x ∷ xs) h k = (omega arith, counted_mono m n xs h k.1)

  rank_ne :
      (top : ℕ) (id : List ℕ) (m : List (List ℕ × V))
      → All (λ x. rank x.0 ≤ top) m
      → top < rank id
      → All (λ x. ¬ (x.0 ≡ id)) m
  rank_ne top id [] h lt = tt
  rank_ne top id (x ∷ m) h lt = (λ e. omega (arith, ap rank e), rank_ne top id m h.1 lt)

  module _ {limit top : ℕ} {P : V → Type 0} {m : List (List ℕ × V)} (h : Holds limit top P m) where
    -- No entry has an id above those counted.
    pub Holds-absent : (id : List ℕ) → top < rank id → lookup id m ≡ none
    Holds-absent id lt = lookup_of_ne id m (rank_ne top id m h.counted lt)

    pub Holds-mono : (top' : ℕ) → top ≤ top' → Holds limit top' P m
    Holds-mono top' le = record {
      few = h.few;
      distinct = h.distinct;
      counted = counted_mono top top' m le h.counted;
      each = h.each;
    }

    pub Holds-remove : (id : List ℕ) → Holds limit top P (remove id m)
    Holds-remove id = record {
      few = omega (arith, length-remove-le id m, h.few);
      distinct = Distinct-remove id m h.distinct;
      counted = All-remove _ id m h.counted;
      each = All-remove _ id m h.each;
    }

    pub Holds-lookup : (id : List ℕ) (v : V) → lookup id m ≡ some v → P v
    Holds-lookup id v e = lookup-All (λ x. P x.1) id v m h.each e

    pub Holds-rank : (id : List ℕ) (v : V) → lookup id m ≡ some v → rank id ≤ top
    Holds-rank id v e = lookup-All (λ x. rank x.0 ≤ top) id v m h.counted e

    pub Holds-replace :
        (id : List ℕ) (old v : V) → lookup id m ≡ some old → P v → Holds limit top P (insert id v m)
    Holds-replace id old v e p = record {
      few = omega (arith, length-insert_known id v old m e, h.few);
      distinct = Distinct-insert id v m h.distinct;
      counted = All-insert _ id v m (Holds-rank id old e) h.counted;
      each = All-insert _ id v m p h.each;
    }

    pub Holds-insert :
        (id : List ℕ) (v : V)
        → rank id ≡ top + 1
        → length m < limit
        → P v
        → Holds limit (top + 1) P (insert id v m)
    Holds-insert id v r room p = record {
      few = ground (arith, length-insert id v m);
      distinct = Distinct-insert id v m h.distinct;
      counted =
          All-insert _ id v m (omega arith) (counted_mono top (top + 1) m (omega arith) h.counted);
      each = All-insert _ id v m p h.each;
    }
