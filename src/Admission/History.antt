-- ===== src/Admission/History.antt =====
-- One call of the limiter, seen from the history of admitted attempts: what the limiter keeps of a
-- source is what the history says of the last 60 seconds.
use Prim.Native.String.{String}
use hmux.Base.{
  ℕ, ap, sym, ◌∙◌, ◌≤◌, ◌≡◌, List, [], ◌∷◌, ◌++◌, arith, filter, All-append, Option-cases,
  Bool-cases, inl, inr, if◌then◌else◌, append-nil,
}
use hmux.Base.Eq.{string_eq}
use hmux.Base.Map.{lookup, retain, Distinct, lookup-insert, lookup-retain}
use hmux.Admission.{LoginLimiter, admit, admit_key, known, unknown, source_key, fresh, young}
use hmux.Admission.Invariant.{IsBounded, admit-IsBounded}
use hmux.Admission.Recent.{
  recent, times_of, logged, logged-append, recent-append, recent-recent, recent_later, Sorted, UpTo,
  All-recent, Sorted-recent, Sorted-snoc, UpTo-later, recent_of_stale,
}

-- What the limiter knows after a history of admitted attempts, up to an instant.
pub record Tracks (l : LoginLimiter) (log : List (String × ℕ)) (now : ℕ) : Type 0 where
  pub bounded : IsBounded l
  pub sorted : (k : String) → Sorted (times_of k l.attempts)
  pub past : (k : String) → UpTo now (times_of k l.attempts)
  pub agree : (k : String) → recent now (times_of k l.attempts) ≡ recent now (logged k log)

times_of-retain :
    (now : ℕ) (k : String) (m : List (String × List ℕ))
    → Distinct m
    → times_of k (retain (fresh now) m) ≡ (if fresh now (times_of k m) then times_of k m else [])
times_of-retain now k m d = ground (arith, lookup-retain (fresh now) k m d)

times_of-admit_key :
    (m : List (String × List ℕ)) (key : String) (now : ℕ) (j : String)
    → times_of j (admit_key m key now).0.attempts ≡ (
        if string_eq.beq key j
        then recent now (times_of key m) ++ (if (admit_key m key now).1 then now ∷ [] else [])
        else times_of j m)
unfolding admit_key known unknown
times_of-admit_key m key now j = elim (Option-cases (lookup key m)) [
  | inl new ↦ ground (arith, string_eq.beq_iff key j, lookup-insert key j (now ∷ []) m)
  | inr (times, old) ↦
      let kept = filter (young now) times in
      ground (
        arith,
        string_eq.beq_iff key j,
        lookup-insert key j kept m,
        lookup-insert key j (kept ++ now ∷ []) m,
        append-nil kept,
      )
]

-- One call, seen from the history: what is recent afterwards is what was, and the admitted attempt.
unfoldable pub entry : LoginLimiter → String → ℕ → List (String × ℕ)
entry l source now = if (admit l source now).1 then (source_key source, now) ∷ [] else []

pub recent-retain :
    (now : ℕ) (k : String) (m : List (String × List ℕ))
    → Distinct m
    → Sorted (times_of k m)
    → recent now (times_of k (retain (fresh now) m)) ≡ recent now (times_of k m)
recent-retain now k m d s =
    ground (arith, times_of-retain now k m d, recent_of_stale now (times_of k m) s)

Sorted-retain :
    (now : ℕ) (k : String) (m : List (String × List ℕ))
    → Distinct m
    → Sorted (times_of k m)
    → Sorted (times_of k (retain (fresh now) m))
Sorted-retain now k m d s =
    rw (times_of-retain now k m d)
      (elim (Bool-cases (fresh now (times_of k m))) [ inl e ↦ rw e s | inr e ↦ rw e tt ])

UpTo-retain :
    (now n : ℕ) (k : String) (m : List (String × List ℕ))
    → Distinct m
    → UpTo n (times_of k m)
    → UpTo n (times_of k (retain (fresh now) m))
UpTo-retain now n k m d u =
    rw (times_of-retain now k m d)
      (elim (Bool-cases (fresh now (times_of k m))) [ inl e ↦ rw e u | inr e ↦ rw e tt ])

-- The state after a call, for one name.
module _ (m : List (String × List ℕ)) (key : String) (now : ℕ) (j : String) where
  admit_key-Sorted :
      Sorted (times_of key m)
      → Sorted (times_of j m)
      → UpTo now (times_of key m)
      → Sorted (times_of j (admit_key m key now).0.attempts)
  admit_key-Sorted s s' u =
      rw (times_of-admit_key m key now j) (elim (Bool-cases (string_eq.beq key j)) [
        | inr e ↦ rw e s'
        | inl e ↦ elim (Bool-cases (admit_key m key now).1) [
          | inl v ↦
              rw (e, v)
                (Sorted-snoc (recent now (times_of key m)) now
                  (Sorted-recent now (times_of key m) s)
                  (All-recent (λ y. y ≤ now) now (times_of key m) u))
          | inr v ↦ rw (e, v, append-nil) (Sorted-recent now (times_of key m) s)
        ]
      ])

  admit_key-UpTo :
      UpTo now (times_of key m)
      → UpTo now (times_of j m)
      → UpTo now (times_of j (admit_key m key now).0.attempts)
  admit_key-UpTo u u' =
      rw (times_of-admit_key m key now j) (elim (Bool-cases (string_eq.beq key j)) [
        | inr e ↦ rw e u'
        | inl e ↦ elim (Bool-cases (admit_key m key now).1) [
          | inl v ↦
              rw (e, v)
                (All-append (λ y. y ≤ now) (recent now (times_of key m)) (now ∷ [])
                  (All-recent (λ y. y ≤ now) now (times_of key m) u) (omega arith))
          | inr v ↦ rw (e, v, append-nil) (All-recent (λ y. y ≤ now) now (times_of key m) u)
        ]
      ])

  admit_key-agree :
      recent now (times_of j (admit_key m key now).0.attempts)
      ≡ recent now (times_of j m)
        ++ logged j (if (admit_key m key now).1 then (key, now) ∷ [] else [])
  admit_key-agree = ground (
    arith,
    times_of-admit_key m key now j,
    string_eq.beq_iff key j,
    recent-recent now now (times_of key m),
    recent-append now (recent now (times_of key m)) (now ∷ []),
    append-nil (recent now (times_of j m)),
    append-nil (recent now (times_of key m)),
  )

pub Tracks-admit :
    (l : LoginLimiter) (log : List (String × ℕ)) (before now : ℕ) (source : String)
    → before ≤ now
    → Tracks l log before
    → Tracks (admit l source now).0 (log ++ entry l source now) now
unfolding admit entry
Tracks-admit l log before now source h t = record {
  bounded = admit-IsBounded l source now t.bounded;
  sorted = λ k.
      admit_key-Sorted m key now k (Sorted-retain now key l.attempts d (t.sorted key))
        (Sorted-retain now k l.attempts d (t.sorted k)) (young_of key);
  past = λ k. admit_key-UpTo m key now k (young_of key) (young_of k);
  agree = λ k.
      admit_key-agree m key now k
      ∙ ap (λ xs. xs ++ logged k new)
          (recent-retain now k l.attempts d (t.sorted k)
            ∙ recent_later before now _ _ h (t.agree k))
      ∙ ap (λ xs. recent now (logged k log) ++ xs) (sym (recent_new k))
      ∙ sym (recent-append now (logged k log) (logged k new))
      ∙ ap (recent now) (sym (logged-append k log new));
}
  where
    key : String
    key = source_key source

    d : Distinct l.attempts
    d = t.bounded.distinct

    m : List (String × List ℕ)
    m = retain (fresh now) l.attempts

    new : List (String × ℕ)
    new = if (admit_key m key now).1 then (key, now) ∷ [] else []

    young_of : (k : String) → UpTo now (times_of k m)
    young_of k =
        UpTo-retain now now k l.attempts d
          (UpTo-later before now (times_of k l.attempts) h (t.past k))

    recent_new : (k : String) → recent now (logged k new) ≡ logged k new
    recent_new k = ground arith
