-- ===== src/Admission/Invariant.antt =====
-- The limiter's memory is bounded: by the number of sources and by the attempts kept for each.
use Prim.Native.String.{String}
use hmux.Base.{
  ℕ, ◌≤◌, ◌≡◌, Bool, List, [], ◌∷◌, ◌++◌, some, arith, length, length-append, length-filter-le,
  filter, All, Option-cases, inl, inr,
}
use hmux.Base.Eq.{string_eq}
use hmux.Base.Map.{
  lookup, insert, retain, Distinct, Distinct-insert, Distinct-retain, length-insert,
  length-retain-le,
}
use hmux.Admission.{
  LoginLimiter, empty, admit, admit_key, known, unknown, run, source_key, fresh, young,
  login_sources, login_attempts,
}

abbrev pub Short : String × List ℕ → Type 0
Short (key, times) = length times ≤ login_attempts

pub record IsBounded (l : LoginLimiter) : Type 0 where
  pub distinct : Distinct l.attempts
  pub few : length l.attempts ≤ login_sources
  pub short : All Short l.attempts

retain-Short :
    (p : List ℕ → Bool) (m : List (String × List ℕ)) → All Short m → All Short (retain p m)
unfolding retain
retain-Short p [] h = tt
retain-Short p (x ∷ m) h = ground (arith, retain-Short p m)

insert-Short :
    (k : String) (times : List ℕ) (m : List (String × List ℕ))
    → length times ≤ login_attempts
    → All Short m
    → All Short (insert k times m)
unfolding insert
insert-Short k times [] s h = (s, tt)
insert-Short k times ((j, v) ∷ m) s h = ground (arith, insert-Short k times m s)

pub lookup-Short :
    (k : String) (m : List (String × List ℕ)) (times : List ℕ)
    → All Short m
    → lookup k m ≡ some times
    → length times ≤ login_attempts
unfolding lookup
lookup-Short k [] times h e = cc
lookup-Short k ((j, v) ∷ m) times h e = ground (arith, lookup-Short k m times h.1)

abbrev MapBounded : List (String × List ℕ) → Type 0
MapBounded m = Distinct m × (length m ≤ login_sources) × All Short m

admit_key-IsBounded :
    (m : List (String × List ℕ)) (key : String) (now : ℕ)
    → MapBounded m
    → IsBounded (admit_key m key now).0
unfolding admit_key known unknown
admit_key-IsBounded m key now (d, f, s) = elim (Option-cases (lookup key m)) [
  | inl new ↦ ground (
    arith,
    length-insert key (now ∷ []) m,
    Distinct-insert key (now ∷ []) m d,
    insert-Short key (now ∷ []) m,
  )
  | inr (times, old) ↦
      let kept = filter (young now) times in
      let more = kept ++ now ∷ [] in
      ground (
        arith,
        length-insert key kept m,
        length-insert key more m,
        length-append kept (now ∷ []),
        length-filter-le (young now) times,
        lookup-Short key m times s old,
        Distinct-insert key kept m d,
        Distinct-insert key more m d,
        insert-Short key kept m,
        insert-Short key more m,
      )
]

pub admit-IsBounded :
    (l : LoginLimiter) (source : String) (now : ℕ) → IsBounded l → IsBounded (admit l source now).0
unfolding admit
admit-IsBounded l source now b =
    admit_key-IsBounded (retain (fresh now) l.attempts) (source_key source) now (
      Distinct-retain (fresh now) l.attempts b.distinct,
      omega (arith, length-retain-le (fresh now) l.attempts, b.few),
      retain-Short (fresh now) l.attempts b.short,
    )

run-IsBounded :
    (l : LoginLimiter) (calls : List (String × ℕ)) → IsBounded l → IsBounded (run l calls)
unfolding run
run-IsBounded l [] b = b
run-IsBounded l ((source, now) ∷ calls) b =
    run-IsBounded (admit l source now).0 calls (admit-IsBounded l source now b)

-- Whatever sources are presented and at whatever times, a new limiter remembers each name once, at
-- most 1024 names, and at most 5 attempts of each.
pub run-empty-IsBounded : (calls : List (String × ℕ)) → IsBounded (run empty calls)
unfolding empty
run-empty-IsBounded calls =
    run-IsBounded empty calls (record { distinct = tt; few = omega arith; short = tt })
