-- ===== src/Admission/Limit.antt =====
-- The limiter is a sliding window: five attempts of a name in 60 seconds, in every history.
use Prim.Native.String.{String}
use hmux.Base.{
  ℕ, ap, ◌∙◌, ◌≤◌, ◌≡◌, ◌≢◌, refl, true, List, [], ◌∷◌, ◌++◌, none, some, arith, length, ltb,
  length-filter-le, Option-cases, inl, inr, append_assoc, append-nil,
}
use hmux.Base.Eq.{string_eq}
use hmux.Base.Map.{lookup, retain, Distinct, lookup-retain}
use hmux.Admission.{
  LoginLimiter, empty, admit, admit_key, known, unknown, run, admitted, source_key, fresh, young,
  login_sources, login_attempts,
}
use hmux.Admission.Invariant.{IsBounded, lookup-Short, run-empty-IsBounded}
use hmux.Admission.Recent.{recent, times_of, logged, recent_later}
use hmux.Admission.History.{Tracks, Tracks-admit, entry, recent-retain}

-- The verdict: fewer than five recent attempts, and room for a name that has none.
admit_key-verdict :
    (m : List (String × List ℕ)) (key : String) (now : ℕ)
    → lookup key m ≡ none
    → (admit_key m key now).1 ≡ ltb (length m) login_sources
unfolding admit_key unknown
admit_key-verdict m key now e = ground arith

admit_key-verdict_known :
    (m : List (String × List ℕ)) (key : String) (now : ℕ) (times : List ℕ)
    → lookup key m ≡ some times
    → (admit_key m key now).1 ≡ ltb (length (recent now times)) login_attempts
unfolding admit_key known
admit_key-verdict_known m key now times e = ground arith

-- The times of the calls do not fall.
abbrev pub Ascending : ℕ → List (String × ℕ) → Type 0
Ascending from [] = Unit {0}
Ascending from ((source, now) ∷ calls) = (from ≤ now) × Ascending now calls

-- The time of the last call.
abbrev pub until : ℕ → List (String × ℕ) → ℕ
until from [] = from
until from ((source, now) ∷ calls) = until now calls

admitted-cons :
    (l : LoginLimiter) (source : String) (now : ℕ) (calls : List (String × ℕ))
    → admitted l ((source, now) ∷ calls)
      ≡ entry l source now ++ admitted (admit l source now).0 calls
unfolding admitted entry
admitted-cons l source now calls = ground arith

Tracks-run :
    (l : LoginLimiter) (log : List (String × ℕ)) (from : ℕ) (calls : List (String × ℕ))
    → Ascending from calls
    → Tracks l log from
    → Tracks (run l calls) (log ++ admitted l calls) (until from calls)
unfolding run
Tracks-run l log from [] a t = unfold admitted in rw append-nil t
Tracks-run l log from ((source, now) ∷ calls) a t =
    rw (admitted-cons l source now calls, ← append_assoc)
      (Tracks-run (admit l source now).0 (log ++ entry l source now) now calls a.1
        (Tracks-admit l log from now source a.0 t))

Tracks-run-empty :
    (from : ℕ) (calls : List (String × ℕ))
    → Ascending from calls
    → Tracks (run empty calls) (admitted empty calls) (until from calls)
unfolding empty lookup run
Tracks-run-empty from calls a = Tracks-run empty [] from calls a (record {
  bounded = run-empty-IsBounded [];
  sorted = λ k. tt;
  past = λ k. tt;
  agree = λ k. refl;
})

short_of_times :
    (k : String) (l : LoginLimiter) → IsBounded l → length (times_of k l.attempts) ≤ login_attempts
short_of_times k l b = elim (Option-cases (lookup k l.attempts)) [
  | inl e ↦ rw e (omega arith)
  | inr (times, e) ↦ rw e (lookup-Short k l.attempts times b.short e)
]

-- In every history of calls at times that do not fall, at most five attempts under one name are
-- admitted in the 60 seconds that end at the last call.
pub admitted-le-limit :
    (from : ℕ) (calls : List (String × ℕ)) (k : String)
    → Ascending from calls
    → length (recent (until from calls) (logged k (admitted empty calls))) ≤ login_attempts
admitted-le-limit from calls k a =
    let t = Tracks-run-empty from calls a in
    omega (
      arith,
      ap length (t.agree k),
      length-filter-le (young (until from calls)) (times_of k (run empty calls).attempts),
      short_of_times k (run empty calls) t.bounded,
    )

recent_of_fresh : (now : ℕ) (xs : List ℕ) → fresh now xs ≡ true → recent now xs ≢ []
recent_of_fresh now [] e = λ h. cc
recent_of_fresh now (x ∷ []) e = λ h. ground arith
recent_of_fresh now (x ∷ y ∷ ys) e = λ h. ground (arith, recent_of_fresh now (y ∷ ys) e)

window-verdict :
    (now : ℕ) (key : String) (m : List (String × List ℕ))
    → Distinct m
    → let past = recent now (times_of key (retain (fresh now) m)) in
      let verdict = (admit_key (retain (fresh now) m) key now).1 in
      (past ≢ [] → verdict ≡ ltb (length past) login_attempts)
      × (past ≡ [] → verdict ≡ ltb (length (retain (fresh now) m)) login_sources)
window-verdict now key m d = elim (Option-cases (lookup key (retain (fresh now) m))) [
  | inl new ↦
      (λ h. absurd (h (ground arith)), λ h. admit_key-verdict (retain (fresh now) m) key now new)
  | inr (times, old) ↦ (
    λ h. ground (arith, admit_key-verdict_known (retain (fresh now) m) key now times old),
    λ h. absurd (
        recent_of_fresh now times (ground (arith, lookup-retain (fresh now) key m d))
          (ground arith)),
  )
]

-- After such a history, an attempt of a name that has attempts in the last 60 seconds is admitted
-- exactly if these are fewer than five; a name that has none is admitted exactly if fewer than 1024
-- names are remembered once those with no attempt in the last 60 seconds are dropped.
pub admit-window :
    (from now : ℕ) (calls : List (String × ℕ)) (source : String)
    → Ascending from calls
    → until from calls ≤ now
    → let l = run empty calls in
      let past = recent now (logged (source_key source) (admitted empty calls)) in
      (past ≢ [] → (admit l source now).1 ≡ ltb (length past) login_attempts)
      × (past ≡ []
          → (admit l source now).1 ≡ ltb (length (retain (fresh now) l.attempts)) login_sources)
unfolding admit
admit-window from now calls source a h =
    let t = Tracks-run-empty from calls a in
    let key = source_key source in
    let m = (run empty calls).attempts in
    rw (← past_of t key) (window-verdict now key m t.bounded.distinct)
  where
    past_of :
        Tracks (run empty calls) (admitted empty calls) (until from calls)
        → (k : String)
        → recent now (times_of k (retain (fresh now) (run empty calls).attempts))
          ≡ recent now (logged k (admitted empty calls))
    past_of t k =
        recent-retain now k _ t.bounded.distinct (t.sorted k)
        ∙ recent_later (until from calls) now _ _ h (t.agree k)
