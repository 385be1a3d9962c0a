-- ===== src/Admission/Recent.antt =====
-- The attempts of the last 60 seconds in a list of times, and in a history of admitted attempts.
use Prim.Native.String.{String}
use hmux.Base.{
  ℕ, ap, sym, ◌∙◌, ◌≤◌, ◌≡◌, refl, false, List, [], ◌∷◌, ◌++◌, Option, none, some, arith, filter,
  All, All-append, if◌then◌else◌,
}
use hmux.Base.Eq.{string_eq}
use hmux.Base.Map.{lookup}
use hmux.Admission.{fresh, young}

abbrev pub recent : ℕ → List ℕ → List ℕ
recent now = filter (young now)

abbrev pub or_nil : Option (List ℕ) → List ℕ
or_nil none = []
or_nil (some ts) = ts

abbrev pub times_of : String → List (String × List ℕ) → List ℕ
times_of k m = or_nil (lookup k m)

-- The times at which the history has the name.
abbrev pub logged : String → List (String × ℕ) → List ℕ
logged k [] = []
logged k ((j, t) ∷ log) = if string_eq.beq j k then t ∷ logged k log else logged k log

pub logged-append :
    (k : String) (log more : List (String × ℕ))
    → logged k (log ++ more) ≡ logged k log ++ logged k more
logged-append k [] more = refl
logged-append k ((j, t) ∷ log) more = ground (arith, logged-append k log more)

pub recent-append :
    (now : ℕ) (xs ys : List ℕ) → recent now (xs ++ ys) ≡ recent now xs ++ recent now ys
recent-append now [] ys = refl
recent-append now (x ∷ xs) ys = ground (arith, recent-append now xs ys)

pub recent-recent : (n now : ℕ) (xs : List ℕ) → n ≤ now → recent now (recent n xs) ≡ recent now xs
recent-recent n now [] h = refl
recent-recent n now (x ∷ xs) h = ground (arith, recent-recent n now xs h)

pub recent_later :
    (n now : ℕ) (xs ys : List ℕ)
    → n ≤ now
    → recent n xs ≡ recent n ys
    → recent now xs ≡ recent now ys
recent_later n now xs ys h e =
    sym (recent-recent n now xs h) ∙ ap (recent now) e ∙ recent-recent n now ys h

abbrev pub Sorted : List ℕ → Type 0
Sorted [] = Unit {0}
Sorted (x ∷ xs) = All (λ y. x ≤ y) xs × Sorted xs

abbrev pub UpTo : ℕ → List ℕ → Type 0
UpTo n = All (λ y. y ≤ n)

pub All-recent {κ} : (P : ℕ → Type κ) (now : ℕ) (xs : List ℕ) → All P xs → All P (recent now xs)
All-recent P now [] h = tt
All-recent P now (x ∷ xs) h = ground (arith, All-recent P now xs h.1)

pub Sorted-recent : (now : ℕ) (xs : List ℕ) → Sorted xs → Sorted (recent now xs)
Sorted-recent now [] h = tt
Sorted-recent now (x ∷ xs) h =
    ground (arith, Sorted-recent now xs h.1, All-recent (λ y. x ≤ y) now xs h.0)

pub Sorted-snoc : (xs : List ℕ) (n : ℕ) → Sorted xs → UpTo n xs → Sorted (xs ++ n ∷ [])
Sorted-snoc [] n h u = (tt, tt)
Sorted-snoc (x ∷ xs) n h u =
    (All-append (λ y. x ≤ y) xs (n ∷ []) h.0 (u.0, tt), Sorted-snoc xs n h.1 u.1)

pub UpTo-later : (n now : ℕ) (xs : List ℕ) → n ≤ now → UpTo n xs → UpTo now xs
UpTo-later n now [] h u = tt
UpTo-later n now (x ∷ xs) h u = (omega arith, UpTo-later n now xs h u.1)

-- In an ascending list the last time is the youngest, so an old one leaves nothing recent.
pub recent_of_stale :
    (now : ℕ) (xs : List ℕ) → Sorted xs → fresh now xs ≡ false → recent now xs ≡ []
recent_of_stale now [] h e = refl
recent_of_stale now (x ∷ []) h e = ground arith
recent_of_stale now (x ∷ y ∷ ys) h e = ground (arith, recent_of_stale now (y ∷ ys) h.1 e)
