-- ===== src/Admission/Examples.antt =====
-- The limiter at concrete histories, as the tests of admission.rs try it.
use Prim.Native.String.{String}
use hmux.Base.{ℕ, ◌-◌, ◌≤◌, ◌≡◌, ◌≢◌, refl, true, false, List, [], ◌∷◌, length, ltb, arith}
use hmux.Base.Eq.{string_eq}
use hmux.Base.Map.{lookup, insert, retain}
use hmux.Admission.{
  empty, admit, run, admitted, source_key, fresh, login_window, login_attempts, login_sources,
}
use hmux.Admission.Invariant.{IsBounded, run-empty-IsBounded}
use hmux.Admission.Recent.{recent, logged}
use hmux.Admission.Limit.{until, admitted-le-limit, admit-window}

abbrev burst : List (String × ℕ)
burst = ("a", 0) ∷ ("a", 1) ∷ ("b", 2) ∷ ("a", 3) ∷ ("a", 4) ∷ ("a", 5) ∷ ("a", 6) ∷ []

program : Unit {0}
unfolding empty admit run admitted source_key lookup insert retain
program = tt

-- The sixth attempt of "a" is refused, and a minute after the first there is room again.
burst_refused :
    (admitted empty burst ≡ ("a", 0) ∷ ("a", 1) ∷ ("b", 2) ∷ ("a", 3) ∷ ("a", 4) ∷ ("a", 5) ∷ [])
unfolding program
burst_refused = refl

burst_recovers :
    ((admit (run empty burst) "a" (login_window - 1)).1 ≡ false)
    × ((admit (run empty burst) "a" login_window).1 ≡ true)
unfolding program
burst_recovers = (refl, refl)

run-empty-IsBounded_example : IsBounded (run empty burst)
run-empty-IsBounded_example = run-empty-IsBounded burst

admitted-le-limit_example :
    length (recent (until 0 burst) (logged "a" (admitted empty burst))) ≤ login_attempts
admitted-le-limit_example = admitted-le-limit 0 burst "a" (omega arith)

admit-window_example :
    let l = run empty burst in
    let past = recent 7 (logged (source_key "b") (admitted empty burst)) in
    (past ≢ [] → (admit l "b" 7).1 ≡ ltb (length past) login_attempts)
    × (past ≡ [] → (admit l "b" 7).1 ≡ ltb (length (retain (fresh 7) l.attempts)) login_sources)
admit-window_example = admit-window 0 7 burst "b" (omega arith) (omega arith)
