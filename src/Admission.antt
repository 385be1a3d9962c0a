-- ===== src/Admission.antt =====
-- crates/hmux-gateway/src/admission.rs: the limiter of login attempts for each source address. An
-- `Instant` is a number of nanoseconds; the attempts of a source are listed from the oldest.
pub mod Invariant
pub mod Recent
pub mod History
pub mod Limit
mod Examples
use Prim.Native.String.{String, len}
use hmux.Base.{
  ℕ, ◌+◌, ◌-◌, ◌*◌, Bool, true, false, List, [], ◌∷◌, ◌++◌, Option, none, some, length, filter,
  last, ltb, leb, if◌then◌else◌,
}
use hmux.Base.Eq.{string_eq}
use hmux.Base.Map.{lookup, insert, retain}

abbrev pub login_sources : ℕ
login_sources = 1024

abbrev pub login_attempts : ℕ
login_attempts = 5

-- 60 seconds.
abbrev pub login_window : ℕ
login_window = 60_000_000_000

pub record LoginLimiter : Type 0 where
  pub attempts : List (String × List ℕ)

pub empty : LoginLimiter
empty = record { attempts = [] }

-- The name under which a source is counted.
pub source_key : String → String
source_key source = if ltb 80 (len source) then "unknown" else source

-- `now.saturating_duration_since(t) < LOGIN_WINDOW`.
abbrev pub young : ℕ → ℕ → Bool
young now t = ltb (now - t) login_window

-- A source whose last attempt is old is forgotten.
abbrev pub fresh : ℕ → List ℕ → Bool
fresh now times = elim (last times) [ none ↦ false | some t ↦ young now t ]

known : List (String × List ℕ) → String → ℕ → List ℕ → LoginLimiter × Bool
known attempts key now times =
    if leb login_attempts (length times)
    then (record { attempts = insert key times attempts }, false)
    else (record { attempts = insert key (times ++ now ∷ []) attempts }, true)

unknown : List (String × List ℕ) → String → ℕ → LoginLimiter × Bool
unknown attempts key now =
    if leb login_sources (length attempts)
    then (record { attempts = attempts }, false)
    else (record { attempts = insert key (now ∷ []) attempts }, true)

admit_key : List (String × List ℕ) → String → ℕ → LoginLimiter × Bool
unfolding known unknown
admit_key attempts key now = elim (lookup key attempts) [
  | some times ↦ known attempts key now (filter (young now) times)
  | none ↦ unknown attempts key now
]

pub admit : LoginLimiter → String → ℕ → LoginLimiter × Bool
unfolding admit_key
admit l source now = admit_key (retain (fresh now) l.attempts) (source_key source) now

pub sources : LoginLimiter → ℕ
sources l = length l.attempts

-- The calls of the owner, oldest first, and the attempts that they admit under each name.
pub run : LoginLimiter → List (String × ℕ) → LoginLimiter
run l [] = l
run l ((source, now) ∷ calls) = run (admit l source now).0 calls

pub admitted : LoginLimiter → List (String × ℕ) → List (String × ℕ)
admitted l [] = []
admitted l ((source, now) ∷ calls) =
    let rest = admitted (admit l source now).0 calls in
    if (admit l source now).1 then (source_key source, now) ∷ rest else rest
