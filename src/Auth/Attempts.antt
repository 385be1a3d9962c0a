-- ===== src/Auth/Attempts.antt =====
-- auth_store.rs: `allow_attempt`, the attempts of a source or of an account within a minute.
use hmux.Base.{
  ℕ, ◌-◌, ◌*◌, Bool, true, false, Option, none, some, List, [], ◌∷◌, ◌++◌, ltb, leb, length, filter,
  last, if◌then◌else◌,
}
use hmux.Base.Eq.{Bytes, bytes_eq}
use hmux.Base.Map.{lookup, insert, retain}
use hmux.Auth.Types.{second}

abbrev pub minute : ℕ
minute = 60 * second

abbrev pub recent : ℕ → ℕ → Bool
recent now attempt = ltb (now - attempt) minute

abbrev pub recent_last : ℕ → List ℕ → Bool
recent_last now values = elim (last values) [ none ↦ false | some t ↦ recent now t ]

abbrev pub known : List (Bytes × List ℕ) → Bytes → ℕ → List ℕ → List (Bytes × List ℕ) × Bool
known m key now values =
    if leb 5 (length values)
    then (insert key values m, false)
    else (insert key (values ++ now ∷ []) m, true)

abbrev pub allowed :
    List (Bytes × List ℕ) → Bytes → ℕ → ℕ → Option (List ℕ) → List (Bytes × List ℕ) × Bool
allowed m key now cap (some values) = known m key now (filter (recent now) values)
allowed m key now cap none =
    if leb cap (length m) then (m, false) else (insert key (now ∷ []) m, true)

unfoldable pub allow_attempt : List (Bytes × List ℕ) → Bytes → ℕ → ℕ → List (Bytes × List ℕ) × Bool
allow_attempt m key now cap =
    let kept = retain (recent_last now) m in allowed kept key now cap (lookup key kept)
