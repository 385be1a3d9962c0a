-- ===== src/Auth/Sessions.antt =====
-- auth_store.rs: what the HTTP owner asks of a session by its token.
use hmux.Base.{
  ℕ, ◌-◌, Bool, true, false, not, ◌&&◌, ◌||◌, Option, none, some, List, [], ◌∷◌, leb, ◌==◌,
  if◌then◌else◌,
}
use hmux.Base.Eq.{Bytes, bytes_beq, bytes_eq}
use hmux.Base.Map.{lookup, insert, remove}
use hmux.Auth.Types.{
  fail_storage, Env, Account, Session, Sessions, State, Result, ok, err, storage_unavailable,
  session_not_found, fingerprint, seen_persist_interval,
}
use hmux.Auth.Files.{replace, prune}

pub record SessionAccess : Type 0 where
  pub id : Bytes
  pub expires_at : ℕ
  pub username : Bytes
  pub profile : Bytes
  pub cancelled : ℕ

abbrev pub access_of : Session → SessionAccess
access_of x = record {
  id = x.id;
  expires_at = x.expires;
  username = x.username;
  profile = x.profile;
  cancelled = x.cancel;
}

abbrev pub seen_at : ℕ → Session → Session
seen_at now x = record x { seen = now }

abbrev pub persisted_at : ℕ → Session → Session
persisted_at now x = record x { seen = now; persisted_seen = now }

abbrev pub find_session : (Bytes → Session → Bool) → Sessions → Option (Bytes × Session)
find_session p [] = none
find_session p ((k, x) ∷ m) = if p k x then some (k, x) else find_session p m

abbrev pub has_channel : ℕ → List ℕ → Bool
has_channel c [] = false
has_channel c (x ∷ xs) = x == c || has_channel c xs

module _ (e : Env) where
  abbrev pub touched : State e × Bool → SessionAccess → State e × Result (Option SessionAccess)
  touched (t, true) a = (t, ok (some a))
  touched (t, false) a = (t, err storage_unavailable)

  abbrev pub accessed :
      State e → Bytes → Bool → ℕ → Option Session → State e × Result (Option SessionAccess)
  accessed s key touch now none = (s, ok none)
  accessed s key touch now (some x) =
      if touch && leb seen_persist_interval (now - x.persisted_seen)
      then touched (replace e s (insert key (persisted_at now x) s.sessions) []) (access_of x)
      else if touch
      then (record s { sessions = insert key (seen_at now x) s.sessions }, ok (some (access_of x)))
      else (s, ok (some (access_of x)))

  abbrev pub access_pruned :
      Bytes → Bool → ℕ → State e × Bool → State e × Result (Option SessionAccess)
  access_pruned key touch now (s, false) = (s, err storage_unavailable)
  access_pruned key touch now (s, true) = accessed s key touch now (lookup key s.sessions)

  unfoldable pub access : State e → Bytes → Bool → ℕ → State e × Result (Option SessionAccess)
  access s token touch now = access_pruned (e.token_hash token) touch now (prune e s now)

  abbrev pub current : Account → Session → Bool
  current a x =
      bytes_beq x.profile a.profile && bytes_beq x.fingerprint (fingerprint e a.credentials)

  abbrev pub pushable : State e → ℕ → Session → Option Account → Option SessionAccess
  pushable s now x none = none
  pushable s now x (some a) =
      if leb x.expires now || not (current a x) || has_channel x.cancel s.cancelled
      then none
      else some (access_of x)

  abbrev pub push_found : State e → ℕ → Option (Bytes × Session) → Option SessionAccess
  push_found s now none = none
  push_found s now (some (k, x)) = pushable s now x (lookup x.username s.accounts)

  -- Under the lock; a public id is no bearer token, and the lookup changes nothing.
  unfoldable pub push_login_by_id : State e → Bytes → ℕ → Result (Option SessionAccess)
  push_login_by_id s id now =
      if s.storage_failed
      then err storage_unavailable
      else ok (push_found s now (find_session (λ k x. bytes_beq x.id id) s.sessions))

  abbrev pub revoked : Bool → State e × Bool → State e × Result Bool
  revoked own (t, true) = (t, ok own)
  revoked own (t, false) = (t, err storage_unavailable)

  -- The index of the table: a key that was found is there.
  abbrev pub revoke_found : State e → Bytes → Bytes → Option Session → State e × Result Bool
  revoke_found s key target none = (fail_storage e s, err storage_unavailable)
  revoke_found s key target (some x) =
      revoked (bytes_beq target key) (replace e s (remove target s.sessions) (x.cancel ∷ []))

  abbrev pub revoke_target : State e → Bytes → Option (Bytes × Session) → State e × Result Bool
  revoke_target s key none = (s, err session_not_found)
  revoke_target s key (some (target, x)) = revoke_found s key target (lookup target s.sessions)

  abbrev pub same_owner : Bytes → Session → Bytes → Session → Bool
  same_owner id mine k x =
      bytes_beq x.id id && bytes_beq x.username mine.username && bytes_beq x.profile mine.profile

  abbrev pub revoke_from : State e → Bytes → Bytes → Option Session → State e × Result Bool
  revoke_from s key id none = (s, err session_not_found)
  revoke_from s key id (some mine) =
      revoke_target s key (find_session (same_owner id mine) s.sessions)

  -- `valid_token` is the check of crates/hmux-core.
  module _ (valid_token : Bytes → Bool) where
    abbrev pub revoke_pruned : Bytes → Bytes → State e × Bool → State e × Result Bool
    revoke_pruned key id (s, false) = (s, err storage_unavailable)
    revoke_pruned key id (s, true) =
        if valid_token id
        then revoke_from s key id (lookup key s.sessions)
        else (s, err session_not_found)

    unfoldable pub revoke : State e → Bytes → Bytes → ℕ → State e × Result Bool
    revoke s token id now = revoke_pruned (e.token_hash token) id (prune e s now)

  abbrev pub logged_out : State e × Bool → State e × Result (Unit {0})
  logged_out (t, true) = (t, ok tt)
  logged_out (t, false) = (t, err storage_unavailable)

  abbrev pub logout_found : State e → Bytes → Option Session → State e × Result (Unit {0})
  logout_found s key none = (s, ok tt)
  logout_found s key (some x) = logged_out (replace e s (remove key s.sessions) (x.cancel ∷ []))

  unfoldable pub logout : State e → Bytes → State e × Result (Unit {0})
  logout s token =
      if s.storage_failed
      then (s, err storage_unavailable)
      else logout_found s (e.token_hash token) (lookup (e.token_hash token) s.sessions)

  abbrev pub enabled : Session → Option Account → Option Bool
  enabled x none = none
  enabled x (some a) = if current a x then some (not a.credentials.totp_disabled) else none

  abbrev pub enabled_of : State e → Option Session → Option Bool
  enabled_of s none = none
  enabled_of s (some x) = enabled x (lookup x.username s.accounts)

  abbrev pub enabled_pruned : Bytes → State e × Bool → State e × Result (Option Bool)
  enabled_pruned key (s, false) = (s, err storage_unavailable)
  enabled_pruned key (s, true) = (s, ok (enabled_of s (lookup key s.sessions)))

  unfoldable pub totp_enabled_checked : State e → Bytes → ℕ → State e × Result (Option Bool)
  totp_enabled_checked s token now = enabled_pruned (e.token_hash token) (prune e s now)

  abbrev pub identity_of : Option Session → Option (Bytes × Bytes)
  identity_of none = none
  identity_of (some x) = some (x.username, x.profile)

  abbrev pub identity_pruned : Bytes → State e × Bool → State e × Result (Option (Bytes × Bytes))
  identity_pruned key (s, false) = (s, err storage_unavailable)
  identity_pruned key (s, true) = (s, ok (identity_of (lookup key s.sessions)))

  unfoldable pub identity_checked : State e → Bytes → ℕ → State e × Result (Option (Bytes × Bytes))
  identity_checked s token now = identity_pruned (e.token_hash token) (prune e s now)
