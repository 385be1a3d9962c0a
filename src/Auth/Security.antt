-- ===== src/Auth/Security.antt =====
-- auth_store.rs: the two transactions of `set_totp_enabled`.
use hmux.Base.{
  ℕ, Bool, true, false, not, ◌&&◌, ◌||◌, Option, none, some, List, [], ◌∷◌, ◌++◌, ltb,
  if◌then◌else◌,
}
use hmux.Base.Eq.{Bytes, bytes_beq, bytes_eq}
use hmux.Base.Int.{ℤ, int_leb, is_negative}
use hmux.Base.Map.{lookup, insert}
use hmux.Auth.Types.{Env, Credentials, Account, Session, Sessions, State, fingerprint, fail_storage}
use hmux.Auth.Files.{write_credential, replace, prune, dropped}
use hmux.Auth.Attempts.{allow_attempt}
use hmux.Auth.Sessions.{current}

pub data SecurityStatus : Type 0 where
  changed forbidden rate_limited storage_unavailable stale_session : SecurityStatus

pub data Begun : Type 0 where
  snapshot : Bytes → Bytes → Credentials → Bytes → Begun
  stopped : SecurityStatus → Begun

abbrev pub differs : Bool → Bool → Bool
differs true b = not b
differs false b = b

-- `retain` of the current session and of those of other accounts.
unfoldable pub others_kept : Bytes → Bytes → Bytes → Sessions → Sessions
others_kept key username profile [] = []
others_kept key username profile ((k, x) ∷ m) =
    let rest = others_kept key username profile m in
    if bytes_beq k key || not (bytes_beq x.username username) || not (bytes_beq x.profile profile)
    then (k, x) ∷ rest
    else rest

abbrev pub with_fingerprint : Bytes → Session → Session
with_fingerprint print x = record x { fingerprint = print }

-- What the first transaction and the check hand on.
pub record Change : Type 0 where
  pub token : Bytes
  pub username : Bytes
  pub profile : Bytes
  pub print : Bytes
  pub step : ℤ
  pub enabled : Bool
  pub now : ℕ

module _ (e : Env) where
  abbrev pub totp_allowed :
      State e → Session → Account → List (Bytes × List ℕ) × Bool → State e × Begun
  totp_allowed s x a (attempts, true) = (
    record s { security_attempts = attempts },
    snapshot x.username a.profile a.credentials (fingerprint e a.credentials),
  )
  totp_allowed s x a (attempts, false) =
      (record s { security_attempts = attempts }, stopped rate_limited)

  abbrev pub totp_account : State e → Session → ℕ → Option Account → State e × Begun
  totp_account s x now none = (s, stopped stale_session)
  totp_account s x now (some a) =
      if current e a x
      then totp_allowed s x a
          (allow_attempt s.security_attempts (x.username ++ 0 ∷ a.profile) now 32)
      else (s, stopped stale_session)

  abbrev pub totp_session : State e → ℕ → Option Session → State e × Begun
  totp_session s now none = (s, stopped stale_session)
  totp_session s now (some x) = totp_account s x now (lookup x.username s.accounts)

  abbrev pub totp_begin_pruned : Bytes → ℕ → State e × Bool → State e × Begun
  totp_begin_pruned key now (s, false) = (s, stopped storage_unavailable)
  totp_begin_pruned key now (s, true) = totp_session s now (lookup key s.sessions)

  unfoldable pub totp_begin : State e → Bytes → ℕ → State e × Begun
  totp_begin s token now = totp_begin_pruned (e.token_hash token) now (prune e s now)

  -- Between the transactions: the password and the code, whose step is -1 when none matches.
  unfoldable pub totp_check : Credentials → Bytes → ℤ → Bool
  totp_check c derived step = bytes_beq derived c.hash && not (is_negative step)

  abbrev pub changed_account : Change → Account → Account
  changed_account c a = record a {
    credentials = record a.credentials { totp_disabled = not c.enabled; last_step = c.step };
  }

  abbrev pub totp_replaced : State e × Bool → State e × SecurityStatus
  totp_replaced (t, true) = (t, changed)
  totp_replaced (t, false) = (t, storage_unavailable)

  abbrev pub remaining : Change → Session → Account → Sessions → Sessions
  remaining c x a m =
      insert (e.token_hash c.token) (with_fingerprint (fingerprint e a.credentials) x)
        (others_kept (e.token_hash c.token) c.username c.profile m)

  abbrev pub totp_written :
      State e → Change → Session → Account → e.Dir × Bool → State e × SecurityStatus
  totp_written s c x a (dir, false) = (fail_storage e (record s { dir = dir }), storage_unavailable)
  totp_written s c x a (dir, true) =
      let next = remaining c x a s.sessions in
      totp_replaced (
        replace e (record s { dir = dir; accounts = insert c.username a s.accounts }) next
          (dropped s.sessions next))

  abbrev pub totp_backed_up :
      State e → Change → Session → Account → e.Dir × Bool → State e × SecurityStatus
  totp_backed_up s c x a (dir, false) =
      (fail_storage e (record s { dir = dir }), storage_unavailable)
  totp_backed_up s c x a (dir, true) =
      totp_written (record s { dir = dir }) c x (changed_account c a)
        (write_credential e dir a.path a.credentials (changed_account c a).credentials)

  abbrev pub totp_change : State e → Change → Session → Option Account → State e × SecurityStatus
  totp_change s c x none = (s, stale_session)
  totp_change s c x (some a) =
      if bytes_beq a.profile c.profile && bytes_beq (fingerprint e a.credentials) c.print
      then if int_leb c.step a.credentials.last_step
        then (s, forbidden)
        else if differs c.enabled a.credentials.totp_disabled
        then (s, changed)
        else totp_backed_up s c x a
            (e.backup_credentials s.dir a.path c.username a.credentials c.now)
      else (s, stale_session)

  abbrev pub same_session : Change → Session → Bool
  same_session c x =
      bytes_beq x.username c.username
      && bytes_beq x.profile c.profile
      && bytes_beq x.fingerprint c.print

  abbrev pub totp_found : State e → Change → Option Session → State e × SecurityStatus
  totp_found s c none = (s, stale_session)
  totp_found s c (some x) =
      if same_session c x
      then totp_change s c x (lookup c.username s.accounts)
      else (s, stale_session)

  abbrev pub totp_finish_pruned : Change → State e × Bool → State e × SecurityStatus
  totp_finish_pruned c (s, false) = (s, storage_unavailable)
  totp_finish_pruned c (s, true) = totp_found s c (lookup (e.token_hash c.token) s.sessions)

  -- The table is pruned by the later of the request's time and the clock's.
  unfoldable pub totp_finish : State e → Change → ℕ → State e × SecurityStatus
  totp_finish s c clock =
      totp_finish_pruned c (prune e s (if ltb c.now clock then clock else c.now))
