-- ===== src/Auth/Files.antt =====
-- auth_store.rs: the two files and the steps that replace the sessions.
use hmux.Base.{
  ℕ, ◌*◌, Bool, true, false, ◌&&◌, ◌||◌, Option, none, some, List, [], ◌∷◌, ◌++◌, ltb, leb, length,
  if◌then◌else◌,
}
use hmux.Base.Eq.{Bytes, bytes_beq, bytes_eq}
use hmux.Base.Int.{int_beq}
use hmux.Base.Map.{lookup, retain}
use hmux.Auth.Types.{Env, Credentials, Session, Sessions, State, fingerprint, fail_storage}

abbrev pub credential_limit : ℕ
credential_limit = 4096

abbrev pub session_file_limit : ℕ
session_file_limit = 128 * 1024

-- The channels of the sessions that `next` no longer has.
unfoldable pub dropped : Sessions → Sessions → List ℕ
dropped [] next = []
dropped ((k, x) ∷ m) next =
    let rest = dropped m next in elim (lookup k next) [ none ↦ x.cancel ∷ rest | some y ↦ rest ]

abbrev pub any_session : (Session → Bool) → Sessions → Bool
any_session p [] = false
any_session p ((k, x) ∷ m) = p x || any_session p m

abbrev pub expired : ℕ → Session → Bool
expired now x = leb x.expires now

abbrev pub lasting : ℕ → Session → Bool
lasting now x = ltb now x.expires

module _ (e : Env) where
  abbrev pub same_credentials : Credentials → Option Credentials → Bool
  same_credentials expected none = false
  same_credentials expected (some current) =
      bytes_beq (fingerprint e current) (fingerprint e expected)
      && int_beq current.last_step expected.last_step

  abbrev pub credential_read : Credentials → Option (Option Bytes) → Bool
  credential_read expected none = false
  credential_read expected (some none) = false
  credential_read expected (some (some raw)) = same_credentials expected (e.parse_credentials raw)

  -- The file is replaced only while it holds what the store expects.
  unfoldable pub write_credential : e.Dir → Bytes → Credentials → Credentials → e.Dir × Bool
  write_credential dir path expected next =
      if credential_read expected (e.read_private dir path credential_limit)
      then e.write_atomic_private dir path (e.credentials_json next)
      else (dir, false)

  abbrev pub session_write : e.Dir → Bytes → Bytes → e.Dir × Bool
  session_write dir path raw =
      if ltb session_file_limit (length raw)
      then (dir, false)
      else e.write_atomic_private dir path raw

  abbrev pub session_read : e.Dir → Bytes → Sessions → Option (Option Bytes) → e.Dir × Bool
  session_read dir path next none = (dir, false)
  session_read dir path next (some found) = session_write dir path (e.session_file next)

  unfoldable pub write_sessions : e.Dir → Bytes → Sessions → e.Dir × Bool
  write_sessions dir path next =
      session_read dir path next (e.read_private dir path session_file_limit)

  abbrev pub written : State e → e.Dir × Bool → State e × Bool
  written s (dir, true) = (record s { dir = dir }, true)
  written s (dir, false) = (fail_storage e (record s { dir = dir }), false)

  unfoldable pub save_sessions : State e → Sessions → State e × Bool
  save_sessions s next = written s (write_sessions s.dir s.sessions_path next)

  abbrev pub replaced : Sessions → List ℕ → State e × Bool → State e × Bool
  replaced next gone (t, true) =
      (record t { sessions = next; cancelled = gone ++ t.cancelled }, true)
  replaced next gone (t, false) = (t, false)

  -- The sessions are saved, then `gone` is cancelled and the table replaced.
  unfoldable pub replace : State e → Sessions → List ℕ → State e × Bool
  replace s next gone = replaced next gone (save_sessions s next)

  unfoldable pub prune : State e → ℕ → State e × Bool
  prune s now =
      if s.storage_failed
      then (s, false)
      else if any_session (expired now) s.sessions
      then replace s (retain (lasting now) s.sessions)
          (dropped s.sessions (retain (lasting now) s.sessions))
      else (s, true)
