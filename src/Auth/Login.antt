-- ===== src/Auth/Login.antt =====
-- auth_store.rs: the two transactions of `login`, and what the password check between them decides.
use hmux.Base.{
  ℕ, suc, ◌+◌, Bool, true, false, not, ◌&&◌, ◌||◌, Option, none, some, List, [], ◌∷◌, ltb, leb,
  length, if◌then◌else◌,
}
use hmux.Base.Eq.{Bytes, bytes_beq, bytes_eq}
use hmux.Base.Int.{ℤ, negsuc, int_leb, is_negative}
use hmux.Base.Map.{lookup, insert, remove}
use hmux.Auth.Types.{
  Env, Credentials, Account, Session, Sessions, State, fingerprint, fail_storage,
  max_sessions_per_account, login_lifetime,
}
use hmux.Auth.Files.{write_credential, replace, prune, dropped, any_session}
use hmux.Auth.Attempts.{allow_attempt}

pub data LoginStatus : Type 0 where
  invalid succeeded totp_required rate_limited storage_unavailable : LoginStatus

-- The token comes with `succeeded` only; `unfinished` is a draw that goes on.
pub data Login : Type 0 where
  refused : LoginStatus → Login
  minted : Bytes → Login
  unfinished : Login

-- The account that the password is checked against: that of the name, else the primary one.
abbrev pub primary : List (Bytes × Account) → Option Account
primary [] = none
primary ((k, a) ∷ m) = elim a.profile [ [] ↦ some a | b ∷ bs ↦ primary m ]

abbrev pub or_primary : List (Bytes × Account) → Option Account → Option Account
or_primary accounts (some a) = some a
or_primary accounts none = primary accounts

pub data Begun : Type 0 where
  snapshot : Credentials → Bytes → Bytes → Begun
  stopped : LoginStatus → Begun

-- The tokens drawn: a draw that fails is `none`.
pub data Drawn : Type 0 where
  drawn : Bytes → List (Option Bytes) → Drawn
  failed exhausted : Drawn

abbrev pub draw : (Bytes → Bool) → List (Option Bytes) → Drawn
draw taken [] = exhausted
draw taken (none ∷ draws) = failed
draw taken (some token ∷ draws) = if taken token then draw taken draws else drawn token draws

abbrev pub owned_by : Bytes → Session → Bool
owned_by username x = bytes_beq x.username username

abbrev pub count : (Session → Bool) → Sessions → ℕ
count p [] = 0
count p ((k, x) ∷ m) = if p x then suc (count p m) else count p m

-- `min_by_key` of those owned: the first of the longest unseen.
unfoldable pub oldest_of : Bytes → Option (Bytes × Session) → Sessions → Option (Bytes × Session)
oldest_of username best [] = best
oldest_of username none ((k, x) ∷ m) =
    let other = oldest_of username none m in
    let this = oldest_of username (some (k, x)) m in if owned_by username x then this else other
oldest_of username (some (j, y)) ((k, x) ∷ m) =
    let other = oldest_of username (some (j, y)) m in
    let this = oldest_of username (some (k, x)) m in
    if owned_by username x && ltb x.seen y.seen then this else other

abbrev pub without : Sessions → Option (Bytes × Session) → Sessions
without m none = m
without m (some (k, x)) = remove k m

unfoldable pub make_room : Bytes → Sessions → Sessions
make_room username m =
    if leb max_sessions_per_account (count (owned_by username) m)
    then without m (oldest_of username none m)
    else m

abbrev pub is_known : Option Session → Bool
is_known none = false
is_known (some x) = true

pub record Request : Type 0 where
  pub username : Bytes
  pub code : Bytes
  pub ip : Bytes
  pub browser : Bytes
  pub now : ℕ

module _ (e : Env) where
  -- A primary account is missing in no store that opened; the panic of `expect` fails the storage.
  abbrev pub begun : State e → Option Account → State e × Begun
  begun s none = (fail_storage e s, stopped rate_limited)
  begun s (some a) = (s, snapshot a.credentials a.profile (fingerprint e a.credentials))

  -- A long name or password is refused before the lock.
  abbrev pub too_long : Bytes → Bytes → Bool
  too_long username password = ltb 80 (length username) || ltb 128 (length password)

  unfoldable pub login_begin : State e → Bytes → Bytes → ℕ → State e × Begun
  login_begin s origin username now =
      if s.storage_failed
      then (s, stopped storage_unavailable)
      else let allowed = allow_attempt s.attempts origin now 1024 in
        let t : State e = record s { attempts = allowed.0 } in
        if allowed.1
        then begun t (or_primary s.accounts (lookup username s.accounts))
        else (t, stopped rate_limited)

  abbrev pub step_or : Option ℤ → ℤ
  step_or none = negsuc 0
  step_or (some step) = step

  abbrev pub has_code : Bytes → Bool
  has_code [] = false
  has_code (b ∷ bs) = true

  -- `derived` is the password's hash and `matched` the step of `match_code`; the step is -1 when none
  -- is checked.
  unfoldable pub login_check : Credentials → Bytes → Option ℤ → Request → Option ℤ
  login_check c derived matched r =
      if bytes_beq derived c.hash && bytes_beq r.username c.username
      then some (if not c.totp_disabled && has_code r.code then step_or matched else negsuc 0)
      else none

  abbrev pub new_session : State e → Request → Bytes → Account → Bytes → Session
  new_session s r profile a id = record {
    id = id;
    username = r.username;
    profile = profile;
    fingerprint = fingerprint e a.credentials;
    browser = r.browser;
    ip = r.ip;
    created = r.now;
    seen = r.now;
    persisted_seen = r.now;
    expires = r.now + login_lifetime;
    cancel = s.channels;
  }

  abbrev pub login_saved : Bytes → State e × Bool → State e × Login
  login_saved token (t, true) = (t, minted token)
  login_saved token (t, false) = (t, refused storage_unavailable)

  abbrev pub login_insert :
      State e → Request → Bytes → Account → Sessions → Bytes → Bytes → State e × Login
  login_insert s r profile a room token id =
      let next = insert (e.token_hash token) (new_session s r profile a id) room in
      login_saved token
        (replace e (record s { channels = suc s.channels }) next (dropped s.sessions next))

  abbrev pub login_id :
      State e → Request → Bytes → Account → Sessions → Bytes → Drawn → State e × Login
  login_id s r profile a room token (drawn id draws) = login_insert s r profile a room token id
  login_id s r profile a room token failed = (fail_storage e s, refused storage_unavailable)
  login_id s r profile a room token exhausted = (s, unfinished)

  abbrev pub id_taken : Sessions → Bytes → Bool
  id_taken room id = any_session (λ x. bytes_beq x.id id) room

  abbrev pub token_taken : Sessions → Bytes → Bool
  token_taken room token = is_known (lookup (e.token_hash token) room)

  abbrev pub login_token : State e → Request → Bytes → Account → Sessions → Drawn → State e × Login
  login_token s r profile a room (drawn token draws) =
      login_id s r profile a room token (draw (id_taken room) draws)
  login_token s r profile a room failed = (fail_storage e s, refused storage_unavailable)
  login_token s r profile a room exhausted = (s, unfinished)

  abbrev pub login_pruned :
      Request → Bytes → Account → List (Option Bytes) → State e × Bool → State e × Login
  login_pruned r profile a draws (s, false) = (s, refused storage_unavailable)
  login_pruned r profile a draws (s, true) =
      let room = make_room r.username s.sessions in
      login_token s r profile a room (draw (token_taken room) draws)

  abbrev pub advanced : Account → ℤ → Account
  advanced a step = record a { credentials = record a.credentials { last_step = step } }

  abbrev pub login_written :
      State e → Request → Bytes → Account → List (Option Bytes) → e.Dir × Bool → State e × Login
  login_written s r profile a draws (dir, true) =
      login_pruned r profile a draws
        (prune e (record s { dir = dir; accounts = insert r.username a s.accounts }) r.now)
  login_written s r profile a draws (dir, false) =
      (fail_storage e (record s { dir = dir }), refused storage_unavailable)

  abbrev pub login_step :
      State e → Request → Bytes → ℤ → List (Option Bytes) → Account → State e × Login
  login_step s r profile step draws a =
      if has_code r.code
      then if is_negative step || int_leb step a.credentials.last_step
        then (s, refused invalid)
        else login_written s r profile (advanced a step) draws
            (write_credential e s.dir a.path a.credentials (advanced a step).credentials)
      else (s, refused totp_required)

  abbrev pub login_account :
      State e → Request → Bytes → Bytes → ℤ → List (Option Bytes) → Option Account → State e × Login
  login_account s r profile print step draws none = (s, refused invalid)
  login_account s r profile print step draws (some a) =
      if bytes_beq a.profile profile && bytes_beq (fingerprint e a.credentials) print
      then if a.credentials.totp_disabled
        then login_pruned r profile a draws (prune e s r.now)
        else login_step s r profile step draws a
      else (s, refused invalid)

  -- The second transaction, with the profile and fingerprint of the first and the step of the check.
  unfoldable pub login_finish :
      State e → Request → Bytes → Bytes → ℤ → List (Option Bytes) → State e × Login
  login_finish s r profile print step draws =
      if s.storage_failed
      then (s, refused storage_unavailable)
      else login_account s r profile print step draws (lookup r.username s.accounts)
