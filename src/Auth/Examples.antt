-- ===== src/Auth/Examples.antt =====
-- auth_store.rs: a store with one account, a login and what follows it.
use hmux.Base.{ℕ, suc, ◌+◌, ◌≡◌, ◌≢◌, ◌<◌, refl, arith, Bool, true, false, some, List, [], ◌∷◌, map}
use hmux.Base.Eq.{Bytes, bytes_eq}
use hmux.Base.Int.{pos}
use hmux.Base.Map.{lookup, insert, Distinct}
use hmux.Auth.Types.{Env, Credentials, Account, Session, State, fingerprint, ok, login_lifetime}
use hmux.Auth.Files.{prune, replace, save_sessions, write_sessions, write_credential, dropped}
use hmux.Auth.Sessions.{access, access_of}
use hmux.Auth.Login.{Request, login_finish, make_room, minted, unfinished}
use hmux.Auth.Calls.{Call, access_call, logout_call, prune_call, step, run}
use hmux.Auth.Cancelled.{Kept, run-Kept}
use hmux.Auth.Limit.{Bounded, run-Bounded}
use hmux.Auth.Replay.{run-failed, login_finish-replay}
use hmux.Auth.Access.{access-ok}
use hmux.Auth.Ends.{login_finish-ends}

abbrev alice : Bytes
alice = b'a' ∷ []

abbrev before : Credentials
before = record {
  username = alice;
  salt = [];
  hash = [];
  totp_secret = [];
  last_step = pos 4;
  totp_disabled = false;
}

-- The directory counts its writes.
abbrev env : Env
env = record {
  digest = λ name salt hash secret disabled. name;
  token_hash = λ token. token;
  parse_credentials = λ raw. some before;
  credentials_json = λ c. [];
  session_file = λ sessions. [];
  Dir = ℕ;
  read_private = λ dir name limit. some (some []);
  write_atomic_private = λ dir name raw. (suc dir, true);
  backup_credentials = λ dir path name c now. (dir, true);
}

abbrev account : Account
account = record { credentials = before; path = []; profile = [] }

abbrev after : Account
after = record { credentials = record before { last_step = pos 5 }; path = []; profile = [] }

abbrev first : State env
first = record {
  dir = 0;
  sessions_path = [];
  accounts = (alice, account) ∷ [];
  sessions = [];
  attempts = [];
  security_attempts = [];
  storage_failed = false;
  cancelled = [];
  channels = 0;
}

abbrev request : Request
request = record { username = alice; code = b'7' ∷ []; ip = []; browser = []; now = 2 }

abbrev token : Bytes
token = 1 ∷ []

abbrev tokens : List Bytes
tokens = token ∷ (2 ∷ []) ∷ []

abbrev session : Session
session = record {
  id = 2 ∷ [];
  username = alice;
  profile = [];
  fingerprint = alice;
  browser = [];
  ip = [];
  created = 2;
  seen = 2;
  persisted_seen = 2;
  expires = 2 + login_lifetime;
  cancel = 0;
}

abbrev logged_in : State env
logged_in = record first {
  dir = 2;
  accounts = (alice, after) ∷ [];
  sessions = (token, session) ∷ [];
  channels = 1;
}

abbrev stopped : State env
stopped = record logged_in { storage_failed = true }

abbrev any_token : Bytes → Bool
any_token t = true

login_first :
    login_finish env first request [] alice (pos 5) (map some tokens) ≡ (logged_in, minted token)
unfolding login_finish fingerprint write_credential prune make_room lookup insert replace
    save_sessions write_sessions dropped
login_first = refl

access_first : access env logged_in token false 3 ≡ (logged_in, ok (some (access_of session)))
unfolding access prune lookup
access_first = refl

abbrev later : List Call
later = access_call token true 3 ∷ []

still_there : lookup alice (run env any_token logged_in later).accounts ≡ some after
unfolding run step access prune lookup insert
still_there = refl

alice_there : lookup alice first.accounts ≡ some account
unfolding lookup
alice_there = refl

alone : Distinct logged_in.sessions
unfolding lookup
alone = (refl, tt)

there : lookup token logged_in.sessions ≡ some session
unfolding lookup
there = refl

login_finish-replay_example :
    (login_finish env
      (run env any_token logged_in later)
      request
      []
      alice
      (pos 5)
      (map some tokens)).1
    ≢ minted token
login_finish-replay_example =
    login_finish-replay env any_token first logged_in request request [] [] alice alice token token
      (pos 5) (pos 5) (map some tokens) (map some tokens) account after later alice_there refl
      login_first refl still_there refl refl

run-Kept_example :
    Kept env token 0 alice
      (2 + login_lifetime)
      (run env any_token logged_in (access_call token true 3 ∷ logout_call token ∷ []))
run-Kept_example =
    run-Kept env any_token logged_in (access_call token true 3 ∷ logout_call token ∷ []) token
      session alone refl there (tt, (tt, tt))

run-Bounded_example : Bounded env alice (run env any_token logged_in (prune_call 9 ∷ later))
run-Bounded_example =
    run-Bounded env alice any_token logged_in (prune_call 9 ∷ later) (alone, omega arith)

run-failed_example : run env any_token stopped (prune_call 9 ∷ later) ≡ stopped
run-failed_example = run-failed env any_token stopped (prune_call 9 ∷ later) refl

access-ok_example :
    (logged_in.storage_failed ≡ false)
    × (3 < (access_of session).expires_at)
    × ((x : Session) × (lookup token logged_in.sessions ≡ some x)
        × (access_of session ≡ access_of x))
access-ok_example =
    access-ok env logged_in logged_in token false 3 (access_of session) alone access_first

login_finish-ends_example :
    (login_finish env first request [] alice (pos 5) (map some tokens)).1 ≢ unfinished
login_finish-ends_example =
    login_finish-ends env request [] tokens first (refl, (refl, tt)) (omega arith) alice (pos 5)
