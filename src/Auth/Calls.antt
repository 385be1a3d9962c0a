-- ===== src/Auth/Calls.antt =====
-- auth_store.rs: the transactions of a store in the order in which they take the lock.
use hmux.Base.{ℕ, Bool, Option, List, [], ◌∷◌}
use hmux.Base.Eq.{Bytes}
use hmux.Base.Int.{ℤ}
use hmux.Auth.Types.{Env, State}
use hmux.Auth.Files.{prune}
use hmux.Auth.Sessions.{access, revoke, logout}
use hmux.Auth.Login.{Request, login_begin, login_finish}
use hmux.Auth.Security.{Change, totp_begin, totp_finish}

-- `identity_checked`, `list_sessions_checked` and `totp_enabled_checked` change the state as
-- `prune_call` does.
pub data Call : Type 0 where
  login_begin_call : Bytes → Bytes → ℕ → Call
  login_finish_call : Request → Bytes → Bytes → ℤ → List (Option Bytes) → Call
  access_call : Bytes → Bool → ℕ → Call
  revoke_call : Bytes → Bytes → ℕ → Call
  logout_call : Bytes → Call
  totp_begin_call : Bytes → ℕ → Call
  totp_finish_call : Change → ℕ → Call
  prune_call : ℕ → Call

module _ (e : Env) (valid_token : Bytes → Bool) where
  unfoldable pub step : State e → Call → State e
  step s (login_begin_call origin username now) = (login_begin e s origin username now).0
  step s (login_finish_call r profile print n draws) = (login_finish e s r profile print n draws).0
  step s (access_call token touch now) = (access e s token touch now).0
  step s (revoke_call token id now) = (revoke e valid_token s token id now).0
  step s (logout_call token) = (logout e s token).0
  step s (totp_begin_call token now) = (totp_begin e s token now).0
  step s (totp_finish_call c clock) = (totp_finish e s c clock).0
  step s (prune_call now) = (prune e s now).0

  unfoldable pub run : State e → List Call → State e
  run s [] = s
  run s (c ∷ calls) = run (step s c) calls
