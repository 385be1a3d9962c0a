-- ===== src/Auth/Runs.antt =====
-- auth_store.rs: any calls change the state by the moves of `Moves`.
use hmux.Base.{All, Bool, List, [], ◌∷◌}
use hmux.Base.Eq.{Bytes, bytes_eq}
use hmux.Auth.Types.{Env, State}
use hmux.Auth.Moves.{Moves, rests, joins}
use hmux.Auth.Prunes.{prune-Saves}
use hmux.Auth.Owners.{access-Acts, revoke-Acts, logout-Acts}
use hmux.Auth.Logins.{FreshDraw, login_begin-Acts, login_finish-Acts}
use hmux.Auth.Changes.{totp_begin-Acts, totp_finish-Acts}
use hmux.Auth.Calls.{
  Call, login_begin_call, login_finish_call, access_call, revoke_call, logout_call, totp_begin_call,
  totp_finish_call, prune_call, step, run,
}

module _ (e : Env) (Fresh : Bytes → Type 0) (valid_token : Bytes → Bool) where
  -- The tokens that a call draws are under keys of `Fresh`.
  abbrev pub DrawsFresh : Call → Type 0
  DrawsFresh (login_finish_call r profile print n draws) = All (FreshDraw e.token_hash Fresh) draws
  DrawsFresh (login_begin_call origin username now) = Unit
  DrawsFresh (access_call token touch now) = Unit
  DrawsFresh (revoke_call token id now) = Unit
  DrawsFresh (logout_call token) = Unit
  DrawsFresh (totp_begin_call token now) = Unit
  DrawsFresh (totp_finish_call c clock) = Unit
  DrawsFresh (prune_call now) = Unit

  step-Moves : (s : State e) (c : Call) → DrawsFresh c → Moves e Fresh s (step e valid_token s c)
  unfolding step
  step-Moves s (login_begin_call origin username now) d =
      login_begin-Acts e Fresh s origin username now
  step-Moves s (login_finish_call r profile print n draws) d =
      login_finish-Acts e Fresh r profile draws d s print n
  step-Moves s (access_call token touch now) d = access-Acts e Fresh s token touch now
  step-Moves s (revoke_call token id now) d = revoke-Acts e Fresh valid_token s token id now
  step-Moves s (logout_call token) d = logout-Acts e Fresh s token
  step-Moves s (totp_begin_call token now) d = totp_begin-Acts e Fresh s token now
  step-Moves s (totp_finish_call c clock) d = totp_finish-Acts e Fresh s c clock
  step-Moves s (prune_call now) d = (prune-Saves e Fresh s now).0

  pub run-Moves :
      (s : State e) (calls : List Call)
      → All DrawsFresh calls
      → Moves e Fresh s (run e valid_token s calls)
  unfolding run
  run-Moves s [] d = rests s
  run-Moves s (c ∷ calls) d =
      joins e Fresh s (step e valid_token s c) _ (step-Moves s c d.0)
        (run-Moves (step e valid_token s c) calls d.1)
