-- ===== src/Auth/Access.antt =====
-- auth_store.rs: who is given access.
use hmux.Base.{ℕ, ◌≡◌, ◌<◌, refl, arith, Bool, true, false, Option, none, some, List, [], ◌∷◌}
use hmux.Base.Eq.{Bytes, bytes_eq}
use hmux.Base.Map.{lookup, insert, retain}
use hmux.Auth.Types.{Env, Session, Sessions, State, ok}
use hmux.Auth.Files.{
  dropped, lasting, expired, any_session, written, save_sessions, write_sessions, replaced, replace,
  prune,
}
use hmux.Auth.Sessions.{
  SessionAccess, access_of, access, accessed, access_pruned, touched, persisted_at,
}
use hmux.Base.Map.{Distinct, keep, lookup-retain}

unexpired :
    (k : Bytes) (now : ℕ) (m : Sessions)
    → any_session (expired now) m ≡ false
    → keep (lasting now) (lookup k m) ≡ lookup k m
unfolding lookup
unexpired k now [] h = refl
unexpired k now ((j, x) ∷ m) h = ground (arith, unexpired k now m)

module _ (e : Env) where
  written-sessions :
      (s : State e) (next : Sessions) (gone : List ℕ) (w : e.Dir × Bool) (t : State e)
      → replaced e next gone (written e s w) ≡ (t, true)
      → t.sessions ≡ next
  written-sessions s next gone (d, true) t h = ground arith
  written-sessions s next gone (d, false) t h = ground arith

  -- A prune that succeeds leaves the sessions that have not ended.
  prune-lookup :
      (s t : State e) (now : ℕ) (k : Bytes)
      → Distinct s.sessions
      → prune e s now ≡ (t, true)
      → (lookup k t.sessions ≡ keep (lasting now) (lookup k s.sessions))
        × (s.storage_failed ≡ false)
  unfolding prune replace save_sessions
  prune-lookup s t now k d h = ground (
    arith,
    unexpired k now s.sessions,
    lookup-retain (lasting now) k s.sessions d,
    written-sessions s (retain (lasting now) s.sessions)
        (dropped s.sessions (retain (lasting now) s.sessions))
        (write_sessions e s.dir s.sessions_path (retain (lasting now) s.sessions)) t,
  )

  touched-ok :
      (w : State e × Bool) (a b : SessionAccess) (u : State e)
      → touched e w a ≡ (u, ok (some b))
      → b ≡ a
  touched-ok (t, true) a b u h = ground arith
  touched-ok (t, false) a b u h = ground arith

  accessed-ok :
      (s u : State e) (key : Bytes) (touch : Bool) (now : ℕ) (o : Option Session)
      (a : SessionAccess)
      → accessed e s key touch now o ≡ (u, ok (some a))
      → (x : Session) × (o ≡ some x) × (a ≡ access_of x)
  accessed-ok s u key touch now none a h = ground arith
  accessed-ok s u key touch now (some x) a h = (
    x,
    refl,
    ground (
      arith,
      touched-ok (replace e s (insert key (persisted_at now x) s.sessions) []) (access_of x) a u,
    ),
  )

  -- Access is given only by a store whose storage works, to the session of the token's hash, with its
  -- id, owner, end and channel, and before its end.
  pub access-ok :
      (s u : State e) (token : Bytes) (touch : Bool) (now : ℕ) (a : SessionAccess)
      → Distinct s.sessions
      → access e s token touch now ≡ (u, ok (some a))
      → (s.storage_failed ≡ false)
        × (now < a.expires_at)
        × ((x : Session) × (lookup (e.token_hash token) s.sessions ≡ some x) × (a ≡ access_of x))
  unfolding access
  access-ok s u token touch now a d h = go (prune e s now) refl h
    where
      go :
          (w : State e × Bool)
          → prune e s now ≡ w
          → access_pruned e (e.token_hash token) touch now w ≡ (u, ok (some a))
          → (s.storage_failed ≡ false)
            × (now < a.expires_at)
            × ((x : Session) × (lookup (e.token_hash token) s.sessions ≡ some x)
                × (a ≡ access_of x))
      go (t, false) p q = ground arith
      go (t, true) p q =
          let found =
            accessed-ok t u (e.token_hash token) touch now (lookup (e.token_hash token) t.sessions)
              a q in
          let kept = prune-lookup s t now (e.token_hash token) d p in ground arith
