-- ===== src/Auth/Owners.antt =====
-- auth_store.rs: the changes of `access`, `revoke` and `logout`.
use hmux.Base.{ℕ, ◌-◌, ◌≡◌, refl, Bool, true, false, ◌&&◌, Option, none, some, [], ◌∷◌, if_lem, leb}
use hmux.Base.Eq.{Bytes, bytes_eq, bytes_beq}
use hmux.Base.Map.{lookup, insert, remove}
use hmux.Auth.Types.{Env, Session, State, seen_persist_interval, Result}
use hmux.Auth.Sessions.{
  access, accessed, touched, access_pruned, access_of, SessionAccess, revoke, revoked,
  revoke_target, revoke_found, revoke_from, revoke_pruned, logout, logged_out, logout_found,
  find_session, same_owner, persisted_at, seen_at,
}
use hmux.Auth.Moves.{rests, fails, sees, removes, joins}
use hmux.Auth.Prunes.{Acts, Saves, one, prune-Saves, replace-Saves}

module _ (e : Env) (Fresh : Bytes → Type 0) where
  touched-Acts :
      (s : State e) (a : SessionAccess) (w : State e × Bool)
      → Saves e Fresh s w
      → Acts e Fresh s (touched e w a)
  touched-Acts s a (t, true) m = m.0
  touched-Acts s a (t, false) m = m.0

  accessed-Acts :
      (s : State e) (key : Bytes) (touch : Bool) (now : ℕ) (o : Option Session)
      → s.storage_failed ≡ false
      → lookup key s.sessions ≡ o
      → Acts e Fresh s (accessed e s key touch now o)
  accessed-Acts s key touch now none h f = rests s
  accessed-Acts s key touch now (some x) h f =
      if_lem (λ w. Acts e Fresh s w) (touch && leb seen_persist_interval (now - x.persisted_seen))
        (λ old. touched-Acts s (access_of x) _ (
          replace-Saves e Fresh s (insert key (persisted_at now x) s.sessions) [] h (λ d.
            sees (record s { dir = d }) key x (persisted_at now x) h f
              (refl, refl, refl, refl, refl))))
        (λ young.
          if_lem (λ w. Acts e Fresh s w) touch
            (λ t. one e Fresh s _ (sees s key x (seen_at now x) h f (refl, refl, refl, refl, refl)))
            (λ t. rests s))

  access_pruned-Acts :
      (s : State e) (key : Bytes) (touch : Bool) (now : ℕ) (w : State e × Bool)
      → Saves e Fresh s w
      → Acts e Fresh s (access_pruned e key touch now w)
  access_pruned-Acts s key touch now (t, false) m = m.0
  access_pruned-Acts s key touch now (t, true) m =
      joins e Fresh s t _ m.0 (accessed-Acts t key touch now _ (m.1 refl) refl)

  pub access-Acts :
      (s : State e) (token : Bytes) (touch : Bool) (now : ℕ)
      → Acts e Fresh s (access e s token touch now)
  unfolding access
  access-Acts s token touch now =
      access_pruned-Acts s (e.token_hash token) touch now _ (prune-Saves e Fresh s now)

  revoked-Acts :
      (s : State e) (own : Bool) (w : State e × Bool)
      → Saves e Fresh s w
      → Acts e Fresh s (revoked e own w)
  revoked-Acts s own (t, true) m = m.0
  revoked-Acts s own (t, false) m = m.0

  revoke_found-Acts :
      (s : State e) (key target : Bytes) (o : Option Session)
      → s.storage_failed ≡ false
      → lookup target s.sessions ≡ o
      → Acts e Fresh s (revoke_found e s key target o)
  revoke_found-Acts s key target none h f = one e Fresh s _ (fails s h)
  revoke_found-Acts s key target (some x) h f = revoked-Acts s (bytes_beq target key) _ (
      replace-Saves e Fresh s (remove target s.sessions) (x.cancel ∷ []) h
        (λ d. removes (record s { dir = d }) target x h f))

  revoke_target-Acts :
      (s : State e) (key : Bytes) (o : Option (Bytes × Session))
      → s.storage_failed ≡ false
      → Acts e Fresh s (revoke_target e s key o)
  revoke_target-Acts s key none h = rests s
  revoke_target-Acts s key (some (k, x)) h = revoke_found-Acts s key k _ h refl

  revoke_from-Acts :
      (s : State e) (key id : Bytes) (o : Option Session)
      → s.storage_failed ≡ false
      → Acts e Fresh s (revoke_from e s key id o)
  revoke_from-Acts s key id none h = rests s
  revoke_from-Acts s key id (some mine) h =
      revoke_target-Acts s key (find_session (same_owner e id mine) s.sessions) h

  module _ (valid_token : Bytes → Bool) where
    revoke_pruned-Acts :
        (s : State e) (key id : Bytes) (w : State e × Bool)
        → Saves e Fresh s w
        → Acts e Fresh s (revoke_pruned e valid_token key id w)
    revoke_pruned-Acts s key id (t, false) m = m.0
    revoke_pruned-Acts s key id (t, true) m =
        if_lem (λ w. Acts e Fresh s w) (valid_token id)
          (λ good.
            joins e Fresh s t _ m.0 (revoke_from-Acts t key id (lookup key t.sessions) (m.1 refl)))
          (λ bad. m.0)

    pub revoke-Acts :
        (s : State e) (token id : Bytes) (now : ℕ)
        → Acts e Fresh s (revoke e valid_token s token id now)
    unfolding revoke
    revoke-Acts s token id now =
        revoke_pruned-Acts s (e.token_hash token) id _ (prune-Saves e Fresh s now)

  logged_out-Acts :
      (s : State e) (w : State e × Bool) → Saves e Fresh s w → Acts e Fresh s (logged_out e w)
  logged_out-Acts s (t, true) m = m.0
  logged_out-Acts s (t, false) m = m.0

  logout_found-Acts :
      (s : State e) (key : Bytes) (o : Option Session)
      → s.storage_failed ≡ false
      → lookup key s.sessions ≡ o
      → Acts e Fresh s (logout_found e s key o)
  logout_found-Acts s key none h f = rests s
  logout_found-Acts s key (some x) h f = logged_out-Acts s _ (
      replace-Saves e Fresh s (remove key s.sessions) (x.cancel ∷ []) h
        (λ d. removes (record s { dir = d }) key x h f))

  pub logout-Acts : (s : State e) (token : Bytes) → Acts e Fresh s (logout e s token)
  unfolding logout
  logout-Acts s token =
      if_lem (λ (w : State e × Result (Unit {0})). Acts e Fresh s w) s.storage_failed (λ f. rests s)
        (λ h. logout_found-Acts s (e.token_hash token) _ h refl)
