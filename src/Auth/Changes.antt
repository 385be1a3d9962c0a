-- ===== src/Auth/Changes.antt =====
-- auth_store.rs: the changes of the two transactions of `set_totp_enabled`.
use hmux.Base.{
  ℕ, ◌≡◌, refl, arith, Bool, true, false, ◌&&◌, Option, none, some, List, ◌∷◌, ◌++◌, if_lem, ltb,
  if◌then◌else◌,
}
use hmux.Base.Eq.{Bytes, bytes_eq, bytes_beq, bytes_beq_iff}
use hmux.Base.Int.{int_leb, int_leb_total}
use hmux.Base.Map.{lookup, insert}
use hmux.Auth.Types.{Env, Account, Session, State, fingerprint}
use hmux.Auth.Files.{dropped}
use hmux.Auth.Security.{
  Change, totp_begin, totp_begin_pruned, totp_session, totp_account, totp_allowed, totp_finish,
  totp_finish_pruned, totp_found, totp_change, totp_backed_up, totp_written, totp_replaced,
  remaining, changed_account, same_session, with_fingerprint, differs,
}
use hmux.Auth.Sessions.{current}
use hmux.Auth.Attempts.{allow_attempt}
use hmux.Auth.Moves.{rests, goes, fails, writes, notes, secures, advances, joins}
use hmux.Auth.Prunes.{Acts, Saves, one, prune-Saves, replace-Saves}

module _ (e : Env) (Fresh : Bytes → Type 0) where
  totp_allowed-Acts :
      (s : State e) (x : Session) (a : Account) (w : List (Bytes × List ℕ) × Bool)
      → s.storage_failed ≡ false
      → Acts e Fresh s (totp_allowed e s x a w)
  totp_allowed-Acts s x a (m, true) h = one e Fresh s _ (notes s s.attempts m h)
  totp_allowed-Acts s x a (m, false) h = one e Fresh s _ (notes s s.attempts m h)

  totp_account-Acts :
      (s : State e) (x : Session) (now : ℕ) (o : Option Account)
      → s.storage_failed ≡ false
      → Acts e Fresh s (totp_account e s x now o)
  totp_account-Acts s x now none h = rests s
  totp_account-Acts s x now (some a) h =
      if_lem (λ w. Acts e Fresh s w) (current e a x)
        (λ c.
          totp_allowed-Acts s x a
            (allow_attempt s.security_attempts (x.username ++ 0 ∷ a.profile) now 32) h)
        (λ c. rests s)

  totp_session-Acts :
      (s : State e) (now : ℕ) (o : Option Session)
      → s.storage_failed ≡ false
      → Acts e Fresh s (totp_session e s now o)
  totp_session-Acts s now none h = rests s
  totp_session-Acts s now (some x) h = totp_account-Acts s x now (lookup x.username s.accounts) h

  totp_begin_pruned-Acts :
      (s : State e) (key : Bytes) (now : ℕ) (w : State e × Bool)
      → Saves e Fresh s w
      → Acts e Fresh s (totp_begin_pruned e key now w)
  totp_begin_pruned-Acts s key now (t, false) m = m.0
  totp_begin_pruned-Acts s key now (t, true) m =
      joins e Fresh s t _ m.0 (totp_session-Acts t now (lookup key t.sessions) (m.1 refl))

  pub totp_begin-Acts :
      (s : State e) (token : Bytes) (now : ℕ) → Acts e Fresh s (totp_begin e s token now)
  unfolding totp_begin
  totp_begin-Acts s token now =
      totp_begin_pruned-Acts s (e.token_hash token) now _ (prune-Saves e Fresh s now)

  totp_replaced-Acts :
      (s : State e) (w : State e × Bool) → Saves e Fresh s w → Acts e Fresh s (totp_replaced e w)
  totp_replaced-Acts s (t, true) m = m.0
  totp_replaced-Acts s (t, false) m = m.0

  -- The session and the account of a change.
  module _ (c : Change) (x : Session) (owner : x.username ≡ c.username)
      (group : x.profile ≡ c.profile) where
    totp_written-Acts :
        (s : State e) (a b : Account) (w : e.Dir × Bool)
        → s.storage_failed ≡ false
        → lookup (e.token_hash c.token) s.sessions ≡ some x
        → lookup c.username s.accounts ≡ some a
        → int_leb a.credentials.last_step b.credentials.last_step ≡ true
        → Acts e Fresh s (totp_written e s c x b w)
    totp_written-Acts s a b (d, true) h f g l =
        let t : State e = record s { dir = d } in
        let u : State e = record t { accounts = insert c.username b s.accounts } in
        let next = remaining e c x b s.sessions in
        goes s t _ (writes s d h) (
          goes t u _ (advances t c.username a b h g l) (
            totp_replaced-Acts u _ (
              replace-Saves e Fresh u next (dropped s.sessions next) h (λ d'.
                secures (record u { dir = d' }) (e.token_hash c.token) c.username c.profile x
                  (with_fingerprint (fingerprint e b.credentials) x) h f owner group
                  (refl, refl, refl, refl, refl)))))
    totp_written-Acts s a b (d, false) h f g l =
        let t : State e = record s { dir = d } in
        goes s t _ (writes s d h) (one e Fresh t _ (fails t h))

    totp_backed_up-Acts :
        (s : State e) (a : Account) (w : e.Dir × Bool)
        → s.storage_failed ≡ false
        → lookup (e.token_hash c.token) s.sessions ≡ some x
        → lookup c.username s.accounts ≡ some a
        → int_leb c.step a.credentials.last_step ≡ false
        → Acts e Fresh s (totp_backed_up e s c x a w)
    totp_backed_up-Acts s a (d, true) h f g l =
        let t : State e = record s { dir = d } in
        goes s t _ (writes s d h) (
          totp_written-Acts t a (changed_account e c a) _ h f g
            (int_leb_total c.step a.credentials.last_step l))
    totp_backed_up-Acts s a (d, false) h f g l =
        let t : State e = record s { dir = d } in
        goes s t _ (writes s d h) (one e Fresh t _ (fails t h))

    totp_change-Acts :
        (s : State e) (o : Option Account)
        → s.storage_failed ≡ false
        → lookup (e.token_hash c.token) s.sessions ≡ some x
        → lookup c.username s.accounts ≡ o
        → Acts e Fresh s (totp_change e s c x o)
    totp_change-Acts s none h f g = rests s
    totp_change-Acts s (some a) h f g =
        if_lem (λ w. Acts e Fresh s w)
          (bytes_beq a.profile c.profile && bytes_beq (fingerprint e a.credentials) c.print)
          (λ same.
            if_lem (λ w. Acts e Fresh s w) (int_leb c.step a.credentials.last_step) (λ old. rests s)
              (λ new.
                if_lem (λ w. Acts e Fresh s w) (differs c.enabled a.credentials.totp_disabled)
                  (λ done. rests s) (λ todo. totp_backed_up-Acts s a _ h f g new)))
          (λ other. rests s)

  totp_found-Acts :
      (s : State e) (c : Change) (o : Option Session)
      → s.storage_failed ≡ false
      → lookup (e.token_hash c.token) s.sessions ≡ o
      → Acts e Fresh s (totp_found e s c o)
  totp_found-Acts s c none h f = rests s
  totp_found-Acts s c (some x) h f =
      if_lem (λ w. Acts e Fresh s w) (same_session e c x)
        (λ same.
          totp_change-Acts c x (ground (arith, bytes_beq_iff x.username c.username))
            (ground (arith, bytes_beq_iff x.profile c.profile)) s _ h f refl)
        (λ other. rests s)

  totp_finish_pruned-Acts :
      (s : State e) (c : Change) (w : State e × Bool)
      → Saves e Fresh s w
      → Acts e Fresh s (totp_finish_pruned e c w)
  totp_finish_pruned-Acts s c (t, false) m = m.0
  totp_finish_pruned-Acts s c (t, true) m =
      joins e Fresh s t _ m.0 (totp_found-Acts t c _ (m.1 refl) refl)

  pub totp_finish-Acts :
      (s : State e) (c : Change) (clock : ℕ) → Acts e Fresh s (totp_finish e s c clock)
  unfolding totp_finish
  totp_finish-Acts s c clock =
      totp_finish_pruned-Acts s c _
        (prune-Saves e Fresh s (if ltb c.now clock then clock else c.now))
