-- ===== src/Auth/Logins.antt =====
-- auth_store.rs: the changes of the two transactions of `login`.
use hmux.Base.{
  All, ℕ, suc, ◌≡◌, refl, subst, arith, Bool, true, false, ◌&&◌, ◌||◌, Option, none, some, List, [],
  ◌∷◌, if_lem, Bool-cases, inl, inr,
}
use hmux.Base.Eq.{Bytes, bytes_eq, bytes_beq}
use hmux.Base.Int.{ℤ, int_leb, is_negative, int_leb_total}
use hmux.Base.Map.{lookup, insert}
use hmux.Auth.Types.{Env, Account, Session, State, fingerprint}
use hmux.Auth.Files.{dropped}
use hmux.Auth.Login.{
  Request, Login, Drawn, drawn, failed, exhausted, Begun, make_room, draw, id_taken, token_taken,
  is_known, login_begin, begun, or_primary, login_finish, login_account, login_step, login_written,
  login_pruned, login_token, login_id, login_insert, login_saved, new_session, advanced, has_code,
}
use hmux.Auth.Attempts.{allow_attempt}
use hmux.Auth.Moves.{rests, goes, fails, writes, notes, allots, logs_in, advances, joins}
use hmux.Auth.Prunes.{Acts, Saves, one, prune-Saves, replace-Saves}

-- A draw that is not among the keys of `Fresh` is none of a login.
abbrev pub FreshDraw : (Bytes → Bytes) → (Bytes → Type 0) → Option Bytes → Type 0
FreshDraw hash Fresh none = Unit
FreshDraw hash Fresh (some token) = Fresh (hash token)

draw-Fresh :
    (hash : Bytes → Bytes) (Fresh : Bytes → Type 0) (p : Bytes → Bool) (draws : List (Option Bytes))
    (t : Bytes) (rest : List (Option Bytes))
    → All (FreshDraw hash Fresh) draws
    → draw p draws ≡ drawn t rest
    → Fresh (hash t)
draw-Fresh hash Fresh p [] t rest a h = ground arith
draw-Fresh hash Fresh p (none ∷ ds) t rest a h = ground arith
draw-Fresh hash Fresh p (some d ∷ ds) t rest a h = elim (Bool-cases (p d)) [
  | inl taken ↦ draw-Fresh hash Fresh p ds t rest a.1 (rw taken at h)
  | inr free ↦ let same : d ≡ t = ground arith in subst (λ x. Fresh (hash x)) same a.0
]

draw-taken :
    (p : Bytes → Bool) (draws : List (Option Bytes)) (t : Bytes) (rest : List (Option Bytes))
    → draw p draws ≡ drawn t rest
    → p t ≡ false
draw-taken p [] t rest h = ground arith
draw-taken p (none ∷ ds) t rest h = ground arith
draw-taken p (some d ∷ ds) t rest h = ground (arith, draw-taken p ds t rest)

is_known-none : (o : Option Session) → is_known o ≡ false → o ≡ none
is_known-none none h = refl
is_known-none (some x) h = ground arith

module _ (e : Env) (Fresh : Bytes → Type 0) where
  begun-Acts :
      (s : State e) (o : Option Account) → s.storage_failed ≡ false → Acts e Fresh s (begun e s o)
  begun-Acts s none h = one e Fresh s _ (fails s h)
  begun-Acts s (some a) h = rests s

  pub login_begin-Acts :
      (s : State e) (origin username : Bytes) (now : ℕ)
      → Acts e Fresh s (login_begin e s origin username now)
  unfolding login_begin
  login_begin-Acts s origin username now =
      let attempts = (allow_attempt s.attempts origin now 1024).0 in
      let t : State e = record s { attempts = attempts } in
      if_lem (λ (w : State e × Begun). Acts e Fresh s w) s.storage_failed (λ f. rests s)
        (λ h.
          if_lem (λ (w : State e × Begun). Acts e Fresh s w)
            (allow_attempt s.attempts origin now 1024).1
            (λ ok.
              goes s t _ (notes s attempts s.security_attempts h)
                (begun-Acts t (or_primary s.accounts (lookup username s.accounts)) h))
            (λ no. one e Fresh s t (notes s attempts s.security_attempts h)))

  login_saved-Acts :
      (s : State e) (token : Bytes) (w : State e × Bool)
      → Saves e Fresh s w
      → Acts e Fresh s (login_saved e token w)
  login_saved-Acts s token (t, true) m = m.0
  login_saved-Acts s token (t, false) m = m.0

  module _ (s : State e) (r : Request) (profile : Bytes) (a : Account)
      (h : s.storage_failed ≡ false) where
    login_insert-Acts :
        (token id : Bytes)
        → Fresh (e.token_hash token)
        → lookup (e.token_hash token) (make_room r.username s.sessions) ≡ none
        → Acts e Fresh s (login_insert e s r profile a (make_room r.username s.sessions) token id)
    login_insert-Acts token id fr f =
        let t : State e = record s { channels = suc s.channels } in
        let x : Session = new_session e s r profile a id in
        let next = insert (e.token_hash token) x (make_room r.username s.sessions) in
        goes s t _ (allots s h) (
          login_saved-Acts t token _ (
            replace-Saves e Fresh t next (dropped s.sessions next) h
              (λ d. logs_in (record t { dir = d }) (e.token_hash token) x h fr f)))

    login_id-Acts :
        (token : Bytes) (o : Drawn)
        → Fresh (e.token_hash token)
        → lookup (e.token_hash token) (make_room r.username s.sessions) ≡ none
        → Acts e Fresh s (login_id e s r profile a (make_room r.username s.sessions) token o)
    login_id-Acts token (drawn id draws) fr f = login_insert-Acts token id fr f
    login_id-Acts token failed fr f = one e Fresh s _ (fails s h)
    login_id-Acts token exhausted fr f = rests s

    login_token-Acts :
        (draws : List (Option Bytes)) (o : Drawn)
        → All (FreshDraw e.token_hash Fresh) draws
        → draw (token_taken e (make_room r.username s.sessions)) draws ≡ o
        → Acts e Fresh s (login_token e s r profile a (make_room r.username s.sessions) o)
    login_token-Acts draws (drawn token rest) al f =
        login_id-Acts token (draw (id_taken e (make_room r.username s.sessions)) rest)
          (draw-Fresh e.token_hash Fresh (token_taken e (make_room r.username s.sessions)) draws
            token rest al f)
          (is_known-none _
            (draw-taken (token_taken e (make_room r.username s.sessions)) draws token rest f))
    login_token-Acts draws failed al f = one e Fresh s _ (fails s h)
    login_token-Acts draws exhausted al f = rests s

  module _ (r : Request) (profile : Bytes) (draws : List (Option Bytes))
      (al : All (FreshDraw e.token_hash Fresh) draws) where
    pub login_pruned-Acts :
        (s : State e) (a : Account) (w : State e × Bool)
        → Saves e Fresh s w
        → Acts e Fresh s (login_pruned e r profile a draws w)
    login_pruned-Acts s a (t, false) m = m.0
    login_pruned-Acts s a (t, true) m =
        joins e Fresh s t _ m.0 (login_token-Acts t r profile a (m.1 refl) draws _ al refl)

    login_written-Acts :
        (s : State e) (a b : Account) (w : e.Dir × Bool)
        → s.storage_failed ≡ false
        → lookup r.username s.accounts ≡ some a
        → int_leb a.credentials.last_step b.credentials.last_step ≡ true
        → Acts e Fresh s (login_written e s r profile b draws w)
    login_written-Acts s a b (d, true) h f l =
        let t : State e = record s { dir = d } in
        let u : State e = record t { accounts = insert r.username b s.accounts } in
        goes s t _ (writes s d h) (
          goes t u _ (advances t r.username a b h f l)
            (login_pruned-Acts u b _ (prune-Saves e Fresh u r.now)))
    login_written-Acts s a b (d, false) h f l =
        let t : State e = record s { dir = d } in
        goes s t _ (writes s d h) (one e Fresh t _ (fails t h))

    login_step-Acts :
        (s : State e) (n : ℤ) (a : Account)
        → s.storage_failed ≡ false
        → lookup r.username s.accounts ≡ some a
        → Acts e Fresh s (login_step e s r profile n draws a)
    login_step-Acts s n a h f =
        if_lem (λ w. Acts e Fresh s w) (has_code e r.code)
          (λ c.
            if_lem (λ w. Acts e Fresh s w) (is_negative n || int_leb n a.credentials.last_step)
              (λ old. rests s)
              (λ new.
                login_written-Acts s a (advanced e a n) _ h f
                  (int_leb_total n a.credentials.last_step (ground arith))))
          (λ c. rests s)

    login_account-Acts :
        (s : State e) (print : Bytes) (n : ℤ) (o : Option Account)
        → s.storage_failed ≡ false
        → lookup r.username s.accounts ≡ o
        → Acts e Fresh s (login_account e s r profile print n draws o)
    login_account-Acts s print n none h f = rests s
    login_account-Acts s print n (some a) h f =
        if_lem (λ w. Acts e Fresh s w)
          (bytes_beq a.profile profile && bytes_beq (fingerprint e a.credentials) print)
          (λ same.
            if_lem (λ w. Acts e Fresh s w) a.credentials.totp_disabled
              (λ off. login_pruned-Acts s a _ (prune-Saves e Fresh s r.now))
              (λ on. login_step-Acts s n a h f))
          (λ other. rests s)

    pub login_finish-Acts :
        (s : State e) (print : Bytes) (n : ℤ)
        → Acts e Fresh s (login_finish e s r profile print n draws)
    unfolding login_finish
    login_finish-Acts s print n =
        if_lem (λ (w : State e × Login). Acts e Fresh s w) s.storage_failed (λ f. rests s)
          (λ h. login_account-Acts s print n _ h refl)
