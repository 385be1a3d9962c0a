-- ===== src/Auth/Replay.antt =====
-- auth_store.rs: the steps of the one-time codes that an account has used.
use hmux.Base.{
  All, ◌≡◌, ◌≢◌, ap, refl, sym, subst, ◌∙◌, arith, Bool, true, false, ◌&&◌, ◌||◌, Option, none,
  some, List, [], ◌∷◌, if_lem, Bool-cases, inl, inr,
}
use hmux.Base.Eq.{Bytes, bytes_eq, bytes_beq, bytes_beq_iff}
use hmux.Base.Int.{ℤ, int_leb, is_negative, int_leb_refl, int_leb_trans}
use hmux.Base.Map.{lookup, insert}
use hmux.Auth.Types.{Env, Account, State, fail_storage, fingerprint}
use hmux.Auth.Login.{
  Request, Login, minted, login_finish, login_account, login_step, login_written, advanced,
  has_code,
}
use hmux.Auth.Moves.{
  Move, Moves_lem, fails, notes, writes, allots, advances, prunes, sees, removes, logs_in, secures,
  Moves-failed,
}
use hmux.Auth.Calls.{
  Call, login_begin_call, login_finish_call, access_call, revoke_call, logout_call, totp_begin_call,
  totp_finish_call, prune_call, run,
}
use hmux.Auth.Runs.{DrawsFresh, run-Moves}
use hmux.Auth.Logins.{FreshDraw, login_pruned-Acts}
use hmux.Auth.Prunes.{prune-Saves}
use hmux.Base.Map.{lookup-insert}

abbrev pub Any : Bytes → Type 0
Any key = Unit

pub draws-Any :
    (hash : Bytes → Bytes) (draws : List (Option Bytes)) → All (FreshDraw hash Any) draws
draws-Any hash [] = tt
draws-Any hash (none ∷ draws) = (tt, draws-Any hash draws)
draws-Any hash (some d ∷ draws) = (tt, draws-Any hash draws)

module _ (e : Env) (valid_token : Bytes → Bool) where
  calls-Any : (calls : List Call) → All (DrawsFresh e Any valid_token) calls
  calls-Any [] = tt
  calls-Any (login_begin_call origin username now ∷ calls) = (tt, calls-Any calls)
  calls-Any (login_finish_call r profile print n draws ∷ calls) =
      (draws-Any e.token_hash draws, calls-Any calls)
  calls-Any (access_call token touch now ∷ calls) = (tt, calls-Any calls)
  calls-Any (revoke_call token id now ∷ calls) = (tt, calls-Any calls)
  calls-Any (logout_call token ∷ calls) = (tt, calls-Any calls)
  calls-Any (totp_begin_call token now ∷ calls) = (tt, calls-Any calls)
  calls-Any (totp_finish_call c clock ∷ calls) = (tt, calls-Any calls)
  calls-Any (prune_call now ∷ calls) = (tt, calls-Any calls)

  -- A property that every move keeps is kept by any calls.
  pub run_lem {ℓ} :
      (P : State e → Type ℓ)
      → ((s t : State e) → Move e Any s t → P s → P t)
      → (s : State e) (calls : List Call) → P s
      → P (run e valid_token s calls)
  run_lem P keep s calls p =
      Moves_lem e Any P keep s (run e valid_token s calls)
        (run-Moves e Any valid_token s calls (calls-Any calls)) p

  -- Once the storage has failed, no call changes the store in memory.
  pub run-failed :
      (s : State e) (calls : List Call) → s.storage_failed ≡ true → run e valid_token s calls ≡ s
  run-failed s calls h =
      Moves-failed e Any s (run e valid_token s calls)
        (run-Moves e Any valid_token s calls (calls-Any calls)) h

  -- The account of the name has used a step of at least `n`.
  abbrev pub Above : Bytes → ℤ → State e → Type 0
  Above u n s =
      (a : Account) × (lookup u s.accounts ≡ some a) × (int_leb n a.credentials.last_step ≡ true)

  advanced-Above :
      (u : Bytes) (n : ℤ) (s : State e) (v : Bytes) (a b : Account)
      → lookup v s.accounts ≡ some a
      → int_leb a.credentials.last_step b.credentials.last_step ≡ true
      → Above u n s
      → Above u n (record s { accounts = insert v b s.accounts })
  advanced-Above u n s v a b f l (c, g, m) = elim (Bool-cases (bytes_beq v u)) [
    | inl same ↦
        let eq : v ≡ u = (bytes_beq_iff v u).0 same in
        let both : some a ≡ some c = sym f ∙ (ap (λ j. lookup j s.accounts) eq ∙ g) in
        let ac : a ≡ c = cc both in
        (
          b,
          lookup-insert v u b s.accounts ∙ rw same refl,
          int_leb_trans n a.credentials.last_step b.credentials.last_step
              (ap (λ (w : Account). int_leb n w.credentials.last_step) ac ∙ m) l,
        )
    | inr other ↦ (c, lookup-insert v u b s.accounts ∙ (rw other g), m)
  ]

  Move-Above : (u : Bytes) (n : ℤ) (s t : State e) → Move e Any s t → Above u n s → Above u n t
  unfolding fail_storage
  Move-Above u n s t (fails r h) p = p
  Move-Above u n s t (notes r m m' h) p = p
  Move-Above u n s t (writes r d h) p = p
  Move-Above u n s t (allots r h) p = p
  Move-Above u n s t (advances r v a b h f l) p = advanced-Above u n r v a b f l p
  Move-Above u n s t (prunes r now h) p = p
  Move-Above u n s t (sees r key x y h f l) p = p
  Move-Above u n s t (removes r key x h f) p = p
  Move-Above u n s t (logs_in r key x h fr f) p = p
  Move-Above u n s t (secures r key v q x y h f o g l) p = p

  module _ (r : Request) (profile token : Bytes) (draws : List (Option Bytes)) where
    -- A login that was minted has used its step.
    abbrev Uses : ℤ → State e × Login → Type 0
    Uses n w = w.1 ≡ minted token → Above r.username n w.0

    login_written-Uses :
        (s : State e) (n : ℤ) (a : Account) (w : e.Dir × Bool)
        → Uses n (login_written e s r profile (advanced e a n) draws w)
    login_written-Uses s n a (d, true) m =
        let u : State e = record s {
          dir = d;
          accounts = insert r.username (advanced e a n) s.accounts;
        } in
        Moves_lem e Any (λ t. Above r.username n t) (Move-Above r.username n) u _
          (login_pruned-Acts e Any r profile draws (draws-Any e.token_hash draws) u (advanced e a n)
            _ (prune-Saves e Any u r.now))
          (
            advanced e a n,
            ground (
              arith,
              lookup-insert r.username r.username (advanced e a n) s.accounts,
              bytes_beq_iff r.username r.username,
            ),
            int_leb_refl n,
          )
    login_written-Uses s n a (d, false) m = ground arith

    login_step-Uses :
        (s : State e) (n : ℤ) (a : Account) → Uses n (login_step e s r profile n draws a)
    login_step-Uses s n a =
        if_lem (λ w. Uses n w) (has_code e r.code)
          (λ c.
            if_lem (λ w. Uses n w) (is_negative n || int_leb n a.credentials.last_step)
              (λ old m. ground arith) (λ new. login_written-Uses s n a _))
          (λ c m. ground arith)

    login_account-Uses :
        (s : State e) (print : Bytes) (n : ℤ) (a : Account)
        → a.credentials.totp_disabled ≡ false
        → Uses n (login_account e s r profile print n draws (some a))
    login_account-Uses s print n a on =
        if_lem (λ w. Uses n w)
          (bytes_beq a.profile profile && bytes_beq (fingerprint e a.credentials) print)
          (λ same.
            if_lem (λ w. Uses n w) a.credentials.totp_disabled (λ off m. ground arith)
              (λ h. login_step-Uses s n a))
          (λ other m. ground arith)

    login_finish-Uses :
        (s : State e) (print : Bytes) (n : ℤ) (a : Account)
        → lookup r.username s.accounts ≡ some a
        → a.credentials.totp_disabled ≡ false
        → Uses n (login_finish e s r profile print n draws)
    unfolding login_finish
    login_finish-Uses s print n a f on =
        if_lem (λ (w : State e × Login). Uses n w) s.storage_failed (λ bad m. ground arith)
          (λ h. rw f (login_account-Uses s print n a on))

    -- A step that the account has used mints nothing.
    login_finish-used :
        (s : State e) (print : Bytes) (m n : ℤ) (b : Account)
        → Above r.username n s
        → lookup r.username s.accounts ≡ some b
        → b.credentials.totp_disabled ≡ false
        → int_leb m n ≡ true
        → (login_finish e s r profile print m draws).1 ≢ minted token
    unfolding login_finish
    login_finish-used s print m n b (a, f, l) g on le =
        let both : some a ≡ some b = sym f ∙ g in
        let ab : a ≡ b = cc both in
        let used : int_leb m b.credentials.last_step ≡ true =
          int_leb_trans m n b.credentials.last_step le
            (ap (λ (w : Account). int_leb n w.credentials.last_step) (sym ab) ∙ l) in
        λ h. ground arith

  -- When a login of an account with one-time codes was minted with a step, no later login of that
  -- account with the same or an earlier step mints a token, whatever is called in between, while the
  -- account still has one-time codes.
  pub login_finish-replay :
      (s t : State e) (r r' : Request) (profile profile' print print' token token' : Bytes)
      (n m : ℤ) (draws draws' : List (Option Bytes)) (a b : Account) (calls : List Call)
      → lookup r.username s.accounts ≡ some a
      → a.credentials.totp_disabled ≡ false
      → login_finish e s r profile print n draws ≡ (t, minted token)
      → r'.username ≡ r.username
      → lookup r'.username (run e valid_token t calls).accounts ≡ some b
      → b.credentials.totp_disabled ≡ false
      → int_leb m n ≡ true
      → (login_finish e (run e valid_token t calls) r' profile' print' m draws').1 ≢ minted token'
  login_finish-replay s t r r' profile profile' print print' token token' n m draws draws' a b calls
        f on w same g on' le =
      let used : Above r.username n t =
        subst (λ (v : State e × Login). Above r.username n v.0) w
          (login_finish-Uses r profile token draws s print n a f on
            (ap (λ (v : State e × Login). v.1) w)) in
      let later : Above r'.username n (run e valid_token t calls) =
        subst (λ u. Above u n (run e valid_token t calls)) (sym same)
          (run_lem (λ v. Above r.username n v) (Move-Above r.username n) t calls used) in
      login_finish-used r' profile' token' draws' (run e valid_token t calls) print' m n b later g
        on' le
