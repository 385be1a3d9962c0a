-- ===== src/Auth/Ends.antt =====
-- auth_store.rs: a login ends when enough tokens are drawn.
use hmux.Base.{
  ℕ, ◌+◌, suc, ◌≡◌, ◌≢◌, ◌≤◌, ◌<◌, ap, refl, arith, Bool, true, false, Option, none, some, List, [],
  ◌∷◌, if_lem, Bool-cases, inl, inr, leb, length,
}
use hmux.Base.Eq.{Bytes, bytes_eq, bytes_beq, bytes_beq_iff}
use hmux.Base.Int.{ℤ}
use hmux.Base.Map.{lookup, insert}
use hmux.Auth.Types.{Env, Account, Session, Sessions, State, fail_storage}
use hmux.Auth.Files.{
  lasting, expired, any_session, written, save_sessions, replaced, replace, prune, write_credential,
}
use hmux.Base.{map}
use hmux.Base.Map.{length-retain-le, length-remove-le}
use hmux.Auth.Login.{
  Request, Login, unfinished, draw, is_known, id_taken, token_taken, make_room, without, oldest_of,
  count, owned_by, login_finish, login_account, login_written, login_pruned, login_token, login_id,
  login_saved, advanced,
}
use hmux.Auth.Types.{max_sessions_per_account}
use hmux.Auth.Draws.{has, DistinctKeys, draw-ends}

abbrev key_of : Bytes × Session → Bytes
key_of z = z.0

abbrev id_of : Bytes × Session → Bytes
id_of z = z.1.id

length-map : (f : Bytes × Session → Bytes) (m : Sessions) → length (map f m) ≡ length m
length-map f [] = refl
length-map f (z ∷ m) = ground (arith, length-map f m)

lookup-has : (k : Bytes) (m : Sessions) → is_known (lookup k m) ≡ true → has k (map key_of m) ≡ true
unfolding lookup
lookup-has k [] h = ground arith
lookup-has k ((j, x) ∷ m) h = ground (arith, lookup-has k m)

any_session-has :
    (i : Bytes) (m : Sessions)
    → any_session (λ x. bytes_beq x.id i) m ≡ true
    → has i (map id_of m) ≡ true
any_session-has i [] h = ground arith
any_session-has i ((j, x) ∷ m) h = ground (arith, any_session-has i m)

has-map :
    (f : Bytes → Bytes) (t : Bytes) (ts : List Bytes)
    → has t ts ≡ true
    → has (f t) (map f ts) ≡ true
has-map f t [] h = ground arith
has-map f t (u ∷ ts) h = elim (Bool-cases (bytes_beq u t)) [
  | inl same ↦
      let eq : f u ≡ f t = ap f ((bytes_beq_iff u t).0 same) in
      rw ((bytes_beq_iff (f u) (f t)).1 eq) refl
  | inr other ↦ ground (arith, has-map f t ts)
]

-- Tokens with distinct hashes are distinct.
DistinctKeys-tokens :
    (f : Bytes → Bytes) (ts : List Bytes) → DistinctKeys f ts → DistinctKeys (λ t. t) ts
DistinctKeys-tokens f [] d = tt
DistinctKeys-tokens f (t ∷ ts) d =
    (ground (arith, has-map f t ts, same ts), DistinctKeys-tokens f ts d.1)
  where
    same : (us : List Bytes) → map (λ t. t) us ≡ us
    same [] = refl
    same (u ∷ us) = ap (λ xs. u ∷ xs) (same us)

length-make_room-le : (u : Bytes) (m : Sessions) → length (make_room u m) ≤ length m
unfolding make_room
length-make_room-le u m =
    if_lem (λ (r : Sessions). length r ≤ length m)
      (leb max_sessions_per_account (count (owned_by u) m)) (λ full. go (oldest_of u none m))
      (λ room. omega arith)
  where
    go : (o : Option (Bytes × Session)) → length (without m o) ≤ length m
    go none = omega arith
    go (some (k, x)) = length-remove-le k m

module _ (e : Env) where
  Ended : State e × Login → Type 0
  Ended w = w.1 ≢ unfinished

  login_saved-ends : (token : Bytes) (w : State e × Bool) → (login_saved e token w).1 ≢ unfinished
  login_saved-ends token (t, true) = λ h. ground arith
  login_saved-ends token (t, false) = λ h. ground arith

  module _ (r : Request) (profile : Bytes) where
    login_id-ends :
        (s : State e) (a : Account) (room : Sessions) (token : Bytes) (ts : List Bytes)
        → DistinctKeys e.token_hash ts
        → length room < length ts
        → (login_id e s r profile a room token (draw (id_taken e room) (map some ts))).1
          ≢ unfinished
    login_id-ends s a room token ts d n =
        let ended =
          draw-ends (id_taken e room) (λ t. t) (map id_of room) ts
            (λ t taken. any_session-has t room taken) (DistinctKeys-tokens e.token_hash ts d)
            (omega (arith, n, length-map id_of room)) in
        rw (ended.2) (login_saved-ends token _)

    login_token-ends :
        (s : State e) (a : Account) (room : Sessions) (ts : List Bytes)
        → DistinctKeys e.token_hash ts
        → length room + suc (length room) < length ts
        → (login_token e s r profile a room (draw (token_taken e room) (map some ts))).1
          ≢ unfinished
    login_token-ends s a room ts d n =
        let ended =
          draw-ends (token_taken e room) e.token_hash (map key_of room) ts
            (λ t taken. lookup-has (e.token_hash t) room taken) d
            (omega (arith, n, length-map key_of room)) in
        rw (ended.2) (
          login_id-ends s a room ended.0 ended.1 ended.4
            (omega (arith, n, ended.3, length-map key_of room)))

    login_pruned-ends :
        (a : Account) (ts : List Bytes) (w : State e × Bool) (n : ℕ)
        → DistinctKeys e.token_hash ts
        → length w.0.sessions ≤ n
        → n + suc n < length ts
        → (login_pruned e r profile a (map some ts) w).1 ≢ unfinished
    login_pruned-ends a ts (t, false) n d l h = λ u. ground arith
    login_pruned-ends a ts (t, true) n d l h =
        login_token-ends t a (make_room r.username t.sessions) ts d
          (omega (arith, l, h, length-make_room-le r.username t.sessions))

  replaced-length-le :
      (s : State e) (next : Sessions) (gone : List ℕ) (w : e.Dir × Bool)
      → length next ≤ length s.sessions
      → length (replaced e next gone (written e s w)).0.sessions ≤ length s.sessions
  unfolding fail_storage
  replaced-length-le s next gone (d, true) h = h
  replaced-length-le s next gone (d, false) h = omega arith

  prune-length-le : (s : State e) (now : ℕ) → length (prune e s now).0.sessions ≤ length s.sessions
  unfolding prune replace save_sessions
  prune-length-le s now =
      if_lem (λ (w : State e × Bool). length w.0.sessions ≤ length s.sessions) s.storage_failed
        (λ f. omega arith)
        (λ h.
          if_lem (λ (w : State e × Bool). length w.0.sessions ≤ length s.sessions)
            (any_session (expired now) s.sessions)
            (λ old. replaced-length-le s _ _ _ (length-retain-le (lasting now) s.sessions))
            (λ none_old. omega arith))

  module _ (r : Request) (profile : Bytes) (ts : List Bytes) (s : State e)
      (d : DistinctKeys e.token_hash ts)
      (h : length s.sessions + suc (length s.sessions) < length ts) where
    login_written-ends :
        (a : Account) (w : e.Dir × Bool)
        → (login_written e s r profile a (map some ts) w).1 ≢ unfinished
    login_written-ends a (dir, true) =
        let t : State e = record s { dir = dir; accounts = insert r.username a s.accounts } in
        login_pruned-ends r profile a ts _ (length s.sessions) d (prune-length-le t r.now) h
    login_written-ends a (dir, false) = λ u. ground arith

    login_account-ends :
        (print : Bytes) (n : ℤ) (o : Option Account)
        → (login_account e s r profile print n (map some ts) o).1 ≢ unfinished
    login_account-ends print n none = λ u. ground arith
    login_account-ends print n (some a) = λ u. ground (
      arith,
      login_pruned-ends r profile a ts (prune e s r.now) (length s.sessions) d
          (prune-length-le s r.now) h,
      login_written-ends (advanced e a n)
          (write_credential e s.dir a.path a.credentials (advanced e a n).credentials),
    )

    -- A login ends when the tokens drawn have distinct hashes and are more than twice as many as the
    -- sessions and one: neither loop that draws a fresh token goes on.
    pub login_finish-ends :
        (print : Bytes) (n : ℤ) → (login_finish e s r profile print n (map some ts)).1 ≢ unfinished
    unfolding login_finish
    login_finish-ends print n =
        λ u. ground (arith, login_account-ends print n (lookup r.username s.accounts))
