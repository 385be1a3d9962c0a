-- ===== src/Auth/Cancelled.antt =====
-- auth_store.rs: the channels of the sessions that leave the table.
use hmux.Base.{
  All, ℕ, ◌≡◌, ◌≢◌, ◌⊎◌, ap, refl, sym, subst, ◌∙◌, arith, Bool, true, false, Option, none, some,
  List, [], ◌∷◌, if_lem, Bool-cases, inl, inr, leb,
}
use hmux.Base.Eq.{Bytes, bytes_eq, bytes_beq, bytes_beq_iff}
use hmux.Base.Map.{lookup, insert, remove, retain}
use hmux.Auth.Types.{Env, Session, Sessions, State, fail_storage}
use hmux.Auth.Files.{dropped, lasting}
use hmux.Auth.Sessions.{has_channel}
use hmux.Auth.Login.{make_room, oldest_of, owned_by, count, without}
use hmux.Auth.Types.{cancels, max_sessions_per_account}
use hmux.Auth.Security.{others_kept}
use hmux.Auth.Moves.{
  Move, Moves_lem, fails, notes, writes, allots, advances, prunes, sees, removes, logs_in, secures,
  with_sessions, SameLogin,
}
use hmux.Auth.Calls.{Call, run}
use hmux.Auth.Runs.{DrawsFresh, run-Moves}
use hmux.Auth.Table.{
  has_channel-append_left, has_channel-append_right, has_channel-cancels, has_channel-dropped,
  others_kept-some, Distinct-others_kept,
}
use hmux.Base.Map.{
  Distinct, lookup-retain, lookup-insert, lookup-remove, Distinct-insert, Distinct-remove,
  Distinct-retain,
}

make_room-lookup :
    (u k : Bytes) (m : Sessions)
    → (lookup k (make_room u m) ≡ none) ⊎ (lookup k (make_room u m) ≡ lookup k m)
unfolding make_room
make_room-lookup u k m =
    if_lem (λ (r : Sessions). (lookup k r ≡ none) ⊎ (lookup k r ≡ lookup k m))
      (leb max_sessions_per_account (count (owned_by u) m)) (λ full. go (oldest_of u none m))
      (λ room. inr refl)
  where
    go :
        (o : Option (Bytes × Session))
        → (lookup k (without m o) ≡ none) ⊎ (lookup k (without m o) ≡ lookup k m)
    go none = inr refl
    go (some (j, y)) = ground (arith, lookup-remove j k m)

Distinct-make_room : (u : Bytes) (m : Sessions) → Distinct m → Distinct (make_room u m)
unfolding make_room
Distinct-make_room u m d =
    if_lem (λ (r : Sessions). Distinct r) (leb max_sessions_per_account (count (owned_by u) m))
      (λ full. go (oldest_of u none m)) (λ room. d)
  where
    go : (o : Option (Bytes × Session)) → Distinct (without m o)
    go none = d
    go (some (j, y)) = Distinct-remove j m d

module _ (e : Env) where
  pub Move-Distinct :
      (Fresh : Bytes → Type 0) (s t : State e)
      → Move e Fresh s t
      → Distinct s.sessions
      → Distinct t.sessions
  unfolding fail_storage
  Move-Distinct F s t (fails r h) d = d
  Move-Distinct F s t (notes r m n h) d = d
  Move-Distinct F s t (writes r m h) d = d
  Move-Distinct F s t (allots r h) d = d
  Move-Distinct F s t (advances r u a b h f l) d = d
  Move-Distinct F s t (prunes r now h) d = Distinct-retain (lasting now) r.sessions d
  Move-Distinct F s t (sees r key x y h f l) d = Distinct-insert key y r.sessions d
  Move-Distinct F s t (removes r key x h f) d = Distinct-remove key r.sessions d
  Move-Distinct F s t (logs_in r key x h fr f) d =
      Distinct-insert key x _ (Distinct-make_room x.username r.sessions d)
  Move-Distinct F s t (secures r key u p x y h f o g l) d =
      Distinct-insert key y _ (Distinct-others_kept key u p r.sessions d)

  -- The session of a key, its channel, owner and end.
  module _ (k : Bytes) (c : ℕ) (u : Bytes) (end : ℕ) where
    abbrev pub Stays : Session → Type 0
    Stays x = (x.cancel ≡ c) × (x.username ≡ u) × (x.expires ≡ end)

    -- The storage works and the session is in the table, or its channel is cancelled.
    abbrev pub Kept : State e → Type 0
    Kept s =
        ((x : Session) × (lookup k s.sessions ≡ some x) × Stays x × (s.storage_failed ≡ false))
        ⊎ (has_channel c s.cancelled ≡ true)

    abbrev Others : Bytes → Type 0
    Others key = key ≢ k

    abbrev Present : Sessions → Type 0
    Present m = (y : Session) × (lookup k m ≡ some y) × Stays y

    -- The entry of `k`, when the entry under `key` stays as it was for the owner.
    insert-Present :
        (key : Bytes) (x y z : Session) (m rest : Sessions)
        → lookup key m ≡ some x
        → lookup k m ≡ some z
        → Stays z
        → SameLogin e x y
        → (lookup k rest ≡ none) ⊎ (lookup k rest ≡ lookup k m)
        → (lookup k (insert key y rest) ≡ none) ⊎ Present (insert key y rest)
    insert-Present key x y z m rest f q st l o = elim (Bool-cases (bytes_beq key k)) [
      | inl same ↦
          let eq : key ≡ k = (bytes_beq_iff key k).0 same in
          let both : some x ≡ some z = sym f ∙ (ap (λ j. lookup j m) eq ∙ q) in
          let xz : x ≡ z = cc both in
          let stx : Stays x = subst (λ w. Stays w) (sym xz) st in
          inr
            (y, lookup-insert key k y rest ∙ rw same refl, (l.4 ∙ stx.0, l.1 ∙ stx.1, l.3 ∙ stx.2))
      | inr other ↦ insert_other (lookup-insert key k y rest ∙ rw other refl) o
    ]
      where
        insert_other :
            lookup k (insert key y rest) ≡ lookup k rest
            → (lookup k rest ≡ none) ⊎ (lookup k rest ≡ lookup k m)
            → (lookup k (insert key y rest) ≡ none) ⊎ Present (insert key y rest)
        insert_other e' (inl n) = inl (e' ∙ n)
        insert_other e' (inr n) = inr (z, e' ∙ (n ∙ q), st)

    -- The session is in the next table, or among those that leave.
    replaced-Kept :
        (s : State e) (next : Sessions) (gone : List ℕ) (x : Session)
        → Stays x
        → s.storage_failed ≡ false
        → ((y : Session) × (lookup k next ≡ some y) × Stays y) ⊎ (has_channel c gone ≡ true)
        → Kept (with_sessions e s next gone)
    replaced-Kept s next gone x st h (inl (y, f, g)) = inl (y, f, g, h)
    replaced-Kept s next gone x st h (inr f) = inr (has_channel-append_left c gone s.cancelled f)

    dropped-Kept :
        (s : State e) (next : Sessions) (x : Session)
        → Stays x
        → lookup k s.sessions ≡ some x
        → (lookup k next ≡ none) ⊎ ((y : Session) × (lookup k next ≡ some y) × Stays y)
        → ((y : Session) × (lookup k next ≡ some y) × Stays y)
          ⊎ (has_channel c (dropped s.sessions next) ≡ true)
    dropped-Kept s next x st f (inl g) = inr (
        subst (λ n. has_channel n (dropped s.sessions next) ≡ true) st.0
          (has_channel-dropped k x s.sessions next f g))
    dropped-Kept s next x st f (inr g) = inl g

    removed-Present :
        (key : Bytes) (x z : Session) (m : Sessions)
        → lookup key m ≡ some x
        → lookup k m ≡ some z
        → Stays z
        → Present (remove key m) ⊎ (has_channel c (x.cancel ∷ []) ≡ true)
    removed-Present key x z m f q st = elim (Bool-cases (bytes_beq key k)) [
      | inl same ↦
          let eq : key ≡ k = (bytes_beq_iff key k).0 same in
          let both : some x ≡ some z = sym f ∙ (ap (λ j. lookup j m) eq ∙ q) in
          let xz : x ≡ z = cc both in
          inr (rw (ap (λ (w : Session). w.cancel) xz, st.0) (ground arith))
      | inr other ↦ inl (z, lookup-remove key k m ∙ (rw other q), st)
    ]

    entered-Present :
        (key : Bytes) (x z : Session) (m room : Sessions)
        → key ≢ k
        → lookup k m ≡ some z
        → Stays z
        → (lookup k room ≡ none) ⊎ (lookup k room ≡ lookup k m)
        → (lookup k (insert key x room) ≡ none) ⊎ Present (insert key x room)
    entered-Present key x z m room ne q st (inl n) =
        inl (ground (arith, lookup-insert key k x room, bytes_beq_iff key k))
    entered-Present key x z m room ne q st (inr n) =
        inr (z, ground (arith, lookup-insert key k x room, bytes_beq_iff key k), st)

    Move-Kept : (s t : State e) → Move e Others s t → Distinct s.sessions → Kept s → Kept t
    unfolding fail_storage
    Move-Kept s t (fails r h) d (inr g) =
        inr (has_channel-append_right c (cancels r.sessions) r.cancelled g)
    Move-Kept s t (fails r h) d (inl (x, f, st, g)) = inr (
        has_channel-append_left c (cancels r.sessions) r.cancelled (
          subst (λ n. has_channel n (cancels r.sessions) ≡ true) st.0
            (has_channel-cancels k x r.sessions f)))
    Move-Kept s t (notes r m n h) d p = p
    Move-Kept s t (writes r m h) d p = p
    Move-Kept s t (allots r h) d p = p
    Move-Kept s t (advances r w a b h f l) d p = p
    Move-Kept s t (prunes r now h) d (inr g) = inr (has_channel-append_right c _ r.cancelled g)
    Move-Kept s t (prunes r now h) d (inl (x, f, st, g)) = replaced-Kept r _ _ x st h (
        dropped-Kept r (retain (lasting now) r.sessions) x st f
          (ground (arith, lookup-retain (lasting now) k r.sessions d)))
    Move-Kept s t (sees r key x y h f l) d (inr g) = inr g
    Move-Kept s t (sees r key x y h f l) d (inl (z, q, st, g)) =
        replaced-Kept r (insert key y r.sessions) [] z st h
          (go (insert-Present key x y z r.sessions r.sessions f q st l (inr refl)))
      where
        go :
            (lookup k (insert key y r.sessions) ≡ none) ⊎ Present (insert key y r.sessions)
            → Present (insert key y r.sessions) ⊎ (has_channel c [] ≡ true)
        go (inr p) = inl p
        go (inl n) = ground (arith, lookup-insert key k y r.sessions)
    Move-Kept s t (removes r key x h f) d (inr g) =
        inr (has_channel-append_right c (x.cancel ∷ []) r.cancelled g)
    Move-Kept s t (removes r key x h f) d (inl (z, q, st, g)) =
        replaced-Kept r (remove key r.sessions) (x.cancel ∷ []) z st h
          (removed-Present key x z r.sessions f q st)
    Move-Kept s t (logs_in r key x h fr f) d (inr g) =
        inr (has_channel-append_right c _ r.cancelled g)
    Move-Kept s t (logs_in r key x h fr f) d (inl (z, q, st, g)) = replaced-Kept r _ _ z st h (
        dropped-Kept r (insert key x (make_room x.username r.sessions)) z st q (
          entered-Present key x z r.sessions _ (λ eq. fr eq) q st
            (make_room-lookup x.username k r.sessions)))
    Move-Kept s t (secures r key v p x y h f o g l) d (inr j) =
        inr (has_channel-append_right c _ r.cancelled j)
    Move-Kept s t (secures r key v p x y h f o g l) d (inl (z, q, st, j)) =
        replaced-Kept r _ _ z st h (
          dropped-Kept r (insert key y (others_kept key v p r.sessions)) z st q (
            insert-Present key x y z r.sessions _ f q st l
              (others_kept-some key v p k r.sessions d)))

    run_from-Kept :
        (valid_token : Bytes → Bool) (s : State e) (calls : List Call)
        → All (DrawsFresh e Others valid_token) calls
        → Distinct s.sessions
        → Kept s
        → Kept (run e valid_token s calls)
    run_from-Kept valid_token s calls a d p =
        (Moves_lem e Others (λ t. Distinct t.sessions × Kept t)
          (λ t v m q. (Move-Distinct Others t v m q.0, Move-Kept t v m q.0 q.1)) s
          (run e valid_token s calls) (run-Moves e Others valid_token s calls a) (d, p)).1

  -- A session of the table of a working store is, after any calls that draw no token of its key, still
  -- in the table of a working store with its owner and its end, or its channel is cancelled.
  pub run-Kept :
      (valid_token : Bytes → Bool) (s : State e) (calls : List Call) (k : Bytes) (x : Session)
      → Distinct s.sessions
      → s.storage_failed ≡ false
      → lookup k s.sessions ≡ some x
      → All (DrawsFresh e (λ key. key ≢ k) valid_token) calls
      → Kept k x.cancel x.username x.expires (run e valid_token s calls)
  run-Kept valid_token s calls k x d h f a =
      run_from-Kept k x.cancel x.username x.expires valid_token s calls a d
        (inl (x, f, (refl, refl, refl), h))
