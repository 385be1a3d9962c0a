-- ===== src/Auth/Limit.antt =====
-- auth_store.rs: the number of sessions of an account.
use hmux.Base.{
  suc, ◌≡◌, ◌≤◌, ◌<◌, ◌⊎◌, refl, sym, subst, ◌∙◌, arith, Bool, true, false, ◌&&◌, Option, none,
  some, List, [], ◌∷◌, if_lem, Bool-cases, inl, inr, ltb, leb, if◌then◌else◌,
}
use hmux.Base.Eq.{Bytes, bytes_eq, bytes_beq_iff}
use hmux.Base.Map.{lookup, insert, remove, retain}
use hmux.Auth.Types.{Env, Session, Sessions, State, fail_storage}
use hmux.Auth.Files.{lasting}
use hmux.Auth.Types.{max_sessions_per_account}
use hmux.Auth.Login.{make_room, oldest_of, owned_by, count, without}
use hmux.Auth.Security.{others_kept}
use hmux.Auth.Moves.{
  Move, fails, notes, writes, allots, advances, prunes, sees, removes, logs_in, secures,
}
use hmux.Auth.Calls.{Call, run}
use hmux.Auth.Table.{others_kept-key}
use hmux.Auth.Cancelled.{Move-Distinct}
use hmux.Auth.Replay.{Any, run_lem}
use hmux.Base.Map.{Distinct}

-- An entry of the table.
abbrev In : Bytes × Session → Sessions → Type 0
In z [] = ⊥
In z (w ∷ m) = (z ≡ w) ⊎ In z m

lookup-In :
    (k : Bytes) (x : Session) (m : Sessions) → Distinct m → In (k, x) m → lookup k m ≡ some x
unfolding lookup
lookup-In k x [] d i = elim i [ ]
lookup-In k x ((j, y) ∷ m) d (inl f) = ground (arith, bytes_beq_iff k k)
lookup-In k x ((j, y) ∷ m) d (inr i) = ground (arith, lookup-In k x m d.1 i, bytes_beq_iff j k)

count-remove-le : (p : Session → Bool) (k : Bytes) (m : Sessions) → count p (remove k m) ≤ count p m
unfolding remove
count-remove-le p k [] = omega arith
count-remove-le p k ((j, y) ∷ m) = ground (arith, count-remove-le p k m)

count-remove-lt :
    (p : Session → Bool) (k : Bytes) (x : Session) (m : Sessions)
    → lookup k m ≡ some x
    → p x ≡ true
    → count p (remove k m) < count p m
unfolding lookup remove
count-remove-lt p k x [] f h = ground arith
count-remove-lt p k x ((j, y) ∷ m) f h =
    ground (arith, count-remove-lt p k x m, count-remove-le p k m)

count-retain-le : (p q : Session → Bool) (m : Sessions) → count p (retain q m) ≤ count p m
unfolding retain
count-retain-le p q [] = omega arith
count-retain-le p q ((j, y) ∷ m) = ground (arith, count-retain-le p q m)

count-others_kept-le :
    (p : Session → Bool) (key u v : Bytes) (m : Sessions)
    → count p (others_kept key u v m) ≤ count p m
unfolding others_kept
count-others_kept-le p key u v [] = omega arith
count-others_kept-le p key u v ((j, y) ∷ m) = ground (arith, count-others_kept-le p key u v m)

count-insert_same :
    (p : Session → Bool) (k : Bytes) (x y : Session) (m : Sessions)
    → lookup k m ≡ some x
    → p y ≡ p x
    → count p (insert k y m) ≡ count p m
unfolding lookup insert
count-insert_same p k x y [] f h = ground arith
count-insert_same p k x y ((j, z) ∷ m) f h = ground (arith, count-insert_same p k x y m)

count-insert_new :
    (p : Session → Bool) (k : Bytes) (y : Session) (m : Sessions)
    → lookup k m ≡ none
    → count p (insert k y m) ≡ (if p y then suc (count p m) else count p m)
unfolding lookup insert
count-insert_new p k y [] f = ground arith
count-insert_new p k y ((j, z) ∷ m) f = ground (arith, count-insert_new p k y m)

-- The oldest is an entry of the owner, and there is one when the owner has a session.
abbrev Owned : Bytes → Option (Bytes × Session) → Sessions → Option (Bytes × Session) → Type 0
Owned u best m none = (best ≡ none) × (count (owned_by u) m ≡ 0)
Owned u best m (some z) = (owned_by u z.1 ≡ true) × ((best ≡ some z) ⊎ In z m)

abbrev IsOwned : Bytes → Option (Bytes × Session) → Type 0
IsOwned u none = Unit
IsOwned u (some z) = owned_by u z.1 ≡ true

shift-new :
    (u : Bytes) (best : Option (Bytes × Session)) (z : Bytes × Session) (m : Sessions)
    (o : Option (Bytes × Session))
    → Owned u (some z) m o
    → Owned u best (z ∷ m) o
shift-new u best z m none h = ground arith
shift-new u best z m (some w) (h, inl f) = let same : w ≡ z = cc f in (h, inr (inl same))
shift-new u best z m (some w) (h, inr i) = (h, inr (inr i))

shift-old :
    (u : Bytes) (best : Option (Bytes × Session)) (z : Bytes × Session) (m : Sessions)
    (o : Option (Bytes × Session))
    → (best ≡ none → owned_by u z.1 ≡ false)
    → Owned u best m o
    → Owned u best (z ∷ m) o
shift-old u best (k, x) m none f (h, c) = (h, ground (arith, f h))
shift-old u best z m (some w) f (h, inl g) = (h, inl g)
shift-old u best z m (some w) f (h, inr i) = (h, inr (inr i))

oldest_of-Owned :
    (u : Bytes) (best : Option (Bytes × Session)) (m : Sessions)
    → IsOwned u best
    → Owned u best m (oldest_of u best m)
unfolding oldest_of
oldest_of-Owned u none [] b = (refl, refl)
oldest_of-Owned u (some z) [] b = (b, inl refl)
oldest_of-Owned u none ((k, x) ∷ m) b =
    if_lem (λ o. Owned u none ((k, x) ∷ m) o) (owned_by u x)
      (λ mine. shift-new u none (k, x) m _ (oldest_of-Owned u (some (k, x)) m mine))
      (λ other. shift-old u none (k, x) m _ (λ n. other) (oldest_of-Owned u none m tt))
oldest_of-Owned u (some (j, y)) ((k, x) ∷ m) b =
    if_lem (λ o. Owned u (some (j, y)) ((k, x) ∷ m) o) (owned_by u x && ltb x.seen y.seen)
      (λ older.
        shift-new u (some (j, y)) (k, x) m _ (oldest_of-Owned u (some (k, x)) m (ground arith)))
      (λ newer.
        shift-old u (some (j, y)) (k, x) m _ (λ n. ground arith)
          (oldest_of-Owned u (some (j, y)) m b))

-- After `make_room` the owner has a place, and nobody has more sessions.
without-count :
    (u : Bytes) (m : Sessions) (o : Option (Bytes × Session))
    → Distinct m
    → Owned u none m o
    → (count (owned_by u) m ≡ 0) ⊎ (count (owned_by u) (without m o) < count (owned_by u) m)
without-count u m none d (h, c) = inl c
without-count u m (some (k, x)) d (h, inl f) = ground arith
without-count u m (some (k, x)) d (h, inr i) =
    inr (count-remove-lt (owned_by u) k x m (lookup-In k x m d i) h)

without-le :
    (p : Session → Bool) (m : Sessions) (o : Option (Bytes × Session))
    → count p (without m o) ≤ count p m
without-le p m none = omega arith
without-le p m (some (k, x)) = count-remove-le p k m

make_room-le : (p : Session → Bool) (u : Bytes) (m : Sessions) → count p (make_room u m) ≤ count p m
unfolding make_room
make_room-le p u m =
    if_lem (λ (r : Sessions). count p r ≤ count p m)
      (leb max_sessions_per_account (count (owned_by u) m))
      (λ full. without-le p m (oldest_of u none m)) (λ room. omega arith)

make_room-lt :
    (u : Bytes) (m : Sessions)
    → Distinct m
    → count (owned_by u) m ≤ max_sessions_per_account
    → count (owned_by u) (make_room u m) < max_sessions_per_account
unfolding make_room
make_room-lt u m d h =
    if_lem (λ (r : Sessions). count (owned_by u) r < max_sessions_per_account)
      (leb max_sessions_per_account (count (owned_by u) m))
      (λ full.
        ground (arith, without-count u m (oldest_of u none m) d (oldest_of-Owned u none m tt)))
      (λ room. ground arith)

owned_by-same : (u : Bytes) (x y : Session) → y.username ≡ x.username → owned_by u y ≡ owned_by u x
owned_by-same u x y h = rw h refl

module _ (e : Env) (u : Bytes) where
  -- The keys of the table are distinct and the owner has at most eight sessions.
  abbrev pub Bounded : State e → Type 0
  Bounded s = Distinct s.sessions × (count (owned_by u) s.sessions ≤ max_sessions_per_account)

  entered-le :
      (key : Bytes) (x : Session) (m : Sessions)
      → Distinct m
      → count (owned_by u) m ≤ max_sessions_per_account
      → lookup key (make_room x.username m) ≡ none
      → count (owned_by u) (insert key x (make_room x.username m)) ≤ max_sessions_per_account
  entered-le key x m d h f = elim (Bool-cases (owned_by u x)) [
    | inl mine ↦
        let eq : x.username ≡ u = (bytes_beq_iff x.username u).0 mine in
        let le : count (owned_by u) (make_room x.username m) < max_sessions_per_account =
          subst (λ v. count (owned_by u) (make_room v m) < max_sessions_per_account) (sym eq)
            (make_room-lt u m d h) in
        ground (arith, count-insert_new (owned_by u) key x (make_room x.username m) f)
    | inr other ↦ ground (
      arith,
      count-insert_new (owned_by u) key x (make_room x.username m) f,
      make_room-le (owned_by u) x.username m,
    )
  ]

  Move-count :
      (s t : State e)
      → Move e Any s t
      → Bounded s
      → count (owned_by u) t.sessions ≤ max_sessions_per_account
  unfolding fail_storage
  Move-count s t (fails r h) b = b.1
  Move-count s t (notes r m n h) b = b.1
  Move-count s t (writes r m h) b = b.1
  Move-count s t (allots r h) b = b.1
  Move-count s t (advances r v a c h f l) b = b.1
  Move-count s t (prunes r now h) b =
      omega (arith, b.1, count-retain-le (owned_by u) (lasting now) r.sessions)
  Move-count s t (sees r key x y h f l) b =
      omega
        (arith, b.1, count-insert_same (owned_by u) key x y r.sessions f (owned_by-same u x y l.1))
  Move-count s t (removes r key x h f) b =
      omega (arith, b.1, count-remove-le (owned_by u) key r.sessions)
  Move-count s t (logs_in r key x h fr f) b = entered-le key x r.sessions b.0 b.1 f
  Move-count s t (secures r key v q x y h f o g l) b = omega (
    arith,
    b.1,
    count-insert_same (owned_by u) key x y (others_kept key v q r.sessions)
        (others_kept-key key v q r.sessions ∙ f) (owned_by-same u x y l.1),
    count-others_kept-le (owned_by u) key v q r.sessions,
  )

  -- No calls leave an account with more than eight sessions, or a key with two.
  pub run-Bounded :
      (valid_token : Bytes → Bool) (s : State e) (calls : List Call)
      → Bounded s
      → Bounded (run e valid_token s calls)
  run-Bounded valid_token s calls b =
      run_lem e valid_token (λ t. Bounded t)
        (λ t v m c. (Move-Distinct e Any t v m c.0, Move-count t v m c)) s calls b
