-- ===== src/Auth/Table.antt =====
-- auth_store.rs: the table of sessions and the channels that are cancelled with it.
use hmux.Base.{ℕ, ◌≡◌, ◌⊎◌, refl, arith, true, none, some, List, [], ◌∷◌, ◌++◌, inl}
use hmux.Base.Eq.{Bytes, bytes_eq, bytes_beq_iff}
use hmux.Base.Map.{lookup}
use hmux.Auth.Types.{Session, Sessions}
use hmux.Auth.Files.{dropped}
use hmux.Auth.Sessions.{has_channel}
use hmux.Auth.Types.{cancels}
use hmux.Auth.Security.{others_kept}
use hmux.Base.Map.{Distinct}

pub has_channel-append_left :
    (c : ℕ) (xs ys : List ℕ) → has_channel c xs ≡ true → has_channel c (xs ++ ys) ≡ true
has_channel-append_left c [] ys h = ground arith
has_channel-append_left c (x ∷ xs) ys h = ground (arith, has_channel-append_left c xs ys)

pub has_channel-append_right :
    (c : ℕ) (xs ys : List ℕ) → has_channel c ys ≡ true → has_channel c (xs ++ ys) ≡ true
has_channel-append_right c [] ys h = h
has_channel-append_right c (x ∷ xs) ys h = ground (arith, has_channel-append_right c xs ys)

pub has_channel-cancels :
    (k : Bytes) (x : Session) (m : Sessions)
    → lookup k m ≡ some x
    → has_channel x.cancel (cancels m) ≡ true
unfolding lookup
has_channel-cancels k x [] h = ground arith
has_channel-cancels k x ((j, y) ∷ m) h = ground (arith, has_channel-cancels k x m)

pub has_channel-dropped :
    (k : Bytes) (x : Session) (m next : Sessions)
    → lookup k m ≡ some x
    → lookup k next ≡ none
    → has_channel x.cancel (dropped m next) ≡ true
unfolding lookup dropped
has_channel-dropped k x [] next h f = ground arith
has_channel-dropped k x ((j, y) ∷ m) next h f =
    ground (arith, bytes_beq_iff j k, has_channel-dropped k x m next)

-- `others_kept` keeps the current session and those of others.
pub others_kept-key :
    (key u p : Bytes) (m : Sessions) → lookup key (others_kept key u p m) ≡ lookup key m
unfolding lookup others_kept
others_kept-key key u p [] = refl
others_kept-key key u p ((j, y) ∷ m) = ground (arith, others_kept-key key u p m)

others_kept-none :
    (key u p k : Bytes) (m : Sessions) → lookup k m ≡ none → lookup k (others_kept key u p m) ≡ none
unfolding lookup others_kept
others_kept-none key u p k [] h = refl
others_kept-none key u p k ((j, y) ∷ m) h = ground (arith, others_kept-none key u p k m)

pub others_kept-some :
    (key u p k : Bytes) (m : Sessions)
    → Distinct m
    → (lookup k (others_kept key u p m) ≡ none) ⊎ (lookup k (others_kept key u p m) ≡ lookup k m)
unfolding lookup others_kept
others_kept-some key u p k [] d = inl refl
others_kept-some key u p k ((j, y) ∷ m) d = ground (
  arith,
  bytes_beq_iff j k,
  others_kept-some key u p k m,
  others_kept-none key u p j m,
  others_kept-none key u p k m,
)

pub Distinct-others_kept :
    (key u p : Bytes) (m : Sessions) → Distinct m → Distinct (others_kept key u p m)
unfolding lookup others_kept
Distinct-others_kept key u p [] d = tt
Distinct-others_kept key u p ((j, y) ∷ m) d =
    ground (arith, others_kept-none key u p j m, Distinct-others_kept key u p m)
