-- ===== src/Auth/Moves.antt =====
-- auth_store.rs: the ways in which a transaction changes the state, as a relation.
use hmux.Base.{ℕ, suc, ◌≡◌, ◌≢◌, refl, sym, ◌∙◌, true, false, none, some, List, [], ◌∷◌, ◌++◌}
use hmux.Base.Eq.{Bytes, bytes_eq}
use hmux.Base.Int.{int_leb}
use hmux.Base.Map.{lookup, insert, remove, retain}
use hmux.Auth.Types.{Env, Account, Session, Sessions, State, fail_storage}
use hmux.Auth.Files.{dropped, lasting}
use hmux.Auth.Login.{make_room}
use hmux.Auth.Security.{others_kept}

pub true_ne_false : true ≢ false
true_ne_false = λ h. cc h

module _ (e : Env) where
  -- The table after a transaction that cancels `gone`.
  abbrev pub with_sessions : State e → Sessions → List ℕ → State e
  with_sessions s next gone = record s { sessions = next; cancelled = gone ++ s.cancelled }

  -- What a session keeps when it is seen.
  abbrev pub SameLogin : Session → Session → Type 0
  SameLogin x y =
      (y.id ≡ x.id)
      × (y.username ≡ x.username)
      × (y.profile ≡ x.profile)
      × (y.expires ≡ x.expires)
      × (y.cancel ≡ x.cancel)

-- `Fresh` holds of the keys under which logins are entered.
module _ (e : Env) (Fresh : Bytes → Type 0) where
  pub data Move : State e → State e → Type 0 where
    fails : (s : State e) → s.storage_failed ≡ false → Move s (fail_storage e s)
    notes :
        (s : State e) (m n : List (Bytes × List ℕ))
        → s.storage_failed ≡ false
        → Move s (record s { attempts = m; security_attempts = n })
    writes : (s : State e) (d : e.Dir) → s.storage_failed ≡ false → Move s (record s { dir = d })
    allots :
        (s : State e) → s.storage_failed ≡ false → Move s (record s { channels = suc s.channels })
    advances :
        (s : State e) (u : Bytes) (a b : Account)
        → s.storage_failed ≡ false
        → lookup u s.accounts ≡ some a
        → int_leb a.credentials.last_step b.credentials.last_step ≡ true
        → Move s (record s { accounts = insert u b s.accounts })
    prunes :
        (s : State e) (now : ℕ)
        → s.storage_failed ≡ false
        → Move s (
            with_sessions e s
              (retain (lasting now) s.sessions)
              (dropped s.sessions (retain (lasting now) s.sessions)))
    sees :
        (s : State e) (key : Bytes) (x y : Session)
        → s.storage_failed ≡ false
        → lookup key s.sessions ≡ some x
        → SameLogin e x y
        → Move s (with_sessions e s (insert key y s.sessions) [])
    removes :
        (s : State e) (key : Bytes) (x : Session)
        → s.storage_failed ≡ false
        → lookup key s.sessions ≡ some x
        → Move s (with_sessions e s (remove key s.sessions) (x.cancel ∷ []))
    logs_in :
        (s : State e) (key : Bytes) (x : Session)
        → s.storage_failed ≡ false
        → Fresh key
        → lookup key (make_room x.username s.sessions) ≡ none
        → Move s (
            with_sessions e s
              (insert key x (make_room x.username s.sessions))
              (dropped s.sessions (insert key x (make_room x.username s.sessions))))
    secures :
        (s : State e) (key u p : Bytes) (x y : Session)
        → s.storage_failed ≡ false
        → lookup key s.sessions ≡ some x
        → x.username ≡ u
        → x.profile ≡ p
        → SameLogin e x y
        → Move s (
            with_sessions e s
              (insert key y (others_kept key u p s.sessions))
              (dropped s.sessions (insert key y (others_kept key u p s.sessions))))

  pub data Moves : State e → State e → Type 0 where
    rests : (s : State e) → Moves s s
    goes : (s t u : State e) → Move s t → Moves t u → Moves s u

  pub joins : (s t u : State e) → Moves s t → Moves t u → Moves s u
  joins s t u (rests r) n = n
  joins s t u (goes r q v m n) k = goes s q u m (joins q t u n k)

  -- A property that every change keeps is kept by any number of them.
  pub Moves_lem {ℓ} :
      (P : State e → Type ℓ)
      → ((s t : State e) → Move s t → P s → P t)
      → (s t : State e) → Moves s t
      → P s
      → P t
  Moves_lem P keep s t (rests r) p = p
  Moves_lem P keep s t (goes r q u m n) p = Moves_lem P keep q t n (keep s q m p)

  pub Move-live : (s t : State e) → Move s t → s.storage_failed ≡ false
  Move-live s t (fails s' h) = h
  Move-live s t (notes s' m n h) = h
  Move-live s t (writes s' d h) = h
  Move-live s t (allots s' h) = h
  Move-live s t (advances s' u a b h f l) = h
  Move-live s t (prunes s' now h) = h
  Move-live s t (sees s' key x y h f l) = h
  Move-live s t (removes s' key x h f) = h
  Move-live s t (logs_in s' key x h fr f) = h
  Move-live s t (secures s' key u p x y h f o g l) = h

  -- Nothing changes once the storage has failed.
  pub Moves-failed : (s t : State e) → Moves s t → s.storage_failed ≡ true → t ≡ s
  Moves-failed s t (rests r) h = refl
  Moves-failed s t (goes r q u m n) h = absurd (true_ne_false (sym h ∙ Move-live s q m))
