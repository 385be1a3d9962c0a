-- ===== src/Auth/Prunes.antt =====
-- auth_store.rs: the changes of a prune and of a replaced table.
use hmux.Base.{ℕ, ◌≡◌, sym, Bool, true, false, List, if_lem}
use hmux.Base.Eq.{Bytes, bytes_eq}
use hmux.Base.Map.{retain}
use hmux.Auth.Types.{Env, Sessions, State}
use hmux.Auth.Files.{
  dropped, lasting, expired, any_session, written, save_sessions, write_sessions, replaced, replace,
  prune,
}
use hmux.Auth.Moves.{true_ne_false, Move, Moves, rests, goes, fails, writes, prunes, with_sessions}

module _ (e : Env) (Fresh : Bytes → Type 0) where
  -- What a transaction that returns `w` did, and that the storage works when it says so.
  abbrev pub Saves : State e → State e × Bool → Type 0
  Saves s w = Moves e Fresh s w.0 × ((w.1 ≡ true) → w.0.storage_failed ≡ false)

  pub one : (s t : State e) → Move e Fresh s t → Moves e Fresh s t
  one s t m = goes s t t m (rests t)

  replaced-Saves :
      (s : State e) (next : Sessions) (gone : List ℕ) (w : e.Dir × Bool)
      → s.storage_failed ≡ false
      → ((d : e.Dir)
          → Move e Fresh (record s { dir = d }) (with_sessions e (record s { dir = d }) next gone))
      → Saves s (replaced e next gone (written e s w))
  replaced-Saves s next gone (d, true) h m =
      let t : State e = record s { dir = d } in (goes s t _ (writes s d h) (one t _ (m d)), λ k. h)
  replaced-Saves s next gone (d, false) h m =
      let t : State e = record s { dir = d } in
      (goes s t _ (writes s d h) (one t _ (fails t h)), λ k. absurd (true_ne_false (sym k)))

  pub replace-Saves :
      (s : State e) (next : Sessions) (gone : List ℕ)
      → s.storage_failed ≡ false
      → ((d : e.Dir)
          → Move e Fresh (record s { dir = d }) (with_sessions e (record s { dir = d }) next gone))
      → Saves s (replace e s next gone)
  unfolding replace save_sessions
  replace-Saves s next gone h m =
      replaced-Saves s next gone (write_sessions e s.dir s.sessions_path next) h m

  pub prune-Saves : (s : State e) (now : ℕ) → Saves s (prune e s now)
  unfolding prune
  prune-Saves s now =
      if_lem (λ w. Saves s w) s.storage_failed (λ f. (rests s, λ k. absurd (true_ne_false (sym k))))
        (λ h.
          if_lem (λ w. Saves s w) (any_session (expired now) s.sessions)
            (λ some_old.
              replace-Saves s (retain (lasting now) s.sessions)
                (dropped s.sessions (retain (lasting now) s.sessions)) h
                (λ d. prunes (record s { dir = d }) now h))
            (λ none_old. (rests s, λ k. h)))

  -- What a transaction did, whatever it returns.
  abbrev pub Acts {ℓ} : {A : Type ℓ} → State e → State e × A → Type 0
  Acts s w = Moves e Fresh s w.0
