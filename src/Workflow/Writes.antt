-- ===== src/Workflow/Writes.antt =====
-- workflow.rs: what a write leaves in the file.
use hmux.Base.{
  ℕ, zero, suc, ◌≡◌, refl, sym, subst, ◌∙◌, arith, true, Option, none, some, Option-cases, ◌⊎◌, [],
  ◌∷◌, ◌++◌, if_lem, leb, length, inl, inr,
}
use hmux.Base.Eq.{Bytes, bytes_eq}
use hmux.Base.Map.{remove}
use hmux.Workflow.Types.{Env, Item, State, Error, Result, ok, err, invalid, unavailable, max_bytes}
use hmux.Workflow.Items.{min_by}
use hmux.Workflow.Hooks.{bind}
use hmux.Workflow.Files.{
  read, read_state, default_state, settle, prune, valid, bytes, fit, fit_raw, fit_again, checked,
  less_needed, always,
}
use hmux.Workflow.Update.{
  WriteError, before_commit, after_commit, Directory, Turn, update, commit, finished, acted, loaded,
  locked,
}

module _ (e : Env) (f : Directory) where
  -- The files behave: a write that succeeds is read back, within the limit of the read; one that fails
  -- before the rename leaves the old file, one that fails after it the old file or the new one; and the
  -- JSON of a state is parsed to it, with a line's end too.
  pub record Laws : Type 0 where
    pub write-ok :
        (dir : f.Dir) (raw : Bytes)
        → leb (length raw) max_bytes ≡ true
        → (f.write_atomic_private dir raw).1 ≡ none
        → f.read_private (f.write_atomic_private dir raw).0 ≡ some (some raw)
    pub write-before :
        (dir : f.Dir) (raw : Bytes)
        → leb (length raw) max_bytes ≡ true
        → (f.write_atomic_private dir raw).1 ≡ some before_commit
        → f.read_private (f.write_atomic_private dir raw).0 ≡ f.read_private dir
    pub write-after :
        (dir : f.Dir) (raw : Bytes)
        → leb (length raw) max_bytes ≡ true
        → (f.write_atomic_private dir raw).1 ≡ some after_commit
        → (f.read_private (f.write_atomic_private dir raw).0 ≡ f.read_private dir)
          ⊎ (f.read_private (f.write_atomic_private dir raw).0 ≡ some (some raw))
    pub parse-json :
        (s : State) (raw : Bytes) → e.json s ≡ some raw → e.parse (raw ++ 10 ∷ []) ≡ some s

  -- The state of the file, when it can be read, has the property.
  abbrev pub Holds : (State → Type 0) → f.Dir → Type 0
  Holds P dir = (s : State) → read e (f.read_private dir) ≡ ok (some s) → P s

  abbrev pub Written : (State → Type 0) → f.Dir → Type 0
  Written P dir = (t : State) × P t × (read e (f.read_private dir) ≡ ok (some t))

  -- What a call leaves: a readable state that has the property, or the old file after an error. After
  -- `unavailable` it can be either.
  abbrev pub Did {κ} : {A : Type κ} → (State → Type 0) → f.Dir → f.Dir × Result A → Type 0
  Did P dir (d, err x) = (f.read_private d ≡ f.read_private dir) ⊎ ((x ≡ unavailable) × Written P d)
  Did P dir (d, ok a) = Written P d

  -- The bytes that `bytes` gives are the JSON of the state that it leaves, and not too long.
  abbrev pub Fits : (State → Type 0) → Bytes × State → Type 0
  Fits P (raw, t) =
      P t
      × ((j : Bytes) × (e.json t ≡ some j)
          × (raw ≡ j ++ 10 ∷ [])
          × (leb (length raw) max_bytes ≡ true))

  -- A property that the parts of a write keep.
  pub record Stays (P : State → Type 0) : Type 0 where
    pub at-default : P (default_state e)
    pub at-prune : (s : State) (now : ℕ) → P s → P (prune s now).0
    pub at-stamp : (s : State) (stamp : Bytes) → P s → P (record s { updated_at = stamp })
    pub at-remove :
        (s : State) (id : Bytes) → P s → P (record s { workflows = remove id s.workflows })

  module _ (P : State → Type 0) (k : Stays P) where
    abbrev pub FitsResult : Result (Bytes × State) → Type 0
    FitsResult (err x) = Unit
    FitsResult (ok r) = Fits P r

    fit_again-Fits :
        (again : State → Result (Bytes × State)) (s : State) (o : Option Item)
        → ((t : State) → P t → FitsResult (again t))
        → P s
        → FitsResult (fit_again e again s o)
    fit_again-Fits again s none h p = tt
    fit_again-Fits again s (some item) h p = h _ (k.at-remove s item.id p)

    fit_raw-Fits :
        (again : State → Result (Bytes × State)) (s : State) (o : Option Bytes)
        → e.json s ≡ o
        → ((t : State) → P t → FitsResult (again t))
        → P s
        → FitsResult (fit_raw e again s o)
    fit_raw-Fits again s none j h p = tt
    fit_raw-Fits again s (some raw) j h p =
        if_lem (λ (x : Result (Bytes × State)). FitsResult x)
          (leb (length (raw ++ 10 ∷ [])) max_bytes) (λ small. (p, (raw, j, refl, small)))
          (λ large. fit_again-Fits again s (min_by less_needed always none s.workflows) h p)

    pub fit-Fits : (n : ℕ) (s : State) → P s → FitsResult (fit e n s)
    fit-Fits zero s p = fit_raw-Fits (λ t. err invalid) s (e.json s) refl (λ t h. tt) p
    fit-Fits (suc n) s p = fit_raw-Fits _ s (e.json s) refl (fit-Fits n) p

    -- What `settle` gives is valid too.
    abbrev Settled : Result (Bytes × State) → Type 0
    Settled (err x) = Unit
    Settled (ok (raw, t)) = Fits P (raw, t) × (valid e t ≡ true)

    checked-Settled : (r : Result (Bytes × State)) → FitsResult r → Settled (bind r (checked e))
    checked-Settled (err x) h = tt
    checked-Settled (ok (raw, t)) h =
        if_lem (λ (x : Result (Bytes × State)). Settled x) (valid e t) (λ v. (h, v)) (λ v. tt)

    settle-Settled : (s : State) (now : ℕ) (stamp : Bytes) → P s → Settled (settle e s now stamp)
    unfolding settle bytes
    settle-Settled s now stamp p =
        checked-Settled _ (fit-Fits _ _ (k.at-stamp (prune s now).0 stamp (k.at-prune s now p)))

    small : {raw : Bytes} {t : State} (h : Fits P (raw, t)) → leb (length raw) max_bytes ≡ true
    small (p, (j, eq, shape, fits)) = fits

    module _ (l : Laws) where
      read_state-valid : (t : State) → valid e t ≡ true → read_state e (some t) ≡ ok (some t)
      read_state-valid t v = ground (arith, v)

      read-raw :
          (raw : Bytes) (t : State)
          → Fits P (raw, t)
          → valid e t ≡ true
          → read e (some (some raw)) ≡ ok (some t)
      unfolding read
      read-raw raw t (p, (j, eq, shape, small)) v =
          rw shape (rw (l.parse-json t j eq) (read_state-valid t v))

      -- A write gives the new file, or fails and gives the old one or the new one.
      abbrev pub Wrote : f.Dir → State → f.Dir × Option WriteError → Type 0
      Wrote dir t (d, none) = read e (f.read_private d) ≡ ok (some t)
      Wrote dir t (d, some x) =
          (f.read_private d ≡ f.read_private dir) ⊎ (read e (f.read_private d) ≡ ok (some t))

      pub write-Wrote :
          (dir : f.Dir) (raw : Bytes) (t : State)
          → Fits P (raw, t)
          → valid e t ≡ true
          → Wrote dir t (f.write_atomic_private dir raw)
      write-Wrote dir raw t h v = elim (Option-cases (f.write_atomic_private dir raw).1) [
        | inl w ↦
            subst (λ x. Wrote dir t ((f.write_atomic_private dir raw).0, x)) (sym w)
              (rw (l.write-ok dir raw (small h) w) (read-raw raw t h v))
        | inr (before_commit, w) ↦
            subst (λ x. Wrote dir t ((f.write_atomic_private dir raw).0, x)) (sym w)
              (inl (l.write-before dir raw (small h) w))
        | inr (after_commit, w) ↦
            subst (λ x. Wrote dir t ((f.write_atomic_private dir raw).0, x)) (sym w)
              (elim (l.write-after dir raw (small h) w) [
                | inl same ↦ inl same
                | inr new ↦ inr (rw new (read-raw raw t h v))
              ])
      ]

      finished-Did :
          (dir : f.Dir) (t : State) (w : f.Dir × Option WriteError)
          → P t
          → Wrote dir t w
          → Did P dir (finished e f w)
      finished-Did dir t (d, none) p h = (t, p, h)
      finished-Did dir t (d, some x) p (inl same) = inl same
      finished-Did dir t (d, some x) p (inr new) = inr (refl, (t, p, new))

      commit-Did :
          (dir : f.Dir) (turn : Turn) (r : Result (Bytes × State))
          → Settled r
          → Did P dir (commit e f dir turn r)
      commit-Did dir turn (err x) h = inl refl
      commit-Did dir turn (ok (raw, t)) h =
          if_lem (λ (x : f.Dir × Result (Unit {0})). Did P dir x) turn.cancelled_after
            (λ c. inl refl) (λ c. finished-Did dir t _ h.0.0 (write-Wrote dir raw t h.0 h.1))

      acted-Did :
          (dir : f.Dir) (turn : Turn) (r : Result State)
          → ((t : State) → r ≡ ok t → P t)
          → Did P dir (acted e f dir turn r)
      acted-Did dir turn (err x) h = inl refl
      acted-Did dir turn (ok s) h =
          commit-Did dir turn _ (settle-Settled s turn.now turn.stamp (h s refl))

      loaded-Did :
          (dir : f.Dir) (turn : Turn) (action : State → Result State) (r : Result (Option State))
          → read e (f.read_private dir) ≡ r
          → Holds P dir
          → ((s t : State) → P s → action s ≡ ok t → P t)
          → Did P dir (loaded e f dir turn action r)
      loaded-Did dir turn action (err x) eq h g = inl refl
      loaded-Did dir turn action (ok none) eq h g =
          acted-Did dir turn _ (λ t a. g (default_state e) t k.at-default a)
      loaded-Did dir turn action (ok (some s)) eq h g =
          acted-Did dir turn _ (λ t a. g s t (h s eq) a)

      locked-Did :
          (dir : f.Dir) (turn : Turn) (action : State → Result State) (o : Option Error)
          → Holds P dir
          → ((s t : State) → P s → action s ≡ ok t → P t)
          → Did P dir (locked e f dir turn action o)
      locked-Did dir turn action (some x) h g = inl refl
      locked-Did dir turn action none h g = loaded-Did dir turn action _ refl h g

      pub update-Did :
          (dir : f.Dir) (turn : Turn) (action : State → Result State)
          → Holds P dir
          → ((s t : State) → P s → action s ≡ ok t → P t)
          → Did P dir (update e f dir turn action)
      unfolding update
      update-Did dir turn action h g = ground (arith, locked-Did dir turn action turn.lock h g)

      Written-Holds : (d : f.Dir) → Written P d → Holds P d
      Written-Holds d (t, p, g) s eq =
          let same : ok (some t) ≡ ok (some s) = sym g ∙ eq in
          let state : t ≡ s = cc same in subst P state p

      -- The property holds of the file after the call.
      pub Did-Holds :
          {A : Type 0} (dir : f.Dir) (r : f.Dir × Result A)
          → Holds P dir
          → Did P dir r
          → Holds P r.0
      Did-Holds dir (d, err x) h (inl same) s eq = h s (rw (← same) eq)
      Did-Holds dir (d, err x) h (inr (u, w)) s eq = Written-Holds d w s eq
      Did-Holds dir (d, ok a) h w s eq = Written-Holds d w s eq
