-- ===== src/Workspace/Rebase.antt =====
-- workspace.rs: `resolve` and `rebase` leave alone what they gave before.
use hmux.Base.{
  sym, ◌∙◌, ◌≡◌, refl, arith, Bool, true, false, List, [], ◌∷◌, ◌++◌, append_assoc, append-nil,
  filter, Bool-cases, inl, inr, if◌then◌else◌,
}
use hmux.Base.Int.{int_beq_iff}
use hmux.Base.Eq.{bytes_beq_iff, bytes_eq, string_eq}
use hmux.Model.Ids.{SessionIdentity, identity_eq, identity_beq_iff}
use hmux.Workspace.State.{Tabs, SessionLineage, contains, has_id, valid_after}
use hmux.Workspace.Members.{contains-append}
use hmux.Workspace.Reconcile.{live, restored, identity_of, unique, resolve, rebase_onto, rebase}

live_self : (s : SessionLineage) (ss : List SessionLineage) → live (identity_of s) (s ∷ ss) ≡ true
unfolding live
live_self s ss = ground (arith, bytes_beq_iff s.id s.id, int_beq_iff s.created_at s.created_at)

live-filter :
    (p : SessionLineage → Bool) (s : SessionLineage) (ss rest : List SessionLineage)
    → filter p ss ≡ s ∷ rest
    → live (identity_of s) ss ≡ true
unfolding live
live-filter p s [] rest h = absurd (ground arith)
live-filter p s (t ∷ ss) rest h = elim (Bool-cases (p t)) [
  | inl e ↦ let q : t ≡ s = ground (arith, h, e) in rw q (live_self s ss)
  | inr e ↦ ground (arith, live-filter p s ss rest (ground (arith, h, e)))
]

contains_head : (x : SessionIdentity) (xs : Tabs) → contains x (x ∷ xs) ≡ true
unfolding contains
contains_head x xs = ground (arith, identity_beq_iff x x)

contains_tail :
    (x y : SessionIdentity) (xs : Tabs) → contains x xs ≡ true → contains x (y ∷ xs) ≡ true
unfolding contains
contains_tail x y xs h = ground (arith, h)

valid_after-tail :
    (previous : Tabs) (t : SessionIdentity) (ts : Tabs)
    → valid_after previous (t ∷ ts) ≡ true
    → valid_after (t ∷ previous) ts ≡ true
unfolding valid_after
valid_after-tail previous t ts v = ground arith

absent :
    (previous acc : Tabs) (t : SessionIdentity) (ts : Tabs)
    → valid_after previous (t ∷ ts) ≡ true
    → ((y : SessionIdentity) → contains y acc ≡ true → has_id y.id previous ≡ true)
    → contains t acc ≡ false
unfolding valid_after
absent previous acc t ts v f = elim (Bool-cases (contains t acc)) [
  | inl h ↦ absurd (ground (arith, f t h))
  | inr h ↦ h
]

module _ (ss : List SessionLineage) where
  abbrev Fixed : SessionIdentity → Type 0
  Fixed x = resolve x ss ≡ x

  live-Fixed : (x : SessionIdentity) → live x ss ≡ true → Fixed x
  unfolding resolve
  live-Fixed x h = rw h

  unique-Fixed :
      (x : SessionIdentity) (cs : List SessionLineage)
      → filter (restored x) ss ≡ cs
      → live x ss ≡ false
      → Fixed (unique x cs)
  unique-Fixed x [] e h = unfold resolve in rw (h, e)
  unique-Fixed x (s ∷ []) e h = live-Fixed (identity_of s) (live-filter (restored x) s ss [] e)
  unique-Fixed x (s ∷ t ∷ cs) e h = unfold resolve in rw (h, e)

  resolve-Fixed : (x : SessionIdentity) → Fixed (resolve x ss)
  resolve-Fixed x = elim (Bool-cases (live x ss)) [
    | inl h ↦ let q : resolve x ss ≡ x = live-Fixed x h in rw q q
    | inr h ↦
        let q : resolve x ss ≡ unique x (filter (restored x) ss) = unfold resolve in rw h in
        rw q (unique-Fixed x (filter (restored x) ss) refl h)
  ]

  -- Every tab of the list stands for itself in the sessions.
  abbrev pub AllFixed : Tabs → Type 0
  AllFixed xs = (x : SessionIdentity) → contains x xs ≡ true → resolve x ss ≡ x

  pushed-Fixed :
      (xs : Tabs) (y : SessionIdentity)
      → AllFixed xs
      → Fixed y
      → AllFixed (if contains y xs then xs else xs ++ y ∷ [])
  pushed-Fixed xs y f g x h = elim (Bool-cases (contains x xs)) [
    | inl e ↦ f x e
    | inr e ↦
        let q : y ≡ x =
          (identity_beq_iff y x).0
            (unfold contains in ground (arith, contains-append x xs (y ∷ []), h, e)) in
        rw (← q) g
  ]

  rebase_onto-Fixed : (acc ids : Tabs) → AllFixed acc → AllFixed (rebase_onto acc ids ss)
  unfolding rebase_onto
  rebase_onto-Fixed acc [] f = f
  rebase_onto-Fixed acc (id ∷ ids) f =
      rebase_onto-Fixed (if contains (resolve id ss) acc then acc else acc ++ resolve id ss ∷ [])
        ids (pushed-Fixed acc (resolve id ss) f (resolve-Fixed id))

  pub rebase-Fixed : (ids : Tabs) → AllFixed (rebase ids ss)
  unfolding rebase
  rebase-Fixed ids = rebase_onto-Fixed [] ids (λ x h. absurd (unfold contains in ground arith))

  has_id-cons :
      (acc previous : Tabs) (t x : SessionIdentity)
      → ((y : SessionIdentity) → contains y acc ≡ true → has_id y.id previous ≡ true)
      → contains x (acc ++ t ∷ []) ≡ true
      → has_id x.id (t ∷ previous) ≡ true
  unfolding has_id contains
  has_id-cons acc previous t x f h = elim (Bool-cases (contains x acc)) [
    | inl e ↦ ground (arith, f x e)
    | inr e ↦
        let q : t ≡ x =
          (identity_beq_iff t x).0 (ground (arith, contains-append x acc (t ∷ []), h, e)) in
        rw q (ground (arith, bytes_beq_iff x.id x.id))
  ]

  -- A valid list of fixed tabs is what it is rebased to.
  rebase_onto-valid :
      (acc previous ids : Tabs)
      → valid_after previous ids ≡ true
      → ((y : SessionIdentity) → contains y acc ≡ true → has_id y.id previous ≡ true)
      → AllFixed ids
      → rebase_onto acc ids ss ≡ acc ++ ids
  unfolding rebase_onto
  rebase_onto-valid acc previous [] v f g = sym (append-nil acc)
  rebase_onto-valid acc previous (t ∷ ids) v f g =
      let q : resolve t ss ≡ t = g t (contains_head t ids) in
      let n : contains t acc ≡ false = absent previous acc t ids v f in
      rw (q, n)
        (rebase_onto-valid (acc ++ t ∷ []) (t ∷ previous) ids (valid_after-tail previous t ids v)
            (λ y h. has_id-cons acc previous t y f h) (λ x h. g x (contains_tail x t ids h))
          ∙ append_assoc acc (t ∷ []) ids)

  pub rebase-valid : (ids : Tabs) → valid_after [] ids ≡ true → AllFixed ids → rebase ids ss ≡ ids
  unfolding rebase
  rebase-valid ids v g =
      rebase_onto-valid [] [] ids v (λ y h. absurd (unfold contains in ground arith)) g
