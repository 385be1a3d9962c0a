-- ===== src/Snapshots/RoundTrip.antt =====
-- snapshots.rs: a catalog through its protobuf form.
use hmux.Base.{
  Bool-cases, inl, inr, ap, ◌∙◌, ℕ, ◌≡◌, refl, arith, Bool, true, false, Option, none, some, List,
  [], ◌∷◌, map, length, ◌==◌, if◌then◌else◌,
}
use mathlib.Core.Path.{fun_ext}
use hmux.Model.Catalog.{Session, Readings, HostMetrics, Catalog, metrics_valid, default_metrics}
use hmux.Snapshots.Proto.{CatalogSnapshot}
use hmux.Snapshots.Check.{
  ok, map_option, check_session, check_sessions, check_proto_sessions, check_catalog,
  check_proto_catalog,
}
use hmux.Snapshots.Convert.{
  to_session, from_session, to_metrics, from_metrics, normalized_metrics, or_default,
}
use hmux.Snapshots.Budget.{
  Sizes, Step, each, maybe, budget_session, budget_sessions, budget_model_catalog,
}
use hmux.Snapshots.Typed.{
  Outside, to_sessions, from_sessions, collect, transpose, dropped, validate_catalog, normalized,
  to_proto, catalog_to_proto, from_proto, catalog_from_proto,
}
use hmux.Snapshots.Agree.{
  length-map, for_each-map, opt-map, check_sessions-eq, without_pane, from_session-to_session,
}

collect-map :
    (ss : List Session) → collect from_session (map to_session ss) ≡ ok (map without_pane ss)
collect-map [] = refl
collect-map (s ∷ ss) = rw (from_session-to_session s, collect-map ss)

check_session_pane : (s : Session) → check_session (without_pane s) ≡ check_session s
unfolding check_session
check_session_pane s = refl

check_sessions_pane : (ss : List Session) → check_sessions (map without_pane ss) ≡ check_sessions ss
check_sessions_pane ss = rw (
  length-map without_pane ss,
  for_each-map without_pane check_session check_session ss check_session_pane,
)

each-map :
    (f : Session → Session) (p : Session → Step) (ss : List Session) (b : ℕ)
    → ((s : Session) → p (f s) ≡ p s)
    → each p (map f ss) b ≡ each p ss b
each-map f p [] b h = refl
each-map f p (s ∷ ss) b h = rw (h s, fun_ext (λ b'. each-map f p ss b' h))

budget_session_pane :
    (z : Sizes) (s : Session) → budget_session z (without_pane s) ≡ budget_session z s
unfolding budget_session
budget_session_pane z s = refl

budget_sessions_pane :
    (z : Sizes) (ss : List Session) → budget_sessions z (map without_pane ss) ≡ budget_sessions z ss
budget_sessions_pane z ss = rw (
  length-map without_pane ss,
  fun_ext (λ b. each-map without_pane (budget_session z) ss b (budget_session_pane z)),
)

if_same {ℓ} : {A : Type ℓ} (b : Bool) (x : A) → (if b then x else x) ≡ x
if_same true x = refl
if_same false x = refl

module _ (e : Readings) where
  or_default_twice : (m : HostMetrics e) → or_default e (or_default e m) ≡ or_default e m
  or_default_twice m = elim (Bool-cases (metrics_valid e m)) [
    | inl h ↦ let q : or_default e m ≡ m = rw h in rw (q, q)
    | inr h ↦
        let q : or_default e m ≡ default_metrics e = rw h in
        rw q (if_same (metrics_valid e (default_metrics e)) (default_metrics e))
  ]

  metrics_round :
      (x : Option (HostMetrics e))
      → normalized_metrics e
          (map_option (from_metrics e) (map_option (to_metrics e) (normalized_metrics e x)))
        ≡ normalized_metrics e x
  unfolding normalized_metrics from_metrics to_metrics
  metrics_round none = refl
  metrics_round (some m) = ap some (or_default_twice m)

-- The bounds of a catalog hold of its protobuf form exactly if they hold of it, with the same error if
-- they do not.
pub check_proto_catalog-to_proto :
    (o : Outside) (c : Catalog o.readings)
    → check_proto_catalog o.readings o.parse_time (to_proto o c)
      ≡ check_catalog o.readings o.parse_time c
unfolding check_proto_catalog check_catalog to_proto
check_proto_catalog-to_proto o c =
    rw (opt-map to_sessions check_proto_sessions check_sessions c.sessions check_sessions-eq)

module _ (o : Outside) where
  -- What is left of a catalog: readings that do not hold are replaced, and panes have no process.
  abbrev pub restored : Catalog o.readings → Catalog o.readings
  restored c = record (normalized o c) { sessions = map_option (map without_pane) c.sessions }

  catalog_to_proto-ok :
      (c : Catalog o.readings) (p : CatalogSnapshot o.readings)
      → catalog_to_proto o c ≡ ok p
      → (check_catalog o.readings o.parse_time (normalized o c) ≡ ok tt)
        × (dropped (budget_model_catalog o.model_sizes o.readings (normalized o c)) ≡ ok tt)
        × (validate_catalog o (to_proto o (normalized o c)) ≡ ok tt)
        × (p ≡ to_proto o (normalized o c))
  unfolding catalog_to_proto
  catalog_to_proto-ok c p h = (ground arith, ground arith, ground arith, ground arith)

  transpose-collect :
      (ss : Option (List Session))
      → transpose (map_option from_sessions (map_option to_sessions ss))
        ≡ ok (map_option (map without_pane) ss)
  transpose-collect none = refl
  transpose-collect (some ss) = rw (collect-map ss)

  from_proto-to_proto :
      (c : Catalog o.readings)
      → (length c.generated_at == 0) ≡ false
      → from_proto o (to_proto o (normalized o c)) (map_option (map without_pane) c.sessions)
        ≡ restored c
  unfolding to_proto from_proto
  from_proto-to_proto c g = rw (g, metrics_round o.readings c.host_metrics)

  check_restored :
      (c : Catalog o.readings)
      → check_catalog o.readings o.parse_time (restored c)
        ≡ check_catalog o.readings o.parse_time (normalized o c)
  unfolding check_catalog
  check_restored c =
      rw (opt-map (map without_pane) check_sessions check_sessions c.sessions check_sessions_pane)

  maybe-map :
      (f : List Session → List Session) (p : List Session → Step) (ss : Option (List Session))
      → ((xs : List Session) → p (f xs) ≡ p xs)
      → maybe p (map_option f ss) ≡ maybe p ss
  maybe-map f p none h = refl
  maybe-map f p (some xs) h = h xs

  budget_restored :
      (c : Catalog o.readings)
      → budget_model_catalog o.model_sizes o.readings (restored c)
        ≡ budget_model_catalog o.model_sizes o.readings (normalized o c)
  unfolding budget_model_catalog
  budget_restored c = rw (
      maybe-map (map without_pane) (budget_sessions o.model_sizes) c.sessions
        (budget_sessions_pane o.model_sizes))

  from_steps :
      (p : CatalogSnapshot o.readings) (ss : Option (List Session)) (r : Catalog o.readings)
      → validate_catalog o p ≡ ok tt
      → transpose (map_option from_sessions p.sessions) ≡ ok ss
      → from_proto o p ss ≡ r
      → check_catalog o.readings o.parse_time r ≡ ok tt
      → dropped (budget_model_catalog o.model_sizes o.readings r) ≡ ok tt
      → catalog_from_proto o p ≡ ok r
  unfolding catalog_from_proto
  from_steps p ss r v t f k b = rw (v, t) (rw f (rw (k, b)))

  -- A catalog with a time of generation that is converted to protobuf comes back as it was, but for host
  -- readings that do not hold, which are replaced by the default, and the processes of panes.
  pub catalog_round_trip :
      (c : Catalog o.readings) (p : CatalogSnapshot o.readings)
      → catalog_to_proto o c ≡ ok p
      → (length c.generated_at == 0) ≡ false
      → catalog_from_proto o p ≡ ok (restored c)
  catalog_round_trip c p h g =
      let (k, b, v, q) = catalog_to_proto-ok c p h in
      rw q (
        from_steps (to_proto o (normalized o c)) (map_option (map without_pane) c.sessions)
          (restored c) v (unfold to_proto in transpose-collect c.sessions) (from_proto-to_proto c g)
          (check_restored c ∙ k) (ap dropped (budget_restored c) ∙ b))
