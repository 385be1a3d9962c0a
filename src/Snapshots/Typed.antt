-- ===== src/Snapshots/Typed.antt =====
-- snapshots.rs: `validate_catalog`, `catalog_to_proto` and `catalog_from_proto`.
use hmux.Base.{
  ℕ, ◌*◌, ◌^◌, Bool, Option, none, some, List, [], ◌∷◌, ◌==◌, length, map, if◌then◌else◌,
}
use hmux.Base.Eq.{Bytes}
use hmux.Model.Catalog.{Session, Readings, Catalog, go_zero_time}
use hmux.Snapshots.Proto.{CatalogSessions, CatalogSnapshot}
use hmux.Snapshots.Check.{
  Result, ok, err, ◌>>=◌, ◌>>◌, Checked, map_option, check_catalog, check_proto_catalog, within,
}
use hmux.Snapshots.Convert.{to_session, from_session, to_metrics, from_metrics, normalized_metrics}
use hmux.Snapshots.Budget.{Sizes, budget_model_catalog, budget_proto_catalog}

-- 4 MiB.
abbrev pub max_catalog_bytes : ℕ
max_catalog_bytes = 4 * 2 ^ 20

abbrev pub dropped : Result ℕ → Checked
dropped (ok b) = ok tt
dropped (err x) = err x

abbrev pub to_sessions : List Session → CatalogSessions
to_sessions items = record { items = map to_session items }

-- `collect` into a `Result`: the first error, or all the values.
abbrev pub collect {ℓ κ} : {A : Type ℓ} {B : Type κ} → (A → Result B) → List A → Result (List B)
collect f [] = ok []
collect f (x ∷ xs) = do y ← f x; ys ← collect f xs; ok (y ∷ ys)

abbrev pub transpose : Option (Result (List Session)) → Result (Option (List Session))
transpose none = ok none
transpose (some (ok ss)) = ok (some ss)
transpose (some (err x)) = err x

abbrev pub from_sessions : CatalogSessions → Result (List Session)
from_sessions ss = collect from_session ss.items

-- What the conversions take from elsewhere: chrono, the sizes of the types and prost's encoder.
pub record Outside : Type 1 where
  pub readings : Readings
  pub parse_time : Bytes → Bool
  pub model_sizes : Sizes
  pub proto_sizes : Sizes
  pub encoded_len : CatalogSnapshot readings → ℕ

module _ (o : Outside) where
  open o use {readings, parse_time, model_sizes, proto_sizes, encoded_len}

  unfoldable pub validate_catalog : CatalogSnapshot readings → Checked
  validate_catalog c = do
    check_proto_catalog readings parse_time c
    dropped (budget_proto_catalog proto_sizes readings c)
    within (encoded_len c) max_catalog_bytes

  abbrev pub normalized : Catalog readings → Catalog readings
  normalized c = record c { host_metrics = normalized_metrics readings c.host_metrics }

  unfoldable pub to_proto : Catalog readings → CatalogSnapshot readings
  to_proto c = record {
    protocol_version = c.protocol_version;
    generated_at = c.generated_at;
    sessions = map_option to_sessions c.sessions;
    host_metrics = map_option (to_metrics readings) c.host_metrics;
  }

  unfoldable pub catalog_to_proto : Catalog readings → Result (CatalogSnapshot readings)
  catalog_to_proto c = do
    check_catalog readings parse_time (normalized c)
    dropped (budget_model_catalog model_sizes readings (normalized c))
    validate_catalog (to_proto (normalized c))
    ok (to_proto (normalized c))

  unfoldable pub from_proto : CatalogSnapshot readings → Option (List Session) → Catalog readings
  from_proto c sessions = record {
    protocol_version = c.protocol_version;
    generated_at = if length c.generated_at == 0 then go_zero_time else c.generated_at;
    sessions = sessions;
    host_metrics = normalized_metrics readings (map_option (from_metrics readings) c.host_metrics);
  }

  unfoldable pub catalog_from_proto : CatalogSnapshot readings → Result (Catalog readings)
  catalog_from_proto c = do
    validate_catalog c
    sessions ← transpose (map_option from_sessions c.sessions)
    check_catalog readings parse_time (from_proto c sessions)
    dropped (budget_model_catalog model_sizes readings (from_proto c sessions))
    ok (from_proto c sessions)
