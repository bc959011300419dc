-- ===== src/Samples/Config.antt =====
-- The config of the deployment program on small inputs.
use pulumi_defang.Prelude.{
  Text, codes, Map, lookup, List, [], ◌∷◌, Option, none, some, ok, or_else, ◌≡◌, ◌≢◌, refl,
}
use pulumi_defang.Cd.Config.{
  Json, text, Fields, no_fields, field, ConfigMap, add_stack_config_from_env,
}
use pulumi_defang.Cd.Config.Providers.{wanted, Answers, add_stack_config_from_env-Answers}
use pulumi_defang.Cd.Naming.{
  autonaming_key, registry_path, registry_type, pattern_of, registry_pattern, decoded,
  ensure_scaleway_registry_autonaming,
}
use pulumi_defang.Cd.Naming.Kept.{read, IsLeaf, naming, ensure_scaleway_registry_autonaming-kept}

abbrev gcp_env : Map Text
gcp_env = (codes "GCLOUD_PROJECT", codes "p") ∷ []

add_stack_config_from_env-Answers_example :
    Answers (wanted gcp_env) (add_stack_config_from_env (codes "1") gcp_env [])
add_stack_config_from_env-Answers_example = add_stack_config_from_env-Answers (codes "1") gcp_env []

abbrev no_json : Text → Option Json
no_json s = none

abbrev named_registry : ConfigMap
named_registry =
    (autonaming_key, Json.object (field (codes "pattern") (text (codes "x")) no_fields)) ∷ []

abbrev backfilled : ConfigMap
backfilled =
    (
      autonaming_key,
      Json.object (
          field (codes "pattern") (text (codes "x")) (
            field (codes "providers")
              (Json.object (
                field (codes "scaleway")
                  (Json.object (
                    field (codes "resources")
                      (Json.object (field registry_type (pattern_of registry_pattern) no_fields))
                      no_fields))
                  no_fields))
              no_fields)),
    )
    ∷ []

decodes : naming no_json named_registry ≡ ok (field (codes "pattern") (text (codes "x")) no_fields)
unfolding decoded
decodes = refl

backfills : ensure_scaleway_registry_autonaming no_json named_registry ≡ ok backfilled
unfolding ensure_scaleway_registry_autonaming
backfills = refl

ensure_scaleway_registry_autonaming-kept_example :
    ((key : Text) → key ≢ autonaming_key → lookup key backfilled ≡ lookup key named_registry)
    × ((behind : Fields) × (lookup autonaming_key backfilled ≡ some (Json.object behind))
        × (read registry_path registry_type behind
            ≡ some (
                or_else
                  (read registry_path registry_type
                    (field (codes "pattern") (text (codes "x")) no_fields))
                  (pattern_of registry_pattern)))
        × ((path : List Text) (last : Text) (leaf : Json)
            → IsLeaf leaf
            → read path last (field (codes "pattern") (text (codes "x")) no_fields) ≡ some leaf
            → read path last behind ≡ some leaf))
ensure_scaleway_registry_autonaming-kept_example =
    ensure_scaleway_registry_autonaming-kept no_json named_registry backfilled
      (field (codes "pattern") (text (codes "x")) no_fields) decodes backfills
