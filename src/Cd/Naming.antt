-- ===== src/Cd/Naming.antt =====
-- cd/config.go: the recipe's stack config, and the patterns that Pulumi names resources by.
-- encoding/json and the YAML decoder are parameters.
pub mod Kept
use Prim.Native.String.{String}
use pulumi_defang.Prelude.{
  Text, codes, text_eq, is_empty, to_lower, Map, lookup, insert, List, [], ◌∷◌, ◌++◌, Bool, true,
  false, Option, none, some, Result, ok, err, ◌>>=◌, or_else, if◌then◌else◌,
}
use pulumi_defang.Cd.Config.{
  Json, null, text, scalar, array, object, Fields, no_fields, field, ConfigMap, UsageError, getenv,
  put_text, text_value, add_stack_config_from_env,
}

unfoldable pub get_field : Text → Fields → Option Json
get_field k no_fields = none
get_field k (field j v fields) =
    let rest = get_field k fields in if text_eq j k then some v else rest

unfoldable pub set_field : Text → Json → Fields → Fields
set_field k v no_fields = field k v no_fields
set_field k v (field j u fields) =
    let rest = set_field k v fields in if text_eq j k then field k v fields else field j u rest

pub data ConfigError : Type 0 where
  bad_recipe bad_autonaming : ConfigError
  not_an_object : Text → ConfigError
  usage : UsageError → ConfigError

-- A value of the field, unless it has one.
unfoldable pub default_field : Text → Json → Fields → Fields
unfolding get_field set_field
default_field k v fields = elim (get_field k fields) [
  | none ↦ set_field k v fields
  | some u ↦ fields
]

abbrev pub put_object : Text → Fields → Fields → Result ConfigError Fields
put_object k fields child = ok (set_field k (object child) fields)

-- The child of an object where a path goes on: a new one where there is none.
unfoldable pub child_object : Text → Option Json → Result ConfigError Fields
child_object k none = ok no_fields
child_object k (some (object child)) = ok child
child_object k (some null) = err (not_an_object k)
child_object k (some (text s)) = err (not_an_object k)
child_object k (some (scalar s)) = err (not_an_object k)
child_object k (some (array items)) = err (not_an_object k)

-- The objects on the path, made where they are missing, and a change of the last one.
unfoldable pub ensure_path : List Text → (Fields → Fields) → Fields → Result ConfigError Fields
unfolding child_object get_field set_field
ensure_path [] change fields = ok (change fields)
ensure_path (k ∷ ks) change fields = do
  child ← child_object k (get_field k fields)
  child' ← ensure_path ks change child
  put_object k fields child'

abbrev pub pattern_of : Text → Json
pattern_of p = object (field (codes "pattern") (text p) no_fields)

abbrev pub registry_path : List Text
registry_path = codes "providers" ∷ codes "scaleway" ∷ codes "resources" ∷ []

abbrev pub registry_type : Text
registry_type = codes "scaleway:registry/namespace:Namespace"

abbrev pub registry_pattern : Text
registry_pattern = codes "defang-${name}-${hex(7)}"

abbrev pub autonaming_key : Text
autonaming_key = codes "pulumi:autonaming"

-- The config as an object: json.Unmarshal into a map, where null is an empty one.
unfoldable pub as_fields : Json → Result ConfigError Fields
as_fields null = ok no_fields
as_fields (object fields) = ok fields
as_fields (text s) = err bad_autonaming
as_fields (scalar s) = err bad_autonaming
as_fields (array items) = err bad_autonaming

-- json.Unmarshal of a text value. A value that is no text is as it is: the source writes it as JSON
-- and reads it again, which only rounds integers beyond 53 bits.
unfoldable pub decoded : (decode_json : Text → Option Json) → Json → Result ConfigError Fields
unfolding as_fields
decoded decode_json (text s) = elim (decode_json s) [
  | none ↦ err bad_autonaming
  | some v ↦ as_fields v
]
decoded decode_json v = as_fields v

unfoldable pub ensure_scaleway_registry_autonaming :
    (decode_json : Text → Option Json) → ConfigMap → Result ConfigError ConfigMap
unfolding decoded ensure_path default_field
ensure_scaleway_registry_autonaming decode_json config = do
  autonaming ← decoded decode_json (or_else (lookup autonaming_key config) null)
  named ←
      ensure_path registry_path (default_field registry_type (pattern_of registry_pattern))
        autonaming
  ok (insert autonaming_key (object named) config)

-- A value of the flat form, out of its wrapper.
unfoldable pub unwrapped : Json → Json
unfolding get_field
unwrapped (object wrapper) = elim (get_field (codes "objectValue") wrapper) [
  | some v ↦ v
  | none ↦ or_else (get_field (codes "value") wrapper) (object wrapper)
]
unwrapped v = v

unfoldable pub add_section : (flat : Bool) → Fields → ConfigMap → ConfigMap
unfolding unwrapped
add_section flat no_fields config = config
add_section flat (field k v section) config =
    add_section flat section (insert k (if flat then unwrapped v else v) config)

unfoldable pub add_recipe : Fields → ConfigMap → ConfigMap
unfolding add_section get_field
add_recipe root config = elim (get_field (codes "config") root) [
  | some (object section) ↦ add_section false section config
  | _ ↦ add_section true root config
]

-- An empty document decodes to no map.
unfoldable pub unmarshal_recipe :
    (decode_yaml : Text → Option Json) → Text → ConfigMap → Result ConfigError ConfigMap
unfolding add_recipe
unmarshal_recipe decode_yaml recipe config = elim (decode_yaml recipe) [
  | none ↦ err bad_recipe
  | some v ↦ elim (as_fields v) [ err e ↦ err bad_recipe | ok root ↦ ok (add_recipe root config) ]
]

abbrev names : String → Text → Fields → Fields
names type p fields = field (codes type) (pattern_of p) fields

abbrev suffix : Text
suffix = codes "${project}-${stack}-${name}-${hex(7)}"

abbrev short_pattern : Text
short_pattern = codes "${name}-${hex(7)}"

abbrev aws_names : (lowercased : Text) → Fields
aws_names lowercased =
    names "aws:lb/loadBalancer:LoadBalancer" (codes "${project}-${stack}-${hex(4)}") (
      names "aws:lb/targetGroup:TargetGroup" (codes "${name}-${hex(4)}") (
        names "aws:ecs/service:Service" short_pattern (
          names "aws:ecr/repository:Repository" lowercased (
            names "aws:elasticache/replicationGroup:ReplicationGroup" lowercased (
              names "aws:elasticache/subnetGroup:SubnetGroup" lowercased (
                names "aws:memorydb/cluster:Cluster" lowercased (
                  names "aws:memorydb/parameterGroup:ParameterGroup" lowercased (
                    names "aws:memorydb/subnetGroup:SubnetGroup" lowercased (
                      names "aws:rds/instance:Instance" lowercased
                        (names "aws:rds/subnetGroup:SubnetGroup" lowercased no_fields))))))))))

abbrev azure_names : (prefix : Text) → Fields
azure_names prefix =
    names "azure-native:containerregistry:Registry" (codes "${name}${stack}${hex(7)}") (
      names "azure-native:containerregistry:Task" short_pattern (
        names "azure-native:app:ManagedEnvironment"
          (prefix ++ codes "${project}-${stack}-${hex(7)}")
          (names "azure-native:operationalinsights:Workspace"
            (prefix ++ codes "${project}-${stack}-${hex(7)}")
            (names "azure-native:app:Job" short_pattern no_fields))))

abbrev gcp_names : Fields
gcp_names = names "gcp:serviceaccount/account:Account" (codes "${name}-${hex(4)}") (
    names "gcp:cloudrunv2/service:Service" suffix (
      names "gcp:redis/instance:Instance" (codes "${project}-${name}-${hex(7)}") (
        names "gcp:compute/healthCheck:HealthCheck" suffix (
          names "gcp:compute/firewall:Firewall" suffix (
            names "gcp:compute/regionInstanceGroupManager:RegionInstanceGroupManager" suffix (
              names "gcp:compute/instanceTemplate:InstanceTemplate" suffix (
                names "gcp:compute/regionBackendService:RegionBackendService" suffix
                  (names "gcp:compute/forwardingRule:ForwardingRule" suffix no_fields))))))))

abbrev resources : Fields → Fields
resources types = field (codes "resources") (object types) no_fields

-- The patterns of all providers.
unfoldable pub default_autonaming : (prefix : Text) → Fields
default_autonaming prefix =
    let lowercased = to_lower prefix ++ suffix in
    field (codes "pattern") (text (prefix ++ suffix)) (
      field (codes "providers")
        (object (
          field (codes "scaleway")
            (object (resources (field registry_type (pattern_of registry_pattern) no_fields)))
            (field (codes "aws") (object (resources (aws_names lowercased))) (
              field (codes "azure-native") (object (resources (azure_names prefix))) (
                field (codes "gcp")
                  (object (field (codes "pattern") (text lowercased) (resources gcp_names)))
                  no_fields)))))
        no_fields)

unfoldable pub set_default_stack_config : (prefix : Text) → ConfigMap → ConfigMap
unfolding default_autonaming
set_default_stack_config prefix config =
    let dashed = if is_empty prefix then prefix else prefix ++ codes "-" in
    insert autonaming_key (object (default_autonaming dashed))
      (put_text (codes "defang:prefix") prefix config)

recipe_config :
    (decode_yaml : Text → Option Json) → Map Text → (recipe : Text) → Result ConfigError ConfigMap
unfolding unmarshal_recipe set_default_stack_config getenv
recipe_config decode_yaml e recipe =
    if is_empty recipe
    then ok (set_default_stack_config (getenv e (codes "DEFANG_PREFIX") (codes "Defang")) [])
    else unmarshal_recipe decode_yaml recipe []

from_env : (version : Text) → Map Text → ConfigMap → Result ConfigError ConfigMap
from_env version e config = elim (add_stack_config_from_env version e config) [
  | err x ↦ err (usage x)
  | ok config' ↦ ok config'
]

-- The config that stackConfigJson prints.
unfoldable pub stack_config :
    (decode_yaml decode_json : Text → Option Json) (version : Text)
    → Map Text
    → (recipe : Text) → Result ConfigError ConfigMap
unfolding recipe_config from_env ensure_scaleway_registry_autonaming text_value
stack_config decode_yaml decode_json version e recipe = do
  start ← recipe_config decode_yaml e recipe
  config ← from_env version e start
  if text_eq (text_value (lookup (codes "defang:provider") config)) (codes "scaleway")
      then ensure_scaleway_registry_autonaming decode_json config
      else ok config

-- MarshalJSON of a config value: a scalar as its text, any other with the value itself.
unfoldable pub marshal_value : (encode_json : Json → Text) → Json → Fields
marshal_value encode_json (text s) = field (codes "value") (text s) no_fields
marshal_value encode_json (scalar s) = field (codes "value") (text s) no_fields
marshal_value encode_json v =
    field (codes "value") (text (encode_json v)) (field (codes "objectValue") v no_fields)
