-- ===== src/Cd/Config.antt =====
-- cd/config.go: the stack config of the deployment program, from a recipe and from the environment.
-- The environment is a map that holds the variables that are set; Go's any is a value as
-- encoding/json decodes it.
pub mod Providers
use pulumi_defang.Prelude.{
  Text, codes, is_empty, contains_byte, Map, lookup, insert, has_key, List, [], ◌∷◌, ◌++◌, Bool,
  true, false, not, Option, ◌==◌, none, some, Result, ok, err, or_else, if◌then◌else◌,
}

-- A number or a Boolean is its text, as fmt.Sprint prints it.
mutual
  pub data Json : Type 0 where
    null : Json
    text : Text → Json
    scalar : Text → Json
    array : Items → Json
    object : Fields → Json

  pub data Items : Type 0 where
    no_items : Items
    item : Json → Items → Items

  pub data Fields : Type 0 where
    no_fields : Fields
    field : Text → Json → Fields → Fields

abbrev pub ConfigMap : Type 0
ConfigMap = Map Json

pub data UsageError : Type 0 where
  no_provider : UsageError
  conflicting_providers : List Text → UsageError

-- os.Getenv, and getenv of envs.go.
unfoldable pub env : Map Text → Text → Text
env e key = or_else (lookup key e) []

unfoldable pub getenv : Map Text → Text → (fallback : Text) → Text
unfolding env
getenv e key fallback = if is_empty (env e key) then fallback else env e key

abbrev pub put_text : Text → Text → ConfigMap → ConfigMap
put_text key value config = insert key (text value) config

unfoldable pub put_if_set : Text → Text → ConfigMap → ConfigMap
put_if_set key value config = if is_empty value then config else put_text key value config

-- What stands before the last dash.
unfoldable pub to_last_dash : Text → Option Text
to_last_dash [] = none
to_last_dash (c ∷ s) =
    let rest = to_last_dash s in
    elim rest [ none ↦ if c == b'-' then some [] else none | some before ↦ some (c ∷ before) ]

-- zone[:i], where i > 0.
unfoldable pub region_of_zone : (zone default : Text) → Text
unfolding to_last_dash
region_of_zone zone default = elim (to_last_dash zone) [
  | none ↦ default
  | some before ↦ if is_empty before then default else before
]

-- value.(string), which is empty where it is no string.
unfoldable pub text_value : Option Json → Text
text_value (some (text s)) = s
text_value _ = []

abbrev pub zone_key : Text
zone_key = codes "scaleway:zone"

abbrev pub region_key : Text
region_key = codes "scaleway:region"

-- The region, where the zone is in the config as it is to be.
unfoldable pub scaleway_region : Map Text → ConfigMap → Text
unfolding getenv region_of_zone text_value
scaleway_region e config =
    let default = getenv e (codes "SCW_DEFAULT_REGION") (codes "fr-par") in
    if has_key (codes "SCW_DEFAULT_REGION") e
    then default
    else region_of_zone (text_value (lookup zone_key config)) default

unfoldable pub default_zone_in : (region : Text) → ConfigMap → ConfigMap
default_zone_in region config =
    if has_key zone_key config then config else put_text zone_key (region ++ codes "-1") config

unfoldable pub scaleway_config : Map Text → (project : Text) → ConfigMap → ConfigMap
unfolding scaleway_region default_zone_in put_if_set env
scaleway_config e project config =
    let zoned =
      put_if_set zone_key (env e (codes "SCW_DEFAULT_ZONE"))
        (put_text (codes "scaleway:projectId") project config) in
    let region = scaleway_region e zoned in
    default_zone_in region (put_text region_key region zoned)

unfoldable pub aws_config : Map Text → (region : Text) → ConfigMap → ConfigMap
unfolding put_if_set env
aws_config e region config =
    put_if_set (codes "defang-aws:ciRegistryCredentialsArn")
      (env e (codes "CI_REGISTRY_CREDENTIALS_ARN"))
      (put_if_set (codes "defang-aws:delegationSetId") (env e (codes "DELEGATION_SET_ID")) (
        put_if_set (codes "defang-aws:privateDomain") (env e (codes "PRIVATE_DOMAIN")) (
          put_if_set (codes "aws:profile") (env e (codes "AWS_PROFILE"))
            (put_text (codes "aws:region") region config))))

unfoldable pub gcp_config : Map Text → (project : Text) → ConfigMap → ConfigMap
unfolding put_if_set getenv env
gcp_config e project config =
    put_if_set (codes "gcp:region") (getenv e (codes "GCLOUD_REGION") (env e (codes "REGION")))
      (put_text (codes "gcp:project") project config)

unfoldable pub azure_config : Map Text → (subscription : Text) → ConfigMap → ConfigMap
unfolding put_if_set getenv env
azure_config e subscription config = put_text (codes "azure-native:useMsi") (codes "true") (
    put_if_set (codes "azure-native:location")
      (getenv e (codes "AZURE_LOCATION") (env e (codes "REGION")))
      (put_text (codes "azure-native:subscriptionId") subscription config))

unfoldable pub program_config : (version : Text) → Map Text → ConfigMap → ConfigMap
unfolding getenv env
program_config version e config =
    let org = getenv e (codes "DEFANG_ORG") (codes "defang") in
    put_text (codes "defang:version") version (
      put_text (codes "defang:stateUrl")
        (getenv e (codes "DEFANG_STATE_URL") (env e (codes "PULUMI_BACKEND_URL")))
        (put_text (codes "defang:org") org (
          put_text (codes "defang:etag") (getenv e (codes "DEFANG_ETAG") org)
            (put_text (codes "defang:cdImage") (env e (codes "DEFANG_CD_IMAGE")) config))))

unfoldable pub scw_project : Map Text → Text
unfolding env
scw_project e = env e (codes "SCW_DEFAULT_PROJECT_ID")

unfoldable pub aws_region : Map Text → Text
unfolding env
aws_region e = env e (codes "AWS_REGION")

unfoldable pub gcp_project : Map Text → Text
unfolding getenv env
gcp_project e = getenv e (codes "GCLOUD_PROJECT") (env e (codes "GCP_PROJECT"))

unfoldable pub azure_subscription : Map Text → Text
unfolding env
azure_subscription e = env e (codes "AZURE_SUBSCRIPTION_ID")

-- A provider is added, with its config, where its variable is set.
abbrev pub Found : Type 0
Found = List Text × ConfigMap

unfoldable pub add_provider : (name value : Text) → (ConfigMap → ConfigMap) → Found → Found
add_provider name value configure (providers, config) =
    if is_empty value then (providers, config) else (providers ++ name ∷ [], configure config)

unfoldable pub find_providers : Map Text → ConfigMap → Found
find_providers e config =
    let start : Found =
      if is_empty (scw_project e)
      then add_provider (codes "aws") (aws_region e) (aws_config e (aws_region e)) ([], config)
      else (codes "scaleway" ∷ [], scaleway_config e (scw_project e) config) in
    add_provider (codes "azure") (azure_subscription e) (azure_config e (azure_subscription e))
      (add_provider (codes "gcp") (gcp_project e) (gcp_config e (gcp_project e)) start)

-- The provider, the domain and the time to live, once there is one provider.
unfoldable pub finish_config : Map Text → Found → Result UsageError ConfigMap
unfolding put_if_set env
finish_config e ([], config) = err no_provider
finish_config e (provider ∷ [], config) = ok (
    put_if_set (codes "defang:ttl") (env e (codes "DEFANG_TTL")) (
      put_if_set (codes "defang:domain") (env e (codes "DOMAIN"))
        (put_text (codes "defang:provider") provider config)))
finish_config e (p ∷ q ∷ providers, config) = err (conflicting_providers (p ∷ q ∷ providers))

unfoldable pub add_stack_config_from_env :
    (version : Text) → Map Text → ConfigMap → Result UsageError ConfigMap
add_stack_config_from_env version e config =
    finish_config e (find_providers e (program_config version e config))
