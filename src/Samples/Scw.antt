-- ===== src/Samples/Scw.antt =====
-- Containers, databases and secrets of Scaleway on small inputs.
use pulumi_defang.Prelude.{
  Text, codes, ℕ, Map, lookup, List, [], ◌∷◌, All, Bool, true, Option, none, some, ok, err, ℤ, pos,
  ◌≡◌, ◌↔◌, refl, arith, ltb,
}
use pulumi_defang.Compose.Types.{Float64, HealthCheckConfig}
use pulumi_defang.Samples.{bare}
use pulumi_defang.Scaleway.Containers.{validate_container_service, shell_join}
use pulumi_defang.Scaleway.Containers.Accepted.{
  AreResources, ArePorts, AreVariables, IsKind, validate_container_service_iff,
}
use pulumi_defang.Scaleway.Script.Quoting.{Words}
use pulumi_defang.Scaleway.Containers.Shim.{shell_join-Words}
use pulumi_defang.Scaleway.Secrets.{
  Secret, SecretApi, config_missing, read_secrets, new_config_provider,
}
use pulumi_defang.Scaleway.Secrets.Fetched.{latest, lookup-read_secrets}
use pulumi_defang.Scaleway.Secrets.Snapshot.{
  Call, pending, answers, view_answers, IsFetch, answers-new_config_provider,
}
use pulumi_defang.Scaleway.Databases.{Semver, select_redis_version}
use pulumi_defang.Scaleway.Containers.Probes.{
  Probe, container_health_probes, find_managed_host_in_url, IsWindow,
  container_health_probes-IsWindow,
}
use pulumi_defang.Scaleway.Databases.Versions.{IsWeakOrder, IsBest, select_redis_version-IsBest}

abbrev no_number : Text → Option Float64
no_number s = none

abbrev quarter_of : Float64 → ℤ
quarter_of f = pos 250

validate_container_service_iff_example :
    (validate_container_service no_number quarter_of bare ≡ ok tt)
    ↔ (AreResources no_number quarter_of bare × ArePorts [] × AreVariables [] × IsKind bare)
validate_container_service_iff_example = validate_container_service_iff no_number quarter_of bare

abbrev with_empty : List Text
with_empty = codes "echo" ∷ codes "a b" ∷ [] ∷ codes "it's" ∷ []

shell_join-Words_example :
    Words (shell_join with_empty) (codes "echo" ∷ codes "a b" ∷ codes "it's" ∷ [])
shell_join-Words_example = shell_join-Words with_empty

abbrev small_api : SecretApi
small_api = record { list_secrets = λ page. ok []; access = λ id. ok id }

abbrev two_secrets : List Secret
two_secrets =
    record { id = codes "1"; name = codes "app_KEY" }
    ∷ record { id = codes "2"; name = codes "app_KEY" }
    ∷ []

lookup-read_secrets_example :
    lookup (codes "KEY") (read_secrets small_api (codes "app_") two_secrets [])
    ≡ latest small_api (codes "app_") (codes "KEY") none two_secrets
lookup-read_secrets_example =
    lookup-read_secrets small_api (codes "app_") two_secrets (codes "KEY") [] (λ e. cc e)

abbrev two_calls : List Call
two_calls =
    record { fetch = err config_missing; key = codes "KEY" }
    ∷ record { fetch = ok ((codes "KEY", codes "v") ∷ []); key = codes "KEY" }
    ∷ []

calls-IsFetch : All (λ c. IsFetch c.fetch) two_calls
calls-IsFetch = (tt, (((λ h. h), tt), tt))

answers-new_config_provider_example :
    answers (new_config_provider (codes "app")) two_calls ≡ view_answers pending two_calls
answers-new_config_provider_example =
    answers-new_config_provider (codes "app") two_calls calls-IsFetch

abbrev slow_start : HealthCheckConfig
slow_start = record {
  test = codes "CMD" ∷ codes "true" ∷ [];
  interval_seconds = pos 30;
  timeout_seconds = pos 0;
  retries = pos 0;
  start_period_seconds = pos 100;
}

abbrev root_path : HealthCheckConfig → Text
root_path hc = codes "/"

abbrev probe : ℕ → Probe
probe n = record { path = codes "/"; failure_threshold = n; interval = 30; timeout = 5 }

four_more : container_health_probes root_path (some slow_start) ≡ (some (probe 3), some (probe 7))
unfolding container_health_probes
four_more = refl

container_health_probes-IsWindow_example : IsWindow 100 (probe 3) (probe 7)
container_health_probes-IsWindow_example =
    container_health_probes-IsWindow root_path slow_start (probe 3) (probe 7) 100 refl four_more

abbrev one_host : Map Bool
one_host = (codes "db", true) ∷ []

found_before_port :
    find_managed_host_in_url (codes "postgres://u:p@db:5432/x") one_host ≡ some (codes "db")
unfolding find_managed_host_in_url
found_before_port = refl

-- A colon behind the slash hides the host.
hidden_by_colon : find_managed_host_in_url (codes "redis://db/0?tag=a:b") one_host ≡ none
unfolding find_managed_host_in_url
hidden_by_colon = refl

-- Versions that are one digit.
abbrev digit_of : Text → Option ℕ
digit_of [] = none
digit_of (c ∷ s) = some c

abbrev digits : Semver
digits = record { Version = ℕ; parse = digit_of; lt = ltb; text_of = λ c. c ∷ [] }

digits-IsWeakOrder : IsWeakOrder digits.lt
digits-IsWeakOrder = record { asym = λ x y h. ground arith; negtrans = λ x y z h h'. ground arith }

abbrev redis_versions : List Text
redis_versions = codes "6" ∷ codes "9" ∷ codes "8" ∷ []

oldest_enough : select_redis_version digits (some b'7') redis_versions ≡ ok (codes "8")
unfolding select_redis_version
oldest_enough = refl

newest : select_redis_version digits none redis_versions ≡ ok (codes "9")
unfolding select_redis_version
newest = refl

select_redis_version-IsBest_example :
    (b : ℕ) × (codes "8" ≡ b ∷ []) × IsBest digits (some b'7') redis_versions b
select_redis_version-IsBest_example =
    select_redis_version-IsBest digits (some b'7') redis_versions (codes "8") digits-IsWeakOrder
      oldest_enough
