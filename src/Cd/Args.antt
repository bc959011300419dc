-- ===== src/Cd/Args.antt =====
-- cd/program/aws.go, gcp.go, azure.go and scaleway.go: the arguments that a service of the compose file
-- becomes. The structs are those of the generated SDK (sdk/v2/go/defang-aws/compose); an input that is
-- not set is `none`, or the empty list or map. AWS, GCP and Azure have the same structs.
pub mod Gcp
pub mod Azure
pub mod Received
use pulumi_defang.Prelude.{
  Text, is_empty, Map, List, [], ◌∷◌, map, Bool, Option, none, some, if◌then◌else◌, ℤ,
}
use pulumi_defang.Compose.Types.{
  Float64, StringInput, ServiceConfig, Services, BuildConfig, ServicePortConfig, DeployConfig,
  Resources, ResourceConfig, PostgresConfig, RedisConfig, ObjectStoreConfig, HealthCheckConfig,
  ServiceNetworkConfig, DependsOnConfig, LlmConfig, ServiceVolumeConfig,
}
use pulumi_defang.Compose.Sizes.{static_image, resolved_environment}

pub record BuildConfigArgs : Type 0 where
  pub args : Map Text
  pub cache_from : List Text
  pub cache_to : List Text
  pub context : StringInput
  pub dockerfile : Option Text
  pub platforms : List Text
  pub shm_size : Option Text
  pub target : Option Text

pub record ServicePortConfigArgs : Type 0 where
  pub app_protocol : Option Text
  pub listener : Option Text
  pub mode : Option Text
  pub protocol : Option Text
  pub target : ℤ

pub record DeployConfigArgs : Type 0 where
  pub replicas : Option ℤ
  pub reservations : Option ResourceConfig

pub record HealthCheckConfigArgs : Type 0 where
  pub test : List Text
  pub interval_seconds : Option ℤ
  pub timeout_seconds : Option ℤ
  pub retries : Option ℤ
  pub start_period_seconds : Option ℤ

pub record ServiceConfigArgs : Type 0 where
  pub aliases : Map Text
  pub autoscaling : Option Bool
  pub build : Option BuildConfigArgs
  pub command : List Text
  pub container_name : Option Text
  pub depends_on : DependsOnConfig
  pub deploy : Option DeployConfigArgs
  pub domain_name : Option Text
  pub entrypoint : List Text
  pub environment : Map Text
  pub health_check : Option HealthCheckConfigArgs
  pub image : Option Text
  pub llm : Option LlmConfig
  pub network_mode : Option Text
  pub networks : Map ServiceNetworkConfig
  pub object_store : Option ObjectStoreConfig
  pub platform : Option Text
  pub policies : List Text
  pub ports : List ServicePortConfigArgs
  pub postgres : Option PostgresConfig
  pub redis : Option RedisConfig
  pub restart : Option Text
  pub stop_grace_period : Option Text
  pub volumes : List ServiceVolumeConfig
  pub volumes_from : List Text
  pub working_dir : Option Text

unfoldable pub to_build_args : Option BuildConfig → Option BuildConfigArgs
to_build_args none = none
to_build_args (some b) = some (record {
  args = b.args;
  cache_from = [];
  cache_to = [];
  context = b.context;
  dockerfile = b.dockerfile;
  platforms = [];
  shm_size = b.shm_size;
  target = b.target;
})

unfoldable pub to_port_args : ServicePortConfig → ServicePortConfigArgs
to_port_args p = record {
  app_protocol = some p.app_protocol;
  listener = none;
  mode = some p.mode;
  protocol = some p.protocol;
  target = p.target;
}

-- Resources without reservations are not set.
abbrev pub reservations_of : Option Resources → Option ResourceConfig
reservations_of none = none
reservations_of (some r) = r.reservations

unfoldable pub to_deploy_args : Option DeployConfig → Option DeployConfigArgs
to_deploy_args none = none
to_deploy_args (some d) =
    some (record { replicas = d.replicas; reservations = reservations_of d.resources })

unfoldable pub to_health_check_args : Option HealthCheckConfig → Option HealthCheckConfigArgs
to_health_check_args none = none
to_health_check_args (some h) = some (record {
  test = h.test;
  interval_seconds = some h.interval_seconds;
  timeout_seconds = some h.timeout_seconds;
  retries = some h.retries;
  start_period_seconds = some h.start_period_seconds;
})

-- Set unless it is empty.
abbrev pub unless_blank : Text → Option Text
unless_blank s = if is_empty s then none else some s

unfoldable pub to_aws_service_args : ServiceConfig → ServiceConfigArgs
to_aws_service_args svc = record {
  image = static_image svc;
  platform = svc.platform;
  environment = resolved_environment svc;
  command = svc.command;
  entrypoint = svc.entrypoint;
  aliases = svc.aliases;
  autoscaling = some svc.autoscaling;
  container_name = svc.container_name;
  network_mode = some svc.network_mode;
  policies = svc.policies;
  restart = some svc.restart;
  stop_grace_period = svc.stop_grace_period;
  volumes_from = svc.volumes_from;
  working_dir = svc.working_dir;
  domain_name = unless_blank svc.domain_name;
  build = to_build_args svc.build;
  ports = map to_port_args svc.ports;
  deploy = to_deploy_args svc.deploy;
  postgres = svc.postgres;
  redis = svc.redis;
  object_store = svc.object_store;
  health_check = to_health_check_args svc.health_check;
  networks = svc.networks;
  depends_on = svc.depends_on;
  llm = svc.llm;
  volumes = svc.volumes;
}

-- The fields that the Scaleway provider has no use for are not set.
unfoldable pub to_scaleway_service_args : ServiceConfig → ServiceConfigArgs
to_scaleway_service_args svc = record {
  image = static_image svc;
  platform = svc.platform;
  environment = resolved_environment svc;
  command = svc.command;
  entrypoint = svc.entrypoint;
  aliases = [];
  autoscaling = none;
  container_name = none;
  network_mode = none;
  policies = [];
  restart = none;
  stop_grace_period = none;
  volumes_from = [];
  working_dir = none;
  domain_name = unless_blank svc.domain_name;
  build = to_build_args svc.build;
  ports = map to_port_args svc.ports;
  deploy = to_deploy_args svc.deploy;
  postgres = svc.postgres;
  redis = svc.redis;
  object_store = none;
  health_check = to_health_check_args svc.health_check;
  networks = svc.networks;
  depends_on = svc.depends_on;
  llm = svc.llm;
  volumes = [];
}
