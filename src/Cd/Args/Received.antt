-- ===== src/Cd/Args/Received.antt =====
-- cd/program/aws.go, gcp.go and azure.go: what a provider reads back from the arguments.
use pulumi_defang.Prelude.{
  Text, Map, List, [], ◌∷◌, map, false, Option, none, some, or_else, pos, ◌≡◌, refl,
}
use pulumi_defang.Compose.Types.{
  StringInput, literal, Environment, ServiceConfig, BuildConfig, ServicePortConfig, DeployConfig,
  Resources, ResourceConfig, HealthCheckConfig,
}
use pulumi_defang.Compose.Sizes.{static_image, resolved_environment}
use pulumi_defang.Cd.Args.{
  BuildConfigArgs, ServicePortConfigArgs, DeployConfigArgs, HealthCheckConfigArgs,
  ServiceConfigArgs, to_build_args, to_port_args, reservations_of, to_deploy_args,
  to_health_check_args, unless_blank, to_aws_service_args,
}
use pulumi_defang.Cd.Args.Gcp.{to_gcp_service_args}
use pulumi_defang.Cd.Args.Azure.{to_azure_service_args}

-- The provider's struct has a field for each argument, and the zero value where one is not set.
abbrev pub literals : Map Text → Environment
literals [] = []
literals ((k, v) ∷ env) = (k, some (literal v)) ∷ literals env

abbrev pub as_input : Option Text → Option StringInput
as_input none = none
as_input (some s) = some (literal s)

abbrev pub build_received : Option BuildConfigArgs → Option BuildConfig
build_received none = none
build_received (some b) = some (record {
  context = b.context;
  dockerfile = b.dockerfile;
  args = b.args;
  shm_size = b.shm_size;
  target = b.target;
  platforms = b.platforms;
  cache_from = b.cache_from;
  cache_to = b.cache_to;
})

abbrev pub port_received : ServicePortConfigArgs → ServicePortConfig
port_received p = record {
  target = p.target;
  mode = or_else p.mode [];
  protocol = or_else p.protocol [];
  app_protocol = or_else p.app_protocol [];
  listener = or_else p.listener [];
}

abbrev pub resources_received : Option ResourceConfig → Option Resources
resources_received none = none
resources_received (some r) = some (record { reservations = some r })

abbrev pub deploy_received : Option DeployConfigArgs → Option DeployConfig
deploy_received none = none
deploy_received (some d) =
    some (record { replicas = d.replicas; resources = resources_received d.reservations })

abbrev pub health_check_received : Option HealthCheckConfigArgs → Option HealthCheckConfig
health_check_received none = none
health_check_received (some h) = some (record {
  test = h.test;
  interval_seconds = or_else h.interval_seconds (pos 0);
  timeout_seconds = or_else h.timeout_seconds (pos 0);
  retries = or_else h.retries (pos 0);
  start_period_seconds = or_else h.start_period_seconds (pos 0);
})

abbrev pub received : ServiceConfigArgs → ServiceConfig
received a = record {
  build = build_received a.build;
  image = as_input a.image;
  platform = a.platform;
  ports = map port_received a.ports;
  deploy = deploy_received a.deploy;
  environment = literals a.environment;
  command = a.command;
  entrypoint = a.entrypoint;
  postgres = a.postgres;
  redis = a.redis;
  object_store = a.object_store;
  restart = or_else a.restart [];
  health_check = health_check_received a.health_check;
  domain_name = or_else a.domain_name [];
  networks = a.networks;
  depends_on = a.depends_on;
  llm = a.llm;
  container_name = a.container_name;
  stop_grace_period = a.stop_grace_period;
  volumes = a.volumes;
  volumes_from = a.volumes_from;
  working_dir = a.working_dir;
  network_mode = or_else a.network_mode [];
  autoscaling = or_else a.autoscaling false;
  policies = a.policies;
  aliases = a.aliases;
}

-- What does not arrive: a build's platforms and caches, and the listener of a port.
abbrev pub build_left : Option BuildConfig → Option BuildConfig
build_left none = none
build_left (some b) = some (record b { platforms = []; cache_from = []; cache_to = [] })

abbrev pub port_left : ServicePortConfig → ServicePortConfig
port_left p = record p { listener = [] }

abbrev pub deploy_left : Option DeployConfig → Option DeployConfig
deploy_left none = none
deploy_left (some d) =
    some (record d { resources = resources_received (reservations_of d.resources) })

abbrev pub left : ServiceConfig → ServiceConfig
left s = record s {
  build = build_left s.build;
  image = as_input (static_image s);
  environment = literals (resolved_environment s);
  ports = map port_left s.ports;
  deploy = deploy_left s.deploy;
}

build_received-to_build_args :
    (b : Option BuildConfig) → build_received (to_build_args b) ≡ build_left b
unfolding to_build_args
build_received-to_build_args none = refl
build_received-to_build_args (some b) = refl

ports_received :
    (ps : List ServicePortConfig) → map port_received (map to_port_args ps) ≡ map port_left ps
unfolding to_port_args
ports_received [] = refl
ports_received (p ∷ ps) = λ i. port_left p ∷ ports_received ps i

deploy_received-to_deploy_args :
    (d : Option DeployConfig) → deploy_received (to_deploy_args d) ≡ deploy_left d
unfolding to_deploy_args
deploy_received-to_deploy_args none = refl
deploy_received-to_deploy_args (some d) = refl

health_check_received-to_health_check_args :
    (h : Option HealthCheckConfig) → health_check_received (to_health_check_args h) ≡ h
unfolding to_health_check_args
health_check_received-to_health_check_args none = refl
health_check_received-to_health_check_args (some h) = refl

or_else-unless_blank : (s : Text) → or_else (unless_blank s) [] ≡ s
or_else-unless_blank [] = refl
or_else-unless_blank (c ∷ s) = refl

received-to_aws_service_args : (s : ServiceConfig) → received (to_aws_service_args s) ≡ left s
unfolding to_aws_service_args
received-to_aws_service_args s = λ i. record s {
  build = build_received-to_build_args s.build i;
  image = as_input (static_image s);
  environment = literals (resolved_environment s);
  ports = ports_received s.ports i;
  deploy = deploy_received-to_deploy_args s.deploy i;
  health_check = health_check_received-to_health_check_args s.health_check i;
  domain_name = or_else-unless_blank s.domain_name i;
}

-- On AWS, GCP and Azure a provider receives each service as the compose file has it, with the static
-- image and the resolved environment, resources only where they hold reservations, and without the
-- platforms and the caches of its build and the listeners of its ports, which never arrive.
pub received-to_service_args :
    (s : ServiceConfig)
    → (received (to_aws_service_args s) ≡ left s)
      × (received (to_gcp_service_args s) ≡ left s)
      × (received (to_azure_service_args s) ≡ left s)
unfolding to_aws_service_args to_gcp_service_args to_azure_service_args
received-to_service_args s =
    (received-to_aws_service_args s, received-to_aws_service_args s, received-to_aws_service_args s)
