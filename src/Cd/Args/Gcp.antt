-- ===== src/Cd/Args/Gcp.antt =====
-- cd/program/gcp.go: the arguments of a service on GCP.
use pulumi_defang.Prelude.{map, some}
use pulumi_defang.Compose.Types.{ServiceConfig}
use pulumi_defang.Compose.Sizes.{static_image, resolved_environment}
use pulumi_defang.Cd.Args.{
  ServiceConfigArgs, to_build_args, to_port_args, to_deploy_args, to_health_check_args,
  unless_blank,
}

unfoldable pub to_gcp_service_args : ServiceConfig → ServiceConfigArgs
to_gcp_service_args svc = record {
  image = static_image svc;
  platform = svc.platform;
  environment = resolved_environment svc;
  command = svc.command;
  entrypoint = svc.entrypoint;
  aliases = svc.aliases;
  autoscaling = some svc.autoscaling;
  container_name = svc.container_name;
  network_mode = some svc.network_mode;
  policies = svc.policies;
  restart = some svc.restart;
  stop_grace_period = svc.stop_grace_period;
  volumes_from = svc.volumes_from;
  working_dir = svc.working_dir;
  domain_name = unless_blank svc.domain_name;
  build = to_build_args svc.build;
  ports = map to_port_args svc.ports;
  deploy = to_deploy_args svc.deploy;
  postgres = svc.postgres;
  redis = svc.redis;
  object_store = svc.object_store;
  health_check = to_health_check_args svc.health_check;
  networks = svc.networks;
  depends_on = svc.depends_on;
  llm = svc.llm;
  volumes = svc.volumes;
}
