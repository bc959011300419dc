-- ===== src/Samples.antt =====
-- Small inputs, and what the program does on them.
mod Compose
mod Common
mod Aws
mod Tasks
mod Sizes
mod Clouds
mod Cd
mod Scaleway
mod Builds
mod Logs
mod Scw
mod Config
use pulumi_defang.Prelude.{
  Text, codes, Map, List, [], ◌∷◌, Bool, true, false, Option, none, some, ℤ, pos, ℕ,
}
use pulumi_defang.Compose.Types.{
  ServiceConfig, Services, ServiceDependency, ServicePortConfig, DependsOnConfig, PostgresConfig,
  Networks, ServiceNetworkConfig, NetworkConfig, port_mode_ingress, port_mode_host,
  port_protocol_udp, default_network,
}

-- A service of an image with nothing else set.
abbrev pub bare : ServiceConfig
bare = record {
  build = none;
  image = none;
  platform = none;
  ports = [];
  deploy = none;
  environment = [];
  command = [];
  entrypoint = [];
  postgres = none;
  redis = none;
  object_store = none;
  restart = [];
  health_check = none;
  domain_name = [];
  networks = [];
  depends_on = [];
  llm = none;
  container_name = none;
  stop_grace_period = none;
  volumes = [];
  volumes_from = [];
  working_dir = none;
  network_mode = [];
  autoscaling = false;
  policies = [];
  aliases = [];
}

abbrev pub port_of : ℕ → Text → Text → ServicePortConfig
port_of target mode protocol = record {
  target = pos target;
  mode = mode;
  protocol = protocol;
  app_protocol = [];
  listener = [];
}

abbrev pub needs : List Text → DependsOnConfig
needs [] = []
needs (name ∷ names) =
    (name, record { condition = codes "service_started"; required = true }) ∷ needs names

abbrev pub service_of : List ServicePortConfig → List Text → Text → ServiceConfig
service_of ports deps mode = record bare {
  ports = ports;
  depends_on = needs deps;
  network_mode = mode;
}

abbrev pub web_ports : List ServicePortConfig
web_ports = port_of 80 port_mode_ingress [] ∷ []

abbrev pub game_ports : List ServicePortConfig
game_ports = port_of 7777 port_mode_ingress port_protocol_udp ∷ port_of 80 port_mode_ingress [] ∷ []

-- A web server with a log shipper beside it, and the service that both wait for.
abbrev pub shop : Services
shop =
    (codes "web", service_of web_ports (codes "api" ∷ []) [])
    ∷ (codes "log", service_of [] (codes "web" ∷ codes "queue" ∷ []) (codes "service:web"))
    ∷ (codes "api", service_of [] (codes "queue" ∷ []) [])
    ∷ (codes "queue", bare)
    ∷ []

abbrev pub two_networks : Networks
two_networks =
    (default_network, record { internal = false })
    ∷ (codes "private", record { internal = true })
    ∷ []

abbrev pub on_default : ServiceConfig
on_default = record bare {
  networks = (default_network, record { aliases = [] }) ∷ [];
  ports = port_of 8080 port_mode_host [] ∷ [];
}
