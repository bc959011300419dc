-- ===== src/Compose/Types.antt =====
-- provider/compose/types.go: the types of a compose project. A pointer is an `Option`, a Go map is
-- a `Map`, an int32 is an integer, and a float64 is a finite value, mantissa * 2 ^ exponent.
use pulumi_defang.Prelude.{Text, codes, Map, ℤ, List, Bool, Option, ℕ}

pub record Float64 : Type 0 where
  pub mantissa : ℤ
  pub exponent : ℤ

-- pulumi.StringInput: a literal, or the Output of another resource, which stands by its handle.
pub data StringInput : Type 0 where
  literal : Text → StringInput
  output : ℕ → StringInput

abbrev pub default_network : Text
default_network = codes "default"

pub record NetworkConfig : Type 0 where
  pub internal : Bool

abbrev pub Networks : Type 0
Networks = Map NetworkConfig

pub record ServiceDependency : Type 0 where
  pub condition : Text
  pub required : Bool

abbrev pub DependsOnConfig : Type 0
DependsOnConfig = Map ServiceDependency

pub record ServiceNetworkConfig : Type 0 where
  pub aliases : List Text

abbrev pub port_mode_host : Text
port_mode_host = codes "host"

abbrev pub port_mode_ingress : Text
port_mode_ingress = codes "ingress"

abbrev pub port_protocol_tcp : Text
port_protocol_tcp = codes "tcp"

abbrev pub port_protocol_udp : Text
port_protocol_udp = codes "udp"

abbrev pub port_app_protocol_http : Text
port_app_protocol_http = codes "http"

pub record ServicePortConfig : Type 0 where
  pub target : ℤ
  pub mode : Text
  pub protocol : Text
  pub app_protocol : Text
  pub listener : Text

pub record ResourceConfig : Type 0 where
  pub cpus : Option Float64
  pub memory : Option Text

pub record Resources : Type 0 where
  pub reservations : Option ResourceConfig

pub record DeployConfig : Type 0 where
  pub replicas : Option ℤ
  pub resources : Option Resources

pub record BuildConfig : Type 0 where
  pub context : StringInput
  pub dockerfile : Option Text
  pub args : Map Text
  pub shm_size : Option Text
  pub target : Option Text
  pub platforms : List Text
  pub cache_from : List Text
  pub cache_to : List Text

pub record PostgresConfig : Type 0 where
  pub allow_downtime : Option Bool
  pub from_snapshot : Option Text

pub record RedisConfig : Type 0 where
  pub allow_downtime : Option Bool
  pub from_snapshot : Option Text

pub record ObjectStoreConfig : Type 0 where
  pub bucket : Text

pub data LlmConfig : Type 0 where
  llm_config : LlmConfig

pub record HealthCheckConfig : Type 0 where
  pub test : List Text
  pub interval_seconds : ℤ
  pub timeout_seconds : ℤ
  pub retries : ℤ
  pub start_period_seconds : ℤ

pub record ServiceVolumeConfig : Type 0 where
  pub source : Text
  pub target : Text
  pub read_only : Bool

-- A nil value stands for "KEY:" with no value.
abbrev pub Environment : Type 0
Environment = Map (Option StringInput)

pub record ServiceConfig : Type 0 where
  pub build : Option BuildConfig
  pub image : Option StringInput
  pub platform : Option Text
  pub ports : List ServicePortConfig
  pub deploy : Option DeployConfig
  pub environment : Environment
  pub command : List Text
  pub entrypoint : List Text
  pub postgres : Option PostgresConfig
  pub redis : Option RedisConfig
  pub object_store : Option ObjectStoreConfig
  pub restart : Text
  pub health_check : Option HealthCheckConfig
  pub domain_name : Text
  pub networks : Map ServiceNetworkConfig
  pub depends_on : DependsOnConfig
  pub llm : Option LlmConfig
  pub container_name : Option Text
  pub stop_grace_period : Option Text
  pub volumes : List ServiceVolumeConfig
  pub volumes_from : List Text
  pub working_dir : Option Text
  pub network_mode : Text
  pub autoscaling : Bool
  pub policies : List Text
  pub aliases : Map Text

abbrev pub Services : Type 0
Services = Map ServiceConfig

pub record Project : Type 0 where
  pub name : Text
  pub services : Services
  pub networks : Networks
