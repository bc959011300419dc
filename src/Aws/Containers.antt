-- ===== src/Aws/Containers.antt =====
-- provider/defangaws/aws/ecs.go, naming.go and lb.go: the parts of an ECS container definition, and the
-- timing of a target group's health check. An int32 is an integer; the values are clamped.
pub mod Bounds
pub mod Names
use pulumi_defang.Prelude.{
  Text, codes, text_eq, is_empty, split, Map, lookup, List, [], ◌∷◌, ◌++◌, map, Bool, true, false,
  Option, none, some, or_else, if◌then◌else◌, ℤ, pos, negsuc, lebℤ, ltbℤ, minℤ, maxℤ, zero, suc,
}
use pulumi_defang.Compose.Types.{
  ServicePortConfig, port_protocol_udp, ServiceVolumeConfig, ServiceConfig, Services,
  HealthCheckConfig, DependsOnConfig,
}
use pulumi_defang.Compose.Ports.{get_protocol}
use pulumi_defang.Compose.Sizes.{get_container_name, get_stop_grace_period_seconds}
use pulumi_defang.Common.Maps.{sorted}

abbrev is_zero : ℤ → Bool
is_zero (pos zero) = true
is_zero (pos (suc n)) = false
is_zero (negsuc n) = false

unfoldable pub clamp_int : (val minimum maximum fallback : ℤ) → ℤ
clamp_int val minimum maximum fallback =
    if is_zero val then fallback else minℤ (maxℤ val minimum) maximum

pub data TransportProtocol : Type 0 where
  transport_tcp transport_udp : TransportProtocol

unfoldable pub port_protocol : ServicePortConfig → TransportProtocol
port_protocol p =
    if text_eq (get_protocol p) port_protocol_udp then transport_udp else transport_tcp

unfoldable pub qualified_container_name : Text → Text → Text
qualified_container_name name etag = if is_empty etag then name else name ++ b'_' ∷ etag

unfoldable pub ecs_service_resource_name : Text → Text → Text
ecs_service_resource_name project_name service_name =
    if is_empty project_name then service_name else project_name ++ b'_' ∷ service_name

-- The switch over the number of parts.
unfoldable pub volumes_from_parts : Text → List Text → Text × Bool
volumes_from_parts ref (container ∷ []) = (container, false)
volumes_from_parts ref (container ∷ access ∷ []) = (container, text_eq access (codes "ro"))
volumes_from_parts ref (kind ∷ container ∷ access ∷ []) = (container, text_eq access (codes "ro"))
volumes_from_parts ref parts = (ref, false)

unfoldable pub parse_volumes_from : Text → Text × Bool
parse_volumes_from ref = volumes_from_parts ref (split b':' ref)

pub record MountPoint : Type 0 where
  pub container_path : Text
  pub read_only : Bool
  pub source_volume : Text

abbrev mount_point : ServiceVolumeConfig → MountPoint
mount_point v = record {
  container_path = v.target;
  read_only = v.read_only;
  source_volume = v.source;
}

unfoldable pub build_mount_points : List ServiceVolumeConfig → List MountPoint
build_mount_points volumes = map mount_point volumes

pub record VolumeFrom : Type 0 where
  pub read_only : Bool
  pub source_container : Text

-- The name of the container that a service of the task runs in.
abbrev pub container_of : Services → Text → Text → Text
container_of sidecars etag source = elim (lookup source sidecars) [
  | none ↦ source
  | some sc ↦ qualified_container_name (get_container_name sc source) etag
]

abbrev volume_from : Services → Text → Text × Bool → VolumeFrom
volume_from sidecars etag (source, read_only) = record {
  read_only = read_only;
  source_container = container_of sidecars etag source;
}

unfoldable pub build_volumes_from : List Text → Services → Text → List VolumeFrom
build_volumes_from refs sidecars etag =
    map (λ ref. volume_from sidecars etag (parse_volumes_from ref)) refs

pub record HealthCheck : Type 0 where
  pub command : List Text
  pub interval : ℤ
  pub timeout : ℤ
  pub retries : ℤ
  pub start_period : Option ℤ

abbrev start_of : ℤ → Option ℤ
start_of start_period = if ltbℤ (pos 0) start_period then some start_period else none

abbrev pub check_of : HealthCheckConfig → HealthCheck
check_of hc = record {
  command = hc.test;
  interval = clamp_int hc.interval_seconds (pos 5) (pos 300) (pos 30);
  timeout = clamp_int hc.timeout_seconds (pos 2) (pos 60) (pos 5);
  retries = clamp_int hc.retries (pos 1) (pos 10) (pos 3);
  start_period = start_of (clamp_int hc.start_period_seconds (pos 0) (pos 300) (pos 0));
}

abbrev unless_empty : List Text → HealthCheck → Option HealthCheck
unless_empty [] h = none
unless_empty (t ∷ ts) h = some h

unfoldable pub build_health_check : Option HealthCheckConfig → Option HealthCheck
build_health_check none = none
build_health_check (some hc) = unless_empty hc.test (check_of hc)

abbrev pub capped : ℤ → Option ℤ
capped secs =
    if lebℤ secs (pos 0) then none else if ltbℤ (pos 120) secs then some (pos 120) else some secs

unfoldable pub build_stop_timeout : (Text → Option ℤ) → ServiceConfig → Option ℤ
build_stop_timeout parse_duration svc = capped (get_stop_grace_period_seconds parse_duration svc)

pub data ContainerCondition : Type 0 where
  condition_start condition_healthy condition_success : ContainerCondition

abbrev pub compose_to_ecs_conditions : Map ContainerCondition
compose_to_ecs_conditions =
    (codes "service_started", condition_start)
    ∷ (codes "service_healthy", condition_healthy)
    ∷ (codes "service_completed_successfully", condition_success)
    ∷ []

pub record ContainerDependency : Type 0 where
  pub container_name : Text
  pub condition : ContainerCondition

abbrev pub condition_of : Text → ContainerCondition
condition_of condition = or_else (lookup condition compose_to_ecs_conditions) condition_start

-- The loop over the dependencies in their order.
unfoldable pub depends_loop : Services → Text → DependsOnConfig → List ContainerDependency
depends_loop sidecars etag [] = []
depends_loop sidecars etag ((dep_name, dep) ∷ deps) =
    let rest = depends_loop sidecars etag deps in
    elim (lookup dep_name sidecars) [
      | none ↦ rest
      | some sc ↦
          record {
            container_name = qualified_container_name (get_container_name sc dep_name) etag;
            condition = condition_of dep.condition;
          }
          ∷ rest
    ]

unfoldable pub build_depends_on : DependsOnConfig → Services → Text → List ContainerDependency
build_depends_on depends_on sidecars etag = depends_loop sidecars etag (sorted depends_on)

-- n - 1
abbrev pub less_one : ℤ → ℤ
less_one (pos zero) = negsuc 0
less_one (pos (suc n)) = pos n
less_one (negsuc n) = negsuc (suc n)

abbrev pub interval_of : ℤ → Option HealthCheckConfig → ℤ
interval_of default_interval none = default_interval
interval_of default_interval (some hc) =
    clamp_int hc.interval_seconds (pos 5) (pos 300) default_interval

abbrev pub timeout_of : Option HealthCheckConfig → (max_timeout timeout : ℤ) → ℤ
timeout_of none max_timeout timeout = timeout
timeout_of (some hc) max_timeout timeout = clamp_int hc.timeout_seconds (pos 2) max_timeout timeout

-- The interval and the timeout.
unfoldable pub tg_health_check_timing : ℤ → Option HealthCheckConfig → ℤ × ℤ
tg_health_check_timing default_interval health_check =
    let interval = interval_of default_interval health_check in
    let max_timeout = if ltbℤ (pos 120) (less_one interval) then pos 120 else less_one interval in
    (interval, timeout_of health_check max_timeout (minℤ (maxℤ interval (pos 2)) max_timeout))
