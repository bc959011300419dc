-- ===== src/Compose/Ports.antt =====
-- provider/compose/helpers.go and types.go: the ports of a service, and the rewriting of UDP
-- ingress ports to host mode at the project boundary.
pub mod Normalize
use pulumi_defang.Prelude.{
  Text, text_eq, is_empty, any, map, [], ◌∷◌, Bool, ◌||◌, ◌&&◌, Option, none, some, if◌then◌else◌,
}
use pulumi_defang.Compose.Types.{
  ServicePortConfig, ServiceConfig, Services, port_mode_host, port_mode_ingress, port_protocol_tcp,
  port_protocol_udp, port_app_protocol_http,
}

unfoldable pub is_ingress : ServicePortConfig → Bool
is_ingress p = text_eq p.mode port_mode_ingress || is_empty p.mode

unfoldable pub is_host : ServicePortConfig → Bool
is_host p = text_eq p.mode port_mode_host

unfoldable pub get_protocol : ServicePortConfig → Text
get_protocol p = if is_empty p.protocol then port_protocol_tcp else p.protocol

unfoldable pub get_app_protocol : ServicePortConfig → Text
get_app_protocol p = if is_empty p.app_protocol then port_app_protocol_http else p.app_protocol

unfoldable pub has_ingress_ports : ServiceConfig → Bool
has_ingress_ports s = any is_ingress s.ports

unfoldable pub has_host_ports : ServiceConfig → Bool
has_host_ports s = any is_host s.ports

-- The body of the loop over the ports of the copied slice.
unfoldable pub udp_port_as_host : ServicePortConfig → ServicePortConfig
udp_port_as_host port =
    if text_eq (get_protocol port) port_protocol_udp && is_ingress port
    then record port { mode = port_mode_host }
    else port

unfoldable pub udp_service_as_host : ServiceConfig → ServiceConfig
udp_service_as_host service = record service { ports = map udp_port_as_host service.ports }

udp_services_as_host : Services → Services
udp_services_as_host [] = []
udp_services_as_host ((name, service) ∷ rest) =
    (name, udp_service_as_host service) ∷ udp_services_as_host rest

-- `none` is the nil map.
unfoldable pub udp_ingress_as_host : Option Services → Option Services
unfolding udp_services_as_host
udp_ingress_as_host none = none
udp_ingress_as_host (some services) = some (udp_services_as_host services)
