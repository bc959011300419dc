-- ===== src/Compose/Ports/Normalize.antt =====
-- provider/compose/helpers.go: what UDPIngressAsHost does to the ports of every service.
use pulumi_defang.Prelude.{
  text_eq, any, map, List, [], ◌∷◌, Bool, not, ◌||◌, ◌&&◌, Option, none, some, ◌≡◌, refl, ap, arith,
}
use pulumi_defang.Compose.Types.{ServicePortConfig, ServiceConfig, Services, port_protocol_udp}
use pulumi_defang.Compose.Ports.{
  is_ingress, is_host, get_protocol, has_ingress_ports, has_host_ports, udp_port_as_host,
  udp_service_as_host, udp_services_as_host, udp_ingress_as_host,
}

abbrev pub is_udp : ServicePortConfig → Bool
is_udp p = text_eq (get_protocol p) port_protocol_udp

udp_port_as_host-ingress :
    (p : ServicePortConfig) → is_ingress (udp_port_as_host p) ≡ is_ingress p && not (is_udp p)
unfolding udp_port_as_host is_ingress get_protocol
udp_port_as_host-ingress p = ground arith

udp_port_as_host-host :
    (p : ServicePortConfig) → is_host (udp_port_as_host p) ≡ is_host p || (is_ingress p && is_udp p)
unfolding udp_port_as_host is_ingress is_host get_protocol
udp_port_as_host-host p = ground arith

udp_port_as_host_idem :
    (p : ServicePortConfig) → udp_port_as_host (udp_port_as_host p) ≡ udp_port_as_host p
unfolding udp_port_as_host is_ingress get_protocol
udp_port_as_host_idem p = ground arith

any-map :
    (f : ServicePortConfig → ServicePortConfig) (q r : ServicePortConfig → Bool)
    → ((p : ServicePortConfig) → q (f p) ≡ r p)
    → (ps : List ServicePortConfig) → any q (map f ps) ≡ any r ps
any-map f q r h [] = refl
any-map f q r h (p ∷ ps) = λ i. h p i || any-map f q r h ps i

-- Of a normalised service, the ingress ports are the ingress ports that are not UDP, and the host
-- ports are the host ports and the UDP ingress ports that it had.
pub udp_service_as_host-ports :
    (s : ServiceConfig)
    → (has_ingress_ports (udp_service_as_host s)
        ≡ any (λ p. is_ingress p && not (is_udp p)) s.ports)
      × (has_host_ports (udp_service_as_host s)
          ≡ any (λ p. is_host p || (is_ingress p && is_udp p)) s.ports)
unfolding has_ingress_ports has_host_ports udp_service_as_host
udp_service_as_host-ports s = (
  any-map udp_port_as_host is_ingress _ udp_port_as_host-ingress s.ports,
  any-map udp_port_as_host is_host _ udp_port_as_host-host s.ports,
)

map_idem :
    (ps : List ServicePortConfig)
    → map udp_port_as_host (map udp_port_as_host ps) ≡ map udp_port_as_host ps
map_idem [] = refl
map_idem (p ∷ ps) = λ i. udp_port_as_host_idem p i ∷ map_idem ps i

udp_services_as_host_idem :
    (m : Services) → udp_services_as_host (udp_services_as_host m) ≡ udp_services_as_host m
unfolding udp_services_as_host udp_service_as_host
udp_services_as_host_idem [] = refl
udp_services_as_host_idem ((name, s) ∷ rest) =
    λ i. (name, record s { ports = map_idem s.ports i }) ∷ udp_services_as_host_idem rest i

-- Normalising twice is normalising once, the nil map included.
pub udp_ingress_as_host_idem :
    (m : Option Services) → udp_ingress_as_host (udp_ingress_as_host m) ≡ udp_ingress_as_host m
unfolding udp_ingress_as_host
udp_ingress_as_host_idem none = refl
udp_ingress_as_host_idem (some m) = ap some (udp_services_as_host_idem m)
