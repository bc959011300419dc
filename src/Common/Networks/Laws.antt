-- ===== src/Common/Networks/Laws.antt =====
-- provider/common/algo.go: how the network tests of a service relate.
use pulumi_defang.Prelude.{
  Map, has_key, [], ◌∷◌, true, false, ◌||◌, ◌&&◌, ◌≡◌, ◌≢◌, refl, ◌⊎◌, text_eq_iff, arith, ◌↔◌,
}
use pulumi_defang.Compose.Types.{Networks, ServiceNetworkConfig, ServiceConfig, default_network}
use pulumi_defang.Compose.Ports.{has_host_ports}
use pulumi_defang.Common.Networks.{
  is_network_internal, is_nil, accept_public_traffic, in_public_network, in_private_network,
  some_not_internal, allow_egress,
}

-- Once the default network has been added to the services that name none, or where the project
-- has no networks section, a service accepts public traffic exactly if it is in the public network
-- and has a host port.
pub accept_public_traffic-eq-in_public_network :
    (networks : Networks) (service : ServiceConfig)
    → (networks ≡ []) ⊎ (service.networks ≢ [])
    → accept_public_traffic networks service
      ≡ in_public_network networks service && has_host_ports service
unfolding accept_public_traffic in_public_network is_network_internal
accept_public_traffic-eq-in_public_network [] service h = ground arith
accept_public_traffic-eq-in_public_network (n ∷ ns) service h = ground arith

some_not_internal_of_has_key :
    (networks : Networks) (ns : Map ServiceNetworkConfig)
    → has_key default_network ns ≡ true
    → is_network_internal networks default_network ≡ false
    → some_not_internal networks ns ≡ true
unfolding some_not_internal
some_not_internal_of_has_key networks [] h e = cc
some_not_internal_of_has_key networks ((n, c) ∷ ns) h e =
    ground (arith, text_eq_iff n default_network, some_not_internal_of_has_key networks ns)

some_not_internal-nil :
    (ns : Map ServiceNetworkConfig) → (some_not_internal [] ns || is_nil ns) ≡ true
unfolding some_not_internal is_network_internal
some_not_internal-nil [] = refl
some_not_internal-nil ((n, c) ∷ ns) = refl

-- A service in the public network may reach out.
pub allow_egress_of_in_public_network :
    (networks : Networks) (service : ServiceConfig)
    → in_public_network networks service ≡ true
    → allow_egress networks service ≡ true
unfolding in_public_network allow_egress
allow_egress_of_in_public_network [] service h = some_not_internal-nil service.networks
allow_egress_of_in_public_network (n ∷ ns) service h =
    ground (arith, some_not_internal_of_has_key (n ∷ ns) service.networks)

-- A service is in neither the public nor the private network exactly if it names no network while
-- the project has some.
pub in_no_network_iff :
    (networks : Networks) (service : ServiceConfig)
    → ((in_public_network networks service || in_private_network networks service) ≡ false)
      ↔ ((service.networks ≡ []) × (networks ≢ []))
unfolding in_private_network in_public_network
in_no_network_iff [] service = ground arith
in_no_network_iff (n ∷ ns) service = ground arith
