-- ===== src/Common/Networks.antt =====
-- provider/common/algo.go: which services take traffic from the internet, which networks they are
-- in, and whether they may reach out.
pub mod Laws
use pulumi_defang.Prelude.{
  Text, Map, lookup, has_key, List, [], ◌∷◌, Bool, true, false, not, ◌||◌, ◌&&◌, Option, none, some,
  is_some, if◌then◌else◌,
}
use pulumi_defang.Compose.Types.{
  Networks, NetworkConfig, ServiceNetworkConfig, ServiceConfig, Services, default_network,
}
use pulumi_defang.Compose.Ports.{has_ingress_ports, has_host_ports}

unfoldable pub is_managed_service : ServiceConfig → Bool
is_managed_service s = is_some s.postgres || is_some s.redis

unfoldable pub need_ingress : Services → Bool
need_ingress [] = false
need_ingress ((name, svc) ∷ rest) =
    (has_ingress_ports svc && not (is_some svc.postgres) && not (is_some svc.redis))
    || need_ingress rest

-- A missing key reads as the zero value, which is not internal.
abbrev internal_or_zero : Option NetworkConfig → Bool
internal_or_zero none = false
internal_or_zero (some n) = n.internal

unfoldable pub is_network_internal : Networks → Text → Bool
is_network_internal networks id = internal_or_zero (lookup id networks)

abbrev pub is_nil {ℓ} : {V : Type ℓ} → Map V → Bool
is_nil [] = true
is_nil (e ∷ m) = false

unfoldable pub accept_public_traffic : Networks → ServiceConfig → Bool
accept_public_traffic networks service =
    let in_default_network = has_key default_network service.networks || is_nil service.networks in
    in_default_network
    && not (is_network_internal networks default_network)
    && has_host_ports service

unfoldable pub in_public_network : Networks → ServiceConfig → Bool
in_public_network networks service =
    let in_default_network = has_key default_network service.networks in
    if is_nil networks
    then in_default_network || is_nil service.networks
    else in_default_network && not (is_network_internal networks default_network)

-- The switch on the number of the service's networks.
private_by_networks : Map ServiceNetworkConfig → Bool → Bool
private_by_networks [] public = false
private_by_networks (n ∷ []) public = not public
private_by_networks (n ∷ o ∷ ns) public = true

unfoldable pub in_private_network : Networks → ServiceConfig → Bool
unfolding private_by_networks
in_private_network networks service =
    private_by_networks service.networks (in_public_network networks service)

some_not_internal : Networks → Map ServiceNetworkConfig → Bool
some_not_internal networks [] = false
some_not_internal networks ((n, c) ∷ ns) =
    not (is_network_internal networks n) || some_not_internal networks ns

unfoldable pub allow_egress : Networks → ServiceConfig → Bool
unfolding some_not_internal
allow_egress networks service =
    some_not_internal networks service.networks || is_nil service.networks

unfoldable pub is_project_using_llm : Services → Bool
is_project_using_llm [] = false
is_project_using_llm ((name, svc) ∷ rest) = is_some svc.llm || is_project_using_llm rest
