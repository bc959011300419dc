-- ===== src/Common/Dns.antt =====
-- provider/common/dns.go: names of hosts, labels and zones. Texts are ASCII.
pub mod Laws
pub mod Zones
use pulumi_defang.Prelude.{
  Text, codes, to_lower, trim_right, replace_byte, contains_byte, cut_prefix, is_empty, text_eq,
  lookup, List, [], ◌∷◌, ◌++◌, Bool, true, false, not, ◌||◌, ◌&&◌, Option, none, some, ◌==◌,
  if◌then◌else◌, ℕ, or_else, cut, Map,
}
use pulumi_defang.Compose.Types.{ServiceConfig, ServiceNetworkConfig, default_network}
use pulumi_defang.Compose.Ports.{has_ingress_ports, has_host_ports}

abbrev pub dot : ℕ
dot = b'.'

abbrev pub hyphen : ℕ
hyphen = b'-'

unfoldable pub normalize_dns : Text → Text
normalize_dns name = to_lower (trim_right (λ c. c == dot) name)

-- record_type is the type's name, such as "A".
unfoldable pub dns_record_logical_name : Text → Text → Text
dns_record_logical_name name record_type = normalize_dns name ++ b'_' ∷ record_type

unfoldable pub safe_label : Text → Text
safe_label name = replace_byte dot hyphen (to_lower name)

unfoldable pub service_label : Text → Text
unfolding safe_label
service_label name = safe_label (replace_byte b'_' hyphen name)

unfoldable pub service_fqdn : Text → ServiceConfig → Text → Text → Text
service_fqdn service_name svc public_domain private_domain =
    if not (is_empty svc.domain_name)
    then svc.domain_name
    else if has_ingress_ports svc && not (is_empty public_domain)
    then service_label service_name ++ dot ∷ public_domain
    else if has_host_ports svc && not (is_empty private_domain)
    then service_label service_name ++ dot ∷ private_domain
    else []

abbrev pub wildcard_prefix : Text
wildcard_prefix = codes "*."

abbrev cut_is_named : Option Text → Bool
cut_is_named none = false
cut_is_named (some base) = not (is_empty base)

unfoldable pub is_wildcard_host : Text → Bool
is_wildcard_host hostname = cut_is_named (cut_prefix wildcard_prefix hostname)

-- ServiceConfig.DefaultNetwork: the zero value for a service that is not in the default network.
unfoldable pub default_network_config : ServiceConfig → ServiceNetworkConfig
default_network_config s = or_else (lookup default_network s.networks) (record { aliases = [] })

unfoldable pub byod_hostnames : ServiceConfig → List Text
byod_hostnames svc =
    if is_empty svc.domain_name then [] else svc.domain_name ∷ (default_network_config svc).aliases

-- What stands behind the first dot, or the whole text where there is no dot: hostname[dot+1:].
abbrev behind_dot : Text → Option (Text × Text) → Text
behind_dot hostname none = hostname
behind_dot hostname (some (before, after)) = after

-- Whether the rest holds a dot that is not the last byte of the host name.
abbrev zone_of : Text → Text → Option (Text × Text) → Text
zone_of hostname rest none = hostname
zone_of hostname rest (some (before, after)) = if is_empty after then hostname else rest

unfoldable pub get_zone_name : Text → Text
get_zone_name hostname =
    let rest = behind_dot hostname (cut dot hostname) in zone_of hostname rest (cut dot rest)
