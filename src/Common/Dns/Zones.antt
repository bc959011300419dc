-- ===== src/Common/Dns/Zones.antt =====
-- provider/common/dns.go: normal forms of names, the FQDN of a service and the zone of a host.
use pulumi_defang.Prelude.{
  Text, to_lower, lower_byte, trim_right, keep_or_drop, is_empty, Lacks, cut-append, cut_of_Lacks,
  [], ◌∷◌, ◌++◌, Bool, true, false, ◌==◌, ◌≡◌, ◌≢◌, refl, ◌∙◌, ℕ, arith, ap, ◌↔◌,
}
use pulumi_defang.Compose.Types.{ServiceConfig}
use pulumi_defang.Compose.Ports.{has_ingress_ports, has_host_ports}
use pulumi_defang.Common.Dns.{
  dot, normalize_dns, dns_record_logical_name, service_fqdn, service_label, get_zone_name,
}

abbrev is_dot : ℕ → Bool
is_dot c = c == dot

lower_byte-dot : (c : ℕ) → is_dot (lower_byte c) ≡ is_dot c
lower_byte-dot c = ground arith

lower_byte_idem : (c : ℕ) → lower_byte (lower_byte c) ≡ lower_byte c
lower_byte_idem c = ground arith

keep_or_drop-to_lower :
    (c : ℕ) (s : Text)
    → keep_or_drop is_dot (lower_byte c) (to_lower s) ≡ to_lower (keep_or_drop is_dot c s)
keep_or_drop-to_lower c [] = ground (arith, lower_byte-dot c)
keep_or_drop-to_lower c (d ∷ s) = refl

trim_right-to_lower : (s : Text) → trim_right is_dot (to_lower s) ≡ to_lower (trim_right is_dot s)
trim_right-to_lower [] = refl
trim_right-to_lower (c ∷ s) =
    ap (keep_or_drop is_dot (lower_byte c)) (trim_right-to_lower s)
    ∙ keep_or_drop-to_lower c (trim_right is_dot s)

to_lower_idem : (s : Text) → to_lower (to_lower s) ≡ to_lower s
to_lower_idem [] = refl
to_lower_idem (c ∷ s) = λ i. lower_byte_idem c i ∷ to_lower_idem s i

keep_or_drop_dot : (s : Text) → trim_right is_dot (s ++ dot ∷ []) ≡ trim_right is_dot s
keep_or_drop_dot [] = refl
keep_or_drop_dot (c ∷ s) = ap (keep_or_drop is_dot c) (keep_or_drop_dot s)

-- The name of a DNS record is the same for every spelling of its FQDN: in capitals or not, with a
-- closing dot or without.
pub dns_record_logical_name_spelling :
    (name record_type : Text)
    → (dns_record_logical_name (to_lower name) record_type
        ≡ dns_record_logical_name name record_type)
      × (dns_record_logical_name (name ++ dot ∷ []) record_type
          ≡ dns_record_logical_name name record_type)
unfolding dns_record_logical_name normalize_dns
dns_record_logical_name_spelling name record_type = (
  rw (trim_right-to_lower name, to_lower_idem (trim_right is_dot name)),
  rw (keep_or_drop_dot name),
)

append-ne-nil : (s : Text) (c : ℕ) (t : Text) → (s ++ c ∷ t) ≢ []
append-ne-nil [] c t e = cc
append-ne-nil (d ∷ s) c t e = cc

abbrev pub Applies : Bool → Text → Type 0
Applies ports domain = (ports ≡ true) × (domain ≢ [])

is_empty-false : (s : Text) → s ≢ [] → is_empty s ≡ false
is_empty-false [] h = absurd (h refl)
is_empty-false (c ∷ s) h = refl

-- A service has no FQDN exactly if it has no domain name, no ingress port with a public domain to
-- put it under, and no host port with a private domain.
pub service_fqdn-nil_iff :
    (name : Text) (svc : ServiceConfig) (public private : Text)
    → (service_fqdn name svc public private ≡ []) ↔ (
        (svc.domain_name ≡ [])
        × (¬ Applies (has_ingress_ports svc) public)
        × (¬ Applies (has_host_ports svc) private))
unfolding service_fqdn
service_fqdn-nil_iff name svc [] [] = ground arith
service_fqdn-nil_iff name svc [] (d ∷ private) =
    ground (arith, append-ne-nil (service_label name) dot (d ∷ private))
service_fqdn-nil_iff name svc (c ∷ public) [] =
    ground (arith, append-ne-nil (service_label name) dot (c ∷ public))
service_fqdn-nil_iff name svc (c ∷ public) (d ∷ private) = ground (
  arith,
  append-ne-nil (service_label name) dot (c ∷ public),
  append-ne-nil (service_label name) dot (d ∷ private),
)

-- The zone of a host name of three labels or more is the name without its first label. A name of
-- two labels, with a closing dot or without, and a name of one label, are their own zones.
pub get_zone_name_labels :
    (label sub : Text) (c : ℕ) (rest : Text)
    → Lacks dot label
    → Lacks dot sub
    → (get_zone_name (label ++ dot ∷ (sub ++ dot ∷ c ∷ rest)) ≡ sub ++ dot ∷ c ∷ rest)
      × (get_zone_name (label ++ dot ∷ sub) ≡ label ++ dot ∷ sub)
      × (get_zone_name (label ++ dot ∷ (sub ++ dot ∷ [])) ≡ label ++ dot ∷ (sub ++ dot ∷ []))
      × (get_zone_name label ≡ label)
unfolding get_zone_name
get_zone_name_labels label sub c rest h k = (
  rw (cut-append dot label (sub ++ dot ∷ c ∷ rest) h, cut-append dot sub (c ∷ rest) k),
  rw (cut-append dot label sub h, cut_of_Lacks dot sub k),
  rw (cut-append dot label (sub ++ dot ∷ []) h, cut-append dot sub [] k),
  rw (cut_of_Lacks dot label h, cut_of_Lacks dot label h),
)
