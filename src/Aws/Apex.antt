-- ===== src/Aws/Apex.antt =====
-- provider/defangaws/project.go: the service that serves the bare project domain.
pub mod AnyOrder
use pulumi_defang.Prelude.{Text, ℕ, ◌+◌, ◌==◌, List, [], ◌∷◌, if◌then◌else◌}
use pulumi_defang.Compose.Types.{ServicePortConfig, Services}
use pulumi_defang.Compose.Ports.{is_ingress}
use pulumi_defang.Aws.Sidecars.{is_managed_service}

-- The two variables of the loops.
pub record Count : Type 0 where
  pub owner : Text
  pub ingress_ports : ℕ

unfoldable pub count_ports : Text → List ServicePortConfig → Count → Count
count_ports name [] c = c
count_ports name (port ∷ ports) c =
    count_ports name ports
      (if is_ingress port then record { owner = name; ingress_ports = c.ingress_ports + 1 } else c)

unfoldable pub count_services : Services → Count → Count
unfolding count_ports
count_services [] c = c
count_services ((name, svc) ∷ services) c =
    count_services services (if is_managed_service svc then c else count_ports name svc.ports c)

unfoldable pub apex_service_name : Services → Text
unfolding count_services
apex_service_name services =
    let c = count_services services (record { owner = []; ingress_ports = 0 }) in
    if c.ingress_ports == 1 then c.owner else []
