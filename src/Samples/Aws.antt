-- ===== src/Samples/Aws.antt =====
-- Fargate sizes, sidecars and the apex service on small inputs.
use mathlib.Core.List.{Perm, Permᴰ}
use pulumi_defang.Prelude.{
  codes, lookup, [], ◌∷◌, false, none, some, ◌≡◌, ◌↔◌, refl, ok, All, pos, IsMap, arith,
}
use pulumi_defang.Compose.Types.{ServiceConfig, Services}
use pulumi_defang.Aws.Fargate.{fixup_fargate_cpu, fargate_resources, panicked}
use pulumi_defang.Aws.Fargate.Tiers.{Fits}
use pulumi_defang.Aws.Fargate.Fits.{fargate_resources_fit}
use pulumi_defang.Aws.Fargate.Panics.{fargate_resources_panics}
use pulumi_defang.Aws.Sidecars.{
  Groups, partition_sidecars, sidecar_parent, parent_error, is_managed_service, add_sidecar,
  fold_sidecar_deps,
}
use pulumi_defang.Aws.Sidecars.Partition.{
  in_group, IsPlaceable, Succeeds, partition_sidecars-lookup, partition_sidecars_iff,
}
use pulumi_defang.Aws.Sidecars.Fold.{depends, first_some, group_offer, depends-fold_sidecar_deps}
use pulumi_defang.Aws.Apex.{apex_service_name}
use pulumi_defang.Aws.Apex.AnyOrder.{tally, sole_owner, apex_service_name-tally}
use pulumi_defang.Samples.{bare, service_of, web_ports, shop}

-- 0.5 vCPU, so an exponent of 9, and 20 GiB.
fargate_resources_fit_example :
    Fits (fixup_fargate_cpu false (pos 9)) (pos 20480) (fargate_resources false (pos 9) (pos 20480))
fargate_resources_fit_example = fargate_resources_fit false (pos 9) (pos 20480) refl

fargate_resources_panics_example : fargate_resources false (pos 9) (pos 131072) ≡ panicked
fargate_resources_panics_example = fargate_resources_panics false (pos 9) (pos 131072) refl

abbrev standalone : Services
standalone =
    (codes "web", service_of web_ports (codes "api" ∷ []) [])
    ∷ (codes "api", service_of [] (codes "queue" ∷ []) [])
    ∷ (codes "queue", bare)
    ∷ []

abbrev shipper : ServiceConfig
shipper = service_of [] (codes "web" ∷ codes "queue" ∷ []) (codes "service:web")

abbrev sidecars : Groups
sidecars = (codes "web", (codes "log", shipper) ∷ []) ∷ []

partition_shop : partition_sidecars shop ≡ ok (standalone, sidecars)
unfolding partition_sidecars sidecar_parent parent_error is_managed_service add_sidecar
partition_shop = refl

shop-IsMap : IsMap shop
shop-IsMap = ground arith

partition_sidecars-lookup_example :
    (lookup (codes "log") standalone ≡ none)
    × (in_group sidecars (codes "web") (codes "log") ≡ some shipper)
unfolding sidecar_parent
partition_sidecars-lookup_example =
    partition_sidecars-lookup shop standalone sidecars (codes "log") (codes "web") shop-IsMap
      partition_shop

partition_sidecars_iff_example :
    Succeeds (partition_sidecars shop) ↔ All (λ e. IsPlaceable shop (e.1)) shop
partition_sidecars_iff_example = partition_sidecars_iff shop

sidecars-IsMap : IsMap sidecars
sidecars-IsMap = ground arith

depends-fold_sidecar_deps_example :
    depends (codes "queue") (lookup (codes "web") (fold_sidecar_deps standalone sidecars))
    ≡ first_some
        (lookup (codes "queue") ((service_of web_ports (codes "api" ∷ []) []).depends_on))
        (group_offer (codes "web") (codes "queue") (lookup (codes "web") sidecars))
depends-fold_sidecar_deps_example =
    depends-fold_sidecar_deps standalone sidecars (codes "web") (codes "queue")
      (service_of web_ports (codes "api" ∷ []) []) sidecars-IsMap refl

apex_service_name-tally_example : apex_service_name shop ≡ sole_owner (tally shop)
apex_service_name-tally_example = apex_service_name-tally shop

abbrev other_order : Services
other_order = (codes "b", service_of web_ports [] []) ∷ (codes "a", bare) ∷ []

abbrev one_order : Services
one_order = (codes "a", bare) ∷ (codes "b", service_of web_ports [] []) ∷ []

swapped : Perm one_order other_order
swapped = ∣ Permᴰ.swap refl refl ∣₁
