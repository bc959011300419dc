-- ===== src/Samples/Tasks.antt =====
-- Instance types, containers and certificates on small inputs.
use pulumi_defang.Prelude.{codes, [], ◌∷◌, ◌++◌, some, ◌≡◌, inl, inr, refl, pos, negsuc, arith}
use pulumi_defang.Compose.Types.{HealthCheckConfig, Services}
use pulumi_defang.Aws.Catalogs.{Catalog, node, catalogs_of, cheapest_match}
use pulumi_defang.Aws.Catalogs.Rds.{node_type_catalogs, rds_instance_class}
use pulumi_defang.Aws.Catalogs.Cache.{cache_node_type_catalogs, cache_node_type}
use pulumi_defang.Aws.Catalogs.MemoryDb.{
  memory_db_node_type_catalogs, memory_db_node_type, memory_db_burstable_node_types,
}
use pulumi_defang.Aws.Catalogs.Cheapest.{IsChoice, instance_class-IsChoice}
use pulumi_defang.Aws.Catalogs.AnyOrder.{SameEntries, cheapest_match_any_order}
use pulumi_defang.Aws.Containers.{tg_health_check_timing}
use pulumi_defang.Aws.Containers.Bounds.{IsTiming, tg_health_check_timing-IsTiming}
use pulumi_defang.Aws.Certificates.{group_at, group_hostnames_by_cert}
use pulumi_defang.Aws.Certificates.Groups.{
  plain_names, wild_names, group_at-group_hostnames_by_cert,
}
use pulumi_defang.Samples.{bare}

instance_class-IsChoice_example :
    IsChoice
      (pos 4)
      (pos 20000)
      (catalogs_of node_type_catalogs (codes "general"))
      (codes "db.t4g.micro")
      (rds_instance_class (pos 4) (pos 20000) (codes "general"))
    × IsChoice
        (pos 4)
        (pos 20000)
        (catalogs_of cache_node_type_catalogs (codes "general"))
        (codes "cache.t4g.micro")
        (cache_node_type (pos 4) (pos 20000) (codes "general"))
    × IsChoice
        (pos 4)
        (pos 20000)
        (catalogs_of memory_db_node_type_catalogs (codes "general"))
        (codes "db.t4g.small")
        (memory_db_node_type (pos 4) (pos 20000) (codes "general"))
instance_class-IsChoice_example = instance_class-IsChoice (pos 4) (pos 20000) (codes "general")

abbrev turned : Catalog
turned = node "db.t4g.medium" 2 309 96 ∷ node "db.t4g.small" 2 137 48 ∷ []

turned-SameEntries : SameEntries memory_db_burstable_node_types turned
turned-SameEntries e = (
  λ h. elim h [ inl a ↦ inr (inl a) | inr (inl b) ↦ inl b | inr (inr c) ↦ absurd c ],
  λ h. elim h [ inl a ↦ inr (inl a) | inr (inl b) ↦ inl b | inr (inr c) ↦ absurd c ],
)

cheapest_match_any_order_example :
    cheapest_match (pos 2) (pos 1024) memory_db_burstable_node_types
    ≡ cheapest_match (pos 2) (pos 1024) turned
cheapest_match_any_order_example =
    cheapest_match_any_order (pos 2) (pos 1024) memory_db_burstable_node_types turned
      (inr (inr (inr (inr (inr (inr (inr (inr (inr (inl refl)))))))))) turned-SameEntries

abbrev eager : HealthCheckConfig
eager = record {
  test = codes "CMD" ∷ codes "true" ∷ [];
  interval_seconds = pos 5;
  timeout_seconds = pos 0;
  retries = pos 99;
  start_period_seconds = negsuc 3;
}

tg_health_check_timing-IsTiming_example : IsTiming (tg_health_check_timing (pos 30) (some eager))
tg_health_check_timing-IsTiming_example =
    tg_health_check_timing-IsTiming 30 (some eager) (omega arith)

abbrev task_sidecars : Services
task_sidecars = (codes "log", bare) ∷ []

group_at-group_hostnames_by_cert_example :
    group_at
      (codes "a.io")
      (group_hostnames_by_cert (codes "*.a.io" ∷ codes "a.io" ∷ codes "b.io" ∷ []))
    ≡ plain_names (codes "a.io") (codes "*.a.io" ∷ codes "a.io" ∷ codes "b.io" ∷ [])
      ++ wild_names (codes "a.io") (codes "*.a.io" ∷ codes "a.io" ∷ codes "b.io" ∷ [])
group_at-group_hostnames_by_cert_example =
    group_at-group_hostnames_by_cert (codes "a.io")
      (codes "*.a.io" ∷ codes "a.io" ∷ codes "b.io" ∷ [])
