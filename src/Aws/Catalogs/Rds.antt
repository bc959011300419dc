-- ===== src/Aws/Catalogs/Rds.antt =====
-- provider/defangaws/aws/rds.go: the instance classes of RDS, and which of them a service gets.
use pulumi_defang.Prelude.{Text, codes, Map, List, [], ◌∷◌, ℤ}
use pulumi_defang.Aws.Catalogs.{Catalog, node, catalogs_of, choose}

abbrev pub burstable_node_types : Catalog
burstable_node_types =
    node "db.t4g.micro" 2 100 16
    ∷ node "db.t4g.small" 2 200 32
    ∷ node "db.t4g.medium" 2 400 65
    ∷ node "db.t4g.large" 2 800 129
    ∷ node "db.t4g.xlarge" 4 1600 258
    ∷ node "db.t4g.2xlarge" 8 3200 517
    ∷ node "db.t3.micro" 2 100 18
    ∷ node "db.t3.small" 2 200 36
    ∷ node "db.t3.medium" 2 400 72
    ∷ node "db.t3.large" 2 800 145
    ∷ node "db.t3.xlarge" 4 1600 290
    ∷ node "db.t3.2xlarge" 8 3200 579
    ∷ []

abbrev pub general_node_types : Catalog
general_node_types =
    node "db.m7g.large" 2 800 168
    ∷ node "db.m7g.xlarge" 4 1600 337
    ∷ node "db.m7g.2xlarge" 8 3200 674
    ∷ node "db.m7g.4xlarge" 16 6400 1348
    ∷ node "db.m7g.8xlarge" 32 12800 2696
    ∷ node "db.m7g.12xlarge" 48 19200 4044
    ∷ node "db.m7g.16xlarge" 64 25600 5392
    ∷ node "db.m6g.large" 2 800 159
    ∷ node "db.m6g.xlarge" 4 1600 318
    ∷ node "db.m6g.2xlarge" 8 3200 636
    ∷ node "db.m6g.4xlarge" 16 6400 1272
    ∷ node "db.m6g.8xlarge" 32 12800 2544
    ∷ node "db.m6g.12xlarge" 48 19200 3816
    ∷ node "db.m6g.16xlarge" 64 25600 5088
    ∷ node "db.m6i.large" 2 800 178
    ∷ node "db.m6i.xlarge" 4 1600 356
    ∷ node "db.m6i.2xlarge" 8 3200 712
    ∷ node "db.m6i.4xlarge" 16 6400 1424
    ∷ node "db.m6i.8xlarge" 32 12800 2848
    ∷ node "db.m6i.12xlarge" 48 19200 4272
    ∷ node "db.m6i.16xlarge" 64 25600 5696
    ∷ node "db.m6i.24xlarge" 96 38400 8544
    ∷ node "db.m6i.32xlarge" 128 51200 11392
    ∷ []

abbrev pub memory_optimized_node_types : Catalog
memory_optimized_node_types =
    node "db.r7g.large" 2 1600 239
    ∷ node "db.r7g.xlarge" 4 3200 478
    ∷ node "db.r7g.2xlarge" 8 6400 956
    ∷ node "db.r7g.4xlarge" 16 12800 1913
    ∷ node "db.r7g.8xlarge" 32 25600 3825
    ∷ node "db.r7g.12xlarge" 48 38400 5738
    ∷ node "db.r7g.16xlarge" 64 51200 7650
    ∷ node "db.r6g.large" 2 1600 225
    ∷ node "db.r6g.xlarge" 4 3200 450
    ∷ node "db.r6g.2xlarge" 8 6400 899
    ∷ node "db.r6g.4xlarge" 16 12800 1798
    ∷ node "db.r6g.8xlarge" 32 25600 3597
    ∷ node "db.r6g.12xlarge" 48 38400 5395
    ∷ node "db.r6g.16xlarge" 64 51200 7194
    ∷ node "db.r6i.large" 2 1600 250
    ∷ node "db.r6i.xlarge" 4 3200 500
    ∷ node "db.r6i.2xlarge" 8 6400 1000
    ∷ node "db.r6i.4xlarge" 16 12800 2000
    ∷ node "db.r6i.8xlarge" 32 25600 4000
    ∷ node "db.r6i.12xlarge" 48 38400 6000
    ∷ node "db.r6i.16xlarge" 64 51200 8000
    ∷ node "db.r6i.24xlarge" 96 76800 12000
    ∷ node "db.r6i.32xlarge" 128 102400 16000
    ∷ []

unfoldable pub node_type_catalogs : Map (List Catalog)
node_type_catalogs =
    (
      codes "burstable",
      burstable_node_types ∷ general_node_types ∷ memory_optimized_node_types ∷ [],
    )
    ∷ (codes "general", general_node_types ∷ memory_optimized_node_types ∷ [])
    ∷ (codes "memory-optimized", memory_optimized_node_types ∷ [])
    ∷ []

unfoldable pub rds_instance_class : (min_vcpu min_memory_mib : ℤ) → (node_type : Text) → Text
rds_instance_class min_vcpu min_memory_mib node_type =
    choose min_vcpu min_memory_mib (catalogs_of node_type_catalogs node_type) (codes "db.t4g.micro")
