-- ===== src/Aws/Catalogs/Cache.antt =====
-- provider/defangaws/aws/elasticache.go: the node types of ElastiCache, and which of them a service gets.
use pulumi_defang.Prelude.{Text, codes, Map, List, [], ◌∷◌, ℤ}
use pulumi_defang.Aws.Catalogs.{Catalog, node, catalogs_of, choose}

abbrev pub cache_burstable_node_types : Catalog
cache_burstable_node_types =
    node "cache.t4g.micro" 2 50 16
    ∷ node "cache.t4g.small" 2 137 32
    ∷ node "cache.t4g.medium" 2 309 65
    ∷ node "cache.t3.micro" 2 50 17
    ∷ node "cache.t3.small" 2 137 34
    ∷ node "cache.t3.medium" 2 309 68
    ∷ []

abbrev pub cache_general_small_node_types : Catalog
cache_general_small_node_types =
    node "cache.m7g.large" 2 638 158
    ∷ node "cache.m6g.large" 2 638 149
    ∷ node "cache.m5.large" 2 638 156
    ∷ node "cache.m4.large" 2 642 157
    ∷ []

abbrev pub cache_general_node_types : Catalog
cache_general_node_types =
    node "cache.m7g.large" 2 638 158
    ∷ node "cache.m7g.xlarge" 4 1293 315
    ∷ node "cache.m7g.2xlarge" 8 2604 629
    ∷ node "cache.m7g.4xlarge" 16 5226 1257
    ∷ node "cache.m7g.8xlarge" 32 10368 2514
    ∷ node "cache.m7g.12xlarge" 48 15712 3770
    ∷ node "cache.m7g.16xlarge" 64 20955 5028
    ∷ node "cache.m6g.large" 2 638 149
    ∷ node "cache.m6g.xlarge" 4 1293 297
    ∷ node "cache.m6g.2xlarge" 8 2604 593
    ∷ node "cache.m6g.4xlarge" 16 5226 1186
    ∷ node "cache.m6g.8xlarge" 32 10368 2372
    ∷ node "cache.m6g.12xlarge" 48 15712 3557
    ∷ node "cache.m6g.16xlarge" 64 20955 4743
    ∷ node "cache.m5.large" 2 638 156
    ∷ node "cache.m5.xlarge" 4 1293 311
    ∷ node "cache.m5.2xlarge" 8 2604 623
    ∷ node "cache.m5.4xlarge" 16 5226 1245
    ∷ node "cache.m5.12xlarge" 48 15712 3744
    ∷ node "cache.m5.24xlarge" 96 31432 7488
    ∷ node "cache.m4.large" 2 642 157
    ∷ node "cache.m4.xlarge" 4 1428 312
    ∷ node "cache.m4.2xlarge" 8 2970 624
    ∷ node "cache.m4.4xlarge" 16 6078 1246
    ∷ node "cache.m4.10xlarge" 40 15464 3113
    ∷ []

abbrev pub cache_memory_optimized_node_types : Catalog
cache_memory_optimized_node_types =
    node "cache.r7g.large" 2 1307 219
    ∷ node "cache.r7g.xlarge" 4 2632 437
    ∷ node "cache.r7g.2xlarge" 8 5282 873
    ∷ node "cache.r7g.4xlarge" 16 10581 1745
    ∷ node "cache.r7g.8xlarge" 32 20955 3491
    ∷ node "cache.r7g.12xlarge" 48 31777 5235
    ∷ node "cache.r7g.16xlarge" 64 41909 6981
    ∷ node "cache.r6g.large" 2 1307 206
    ∷ node "cache.r6g.xlarge" 4 2632 411
    ∷ node "cache.r6g.2xlarge" 8 5282 821
    ∷ node "cache.r6g.4xlarge" 16 10581 1642
    ∷ node "cache.r6g.8xlarge" 32 20955 3284
    ∷ node "cache.r6g.12xlarge" 48 31777 4925
    ∷ node "cache.r6g.16xlarge" 64 41909 6567
    ∷ node "cache.r5.large" 2 1307 216
    ∷ node "cache.r5.xlarge" 4 2632 431
    ∷ node "cache.r5.2xlarge" 8 5282 862
    ∷ node "cache.r5.4xlarge" 16 10581 1724
    ∷ node "cache.r5.12xlarge" 48 31777 5184
    ∷ node "cache.r5.24xlarge" 96 63561 10368
    ∷ node "cache.r4.large" 2 1230 228
    ∷ node "cache.r4.xlarge" 4 2505 455
    ∷ node "cache.r4.2xlarge" 8 5047 910
    ∷ node "cache.r4.4xlarge" 16 10138 1820
    ∷ node "cache.r4.8xlarge" 32 20326 3640
    ∷ node "cache.r4.16xlarge" 64 40700 7280
    ∷ []

abbrev pub cache_memory_optimized_data_tiering_node_types : Catalog
cache_memory_optimized_data_tiering_node_types =
    node "cache.r6gd.xlarge" 4 9933 781
    ∷ node "cache.r6gd.2xlarge" 8 19907 1560
    ∷ node "cache.r6gd.4xlarge" 16 39814 3120
    ∷ node "cache.r6gd.8xlarge" 32 79628 6240
    ∷ node "cache.r6gd.12xlarge" 48 119442 9358
    ∷ node "cache.r6gd.16xlarge" 64 159256 12477
    ∷ []

abbrev pub cache_network_optimized_node_types : Catalog
cache_network_optimized_node_types =
    node "cache.c7gn.large" 2 309 255
    ∷ node "cache.c7gn.xlarge" 4 638 509
    ∷ node "cache.c7gn.2xlarge" 8 1294 1018
    ∷ node "cache.c7gn.4xlarge" 16 2605 2037
    ∷ node "cache.c7gn.8xlarge" 32 5226 4073
    ∷ node "cache.c7gn.12xlarge" 48 7856 6110
    ∷ node "cache.c7gn.16xlarge" 64 10581 8147
    ∷ []

unfoldable pub cache_node_type_catalogs : Map (List Catalog)
cache_node_type_catalogs =
    (
      codes "burstable",
      cache_burstable_node_types ∷ cache_general_node_types ∷ cache_memory_optimized_node_types
          ∷ [],
    )
    ∷ (codes "general", cache_general_node_types ∷ cache_memory_optimized_node_types ∷ [])
    ∷ (codes "general-small", cache_general_small_node_types ∷ [])
    ∷ (codes "memory-optimized", cache_memory_optimized_node_types ∷ [])
    ∷ (
      codes "memory-optimized-with-data-tiering",
      cache_memory_optimized_data_tiering_node_types ∷ [],
    )
    ∷ (codes "network-optimized", cache_network_optimized_node_types ∷ [])
    ∷ []

unfoldable pub cache_node_type : (min_vcpu min_memory_mib : ℤ) → (node_type : Text) → Text
cache_node_type min_vcpu min_memory_mib node_type =
    choose min_vcpu min_memory_mib (catalogs_of cache_node_type_catalogs node_type)
      (codes "cache.t4g.micro")
