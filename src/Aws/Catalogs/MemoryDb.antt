-- ===== src/Aws/Catalogs/MemoryDb.antt =====
-- provider/defangaws/aws/memorydb.go: the node types of MemoryDB, and which of them a service gets.
use pulumi_defang.Prelude.{Text, codes, Map, List, [], ◌∷◌, ℤ}
use pulumi_defang.Aws.Catalogs.{Catalog, node, catalogs_of, choose}

abbrev pub memory_db_burstable_node_types : Catalog
memory_db_burstable_node_types = node "db.t4g.small" 2 137 48 ∷ node "db.t4g.medium" 2 309 96 ∷ []

abbrev pub memory_db_memory_optimized_node_types : Catalog
memory_db_memory_optimized_node_types =
    node "db.r7g.large" 2 1307 412
    ∷ node "db.r7g.xlarge" 4 2632 824
    ∷ node "db.r7g.2xlarge" 8 5282 1648
    ∷ node "db.r7g.4xlarge" 16 10581 3297
    ∷ node "db.r7g.8xlarge" 32 20955 6594
    ∷ node "db.r7g.12xlarge" 48 31777 9890
    ∷ node "db.r7g.16xlarge" 64 41909 13188
    ∷ node "db.r6g.large" 2 1307 395
    ∷ node "db.r6g.xlarge" 4 2632 790
    ∷ node "db.r6g.2xlarge" 8 5282 1580
    ∷ node "db.r6g.4xlarge" 16 10581 3160
    ∷ node "db.r6g.8xlarge" 32 20955 6320
    ∷ node "db.r6g.12xlarge" 48 31777 9480
    ∷ node "db.r6g.16xlarge" 64 41909 12640
    ∷ []

unfoldable pub memory_db_node_type_catalogs : Map (List Catalog)
memory_db_node_type_catalogs =
    (codes "burstable", memory_db_burstable_node_types ∷ memory_db_memory_optimized_node_types ∷ [])
    ∷ (codes "memory-optimized", memory_db_memory_optimized_node_types ∷ [])
    ∷ []

unfoldable pub memory_db_node_type : (min_vcpu min_memory_mib : ℤ) → (node_type : Text) → Text
memory_db_node_type min_vcpu min_memory_mib node_type =
    choose min_vcpu min_memory_mib (catalogs_of memory_db_node_type_catalogs node_type)
      (codes "db.t4g.small")
