-- ===== src/Scaleway/Databases.antt =====
-- provider/defangscaleway/scaleway/postgres.go and redis.go: the node types, versions and addresses
-- of managed databases. The CPUs of a reservation are rounded up to an integer, which is compared
-- as the float64 is. The versions of blang/semver are a parameter.
pub mod Versions
pub mod Fits
use pulumi_defang.Prelude.{
  any, ◌==◌, Text, codes, to_lower, equal_fold, text_eq, is_empty, cut, cut_prefix, contains_byte,
  Map, lookup, has_key, List, [], ◌∷◌, ◌++◌, Bool, true, false, not, ◌&&◌, ◌||◌, Option, none, some,
  Result, ok, err, or_else, is_some, if◌then◌else◌, ℤ, pos, negsuc, lebℤ, ltbℤ, ℕ, decimal,
}

-- GetPostgresVersion gives 0 where there is none.
unfoldable pub postgres_engine : ℤ → Text
postgres_engine (negsuc n) = codes "PostgreSQL-17"
postgres_engine (pos n) =
    if any (λ m. n == m) (14 ∷ 15 ∷ 16 ∷ 17 ∷ [])
    then codes "PostgreSQL-" ++ decimal n
    else codes "PostgreSQL-17"

pub record PostgresNode : Type 0 where
  pub name : Text
  pub vcpus : ℕ
  pub mem_mib : ℕ
  pub ha_required : Bool

abbrev pub pg_node : Text → ℕ → ℕ → Bool → PostgresNode
pg_node name vcpus mem_mib ha_required = record {
  name = name;
  vcpus = vcpus;
  mem_mib = mem_mib;
  ha_required = ha_required;
}

abbrev pub postgres_dev_nodes : List PostgresNode
postgres_dev_nodes =
    pg_node (codes "DB-DEV-S") 2 2048 false
    ∷ pg_node (codes "DB-DEV-M") 3 4096 false
    ∷ pg_node (codes "DB-DEV-L") 4 8192 false
    ∷ pg_node (codes "DB-DEV-XL") 4 12288 false
    ∷ []

abbrev pub postgres_gp_nodes : List PostgresNode
postgres_gp_nodes =
    pg_node (codes "DB-GP-XS") 4 16384 false
    ∷ pg_node (codes "DB-GP-S") 8 32768 false
    ∷ pg_node (codes "DB-GP-M") 16 65536 false
    ∷ pg_node (codes "DB-GP-L") 32 131072 true
    ∷ pg_node (codes "DB-GP-XL") 48 262144 true
    ∷ []

abbrev pub any_nodes : List PostgresNode
any_nodes = postgres_dev_nodes ++ postgres_gp_nodes

unfoldable pub nodes_of_family : Text → List PostgresNode
nodes_of_family family =
    if text_eq (to_lower family) (codes "general") then postgres_gp_nodes else any_nodes

abbrev pub node_fits : (min_vcpus mem_mib : ℤ) → PostgresNode → Bool
node_fits min_vcpus mem_mib n = lebℤ min_vcpus (pos n.vcpus) && lebℤ mem_mib (pos n.mem_mib)

-- The loop, with the last node of the catalog at hand.
unfoldable pub first_node :
    (min_vcpus mem_mib : ℤ) → PostgresNode → List PostgresNode → PostgresNode
first_node min_vcpus mem_mib last [] = last
first_node min_vcpus mem_mib last (n ∷ nodes) =
    let rest = first_node min_vcpus mem_mib n nodes in
    if node_fits min_vcpus mem_mib n then n else rest

abbrev no_node : PostgresNode
no_node = pg_node [] 0 0 false

unfoldable pub postgres_node_type : (family : Text) → (min_vcpus mem_mib : ℤ) → PostgresNode
unfolding first_node nodes_of_family
postgres_node_type family min_vcpus mem_mib =
    first_node min_vcpus mem_mib no_node (nodes_of_family family)

-- The name that Scaleway reserves, in any case, becomes the default.
unfoldable pub postgres_name : (declared : Bool) → Text → Text
postgres_name declared name =
    if not declared || equal_fold name (codes "postgres") then codes "defang" else name

-- The private endpoint of an instance, and its public one behind it.
pub record PrivateEndpoint : Type 0 where
  pub hostname : Option Text
  pub ip : Option Text
  pub port : Option ℤ

abbrev pub filled_or : Option Text → Text → Text
filled_or none s = s
filled_or (some t) s = if is_empty t then s else t

unfoldable pub postgres_host : Option PrivateEndpoint → (endpoint_ip : Text) → Text
postgres_host none endpoint_ip = endpoint_ip
postgres_host (some e) endpoint_ip = filled_or e.hostname (filled_or e.ip endpoint_ip)

abbrev pub positive_or : ℤ → ℤ → ℤ
positive_or n m = if ltbℤ (pos 0) n then n else m

unfoldable pub postgres_port : Option PrivateEndpoint → (endpoint_port : ℤ) → ℤ
postgres_port none endpoint_port = positive_or endpoint_port (pos 5432)
postgres_port (some e) endpoint_port =
    positive_or (or_else e.port (pos 0)) (positive_or endpoint_port (pos 5432))

pub record RedisNode : Type 0 where
  pub name : Text
  pub mem_mib : ℕ

abbrev redis_node : Text → ℕ → RedisNode
redis_node name mem_mib = record { name = name; mem_mib = mem_mib }

abbrev pub redis_node_types : List RedisNode
redis_node_types =
    redis_node (codes "RED1-MICRO") 2048
    ∷ redis_node (codes "RED1-2XS") 4096
    ∷ redis_node (codes "RED1-XS") 8192
    ∷ redis_node (codes "RED1-S") 12288
    ∷ redis_node (codes "RED1-M") 16384
    ∷ redis_node (codes "RED1-L") 32768
    ∷ redis_node (codes "RED1-XL") 65536
    ∷ []

first_redis : ℤ → (last : Text) → List RedisNode → Text
first_redis mem_mib last [] = last
first_redis mem_mib last (n ∷ nodes) =
    let rest = first_redis mem_mib n.name nodes in
    if lebℤ mem_mib (pos n.mem_mib) then n.name else rest

unfoldable pub redis_node_type : ℤ → Text
unfolding first_redis
redis_node_type mem_mib = first_redis mem_mib [] redis_node_types

unfoldable pub redis_cluster_size : ℤ → ℤ
redis_cluster_size replicas =
    if lebℤ replicas (pos 1) then pos 1 else if lebℤ replicas (pos 2) then pos 2 else replicas

-- strings.TrimPrefix
abbrev trim_prefix : Text → Text → Text
trim_prefix p s = or_else (cut_prefix p s) s

-- What stands behind the last @.
after_at : Text → Text
after_at [] = []
after_at (c ∷ s) = let rest = after_at s in if contains_byte b'@' (c ∷ s) then rest else c ∷ s

before_slash : Text → Text
before_slash s = elim (cut b'/' s) [ none ↦ s | some (before, behind) ↦ before ]

unfoldable pub redis_address : Text → Text
unfolding after_at before_slash
redis_address s =
    before_slash (after_at (trim_prefix (codes "rediss://") (trim_prefix (codes "redis://") s)))

pub data VersionError : Type 0 where
  versions_unavailable version_too_old : VersionError
  unparsable : Text → VersionError

-- The versions of blang/semver: Parse, LT and String.
pub record Semver : Type 1 where
  pub Version : Type 0
  pub parse : Text → Option Version
  pub lt : Version → Version → Bool
  pub text_of : Version → Text

module _ (v : Semver) where
  unfoldable pub is_too_old : Option v.Version → v.Version → Bool
  is_too_old none parsed = false
  is_too_old (some requested) parsed = v.lt parsed requested

  -- The lower one is better where a version is requested, else the higher one.
  unfoldable pub is_better : Option v.Version → v.Version → Option v.Version → Bool
  is_better requested parsed none = true
  is_better none parsed (some best) = v.lt best parsed
  is_better (some requested) parsed (some best) = v.lt parsed best

  unfoldable pub keep_better : Option v.Version → Option v.Version → v.Version → Option v.Version
  unfolding is_too_old is_better
  keep_better requested best parsed =
      if is_too_old requested parsed
      then best
      else if is_better requested parsed best
      then some parsed
      else best

  unfoldable pub best_version :
      Option v.Version → Option v.Version → List Text → Result VersionError (Option v.Version)
  unfolding keep_better
  best_version requested best [] = ok best
  best_version requested best (entry ∷ catalog) = elim (v.parse entry) [
    | none ↦ err (unparsable entry)
    | some parsed ↦ best_version requested (keep_better requested best parsed) catalog
  ]

  unfoldable pub select_redis_version : Option v.Version → List Text → Result VersionError Text
  unfolding best_version
  select_redis_version requested [] = err versions_unavailable
  select_redis_version requested (entry ∷ catalog) =
      elim (best_version requested none (entry ∷ catalog)) [
        | err e ↦ err e
        | ok none ↦ err version_too_old
        | ok (some best) ↦ ok (v.text_of best)
      ]
