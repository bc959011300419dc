-- ===== src/Aws/Catalogs.antt =====
-- provider/defangaws/aws/rds.go, elasticache.go and memorydb.go: the choice of an instance type. A
-- GiB figure is in hundredths and a price in thousandths of a dollar, so both are exact; costEpsilon is
-- one of those. The minimum of CPUs is the rounded int(math.Ceil(minCPUs)).
pub mod Rds
pub mod Cache
pub mod MemoryDb
pub mod Cheapest
pub mod AnyOrder
use Prim.Native.String.{String}
use pulumi_defang.Prelude.{
  Text, codes, is_empty, Map, lookup, List, [], ◌∷◌, Bool, true, ◌&&◌, or_else, if◌then◌else◌, ℤ,
  pos, negsuc, lebℤ, ℕ, ◌*◌, leb,
}

pub record NodeInfo : Type 0 where
  pub vcpu : ℕ
  pub gib_hundredths : ℕ
  pub cost : ℕ

abbrev pub Catalog : Type 0
Catalog = Map NodeInfo

abbrev pub node : String → ℕ → ℕ → ℕ → Text × NodeInfo
node name vcpu gib_hundredths cost =
    (codes name, record { vcpu = vcpu; gib_hundredths = gib_hundredths; cost = cost })

pub record Entry : Type 0 where
  pub name : Text
  pub cost : ℕ

-- info.gib >= minMemoryMiB / 1024
abbrev pub enough_memory : ℤ → ℕ → Bool
enough_memory (negsuc n) gib_hundredths = true
enough_memory (pos mib) gib_hundredths = leb (mib * 100) (gib_hundredths * 1024)

unfoldable pub meets : (min_vcpu min_memory_mib : ℤ) → NodeInfo → Bool
meets min_vcpu min_memory_mib info =
    lebℤ min_vcpu (pos info.vcpu) && enough_memory min_memory_mib info.gib_hundredths

unfoldable pub matches_of : (min_vcpu min_memory_mib : ℤ) → Catalog → List Entry
matches_of min_vcpu min_memory_mib [] = []
matches_of min_vcpu min_memory_mib ((name, info) ∷ catalog) =
    let rest = matches_of min_vcpu min_memory_mib catalog in
    if meets min_vcpu min_memory_mib info
    then record { name = name; cost = info.cost } ∷ rest
    else rest

-- sort.Slice by cost. It is not stable, which makes no difference where no two costs are the same.
unfoldable pub insert_by_cost : Entry → List Entry → List Entry
insert_by_cost e [] = e ∷ []
insert_by_cost e (f ∷ entries) =
    let rest = insert_by_cost e entries in if leb e.cost f.cost then e ∷ f ∷ entries else f ∷ rest

unfoldable pub sort_by_cost : List Entry → List Entry
sort_by_cost [] = []
sort_by_cost (e ∷ entries) = insert_by_cost e (sort_by_cost entries)

abbrev pub first_name : List Entry → Text
first_name [] = []
first_name (e ∷ entries) = e.name

unfoldable pub cheapest_match : (min_vcpu min_memory_mib : ℤ) → Catalog → Text
cheapest_match min_vcpu min_memory_mib catalog =
    first_name (sort_by_cost (matches_of min_vcpu min_memory_mib catalog))

-- The catalogs of a node type; of one that is not known, those of "burstable".
unfoldable pub catalogs_of : Map (List Catalog) → Text → List Catalog
catalogs_of table node_type =
    or_else (lookup node_type table) (or_else (lookup (codes "burstable") table) [])

-- The loop over the catalogs; rds.go, elasticache.go and memorydb.go write it out each.
unfoldable pub choose : (min_vcpu min_memory_mib : ℤ) → List Catalog → (fallback : Text) → Text
choose min_vcpu min_memory_mib [] fallback = fallback
choose min_vcpu min_memory_mib (catalog ∷ catalogs) fallback =
    let rest = choose min_vcpu min_memory_mib catalogs fallback in
    let name = cheapest_match min_vcpu min_memory_mib catalog in
    if is_empty name then rest else name
