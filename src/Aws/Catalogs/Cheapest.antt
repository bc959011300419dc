-- ===== src/Aws/Catalogs/Cheapest.antt =====
-- provider/defangaws/aws/rds.go: the entry chosen is the cheapest that is enough.
use pulumi_defang.Prelude.{
  Text, codes, is_empty, Map, lookup, List, [], ◌∷◌, true, false, ℤ, ◌≤◌, leb, Has, All, All_at,
  AllValues, lookup-AllValues, All-map, ◌≡◌, refl, sym, subst, ◌⊎◌, inl, inr, Bool-cases,
  Option-cases, arith,
}
use pulumi_defang.Aws.Catalogs.{
  NodeInfo, Catalog, Entry, meets, matches_of, insert_by_cost, sort_by_cost, cheapest_match,
  catalogs_of, choose,
}
use pulumi_defang.Aws.Catalogs.Rds.{node_type_catalogs, rds_instance_class}
use pulumi_defang.Aws.Catalogs.Cache.{cache_node_type_catalogs, cache_node_type}
use pulumi_defang.Aws.Catalogs.MemoryDb.{memory_db_node_type_catalogs, memory_db_node_type}

-- The head of a sorted list is one of its entries, and none costs less.
abbrev IsLeast : Entry → List Entry → Type 0
IsLeast f entries = Has f entries × All (λ g. f.cost ≤ g.cost) entries

sort_by_cost-IsLeast :
    (e : Entry) (entries : List Entry)
    → (f : Entry) × (rest : List Entry) × (sort_by_cost (e ∷ entries) ≡ f ∷ rest)
      × IsLeast f (e ∷ entries)
unfolding sort_by_cost insert_by_cost
sort_by_cost-IsLeast e [] = (e, [], refl, (inl refl, (omega arith, tt)))
sort_by_cost-IsLeast e (e' ∷ entries) =
    let (f, rest, sorted, (has, all)) = sort_by_cost-IsLeast e' entries in
    elim (Bool-cases (leb e.cost f.cost)) [
      | inl le ↦ (
        e,
        f ∷ rest,
        rw (sorted, insert_by_cost, le),
        (inl refl, (omega arith, All-map (e' ∷ entries) (λ g h. ground arith) all)),
      )
      | inr gt ↦ (
        f,
        insert_by_cost e rest,
        rw (sorted, insert_by_cost, gt),
        (inr has, (ground arith, all)),
      )
    ]

-- No entry has an empty name, which stands for no match.
abbrev pub Named : Catalog → Type 0
Named c = All (λ e. is_empty (e.0) ≡ false) c

module _ (v m : ℤ) where
  abbrev pub NoneMeets : Catalog → Type 0
  NoneMeets c = All (λ e. meets v m (e.1) ≡ false) c

  -- The name is that of an entry that is enough, and no entry that is enough costs less.
  abbrev pub IsCheapest : Catalog → Text → Type 0
  IsCheapest c name =
      (info : NodeInfo) × Has (name, info) c
      × (meets v m info ≡ true)
      × ((e : Text × NodeInfo) → Has e c → meets v m (e.1) ≡ true → info.cost ≤ (e.1).cost)

  -- The first catalog that has an entry that is enough decides.
  abbrev pub IsChoice : List Catalog → Text → Text → Type 0
  IsChoice [] fallback name = name ≡ fallback
  IsChoice (c ∷ cs) fallback name = IsCheapest c name ⊎ (NoneMeets c × IsChoice cs fallback name)

  Has-matches_of :
      (f : Entry) (c : Catalog)
      → Has f (matches_of v m c)
      → (info : NodeInfo) × Has (f.name, info) c × (meets v m info ≡ true) × (f.cost ≡ info.cost)
  unfolding matches_of
  Has-matches_of f [] h = absurd h
  Has-matches_of f ((n, i) ∷ c) h = elim (Bool-cases (meets v m i)) [
    | inl e ↦ elim (rw e at h) [
      | inl same ↦ (i, inl (λ k. ((same k).name, i)), e, λ k. (same k).cost)
      | inr later ↦
          let (info, has, ok, cost) = Has-matches_of f c later in (info, inr has, ok, cost)
    ]
    | inr e ↦
        let (info, has, ok, cost) = Has-matches_of f c (rw e at h) in (info, inr has, ok, cost)
  ]

  matches_of-Has :
      (n : Text) (info : NodeInfo) (c : Catalog)
      → Has (n, info) c
      → meets v m info ≡ true
      → Has (record { name = n; cost = info.cost }) (matches_of v m c)
  unfolding matches_of
  matches_of-Has n info [] h ok = absurd h
  matches_of-Has n info ((n', i) ∷ c) (inl same) ok =
      let e : meets v m i ≡ true = subst (λ x. meets v m (x.1) ≡ true) same ok in
      rw e (inl (λ k. record { name = (same k).0; cost = ((same k).1).cost }))
  matches_of-Has n info ((n', i) ∷ c) (inr later) ok = elim (Bool-cases (meets v m i)) [
    | inl e ↦ rw e (inr (matches_of-Has n info c later ok))
    | inr e ↦ rw e (matches_of-Has n info c later ok)
  ]

  NoneMeets-of_nil : (c : Catalog) → matches_of v m c ≡ [] → NoneMeets c
  unfolding matches_of
  NoneMeets-of_nil [] h = tt
  NoneMeets-of_nil ((n, i) ∷ c) h = elim (Bool-cases (meets v m i)) [
    | inl e ↦ cc (rw e at h)
    | inr e ↦ (e, NoneMeets-of_nil c (rw e at h))
  ]

  cheapest_match_cases :
      (c : Catalog) (entries : List Entry)
      → matches_of v m c ≡ entries
      → IsCheapest c (cheapest_match v m c) ⊎ (NoneMeets c × (cheapest_match v m c ≡ []))
  unfolding cheapest_match sort_by_cost
  cheapest_match_cases c [] h = inr (NoneMeets-of_nil c h, rw h refl)
  cheapest_match_cases c (e ∷ entries) h =
      let (f, rest, sorted, (here, least)) = sort_by_cost-IsLeast e entries in
      let named : cheapest_match v m c ≡ f.name = rw (h, sorted) refl in
      let (info, has, ok, cost) = Has-matches_of f c (subst (Has f) (sym h) here) in
      inl (
        subst (IsCheapest c) (sym named) (
          info,
          has,
          ok,
          λ x hx okx.
              let le : f.cost ≤ (x.1).cost =
                All_at (λ g. f.cost ≤ g.cost) _ (e ∷ entries) least
                  (subst (Has _) h (matches_of-Has (x.0) (x.1) c hx okx)) in
              omega (arith, cost),
        ))

  -- The cheapest entry of a catalog that is enough, or no name where none is.
  pub cheapest_match-IsCheapest :
      (c : Catalog)
      → IsCheapest c (cheapest_match v m c) ⊎ (NoneMeets c × (cheapest_match v m c ≡ []))
  cheapest_match-IsCheapest c = cheapest_match_cases c (matches_of v m c) refl

  choose-IsChoice :
      (cs : List Catalog) (fallback : Text)
      → All Named cs
      → IsChoice cs fallback (choose v m cs fallback)
  unfolding choose
  choose-IsChoice [] fallback h = refl
  choose-IsChoice (c ∷ cs) fallback (named, h) = elim (cheapest_match-IsCheapest c) [
    | inl (info, has, ok, least) ↦
        let e : is_empty (cheapest_match v m c) ≡ false =
          All_at (λ x. is_empty (x.0) ≡ false) _ c named has in
        rw e (inl (info, has, ok, least))
    | inr (none_meets, nil) ↦ rw nil (inr (none_meets, choose-IsChoice cs fallback h))
  ]

catalogs_of-All :
    (table : Map (List Catalog)) (node_type : Text)
    → AllValues (All Named) table
    → All Named (catalogs_of table node_type)
unfolding catalogs_of
catalogs_of-All table node_type h = elim (Option-cases (lookup node_type table)) [
  | inr (cs, e) ↦ rw e (lookup-AllValues (All Named) node_type table cs h e)
  | inl unknown ↦ elim (Option-cases (lookup (codes "burstable") table)) [
    | inr (cs, e) ↦ rw (unknown, e) (lookup-AllValues (All Named) (codes "burstable") table cs h e)
    | inl e ↦ rw (unknown, e) tt
  ]
]

rds-Named : AllValues (All Named) node_type_catalogs
unfolding node_type_catalogs
rds-Named = ground arith

cache-Named : AllValues (All Named) cache_node_type_catalogs
unfolding cache_node_type_catalogs
cache-Named = ground arith

memory_db-Named : AllValues (All Named) memory_db_node_type_catalogs
unfolding memory_db_node_type_catalogs
memory_db-Named = ground arith

-- For RDS, ElastiCache and MemoryDB alike: of the first catalog of the node type that has an
-- instance type with the CPUs and the memory, the cheapest such instance type is chosen; where no
-- catalog has one, it is the fallback. A node type that is not known counts as "burstable".
pub instance_class-IsChoice :
    (v m : ℤ) (node_type : Text)
    → IsChoice v m
        (catalogs_of node_type_catalogs node_type)
        (codes "db.t4g.micro")
        (rds_instance_class v m node_type)
      × IsChoice v m
          (catalogs_of cache_node_type_catalogs node_type)
          (codes "cache.t4g.micro")
          (cache_node_type v m node_type)
      × IsChoice v m
          (catalogs_of memory_db_node_type_catalogs node_type)
          (codes "db.t4g.small")
          (memory_db_node_type v m node_type)
unfolding rds_instance_class cache_node_type memory_db_node_type
instance_class-IsChoice v m node_type = (
  choose-IsChoice v m _ _ (catalogs_of-All node_type_catalogs node_type rds-Named),
  choose-IsChoice v m _ _ (catalogs_of-All cache_node_type_catalogs node_type cache-Named),
  choose-IsChoice v m _ _ (catalogs_of-All memory_db_node_type_catalogs node_type memory_db-Named),
)
