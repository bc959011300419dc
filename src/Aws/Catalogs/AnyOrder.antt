-- ===== src/Aws/Catalogs/AnyOrder.antt =====
-- provider/defangaws/aws/rds.go: the choice does not depend on the order in which a catalog, which is
-- a Go map, is visited, nor on how the sort places entries of the same cost, since there are none.
use pulumi_defang.Prelude.{
  Text, List, [], ◌∷◌, Bool, true, false, not, ◌&&◌, ℤ, ℕ, ◌==◌, Has, All, All_at, ◌≡◌, sym, ap,
  ◌∙◌, ◌↔◌, inl, inr, arith,
}
use pulumi_defang.Aws.Catalogs.{NodeInfo, Catalog, meets, cheapest_match}
use pulumi_defang.Aws.Catalogs.Rds.{
  burstable_node_types, general_node_types, memory_optimized_node_types,
}
use pulumi_defang.Aws.Catalogs.Cache.{
  cache_burstable_node_types, cache_general_small_node_types, cache_general_node_types,
  cache_memory_optimized_node_types, cache_memory_optimized_data_tiering_node_types,
  cache_network_optimized_node_types,
}
use pulumi_defang.Aws.Catalogs.MemoryDb.{
  memory_db_burstable_node_types, memory_db_memory_optimized_node_types,
}
use pulumi_defang.Aws.Catalogs.Cheapest.{IsCheapest, NoneMeets, cheapest_match-IsCheapest}

abbrev pub all_catalogs : List Catalog
all_catalogs =
    burstable_node_types ∷ general_node_types ∷ memory_optimized_node_types
    ∷ cache_burstable_node_types ∷ cache_general_small_node_types ∷ cache_general_node_types
    ∷ cache_memory_optimized_node_types ∷ cache_memory_optimized_data_tiering_node_types
    ∷ cache_network_optimized_node_types ∷ memory_db_burstable_node_types
    ∷ memory_db_memory_optimized_node_types ∷ []

-- The same entries, in whatever order.
abbrev pub SameEntries : Catalog → Catalog → Type 0
SameEntries c c' = (e : Text × NodeInfo) → Has e c ↔ Has e c'

abbrev fresh_cost : ℕ → Catalog → Bool
fresh_cost k [] = true
fresh_cost k (e ∷ c) = not (k == (e.1).cost) && fresh_cost k c

abbrev distinct_costs : Catalog → Bool
distinct_costs [] = true
distinct_costs (e ∷ c) = fresh_cost ((e.1).cost) c && distinct_costs c

All-distinct : All (λ c. distinct_costs c ≡ true) all_catalogs
All-distinct = ground arith

fresh_cost_sound :
    (k : ℕ) (c : Catalog) (e : Text × NodeInfo)
    → fresh_cost k c ≡ true
    → Has e c
    → k ≡ (e.1).cost
    → ⊥
fresh_cost_sound k [] e h has same = absurd has
fresh_cost_sound k (x ∷ c) e h (inl is) same =
    let eq : k ≡ (x.1).cost = same ∙ ap (λ y. (y.1).cost) is in ground arith
fresh_cost_sound k (x ∷ c) e h (inr later) same = fresh_cost_sound k c e (ground arith) later same

distinct_costs_sound :
    (c : Catalog) (a b : Text × NodeInfo)
    → distinct_costs c ≡ true
    → Has a c
    → Has b c
    → (a.1).cost ≡ (b.1).cost
    → a ≡ b
distinct_costs_sound [] a b h ha hb e = absurd ha
distinct_costs_sound (x ∷ c) a b h (inl p) (inl q) e = p ∙ sym q
distinct_costs_sound (x ∷ c) a b h (inl p) (inr q) e =
    absurd (fresh_cost_sound ((x.1).cost) c b (ground arith) q (ap (λ y. (y.1).cost) (sym p) ∙ e))
distinct_costs_sound (x ∷ c) a b h (inr p) (inl q) e =
    absurd
      (fresh_cost_sound ((x.1).cost) c a (ground arith) p (ap (λ y. (y.1).cost) (sym q) ∙ sym e))
distinct_costs_sound (x ∷ c) a b h (inr p) (inr q) e =
    distinct_costs_sound c a b (ground arith) p q e

module _ (v m : ℤ) (c c' : Catalog) (same : SameEntries c c') where
  IsCheapest-unique :
      (n n' : Text) → distinct_costs c ≡ true → IsCheapest v m c n → IsCheapest v m c' n' → n ≡ n'
  IsCheapest-unique n n' d (i, has, ok, least) (i', has', ok', least') =
      let le = least (n', i') ((same (n', i')).1 has') ok' in
      let ge = least' (n, i) ((same (n, i)).0 has) ok in
      ap (λ y. y.0)
        (distinct_costs_sound c (n, i) (n', i') d has ((same (n', i')).1 has')
          (omega (arith, le, ge)))

  IsCheapest-NoneMeets : (n : Text) → IsCheapest v m c n → NoneMeets v m c' → ⊥
  IsCheapest-NoneMeets n (i, has, ok, least) none =
      let no : meets v m i ≡ false =
        All_at (λ e. meets v m (e.1) ≡ false) (n, i) c' none ((same (n, i)).0 has) in
      cc

-- For every catalog of the program, and every order of its entries, the same instance type is chosen.
pub cheapest_match_any_order :
    (v m : ℤ) (c c' : Catalog)
    → Has c all_catalogs
    → SameEntries c c'
    → cheapest_match v m c ≡ cheapest_match v m c'
cheapest_match_any_order v m c c' known same =
    let d : distinct_costs c ≡ true =
      All_at (λ x. distinct_costs x ≡ true) c all_catalogs All-distinct known in
    let back : SameEntries c' c = λ e. ((same e).1, (same e).0) in
    elim (cheapest_match-IsCheapest v m c) [
      | inl best ↦ elim (cheapest_match-IsCheapest v m c') [
        | inl best' ↦ IsCheapest-unique v m c c' same _ _ d best best'
        | inr (none', nil') ↦ absurd (IsCheapest-NoneMeets v m c c' same _ best none')
      ]
      | inr (none, nil) ↦ elim (cheapest_match-IsCheapest v m c') [
        | inl best' ↦ absurd (IsCheapest-NoneMeets v m c' c back _ best' none)
        | inr (none', nil') ↦ nil ∙ sym nil'
      ]
    ]
