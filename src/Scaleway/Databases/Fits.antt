-- ===== src/Scaleway/Databases/Fits.antt =====
-- The node of a database is the first of its catalog that is enough (postgresNodeType).
use pulumi_defang.Prelude.{
  Text, codes, to_lower, text_eq, List, [], ◌∷◌, ◌++◌, All, Bool, true, false, ℤ, ◌≡◌, refl, ap,
  ◌⊎◌, inl, inr, Bool-cases, if◌then◌else◌,
}
use pulumi_defang.Scaleway.Databases.{
  no_node, PostgresNode, postgres_gp_nodes, any_nodes, nodes_of_family, node_fits, first_node,
  postgres_node_type,
}

module _ (min_vcpus mem_mib : ℤ) where
  abbrev pub Skipped : List PostgresNode → Type 0
  Skipped = All (λ n. node_fits min_vcpus mem_mib n ≡ false)

  -- The first node that is enough or, where none is, the last one.
  abbrev pub IsFirst : List PostgresNode → PostgresNode → Type 0
  IsFirst nodes n =
      (before after : List PostgresNode) × (nodes ≡ before ++ n ∷ after)
      × Skipped before
      × ((node_fits min_vcpus mem_mib n ≡ true)
          ⊎ ((node_fits min_vcpus mem_mib n ≡ false) × (after ≡ [])))

  first_node-IsFirst :
      (last n : PostgresNode) (nodes : List PostgresNode)
      → IsFirst (n ∷ nodes) (first_node min_vcpus mem_mib last (n ∷ nodes))
  unfolding first_node
  first_node-IsFirst last n [] = elim (Bool-cases (node_fits min_vcpus mem_mib n)) [
    | inl e ↦ rw e ([], [], refl, tt, inl e)
    | inr e ↦ rw e ([], [], refl, tt, inr (e, refl))
  ]
  first_node-IsFirst last n (m ∷ nodes) = elim (Bool-cases (node_fits min_vcpus mem_mib n)) [
    | inl e ↦ rw e ([], m ∷ nodes, refl, tt, inl e)
    | inr e ↦
        let (before, after, split, skipped, end) = first_node-IsFirst n m nodes in
        rw e (n ∷ before, after, ap (λ ns. n ∷ ns) split, (e, skipped), end)
  ]

of_nodes :
    (min_vcpus mem_mib : ℤ) (general : Bool)
    → IsFirst min_vcpus mem_mib
        (if general then postgres_gp_nodes else any_nodes)
        (first_node min_vcpus mem_mib no_node (if general then postgres_gp_nodes else any_nodes))
of_nodes min_vcpus mem_mib true = first_node-IsFirst min_vcpus mem_mib no_node _ _
of_nodes min_vcpus mem_mib false = first_node-IsFirst min_vcpus mem_mib no_node _ _

-- A database gets the first node of its family's catalog whose CPUs and memory are enough; where none
-- is, it gets the last one.
pub postgres_node_type-IsFirst :
    (family : Text) (min_vcpus mem_mib : ℤ)
    → IsFirst min_vcpus mem_mib
        (nodes_of_family family)
        (postgres_node_type family min_vcpus mem_mib)
unfolding postgres_node_type nodes_of_family
postgres_node_type-IsFirst family min_vcpus mem_mib =
    of_nodes min_vcpus mem_mib (text_eq (to_lower family) (codes "general"))
