-- ===== src/Scaleway/BuildInstance/Smallest.antt =====
-- provider/defangscaleway/scaleway/buildinstance.go: the machine chosen is the smallest one of its
-- family that is large enough, or the largest.
use pulumi_defang.Prelude.{
  AllValues, lookup-AllValues, All_at, Text, to_lower, lookup, List, [], ◌∷◌, true, false, Option,
  none, some, ok, err, ℤ, pos, negsuc, lebℤ, ℕ, ◌≤◌, Has, All, ◌≡◌, refl, sym, ◌⊎◌, inl, inr, arith,
  Bool-cases, Option-cases, subst, ok-eq, err-ok, ◌∙◌,
}
use pulumi_defang.Scaleway.BuildInstance.{
  BuildInstanceType, build_instance_families, first_enough, select_build_instance_type,
  lookup_build_instance_type, build_disk_size_gb, unknown_build_instance_family,
}

abbrev Enough : ℤ → BuildInstanceType → Type 0
Enough m t = lebℤ m (pos t.mem_mib) ≡ true

-- The machines stand in the order of their memory.
abbrev Ascending : ℕ → List BuildInstanceType → Type 0
Ascending b [] = Unit
Ascending b (t ∷ types) = (b ≤ t.mem_mib) × Ascending t.mem_mib types

-- The smallest machine of the list that is large enough or, where none is, the largest.
abbrev pub IsBest : ℤ → List BuildInstanceType → BuildInstanceType → Type 0
IsBest m types t =
    Has t types
    × ((Enough m t × All (λ u. Enough m u → t.mem_mib ≤ u.mem_mib) types)
        ⊎ All (λ u. (lebℤ m (pos u.mem_mib) ≡ false) × (u.mem_mib ≤ t.mem_mib)) types)

weaken_bound :
    (b c : ℕ) (types : List BuildInstanceType)
    → b ≤ c
    → All (λ u. c ≤ u.mem_mib) types
    → All (λ u. b ≤ u.mem_mib) types
weaken_bound b c [] le h = tt
weaken_bound b c (u ∷ types) le (hu, h) = (omega arith, weaken_bound b c types le h)

Ascending-All :
    (b : ℕ) (types : List BuildInstanceType) → Ascending b types → All (λ u. b ≤ u.mem_mib) types
Ascending-All b [] h = tt
Ascending-All b (t ∷ types) (le, h) =
    (le, weaken_bound b t.mem_mib types le (Ascending-All t.mem_mib types h))

All-const :
    (m : ℤ) (b : ℕ) (types : List BuildInstanceType)
    → All (λ u. b ≤ u.mem_mib) types
    → All (λ u. Enough m u → b ≤ u.mem_mib) types
All-const m b [] h = tt
All-const m b (u ∷ types) (hu, h) = ((λ e. hu), All-const m b types h)

module _ (m : ℤ) where
  Enough-IsBest :
      (t : BuildInstanceType) (types : List BuildInstanceType)
      → Enough m t
      → Ascending t.mem_mib types
      → IsBest m (t ∷ types) t
  Enough-IsBest t types e up = (
    inl refl,
    inl (e, ((λ _. omega arith), All-const m t.mem_mib types (Ascending-All t.mem_mib types up))),
  )

  skip-IsBest :
      (last u t : BuildInstanceType) (types : List BuildInstanceType)
      → lebℤ m (pos last.mem_mib) ≡ false
      → last.mem_mib ≤ u.mem_mib
      → IsBest m (u ∷ types) t
      → IsBest m (last ∷ u ∷ types) t
  skip-IsBest last u t types small le (has, inl (e, all)) = (inr has, inl (e, ((λ x. cc), all)))
  skip-IsBest last u t types small le (has, inr ((hu, hle), all)) =
      (inr has, inr ((small, omega arith), ((hu, hle), all)))

  abbrev Found : Option BuildInstanceType → List BuildInstanceType → Type 0
  Found o types = (t : BuildInstanceType) × (o ≡ some t) × IsBest m types t

  first_enough-last :
      (last : BuildInstanceType) (types : List BuildInstanceType)
      → lebℤ m (pos last.mem_mib) ≡ false
      → Ascending last.mem_mib types
      → Found (first_enough m (some last) types) (last ∷ types)
  unfolding first_enough
  first_enough-last last [] small up = (last, refl, (inl refl, inr ((small, omega arith), tt)))
  first_enough-last last (u ∷ types) small (le, up) = elim (Bool-cases (lebℤ m (pos u.mem_mib))) [
    | inl e ↦ (u, rw e refl, skip-IsBest last u u types small le (Enough-IsBest u types e up))
    | inr e ↦
        let (t, found, best) = first_enough-last u types e up in
        (t, rw e found, skip-IsBest last u t types small le best)
  ]

  pub first_enough-IsBest :
      (t : BuildInstanceType) (types : List BuildInstanceType)
      → Ascending t.mem_mib types
      → Found (first_enough m none (t ∷ types)) (t ∷ types)
  unfolding first_enough
  first_enough-IsBest t types up = elim (Bool-cases (lebℤ m (pos t.mem_mib))) [
    | inl e ↦ (t, rw e refl, Enough-IsBest t types e up)
    | inr e ↦ let (u, found, best) = first_enough-last t types e up in (u, rw e found, best)
  ]

-- A family that is not empty, in the order of memory.
abbrev IsSorted : List BuildInstanceType → Type 0
IsSorted [] = ⊥
IsSorted (t ∷ types) = Ascending t.mem_mib types

families-IsSorted : AllValues IsSorted build_instance_families
unfolding build_instance_families
families-IsSorted = ground arith

select_of_IsSorted :
    (family : Text) (m : ℤ) (types : List BuildInstanceType)
    → lookup (to_lower family) build_instance_families ≡ some types
    → IsSorted types
    → (t : BuildInstanceType) × (select_build_instance_type family m ≡ ok t) × IsBest m types t
unfolding select_build_instance_type
select_of_IsSorted family m [] h s = absurd s
select_of_IsSorted family m (t ∷ types) h s =
    let (u, found, best) = first_enough-IsBest m t types s in
    (u, rw (h, found, select_build_instance_type), best)

-- For a family that is known, whatever the case of its name, and for every memory, a machine is
-- selected. It is the smallest machine of the family that has the memory, or the largest one where
-- none has it.
pub select_build_instance_type-IsBest :
    (family : Text) (m : ℤ) (types : List BuildInstanceType)
    → lookup (to_lower family) build_instance_families ≡ some types
    → (t : BuildInstanceType) × (select_build_instance_type family m ≡ ok t) × IsBest m types t
select_build_instance_type-IsBest family m types h =
    select_of_IsSorted family m types h (
      lookup-AllValues IsSorted (to_lower family) build_instance_families types families-IsSorted h)

unknown-err :
    (family : Text) (m : ℤ) (t : BuildInstanceType)
    → lookup (to_lower family) build_instance_families ≡ none
    → select_build_instance_type family m ≡ ok t
    → ⊥
unfolding select_build_instance_type
unknown-err family m t h e =
    let refused : select_build_instance_type family m ≡ err (unknown_build_instance_family family) =
      rw (h, select_build_instance_type) in
    err-ok (sym refused ∙ e)

select-Has :
    (family : Text) (m : ℤ) (t : BuildInstanceType)
    → select_build_instance_type family m ≡ ok t
    → (types : List BuildInstanceType) × (lookup (to_lower family) build_instance_families
        ≡ some types)
      × Has t types
select-Has family m t e = elim (Option-cases (lookup (to_lower family) build_instance_families)) [
  | inl unknown ↦ absurd (unknown-err family m t unknown e)
  | inr (types, known) ↦
      let (u, found, (has, best)) = select_build_instance_type-IsBest family m types known in
      (types, known, subst (λ x. Has x types) (ok-eq (sym found ∙ e)) has)
]

All-select :
    (P : BuildInstanceType → Type 0) (family : Text) (m : ℤ) (t : BuildInstanceType)
    → AllValues (All P) build_instance_families
    → select_build_instance_type family m ≡ ok t
    → P t
All-select P family m t all e =
    let (types, known, has) = select-Has family m t e in
    All_at P t types
      (lookup-AllValues (All P) (to_lower family) build_instance_families types all known) has

families-lookup :
    AllValues (All (λ t. lookup_build_instance_type t.name ≡ t)) build_instance_families
unfolding build_instance_families lookup_build_instance_type
families-lookup = (
  (refl, (refl, (refl, (refl, (refl, (refl, (refl, (refl, (refl, tt))))))))),
  (
    (refl, (refl, (refl, (refl, (refl, (refl, (refl, (refl, tt)))))))),
    (
      (refl, (refl, (refl, (refl, (refl, (refl, (refl, (refl, (refl, (refl, tt)))))))))),
      ((refl, (refl, (refl, (refl, (refl, (refl, (refl, (refl, (refl, (refl, tt)))))))))), tt),
    ),
  ),
)

-- The machine that is selected is the one that its name is looked up as.
pub lookup_build_instance_type-select_build_instance_type :
    (family : Text) (m : ℤ) (t : BuildInstanceType)
    → select_build_instance_type family m ≡ ok t
    → lookup_build_instance_type t.name ≡ t
lookup_build_instance_type-select_build_instance_type family m t e =
    All-select (λ u. lookup_build_instance_type u.name ≡ u) family m t families-lookup e

families-disk :
    AllValues
      (All (λ t. (t.max_local_disk_gb ≡ 0) ⊎ (16 ≤ t.max_local_disk_gb)))
      build_instance_families
unfolding build_instance_families
families-disk = ground arith

disk_bounds :
    (t : BuildInstanceType) (m : ℤ)
    → (t.max_local_disk_gb ≡ 0) ⊎ (16 ≤ t.max_local_disk_gb)
    → (16 ≤ build_disk_size_gb t m)
      × ((t.max_local_disk_gb ≡ 0) ⊎ (build_disk_size_gb t m ≤ t.max_local_disk_gb))
unfolding build_disk_size_gb
disk_bounds t (pos m) h = ground arith
disk_bounds t (negsuc m) h = ground arith

-- The disk of a machine that is selected has 16 GB or more, and no more than what the machine has
-- locally, where it has a local disk.
pub build_disk_size_gb_of_select :
    (family : Text) (m : ℤ) (t : BuildInstanceType) (memory : ℤ)
    → select_build_instance_type family m ≡ ok t
    → (16 ≤ build_disk_size_gb t memory)
      × ((t.max_local_disk_gb ≡ 0) ⊎ (build_disk_size_gb t memory ≤ t.max_local_disk_gb))
build_disk_size_gb_of_select family m t memory e = disk_bounds t memory (
    All-select (λ u. (u.max_local_disk_gb ≡ 0) ⊎ (16 ≤ u.max_local_disk_gb)) family m t
      families-disk e)
