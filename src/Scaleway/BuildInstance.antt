-- ===== src/Scaleway/BuildInstance.antt =====
-- provider/defangscaleway/scaleway/buildinstance.go: the machine that a build runs on.
pub mod Smallest
use pulumi_defang.Prelude.{
  Text, codes, to_lower, equal_fold, Map, lookup, List, [], ◌∷◌, Bool, true, false, Option, none,
  some, if◌then◌else◌, Result, ok, err, ℤ, pos, negsuc, lebℤ, ℕ, ◌*◌, ◌/◌, ltb, min, max, or_else,
}

pub record BuildInstanceType : Type 0 where
  pub name : Text
  pub mem_mib : ℕ
  pub max_local_disk_gb : ℕ

abbrev pub instance_type : Text → ℕ → ℕ → BuildInstanceType
instance_type name mem_mib disk = record {
  name = name;
  mem_mib = mem_mib;
  max_local_disk_gb = disk;
}

abbrev pub dev_types : List BuildInstanceType
dev_types =
    instance_type (codes "DEV1-S") 2048 20
    ∷ instance_type (codes "DEV1-M") 4096 40
    ∷ instance_type (codes "DEV1-L") 8192 80
    ∷ instance_type (codes "DEV1-XL") 12288 120
    ∷ instance_type (codes "GP1-XS") 16384 150
    ∷ instance_type (codes "GP1-S") 32768 300
    ∷ instance_type (codes "GP1-M") 65536 600
    ∷ instance_type (codes "GP1-L") 131072 600
    ∷ instance_type (codes "GP1-XL") 262144 600
    ∷ []

abbrev pub basic3_types : List BuildInstanceType
basic3_types =
    instance_type (codes "BASIC3-X2C-4G") 4096 0
    ∷ instance_type (codes "BASIC3-X2C-8G") 8192 0
    ∷ instance_type (codes "BASIC3-X6C-12G") 12288 0
    ∷ instance_type (codes "BASIC3-X4C-16G") 16384 0
    ∷ instance_type (codes "BASIC3-X6C-24G") 24576 0
    ∷ instance_type (codes "BASIC3-X8C-32G") 32768 0
    ∷ instance_type (codes "BASIC3-X12C-48G") 49152 0
    ∷ instance_type (codes "BASIC3-X16C-64G") 65536 0
    ∷ []

abbrev pub standard3_types : List BuildInstanceType
standard3_types =
    instance_type (codes "STANDARD3-X2C-8G") 8192 0
    ∷ instance_type (codes "STANDARD3-X4C-16G") 16384 0
    ∷ instance_type (codes "STANDARD3-X6C-24G") 24576 0
    ∷ instance_type (codes "STANDARD3-X8C-32G") 32768 0
    ∷ instance_type (codes "STANDARD3-X12C-48G") 49152 0
    ∷ instance_type (codes "STANDARD3-X16C-64G") 65536 0
    ∷ instance_type (codes "STANDARD3-X24C-96G") 98304 0
    ∷ instance_type (codes "STANDARD3-X32C-128G") 131072 0
    ∷ instance_type (codes "STANDARD3-X48C-192G") 196608 0
    ∷ instance_type (codes "STANDARD3-X64C-256G") 262144 0
    ∷ []

abbrev pub pop2_types : List BuildInstanceType
pop2_types =
    instance_type (codes "POP2-2C-8G") 8192 0
    ∷ instance_type (codes "POP2-4C-16G") 16384 0
    ∷ instance_type (codes "POP2-6C-24G") 24576 0
    ∷ instance_type (codes "POP2-8C-32G") 32768 0
    ∷ instance_type (codes "POP2-12C-48G") 49152 0
    ∷ instance_type (codes "POP2-16C-64G") 65536 0
    ∷ instance_type (codes "POP2-24C-96G") 98304 0
    ∷ instance_type (codes "POP2-32C-128G") 131072 0
    ∷ instance_type (codes "POP2-48C-192G") 196608 0
    ∷ instance_type (codes "POP2-64C-256G") 262144 0
    ∷ []

unfoldable pub build_instance_families : Map (List BuildInstanceType)
build_instance_families =
    (codes "dev", dev_types)
    ∷ (codes "basic3", basic3_types)
    ∷ (codes "standard3", standard3_types)
    ∷ (codes "pop2", pop2_types)
    ∷ []

pub data InstanceError : Type 0 where
  unknown_build_instance_family : Text → InstanceError
  -- types[len(types)-1] of an empty list: a panic, which no family leads to.
  no_types : InstanceError

-- The loop over the types of a family, with the last type seen.
unfoldable pub first_enough :
    ℤ → Option BuildInstanceType → List BuildInstanceType → Option BuildInstanceType
first_enough mem_mib last [] = last
first_enough mem_mib last (t ∷ types) =
    let rest = first_enough mem_mib (some t) types in
    if lebℤ mem_mib (pos t.mem_mib) then some t else rest

unfoldable pub select_build_instance_type : Text → ℤ → Result InstanceError BuildInstanceType
unfolding first_enough
select_build_instance_type family mem_mib =
    elim (lookup (to_lower family) build_instance_families) [
      | none ↦ err (unknown_build_instance_family family)
      | some types ↦ elim (first_enough mem_mib none types) [ none ↦ err no_types | some t ↦ ok t ]
    ]

find_in_types : Text → List BuildInstanceType → Option BuildInstanceType
find_in_types name [] = none
find_in_types name (t ∷ types) =
    let rest = find_in_types name types in if equal_fold t.name name then some t else rest

find_in_families : Text → Map (List BuildInstanceType) → Option BuildInstanceType
find_in_families name [] = none
find_in_families name ((family, types) ∷ families) =
    let rest = find_in_families name families in
    elim (find_in_types name types) [ some t ↦ some t | none ↦ rest ]

unfoldable pub lookup_build_instance_type : Text → BuildInstanceType
unfolding find_in_types find_in_families build_instance_families
lookup_build_instance_type name =
    or_else (find_in_families name build_instance_families) (instance_type name 0 0)

-- memMiB * 2 / 1024, which is rounded towards zero.
unfoldable pub build_disk_size_gb : BuildInstanceType → ℤ → ℕ
build_disk_size_gb t (negsuc n) =
    if ltb 0 t.max_local_disk_gb then min 16 t.max_local_disk_gb else 16
build_disk_size_gb t (pos mem_mib) =
    let gb = max (mem_mib * 2 / 1024) 16 in
    if ltb 0 t.max_local_disk_gb then min gb t.max_local_disk_gb else gb
