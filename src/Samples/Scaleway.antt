-- ===== src/Samples/Scaleway.antt =====
-- Build machines on small inputs.
use pulumi_defang.Prelude.{codes, to_lower, lookup, some, ok, ◌≡◌, refl, pos}
use pulumi_defang.Scaleway.BuildInstance.{
  BuildInstanceType, instance_type, dev_types, build_instance_families, select_build_instance_type,
}
use pulumi_defang.Scaleway.BuildInstance.Smallest.{IsBest, select_build_instance_type-IsBest}

known_dev : lookup (to_lower (codes "DEV")) build_instance_families ≡ some dev_types
unfolding build_instance_families
known_dev = refl

select_build_instance_type-IsBest_example :
    (t : BuildInstanceType) × (select_build_instance_type (codes "DEV") (pos 8000) ≡ ok t)
    × IsBest (pos 8000) dev_types t
select_build_instance_type-IsBest_example =
    select_build_instance_type-IsBest (codes "DEV") (pos 8000) dev_types known_dev

abbrev dev_large : BuildInstanceType
dev_large = instance_type (codes "DEV1-L") 8192 80

select_dev : select_build_instance_type (codes "DEV") (pos 8000) ≡ ok dev_large
unfolding select_build_instance_type build_instance_families
select_dev = refl
