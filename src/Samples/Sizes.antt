-- ===== src/Samples/Sizes.antt =====
-- Memory and environments on small inputs.
use pulumi_defang.Prelude.{
  Text, codes, text_eq, lookup, [], ◌∷◌, Option, some, none, if◌then◌else◌, ◌≡◌, refl, pos, negsuc,
  arith,
}
use pulumi_defang.Compose.Types.{Float64, literal, ServiceConfig}
use pulumi_defang.Compose.Sizes.{
  min_int, parse_memory_mib, parse_with_suffix, numeric_part, scale_by_suffix, resolved_environment,
}
use pulumi_defang.Compose.Sizes.Laws.{lookup-resolved_environment}
use pulumi_defang.Samples.{bare}

-- A parser that knows two numbers: 1.5 and half of one.
abbrev two_numbers : Text → Option Float64
two_numbers s =
    if text_eq s (codes "1.5")
    then some (record { mantissa = pos 3; exponent = negsuc 0 })
    else if text_eq s (codes "0.5")
    then some (record { mantissa = pos 1; exponent = negsuc 0 })
    else none

memory_gigabytes : parse_memory_mib two_numbers (codes " 1.5 GiB") ≡ pos 1536
unfolding parse_memory_mib parse_with_suffix numeric_part scale_by_suffix
memory_gigabytes = refl

-- Half a mebibyte is no memory, while half a kibibyte is one mebibyte.
memory_halves :
    (parse_memory_mib two_numbers (codes "0.5m") ≡ pos 0)
    × (parse_memory_mib two_numbers (codes "0.5k") ≡ pos 1)
unfolding parse_memory_mib parse_with_suffix numeric_part scale_by_suffix
memory_halves = (refl, refl)

abbrev huge_number : Text → Option Float64
huge_number s =
    if text_eq s (codes "99999999999999999999")
    then some (record { mantissa = pos 100000000000000000000; exponent = pos 0 })
    else none

-- A size beyond 64 bits is a negative reservation.
memory_overflows : parse_memory_mib huge_number (codes "99999999999999999999g") ≡ min_int
unfolding parse_memory_mib parse_with_suffix numeric_part scale_by_suffix
memory_overflows = refl

abbrev with_environment : ServiceConfig
with_environment = record bare {
  environment = (codes "PORT", some (literal (codes "80"))) ∷ (codes "KEY", none) ∷ [];
}

lookup-resolved_environment_example :
    lookup (codes "KEY") (resolved_environment with_environment) ≡ some (codes "${KEY}")
lookup-resolved_environment_example =
    lookup-resolved_environment with_environment (codes "KEY") (ground arith)
