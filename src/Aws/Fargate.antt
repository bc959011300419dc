-- ===== src/Aws/Fargate.antt =====
-- provider/defangaws/aws/ecs.go: the CPU and memory that Fargate offers for a reservation. Memory
-- in MiB is an int. The int of math.Ceil(math.Log2(vCpu) + 10) is a parameter.
pub mod Tiers
pub mod Fits
pub mod Panics
use pulumi_defang.Prelude.{
  ℤ, pos, negsuc, ltbℤ, lebℤ, ℕ, zero, suc, ◌+◌, ◌-◌, ◌*◌, ◌/◌, ◌^◌, leb, ltb, ◌==◌, if◌then◌else◌,
  Bool, true, false, Option, none, some,
}

-- The lowest and the highest value and the step are constants of the code.
unfoldable pub make_min_max_ceil : ℤ → ℕ → ℕ → ℕ → ℕ
make_min_max_ceil (negsuc n) minimum maximum step = minimum
make_min_max_ceil (pos value) minimum maximum step =
    if leb value minimum
    then minimum
    else if leb maximum value
    then maximum
    else ((value + step - 1) / step) * step

-- The exponent, brought into 8 to 14.
unfoldable pub clamp_exponent : ℤ → ℕ
clamp_exponent (negsuc n) = 8
clamp_exponent (pos e) = if ltb e 8 then 8 else if ltb 14 e then 14 else e

-- `le_zero` is the test vCpu <= 0.
unfoldable pub fixup_fargate_cpu : (le_zero : Bool) (exp_ceil : ℤ) → ℕ
fixup_fargate_cpu le_zero exp_ceil = if le_zero then 256 else 2 ^ clamp_exponent exp_ceil

-- `none` is the panic at a value that is no CPU size.
unfoldable pub fixup_fargate_memory : ℕ → ℤ → Option ℕ
unfolding make_min_max_ceil
fixup_fargate_memory cpu memory_mib =
    if cpu == 256
    then some (make_min_max_ceil memory_mib 512 2048 1024)
    else if cpu == 512
    then some (make_min_max_ceil memory_mib 1024 4096 1024)
    else if cpu == 1024
    then some (make_min_max_ceil memory_mib 2048 8192 1024)
    else if cpu == 2048
    then some (make_min_max_ceil memory_mib 4096 16384 1024)
    else if cpu == 4096
    then some (make_min_max_ceil memory_mib 8192 30720 1024)
    else if cpu == 8192
    then some (make_min_max_ceil memory_mib 16384 61440 4096)
    else if cpu == 16384
    then some (make_min_max_ceil memory_mib 32768 122880 4096)
    else none

-- What a call comes to: CPU units and memory, the panic, or, in the model alone, no more fuel.
pub data Sizing : Type 0 where
  sized : (cpu memory : ℕ) → Sizing
  panicked : Sizing
  out_of_fuel : Sizing

-- for mem < memoryMiB { cpuUnits *= 2; mem = fixupFargateMemory(cpuUnits, memoryMiB) }
unfoldable pub bump : ℕ → ℕ → ℤ → Option ℕ → Sizing
bump fuel cpu memory_mib none = panicked
bump zero cpu memory_mib (some mem) =
    if ltbℤ (pos mem) memory_mib then out_of_fuel else sized cpu mem
bump (suc fuel) cpu memory_mib (some mem) =
    let rest = bump fuel (cpu * 2) memory_mib (fixup_fargate_memory (cpu * 2) memory_mib) in
    if ltbℤ (pos mem) memory_mib then rest else sized cpu mem

-- There are seven CPU sizes.
unfoldable pub fargate_resources : (le_zero : Bool) (exp_ceil memory_mib : ℤ) → Sizing
unfolding bump fixup_fargate_cpu fixup_fargate_memory clamp_exponent
fargate_resources le_zero exp_ceil memory_mib =
    let cpu = fixup_fargate_cpu le_zero exp_ceil in
    bump 7 cpu memory_mib (fixup_fargate_memory cpu memory_mib)
