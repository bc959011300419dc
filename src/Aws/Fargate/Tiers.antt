-- ===== src/Aws/Fargate/Tiers.antt =====
-- provider/defangaws/aws/ecs.go: the sizes that the loop of fargateResources goes through.
use pulumi_defang.Prelude.{
  ℤ, pos, negsuc, ltbℤ, lebℤ, ℕ, suc, ◌-◌, ◌*◌, ◌^◌, ◌%◌, ◌≤◌, ◌==◌, if◌then◌else◌, Bool, true,
  false, Option, none, some, ◌≡◌, refl, ap, arith, Bool-cases, ◌⊎◌, inl, inr,
}
use pulumi_defang.Aws.Fargate.{
  make_min_max_ceil, clamp_exponent, fixup_fargate_cpu, fixup_fargate_memory, Sizing, sized,
  panicked, out_of_fuel, bump,
}

-- The memory sizes of a CPU size: from the lowest to the highest, in steps.
pub record Tier : Type 0 where
  pub lowest : ℕ
  pub highest : ℕ
  pub step : ℕ

abbrev pub tier : ℕ → Option Tier
tier cpu =
    if cpu == 256
    then some (record { lowest = 512; highest = 2048; step = 1024 })
    else if cpu == 512
    then some (record { lowest = 1024; highest = 4096; step = 1024 })
    else if cpu == 1024
    then some (record { lowest = 2048; highest = 8192; step = 1024 })
    else if cpu == 2048
    then some (record { lowest = 4096; highest = 16384; step = 1024 })
    else if cpu == 4096
    then some (record { lowest = 8192; highest = 30720; step = 1024 })
    else if cpu == 8192
    then some (record { lowest = 16384; highest = 61440; step = 4096 })
    else if cpu == 16384
    then some (record { lowest = 32768; highest = 122880; step = 4096 })
    else none

abbrev pub IsSizeOf : Option Tier → ℕ → Type 0
IsSizeOf none memory = ⊥
IsSizeOf (some t) memory =
    (t.lowest ≤ memory) × (memory ≤ t.highest) × ((memory ≡ t.lowest) ⊎ (memory % t.step ≡ 0))

abbrev pub IsSize : ℕ → ℕ → Type 0
IsSize cpu memory = IsSizeOf (tier cpu) memory

-- A CPU size that is at least the wanted one, and memory that goes with it and is enough.
abbrev pub Fits : ℕ → ℤ → Sizing → Type 0
Fits base m (sized cpu memory) = IsSize cpu memory × (base ≤ cpu) × (lebℤ m (pos memory) ≡ true)
Fits base m panicked = ⊥
Fits base m out_of_fuel = ⊥

-- Within bounds, and the lowest or a multiple of the step; and enough below the highest.
abbrev pub Rounds : ℤ → ℕ → ℕ → ℕ → ℕ → Type 0
Rounds m lo hi step r = (lo ≤ r) × (r ≤ hi) × ((r ≡ lo) ⊎ (r % step ≡ 0))

pub ceil_1024 :
    (m : ℤ) (lo k : ℕ)
    → lo ≤ k * 1024
    → Rounds m lo (k * 1024) 1024 (make_min_max_ceil m lo (k * 1024) 1024)
unfolding make_min_max_ceil
ceil_1024 (negsuc m) lo k h = ground arith
ceil_1024 (pos m) lo k h = ground arith

pub ceil_4096 :
    (m : ℤ) (lo k : ℕ)
    → lo ≤ k * 4096
    → Rounds m lo (k * 4096) 4096 (make_min_max_ceil m lo (k * 4096) 4096)
unfolding make_min_max_ceil
ceil_4096 (negsuc m) lo k h = ground arith
ceil_4096 (pos m) lo k h = ground arith

-- A CPU size has memory of its tier for every reservation.
abbrev pub HasSize : ℤ → ℕ → Type 0
HasSize m cpu = (mem : ℕ) × (fixup_fargate_memory cpu m ≡ some mem) × IsSize cpu mem

pub enough_le : (m : ℤ) (mem : ℕ) → ltbℤ (pos mem) m ≡ false → lebℤ m (pos mem) ≡ true
enough_le (pos m) mem h = ground arith
enough_le (negsuc m) mem h = refl

module _ (m : ℤ) where
  pub HasSize-256 : HasSize m 256
  unfolding fixup_fargate_memory
  HasSize-256 = (make_min_max_ceil m 512 2048 1024, refl, ceil_1024 m 512 2 (omega arith))

  pub HasSize-512 : HasSize m 512
  unfolding fixup_fargate_memory
  HasSize-512 = (make_min_max_ceil m 1024 4096 1024, refl, ceil_1024 m 1024 4 (omega arith))

  pub HasSize-1024 : HasSize m 1024
  unfolding fixup_fargate_memory
  HasSize-1024 = (make_min_max_ceil m 2048 8192 1024, refl, ceil_1024 m 2048 8 (omega arith))

  pub HasSize-2048 : HasSize m 2048
  unfolding fixup_fargate_memory
  HasSize-2048 = (make_min_max_ceil m 4096 16384 1024, refl, ceil_1024 m 4096 16 (omega arith))

  pub HasSize-4096 : HasSize m 4096
  unfolding fixup_fargate_memory
  HasSize-4096 = (make_min_max_ceil m 8192 30720 1024, refl, ceil_1024 m 8192 30 (omega arith))

  pub HasSize-8192 : HasSize m 8192
  unfolding fixup_fargate_memory
  HasSize-8192 = (make_min_max_ceil m 16384 61440 4096, refl, ceil_4096 m 16384 15 (omega arith))

  pub HasSize-16384 : HasSize m 16384
  unfolding fixup_fargate_memory
  HasSize-16384 = (make_min_max_ceil m 32768 122880 4096, refl, ceil_4096 m 32768 30 (omega arith))

  abbrev pub from : ℕ → ℕ → Sizing
  from fuel cpu = bump fuel cpu m (fixup_fargate_memory cpu m)

  pub Fits-bump :
      (fuel base cpu : ℕ)
      → HasSize m cpu
      → base ≤ cpu
      → Fits base m (from fuel (cpu * 2))
      → Fits base m (from (suc fuel) cpu)
  unfolding bump
  Fits-bump fuel base cpu (mem, e, size) b next = elim (Bool-cases (ltbℤ (pos mem) m)) [
    | inl more ↦ rw (e, more) next
    | inr enough ↦ rw (e, enough) (size, b, enough_le m mem enough)
  ]

-- The reservation is one that the largest tier can hold.
abbrev pub Holdable : ℤ → Type 0
Holdable m = lebℤ m (pos 122880) ≡ true

pub clamp_exponent_bounds : (e : ℤ) → (8 ≤ clamp_exponent e) × (clamp_exponent e ≤ 14)
unfolding clamp_exponent
clamp_exponent_bounds (pos e) = ground arith
clamp_exponent_bounds (negsuc e) = ground arith

pub sub-sub : (k : ℕ) → k ≤ 14 → k ≡ 14 - (14 - k)
sub-sub k h = omega arith

pub doublings :
    (le_zero : Bool) (e : ℤ) → (d : ℕ) × (d ≤ 6) × (fixup_fargate_cpu le_zero e ≡ 2 ^ (14 - d))
unfolding fixup_fargate_cpu
doublings true e = (6, omega arith, refl)
doublings false e =
    let (least, most) = clamp_exponent_bounds e in
    (14 - clamp_exponent e, omega arith, ap (λ (k : ℕ). 2 ^ k) (sub-sub (clamp_exponent e) most))
