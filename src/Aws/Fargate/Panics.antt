-- ===== src/Aws/Fargate/Panics.antt =====
-- provider/defangaws/aws/ecs.go: reservations beyond the largest size.
use pulumi_defang.Prelude.{
  ℤ, pos, negsuc, ltbℤ, lebℤ, ℕ, zero, suc, ◌-◌, ◌*◌, ◌^◌, ◌≤◌, Bool, true, false, ◌≡◌, refl, arith,
}
use pulumi_defang.Aws.Fargate.{fixup_fargate_memory, panicked, bump, fargate_resources}
use pulumi_defang.Aws.Fargate.Tiers.{
  IsSize, HasSize, from, HasSize-256, HasSize-512, HasSize-1024, HasSize-2048, HasSize-4096,
  HasSize-8192, HasSize-16384, doublings,
}

IsSize-le : (cpu mem : ℕ) → IsSize cpu mem → mem ≤ 122880
IsSize-le cpu mem h = ground arith

lt_of_le : (m : ℤ) (mem : ℕ) → lebℤ m (pos 122880) ≡ false → mem ≤ 122880 → ltbℤ (pos mem) m ≡ true
lt_of_le (pos m) mem h le = ground arith
lt_of_le (negsuc m) mem h le = cc

panics_32768 : (m : ℤ) (f : ℕ) → from m f (16384 * 2) ≡ panicked
unfolding bump fixup_fargate_memory
panics_32768 m zero = refl
panics_32768 m (suc f) = refl

module _ (m : ℤ) (h : lebℤ m (pos 122880) ≡ false) where
  lt_largest : (mem : ℕ) → mem ≤ 122880 → ltbℤ (pos mem) m ≡ true
  lt_largest mem le = lt_of_le m mem h le

  Panics-bump :
      (fuel cpu : ℕ)
      → HasSize m cpu
      → from m fuel (cpu * 2) ≡ panicked
      → from m (suc fuel) cpu ≡ panicked
  unfolding bump
  Panics-bump fuel cpu (mem, e, size) next = rw (e, lt_largest mem (IsSize-le cpu mem size)) next

  panics_16384 : (f : ℕ) → from m (suc f) 16384 ≡ panicked
  panics_16384 f = Panics-bump f 16384 (HasSize-16384 m) (panics_32768 m f)

  panics_8192 : (f : ℕ) → from m (suc (suc f)) 8192 ≡ panicked
  panics_8192 f = Panics-bump (suc f) 8192 (HasSize-8192 m) (panics_16384 f)

  panics_4096 : (f : ℕ) → from m (suc (suc (suc f))) 4096 ≡ panicked
  panics_4096 f = Panics-bump (suc (suc f)) 4096 (HasSize-4096 m) (panics_8192 f)

  panics_2048 : (f : ℕ) → from m (suc (suc (suc (suc f)))) 2048 ≡ panicked
  panics_2048 f = Panics-bump (suc (suc (suc f))) 2048 (HasSize-2048 m) (panics_4096 f)

  panics_1024 : (f : ℕ) → from m (suc (suc (suc (suc (suc f))))) 1024 ≡ panicked
  panics_1024 f = Panics-bump (suc (suc (suc (suc f)))) 1024 (HasSize-1024 m) (panics_2048 f)

  panics_512 : (f : ℕ) → from m (suc (suc (suc (suc (suc (suc f)))))) 512 ≡ panicked
  panics_512 f = Panics-bump (suc (suc (suc (suc (suc f))))) 512 (HasSize-512 m) (panics_1024 f)

  panics_256 : (f : ℕ) → from m (suc (suc (suc (suc (suc (suc (suc f))))))) 256 ≡ panicked
  panics_256 f =
      Panics-bump (suc (suc (suc (suc (suc (suc f)))))) 256 (HasSize-256 m) (panics_512 f)

  panics_below : (d : ℕ) → d ≤ 6 → from m 7 (2 ^ (14 - d)) ≡ panicked
  panics_below zero le = panics_16384 6
  panics_below (suc zero) le = panics_8192 5
  panics_below (suc (suc zero)) le = panics_4096 4
  panics_below (suc (suc (suc zero))) le = panics_2048 3
  panics_below (suc (suc (suc (suc zero)))) le = panics_1024 2
  panics_below (suc (suc (suc (suc (suc zero))))) le = panics_512 1
  panics_below (suc (suc (suc (suc (suc (suc zero)))))) le = panics_256 0
  panics_below (suc (suc (suc (suc (suc (suc (suc d))))))) le = absurd (omega arith)

-- For every memory reservation beyond 120 GiB the loop runs past the largest CPU size and panics.
pub fargate_resources_panics :
    (le_zero : Bool) (e m : ℤ)
    → lebℤ m (pos 122880) ≡ false
    → fargate_resources le_zero e m ≡ panicked
unfolding fargate_resources
fargate_resources_panics le_zero e m h =
    let (d, le, cpu) = doublings le_zero e in rw cpu (panics_below m h d le)
