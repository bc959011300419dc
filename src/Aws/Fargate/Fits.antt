-- ===== src/Aws/Fargate/Fits.antt =====
-- provider/defangaws/aws/ecs.go: the sizes chosen are sizes that Fargate has, and they are enough.
use pulumi_defang.Prelude.{
  ℤ, pos, negsuc, lebℤ, ℕ, zero, suc, ◌-◌, ◌^◌, ◌≤◌, Bool, true, ◌≡◌, arith,
}
use pulumi_defang.Aws.Fargate.{fixup_fargate_cpu, fixup_fargate_memory, bump, fargate_resources}
use pulumi_defang.Aws.Fargate.Tiers.{
  Fits, Holdable, from, Fits-bump, HasSize-256, HasSize-512, HasSize-1024, HasSize-2048,
  HasSize-4096, HasSize-8192, doublings,
}

Fits-16384 :
    (m : ℤ) (f base : ℕ) → base ≤ 16384 → lebℤ m (pos 122880) ≡ true → Fits base m (from m f 16384)
unfolding bump fixup_fargate_memory
Fits-16384 (pos m) zero base b h = ground arith
Fits-16384 (pos m) (suc f) base b h = ground arith
Fits-16384 (negsuc m) zero base b h = ground arith
Fits-16384 (negsuc m) (suc f) base b h = ground arith

module _ (m : ℤ) (h : Holdable m) (f base : ℕ) where
  Fits-8192 : base ≤ 8192 → Fits base m (from m (suc f) 8192)
  Fits-8192 b = Fits-bump m f base 8192 (HasSize-8192 m) b (Fits-16384 m f base (omega arith) h)

  Fits-4096 : base ≤ 4096 → Fits base m (from m (suc (suc f)) 4096)
  Fits-4096 b = Fits-bump m (suc f) base 4096 (HasSize-4096 m) b (Fits-8192 (omega arith))

  Fits-2048 : base ≤ 2048 → Fits base m (from m (suc (suc (suc f))) 2048)
  Fits-2048 b = Fits-bump m (suc (suc f)) base 2048 (HasSize-2048 m) b (Fits-4096 (omega arith))

  Fits-1024 : base ≤ 1024 → Fits base m (from m (suc (suc (suc (suc f)))) 1024)
  Fits-1024 b =
      Fits-bump m (suc (suc (suc f))) base 1024 (HasSize-1024 m) b (Fits-2048 (omega arith))

  Fits-512 : base ≤ 512 → Fits base m (from m (suc (suc (suc (suc (suc f))))) 512)
  Fits-512 b =
      Fits-bump m (suc (suc (suc (suc f)))) base 512 (HasSize-512 m) b (Fits-1024 (omega arith))

  Fits-256 : base ≤ 256 → Fits base m (from m (suc (suc (suc (suc (suc (suc f)))))) 256)
  Fits-256 b =
      Fits-bump m (suc (suc (suc (suc (suc f))))) base 256 (HasSize-256 m) b
        (Fits-512 (omega arith))

-- `d` doublings below the largest CPU size.
Fits-below : (m : ℤ) (d : ℕ) → Holdable m → d ≤ 6 → Fits (2 ^ (14 - d)) m (from m 7 (2 ^ (14 - d)))
Fits-below m zero h le = Fits-16384 m 7 16384 (omega arith) h
Fits-below m (suc zero) h le = Fits-8192 m h 6 8192 (omega arith)
Fits-below m (suc (suc zero)) h le = Fits-4096 m h 5 4096 (omega arith)
Fits-below m (suc (suc (suc zero))) h le = Fits-2048 m h 4 2048 (omega arith)
Fits-below m (suc (suc (suc (suc zero)))) h le = Fits-1024 m h 3 1024 (omega arith)
Fits-below m (suc (suc (suc (suc (suc zero))))) h le = Fits-512 m h 2 512 (omega arith)
Fits-below m (suc (suc (suc (suc (suc (suc zero)))))) h le = Fits-256 m h 1 256 (omega arith)
Fits-below m (suc (suc (suc (suc (suc (suc (suc d))))))) h le = absurd (omega arith)

-- For every CPU and memory reservation of at most 120 GiB, the loop ends with a CPU size of at
-- least the rounded CPU reservation, and with memory of at least the memory reservation that is one
-- of the sizes of the code's tier for that CPU size.
pub fargate_resources_fit :
    (le_zero : Bool) (e m : ℤ)
    → Holdable m
    → Fits (fixup_fargate_cpu le_zero e) m (fargate_resources le_zero e m)
unfolding fargate_resources
fargate_resources_fit le_zero e m h =
    let (d, le, cpu) = doublings le_zero e in rw cpu (Fits-below m d h le)
