-- ===== src/Aws/Containers/Bounds.antt =====
-- provider/defangaws/aws/ecs.go and lb.go: the values that AWS gets are within its limits.
use pulumi_defang.Prelude.{
  Text, List, [], ◌∷◌, true, Option, none, some, ℤ, pos, negsuc, lebℤ, ltbℤ, minℤ, maxℤ, ℕ, zero,
  suc, if◌then◌else◌, ◌≡◌, refl, ◌≢◌, inl, inr, Bool-cases, arith, ◌≤◌, ◌<◌, ◌+◌, ltb,
}
use pulumi_defang.Compose.Types.{HealthCheckConfig, ServiceConfig}
use pulumi_defang.Compose.Sizes.{get_stop_grace_period_seconds}
use pulumi_defang.Aws.Containers.{
  clamp_int, start_of, HealthCheck, check_of, unless_empty, build_health_check, capped,
  build_stop_timeout, less_one, interval_of, timeout_of, tg_health_check_timing,
}

-- A natural number within bounds.
abbrev pub Within : ℕ → ℕ → ℤ → Type 0
Within lo hi (pos n) = (lo ≤ n) × (n ≤ hi)
Within lo hi (negsuc n) = ⊥

clamp_int-Within :
    (val : ℤ) (lo hi : ℕ) (fallback : ℤ)
    → lo ≤ hi
    → Within lo hi fallback
    → Within lo hi (clamp_int val (pos lo) (pos hi) fallback)
unfolding clamp_int
clamp_int-Within (pos zero) lo hi fallback h k = k
clamp_int-Within (pos (suc n)) lo hi fallback h k = ground arith
clamp_int-Within (negsuc n) lo hi fallback h k = ground arith

abbrev pub Start : Option ℤ → Type 0
Start none = Unit
Start (some s) = Within 1 300 s

-- The limits of a container's health check.
abbrev pub IsValidCheck : Option HealthCheck → Type 0
IsValidCheck none = Unit
IsValidCheck (some h) =
    (h.command ≢ [])
    × Within 5 300 h.interval
    × Within 2 60 h.timeout
    × Within 1 10 h.retries
    × Start h.start_period

start_of-Start : (z : ℤ) → Within 0 300 z → Start (start_of z)
start_of-Start (pos n) h = ground arith
start_of-Start (negsuc n) h = absurd h

check_of-IsValidCheck :
    (hc : HealthCheckConfig) (test : List Text)
    → hc.test ≡ test
    → IsValidCheck (unless_empty test (check_of hc))
check_of-IsValidCheck hc [] e = tt
check_of-IsValidCheck hc (t ∷ ts) e = (
  λ nil. cc,
  clamp_int-Within hc.interval_seconds 5 300 (pos 30) (omega arith) (omega arith, omega arith),
  clamp_int-Within hc.timeout_seconds 2 60 (pos 5) (omega arith) (omega arith, omega arith),
  clamp_int-Within hc.retries 1 10 (pos 3) (omega arith) (omega arith, omega arith),
  start_of-Start _ (
      clamp_int-Within hc.start_period_seconds 0 300 (pos 0) (omega arith)
        (omega arith, omega arith)),
)

-- Whatever the compose file says, a health check that is built has a command, an interval of 5 to 300
-- seconds, a timeout of 2 to 60, 1 to 10 retries, and a start period of 1 to 300 or none.
pub build_health_check-IsValidCheck :
    (hc : Option HealthCheckConfig) → IsValidCheck (build_health_check hc)
unfolding build_health_check
build_health_check-IsValidCheck none = tt
build_health_check-IsValidCheck (some hc) = check_of-IsValidCheck hc hc.test refl

-- The interval is at least 3, and the timeout at least 2, at most 120 and shorter than the interval.
abbrev pub IsTiming : ℤ × ℤ → Type 0
IsTiming (pos interval, pos timeout) =
    (3 ≤ interval) × (2 ≤ timeout) × (timeout ≤ 120) × (timeout < interval)
IsTiming (pos interval, negsuc timeout) = ⊥
IsTiming (negsuc interval, timeout) = ⊥

Within-IsTiming :
    (k j : ℕ) (z : ℤ) → 2 ≤ k → j ≤ k → j ≤ 120 → Within 2 j z → IsTiming (pos (suc k), z)
Within-IsTiming k j (pos n) a b c h = ground arith
Within-IsTiming k j (negsuc n) a b c h = absurd h

timeout_of-Within :
    (hc : Option HealthCheckConfig) (k j : ℕ)
    → 2 ≤ j
    → Within 2 j (timeout_of hc (pos j) (minℤ (maxℤ (pos (suc k)) (pos 2)) (pos j)))
timeout_of-Within none k j h = ground arith
timeout_of-Within (some hc) k j h =
    clamp_int-Within hc.timeout_seconds 2 j (minℤ (maxℤ (pos (suc k)) (pos 2)) (pos j)) h
      (ground arith)

-- The interval with the timeout that goes with it.
abbrev timing_of : Option HealthCheckConfig → ℤ → ℤ × ℤ
timing_of hc interval =
    let max_timeout = if ltbℤ (pos 120) (less_one interval) then pos 120 else less_one interval in
    (interval, timeout_of hc max_timeout (minℤ (maxℤ interval (pos 2)) max_timeout))

timing_of-IsTiming :
    (hc : Option HealthCheckConfig) (k : ℕ) → 2 ≤ k → IsTiming (timing_of hc (pos (suc k)))
timing_of-IsTiming hc k h = elim (Bool-cases (ltb 120 k)) [
  | inl e ↦ rw e (
      Within-IsTiming k 120 _ h (ground arith) (omega arith)
        (timeout_of-Within hc k 120 (omega arith)))
  | inr e ↦ rw e (Within-IsTiming k k _ h (omega arith) (ground arith) (timeout_of-Within hc k k h))
]

clamp_interval :
    (z : ℤ) (d : ℕ) → 3 ≤ d → Within 3 (d + 300) (clamp_int z (pos 5) (pos 300) (pos d))
unfolding clamp_int
clamp_interval (pos zero) d h = ground arith
clamp_interval (pos (suc n)) d h = ground arith
clamp_interval (negsuc n) d h = ground arith

interval_of-Within :
    (hc : Option HealthCheckConfig) (d : ℕ) → 3 ≤ d → Within 3 (d + 300) (interval_of (pos d) hc)
interval_of-Within none d h = (h, omega arith)
interval_of-Within (some hc) d h = clamp_interval hc.interval_seconds d h

timing_of-Within :
    (hc : Option HealthCheckConfig) (z : ℤ) (hi : ℕ) → Within 3 hi z → IsTiming (timing_of hc z)
timing_of-Within hc (pos zero) hi h = absurd (ground arith)
timing_of-Within hc (pos (suc k)) hi h = timing_of-IsTiming hc k (ground arith)
timing_of-Within hc (negsuc n) hi h = absurd h

-- For every health check, and every default interval of 3 seconds or more, the timeout of a target
-- group's health check is from 2 to 120 seconds and shorter than its interval.
pub tg_health_check_timing-IsTiming :
    (default_interval : ℕ) (hc : Option HealthCheckConfig)
    → 3 ≤ default_interval
    → IsTiming (tg_health_check_timing (pos default_interval) hc)
unfolding tg_health_check_timing
tg_health_check_timing-IsTiming default_interval hc h =
    timing_of-Within hc (interval_of (pos default_interval) hc) (default_interval + 300)
      (interval_of-Within hc default_interval h)

abbrev pub IsStopTimeout : ℤ → Option ℤ → Type 0
IsStopTimeout secs none = lebℤ secs (pos 0) ≡ true
IsStopTimeout secs (some t) = Within 1 120 t × (lebℤ t secs ≡ true)

capped-IsStopTimeout : (z : ℤ) → IsStopTimeout z (capped z)
capped-IsStopTimeout (pos n) = ground arith
capped-IsStopTimeout (negsuc n) = refl

-- A stop timeout is from 1 to 120 seconds and no longer than the grace period, and there is none
-- exactly where the grace period is not positive.
pub build_stop_timeout-IsStopTimeout :
    (parse_duration : Text → Option ℤ) (svc : ServiceConfig)
    → IsStopTimeout
        (get_stop_grace_period_seconds parse_duration svc)
        (build_stop_timeout parse_duration svc)
unfolding build_stop_timeout
build_stop_timeout-IsStopTimeout parse_duration svc =
    capped-IsStopTimeout (get_stop_grace_period_seconds parse_duration svc)
