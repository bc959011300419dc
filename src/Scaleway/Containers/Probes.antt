-- ===== src/Scaleway/Containers/Probes.antt =====
-- provider/defangscaleway/scaleway/containers.go: the probes of a container (containerHealthProbes)
-- and the managed service that a URL names (findManagedHostInURL).
use native.Mathlib.Omega.{arith}
use pulumi_defang.Prelude.{
  Text, codes, text_eq, cut, cut_prefix, contains_byte, Map, lookup, List, [], ◌∷◌, Bool, true,
  Option, none, some, is_some, if◌then◌else◌, ℤ, pos, negsuc, ℕ, ◌+◌, ◌*◌, ◌/◌, ◌%◌, ◌<◌, ◌≤◌, ltb,
  ◌==◌, ◌≡◌, refl, sym, ◌∙◌, subst, ap, inl, inr, Bool-cases, eq_of_some,
}
use pulumi_defang.Compose.Types.{HealthCheckConfig}

-- A probe of one path over HTTP; the source prints the two times, in seconds, as durations.
pub record Probe : Type 0 where
  pub path : Text
  pub failure_threshold : ℕ
  pub interval : ℕ
  pub timeout : ℕ

-- A number that is not positive stands for the default.
unfoldable pub positive_or : (default : ℕ) → ℤ → ℕ
positive_or default (pos n) = if ltb 0 n then n else default
positive_or default (negsuc n) = default

-- math.Ceil of a quotient; float64 division of numbers of 32 bits does not reach the next integer.
unfoldable pub ceil_div : ℕ → ℕ → ℕ
ceil_div a b = if ltb 0 (a % b) then a / b + 1 else a / b

-- The probe that the container is watched with.
unfoldable pub liveness_probe : (path : Text) → HealthCheckConfig → Probe
unfolding positive_or
liveness_probe path hc = record {
  path = path;
  failure_threshold = positive_or 3 hc.retries;
  interval = positive_or 10 hc.interval_seconds;
  timeout = positive_or 5 hc.timeout_seconds;
}

-- The rounds of the start period are added to the retries.
unfoldable pub startup_probe : Probe → ℤ → Option Probe
unfolding ceil_div
startup_probe p (negsuc n) = none
startup_probe p (pos s) =
    if ltb 0 s
    then some (record p { failure_threshold = p.failure_threshold + ceil_div s p.interval })
    else none

is_disabled : List Text → Bool
is_disabled [] = true
is_disabled (t ∷ test) = text_eq t (codes "NONE")

-- `path` is what GetHealthCheckPathAndPort reads from the check, by a regular expression.
unfoldable pub container_health_probes :
    (path : HealthCheckConfig → Text) → Option HealthCheckConfig → Option Probe × Option Probe
unfolding is_disabled liveness_probe startup_probe
container_health_probes path none = (none, none)
container_health_probes path (some hc) =
    let liveness = liveness_probe (path hc) hc in
    if is_disabled hc.test
    then (none, none)
    else (some liveness, startup_probe liveness hc.start_period_seconds)

-- What follows the first occurrence of the mark.
unfoldable pub after_first : (mark : Text) → Text → Option Text
after_first mark [] = cut_prefix mark []
after_first mark (c ∷ s) =
    let later = after_first mark s in
    elim (cut_prefix mark (c ∷ s)) [ none ↦ later | some rest ↦ some rest ]

-- What follows the last occurrence of a byte, or all of it.
unfoldable pub after_last : ℕ → Text → Text
after_last b [] = []
after_last b (c ∷ s) =
    let later = after_last b s in if contains_byte b s then later else if c == b then s else c ∷ s

-- A colon anywhere goes before a slash.
unfoldable pub host_of : Text → Text
host_of part = elim (cut b':' part) [
  | some (host, rest) ↦ host
  | none ↦ elim (cut b'/' part) [ some (host, rest) ↦ host | none ↦ part ]
]

unfoldable pub find_managed_host_in_url : {A : Type 0} → Text → Map A → Option Text
unfolding after_first after_last host_of
find_managed_host_in_url raw managed_hosts = elim (after_first (codes "://") raw) [
  | none ↦ none
  | some part ↦
      let host = host_of (after_last b'@' part) in
      if is_some (lookup host managed_hosts) then some host else none
]

none-some : {A : Type 0} {a : A} → none ≡ some a → ⊥
none-some h = cc

positive_or-positive : (default : ℕ) (n : ℤ) → 0 < default → 0 < positive_or default n
unfolding positive_or
positive_or-positive default (pos n) h = ground arith
positive_or-positive default (negsuc n) h = h

abbrev IsCeil : (a b q : ℕ) → Type 0
IsCeil a b q = (a ≤ q * b) × (q * b < a + b)

round_up : (a b : ℕ) → 0 < b → 0 < a % b → IsCeil a b (a / b + 1)
round_up a b h inexact = (omega arith, omega arith)

exact : (a b : ℕ) → 0 < b → a % b ≤ 0 → IsCeil a b (a / b)
exact a b h whole = (omega arith, omega arith)

ceil_div-IsCeil : (a b : ℕ) → 0 < b → IsCeil a b (ceil_div a b)
unfolding ceil_div
ceil_div-IsCeil a b h = elim (Bool-cases (ltb 0 (a % b))) [
  | inl e ↦ rw e (round_up a b h (ground arith))
  | inr e ↦ rw e (exact a b h (ground arith))
]

-- The window of the startup probe `q` that is made from the probe `p`.
abbrev pub IsWindow : (period : ℕ) → Probe → Probe → Type 0
IsWindow period p q =
    (q.interval ≡ p.interval)
    × (period + p.failure_threshold * p.interval ≤ q.failure_threshold * q.interval)
    × (q.failure_threshold * q.interval < period + (p.failure_threshold + 1) * p.interval)

window :
    (period rounds : ℕ) (p : Probe)
    → IsCeil period p.interval rounds
    → IsWindow period p (record p { failure_threshold = p.failure_threshold + rounds })
window period rounds p (least, most) = (refl, omega arith, omega arith)

startup_probe-IsWindow :
    (p q : Probe) (period : ℕ)
    → 0 < p.interval
    → startup_probe p (pos period) ≡ some q
    → IsWindow period p q
unfolding startup_probe
startup_probe-IsWindow p q period positive made = elim (Bool-cases (ltb 0 period)) [
  | inl e ↦
      subst (IsWindow period p) (eq_of_some (rw e at made))
        (window period (ceil_div period p.interval) p (ceil_div-IsCeil period p.interval positive))
  | inr e ↦ absurd (none-some (rw e at made))
]

-- With a start period, a container that never answers fails its startup probe only after the start
-- period and the retries of its liveness probe, and less than one interval after that.
pub container_health_probes-IsWindow :
    (path : HealthCheckConfig → Text) (hc : HealthCheckConfig) (liveness startup : Probe)
    (period : ℕ)
    → hc.start_period_seconds ≡ pos period
    → container_health_probes path (some hc) ≡ (some liveness, some startup)
    → IsWindow period liveness startup
unfolding container_health_probes liveness_probe
container_health_probes-IsWindow path hc liveness startup period start both =
    elim (Bool-cases (is_disabled hc.test)) [
      | inl e ↦ absurd (none-some (ap (λ (x : Option Probe × Option Probe). x.0) (rw e at both)))
      | inr e ↦
          let same = rw e at both in
          subst (λ p. IsWindow period p startup)
            (eq_of_some (ap (λ (x : Option Probe × Option Probe). x.0) same))
            (startup_probe-IsWindow (liveness_probe (path hc) hc) startup period
              (positive_or-positive 10 hc.interval_seconds (omega arith))
              (ap (startup_probe (liveness_probe (path hc) hc)) (sym start)
                ∙ ap (λ (x : Option Probe × Option Probe). x.1) same))
    ]
