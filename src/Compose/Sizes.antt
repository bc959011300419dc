-- ===== src/Compose/Sizes.antt =====
-- provider/compose/types.go and helpers.go: what a service reserves and builds, with the defaults of
-- what it does not say. strconv.ParseFloat and time.ParseDuration are parameters; `none` is their error, and
-- the spellings of infinity and of no number are left out. A duration is in nanoseconds.
pub mod Laws
use pulumi_defang.Prelude.{
  ltb, Text, codes, text_eq, is_empty, to_lower, trim_space, Map, insert, List, [], ◌∷◌, ◌++◌, Bool,
  true, false, ◌&&◌, ◌||◌, Option, none, some, is_some, or_else, if◌then◌else◌, ℤ, pos, negsuc,
  lebℤ, ltbℤ, ℕ, zero, suc, ◌+◌, ◌*◌, ◌/◌, ◌^◌, leb, ◌==◌,
}
use pulumi_defang.Compose.Types.{
  Float64, StringInput, literal, output, Environment, ServiceConfig, DeployConfig, Resources,
  ResourceConfig, BuildConfig,
}

-- A static value, which may be nil, or not static.
unfoldable pub static_env_value : Option StringInput → Option Text × Bool
static_env_value none = (none, true)
static_env_value (some (literal s)) = (some s, true)
static_env_value (some (output handle)) = (none, false)

unfoldable pub static_image : ServiceConfig → Option Text
static_image s = elim s.image [
  | none ↦ none
  | some (literal img) ↦ some img
  | some (output handle) ↦ none
]

abbrev at_least_one : Option ℤ → ℤ
at_least_one none = pos 1
at_least_one (some n) = if ltbℤ (pos 0) n then n else pos 1

unfoldable pub get_replicas : ServiceConfig → ℤ
get_replicas s = elim s.deploy [ none ↦ pos 1 | some d ↦ at_least_one d.replicas ]

-- s.Deploy.Resources.Reservations, or nil if one of them is.
abbrev pub reservations : ServiceConfig → Option ResourceConfig
reservations s = elim s.deploy [
  | none ↦ none
  | some d ↦ elim d.resources [ none ↦ none | some r ↦ r.reservations ]
]

unfoldable pub has_resource_reservations : ServiceConfig → Bool
has_resource_reservations s = is_some (reservations s)

-- 0.25
abbrev pub quarter : Float64
quarter = record { mantissa = pos 1; exponent = negsuc 1 }

unfoldable pub get_cpus : ServiceConfig → Float64
get_cpus s = elim (reservations s) [ none ↦ quarter | some r ↦ or_else r.cpus quarter ]

-- n <= 0
abbrev pub is_not_positive : Float64 → Bool
is_not_positive n = lebℤ n.mantissa (pos 0)

-- The absolute value m * 2 ^ e, rounded down.
abbrev pub magnitude : ℕ → ℤ → ℕ
magnitude m (pos e) = m * 2 ^ e
magnitude m (negsuc e) = m / 2 ^ (suc e)

abbrev negated : ℕ → ℤ
negated zero = pos 0
negated (suc n) = negsuc n

-- int(m * 2 ^ e), which is rounded towards zero.
abbrev pub truncated : ℤ → ℤ → ℤ
truncated (pos m) e = pos (magnitude m e)
truncated (negsuc m) e = negated (magnitude (suc m) e)

-- e - k
abbrev lowered : ℤ → ℕ → ℤ
lowered e zero = e
lowered (pos zero) (suc k) = lowered (negsuc 0) k
lowered (pos (suc e)) (suc k) = lowered (pos e) k
lowered (negsuc e) (suc k) = lowered (negsuc (suc e)) k

-- e + k
abbrev raised : ℤ → ℕ → ℤ
raised e zero = e
raised (pos e) (suc k) = raised (pos (suc e)) k
raised (negsuc zero) (suc k) = raised (pos 0) k
raised (negsuc (suc e)) (suc k) = raised (negsuc e) k

-- -2 ^ 63
abbrev pub min_int : ℤ
min_int = negsuc 9223372036854775807

-- What a conversion of a float64 to int gives on amd64: beyond 64 bits, the least int. An infinite
-- number behaves as a finite one beyond 64 bits does.
abbrev pub as_int : ℤ → ℤ
as_int (pos n) = if ltb n 9223372036854775808 then pos n else min_int
as_int (negsuc n) = if ltb n 9223372036854775808 then negsuc n else min_int

-- int(n / 2 ^ k) and int(n * 2 ^ k)
abbrev pub int_div : Float64 → ℕ → ℤ
int_div n k = as_int (truncated n.mantissa (lowered n.exponent k))

-- n * 2 ^ k, rounded towards zero.
abbrev pub scaled : Float64 → ℕ → ℤ
scaled n k = truncated n.mantissa (raised n.exponent k)

abbrev pub int_mul : Float64 → ℕ → ℤ
int_mul n k = as_int (scaled n k)

abbrev pub max_one : ℤ → ℤ
max_one n = if ltbℤ (pos 1) n then n else pos 1

abbrev is_numeric : ℕ → Bool
is_numeric c = c == b'.' || (leb b'0' c && leb c b'9')

-- The leading digits and dots, and what follows.
unfoldable pub numeric_part : Text → Text × Text
numeric_part [] = ([], [])
numeric_part (c ∷ s) =
    let (number, suffix) = numeric_part s in
    if is_numeric c then (c ∷ number, suffix) else ([], c ∷ s)

abbrev pub is_one_of : Text → List Text → Bool
is_one_of s [] = false
is_one_of s (t ∷ ts) = text_eq s t || is_one_of s ts

-- Go's switch over a string: cases with their labels, and the default.
abbrev pub switch : Text → List (List Text × ℤ) → ℤ → ℤ
switch s [] default = default
switch s ((labels, value) ∷ cases) default =
    let rest = switch s cases default in if is_one_of s labels then value else rest

abbrev pub suffix_cases : Float64 → List (List Text × ℤ)
suffix_cases n =
    (codes "b" ∷ [], max_one (int_div n 20))
    ∷ (codes "k" ∷ codes "kb" ∷ [], max_one (int_div n 10))
    ∷ (codes "ki" ∷ codes "kib" ∷ [], max_one (int_div n 10))
    ∷ (codes "m" ∷ codes "mb" ∷ [], int_mul n 0)
    ∷ (codes "mi" ∷ codes "mib" ∷ [], int_mul n 0)
    ∷ (codes "g" ∷ codes "gb" ∷ [], int_mul n 10)
    ∷ (codes "gi" ∷ codes "gib" ∷ [], int_mul n 10)
    ∷ (codes "t" ∷ codes "tb" ∷ [], int_mul n 20)
    ∷ (codes "ti" ∷ codes "tib" ∷ [], int_mul n 20)
    ∷ []

unfoldable pub scale_by_suffix : Text → Float64 → ℤ
scale_by_suffix suffix n = switch suffix (suffix_cases n) (pos 512)

module _ (parse_float : Text → Option Float64) where
  -- What is done with the numeric part, with the suffix that stands behind it.
  unfoldable pub parse_with_suffix : Text × Text → ℤ
  parse_with_suffix (number, suffix) =
      if is_empty number then pos 512 else elim (parse_float number) [
        | none ↦ pos 512
        | some n ↦
            if is_not_positive n then pos 512 else scale_by_suffix (to_lower (trim_space suffix)) n
      ]

  -- A number of bytes.
  abbrev pub from_bytes : Float64 → ℤ
  from_bytes n = if lebℤ (int_div n 20) (pos 0) then pos 512 else int_div n 20

  abbrev parse_trimmed : Text → ℤ
  parse_trimmed s = if is_empty s then pos 512 else elim (parse_float s) [
    | some n ↦ from_bytes n
    | none ↦ parse_with_suffix (numeric_part s)
  ]

  unfoldable pub parse_memory_mib : Text → ℤ
  parse_memory_mib s = parse_trimmed (trim_space s)

  unfoldable pub get_memory_mib : ServiceConfig → ℤ
  get_memory_mib s = elim (reservations s) [
    | none ↦ pos 512
    | some r ↦ elim r.memory [ none ↦ pos 512 | some memory ↦ parse_memory_mib memory ]
  ]

  unfoldable pub get_build_memory_mib : BuildConfig → ℤ
  get_build_memory_mib b = elim b.shm_size [
    | none ↦ pos 8192
    | some shm_size ↦ parse_memory_mib shm_size
  ]

unfoldable pub get_container_name : ServiceConfig → Text → Text
get_container_name s fallback = elim s.container_name [
  | none ↦ fallback
  | some name ↦ if is_empty name then fallback else name
]

-- int(d.Seconds()), with the error of the parser as zero.
abbrev whole_seconds : Option ℤ → ℤ
whole_seconds none = pos 0
whole_seconds (some (pos ns)) = pos (ns / 1000000000)
whole_seconds (some (negsuc ns)) = negated (suc ns / 1000000000)

unfoldable pub parse_duration_seconds : (Text → Option ℤ) → Text → ℤ
parse_duration_seconds parse_duration s =
    if is_empty s then pos 0 else whole_seconds (parse_duration s)

unfoldable pub get_stop_grace_period_seconds : (Text → Option ℤ) → ServiceConfig → ℤ
get_stop_grace_period_seconds parse_duration s = elim s.stop_grace_period [
  | none ↦ pos 0
  | some period ↦ parse_duration_seconds parse_duration period
]

unfoldable pub needs_build : ServiceConfig → Bool
needs_build s = is_some s.build

unfoldable pub get_platform : ServiceConfig → Text
get_platform s = or_else s.platform (codes "linux/amd64")

unfoldable pub get_dockerfile : BuildConfig → Text
get_dockerfile b = or_else b.dockerfile (codes "Dockerfile")

unfoldable pub get_target : BuildConfig → Text
get_target b = or_else b.target []

-- The body of the loop over the environment.
unfoldable pub resolve_value : Text → Option Text × Bool → Map Text → Map Text
resolve_value k (value, false) env = env
resolve_value k (some value, true) env = insert k value env
resolve_value k (none, true) env = insert k (codes "${" ++ k ++ codes "}") env

unfoldable pub resolve_loop : Environment → Map Text → Map Text
resolve_loop [] env = env
resolve_loop ((k, v) ∷ environment) env =
    resolve_loop environment (resolve_value k (static_env_value v) env)

unfoldable pub resolved_environment : ServiceConfig → Map Text
resolved_environment s = resolve_loop s.environment []
