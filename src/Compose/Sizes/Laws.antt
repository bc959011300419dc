-- ===== src/Compose/Sizes/Laws.antt =====
-- provider/compose/types.go and helpers.go: bounds of what a service reserves, and its environment.
use pulumi_defang.Prelude.{
  All, Text, codes, text_eq, text_eq_iff, is_empty, to_lower, trim_space, trim_space_idem, Map,
  lookup, lookup-insert, keys, IsMap, List, [], ◌∷◌, ◌++◌, true, false, Option, none, some,
  if◌then◌else◌, ℤ, pos, negsuc, lebℤ, ltbℤ, ℕ, ◌≡◌, refl, ap, ◌∙◌, subst, inl, inr, Bool-cases,
  Option-cases, Has, arith, lookup-none,
}
use pulumi_defang.Compose.Types.{Float64, StringInput, literal, output, Environment, ServiceConfig}
use pulumi_defang.Compose.Sizes.{
  at_least_one, switch, suffix_cases, parse_trimmed, static_env_value, get_replicas,
  is_not_positive, truncated, scaled, as_int, int_mul, int_div, max_one, numeric_part, is_one_of,
  scale_by_suffix, parse_with_suffix, parse_memory_mib, resolve_value, resolve_loop,
  resolved_environment,
}

at_least_one_positive : (o : Option ℤ) → lebℤ (pos 1) (at_least_one o) ≡ true
at_least_one_positive none = refl
at_least_one_positive (some (pos n)) = ground arith
at_least_one_positive (some (negsuc n)) = refl

-- The number of replicas of a service is one or more.
pub get_replicas_positive : (s : ServiceConfig) → lebℤ (pos 1) (get_replicas s) ≡ true
unfolding get_replicas
get_replicas_positive s = elim (Option-cases s.deploy) [
  | inl e ↦ rw e refl
  | inr (d, e) ↦ rw e (at_least_one_positive d.replicas)
]

abbrev Natural : ℤ → Type 0
Natural n = lebℤ (pos 0) n ≡ true

truncated-Natural : (m e : ℤ) → lebℤ m (pos 0) ≡ false → Natural (truncated m e)
truncated-Natural (pos m) e h = ground arith
truncated-Natural (negsuc m) e h = cc

-- The number times 2 ^ k is an int.
abbrev Fits : Float64 → ℕ → Type 0
Fits n k = ltbℤ (scaled n k) (pos 9223372036854775808) ≡ true

as_int-Natural : (n : ℤ) → Natural n → ltbℤ n (pos 9223372036854775808) ≡ true → Natural (as_int n)
as_int-Natural (pos n) h fits = rw fits h
as_int-Natural (negsuc n) h fits = cc

-- A size of this number, whatever its suffix, is an int.
abbrev pub IsSmall : Float64 → Type 0
IsSmall n = All (Fits n) (0 ∷ 10 ∷ 20 ∷ [])

int_mul-Natural :
    (n : Float64) (k : ℕ) → is_not_positive n ≡ false → Fits n k → Natural (int_mul n k)
int_mul-Natural n k h fits = as_int-Natural (scaled n k) (truncated-Natural n.mantissa _ h) fits

max_one-Natural : (n : ℤ) → Natural (max_one n)
max_one-Natural (pos n) = ground arith
max_one-Natural (negsuc n) = refl

switch-Natural :
    (s : Text) (cases : List (List Text × ℤ)) (default : ℤ)
    → All (λ c. Natural (c.1)) cases
    → Natural default
    → Natural (switch s cases default)
switch-Natural s [] default all d = d
switch-Natural s ((labels, value) ∷ cases) default (here, all) d =
    elim (Bool-cases (is_one_of s labels)) [
      | inl e ↦ rw e here
      | inr e ↦ rw e (switch-Natural s cases default all d)
    ]

scale_by_suffix-Natural :
    (suffix : Text) (n : Float64)
    → is_not_positive n ≡ false
    → IsSmall n
    → Natural (scale_by_suffix suffix n)
unfolding scale_by_suffix
scale_by_suffix-Natural suffix n h (ones, (thousands, (millions, none_left))) =
    let one = int_mul-Natural n 0 h ones in
    let thousand = int_mul-Natural n 10 h thousands in
    let million = int_mul-Natural n 20 h millions in
    switch-Natural suffix (suffix_cases n) (pos 512)
      (
        max_one-Natural (int_div n 20),
        (
          max_one-Natural (int_div n 10),
          (
            max_one-Natural (int_div n 10),
            (one, (one, (thousand, (thousand, (million, (million, tt)))))),
          ),
        ),
      )
      refl

module _ (parse_float : Text → Option Float64) where
  -- The number in front of the suffix is small, where there is one.
  abbrev pub HasSmall : Text → Type 0
  HasSmall number = (n : Float64) → parse_float number ≡ some n → IsSmall n

  parse_with_suffix-Natural :
      (parts : Text × Text) → HasSmall parts.0 → Natural (parse_with_suffix parse_float parts)
  unfolding parse_with_suffix
  parse_with_suffix-Natural (number, suffix) small = elim (Bool-cases (is_empty number)) [
    | inl e ↦ rw e refl
    | inr e ↦ elim (Option-cases (parse_float number)) [
      | inl none_parsed ↦ rw (e, none_parsed) refl
      | inr (n, parsed) ↦ elim (Bool-cases (is_not_positive n)) [
        | inl low ↦ rw (e, parsed, low) refl
        | inr high ↦
            rw (e, parsed, high)
              (scale_by_suffix-Natural (to_lower (trim_space suffix)) n high (small n parsed))
      ]
    ]
  ]

  positive_or_default : (n : ℤ) → Natural (if lebℤ n (pos 0) then pos 512 else n)
  positive_or_default (pos n) = ground arith
  positive_or_default (negsuc n) = refl

  parse_trimmed-Natural :
      (s : Text) → HasSmall (numeric_part s).0 → Natural (parse_trimmed parse_float s)
  parse_trimmed-Natural s small = elim (Bool-cases (is_empty s)) [
    | inl e ↦ rw e refl
    | inr e ↦ elim (Option-cases (parse_float s)) [
      | inl none_parsed ↦ rw (e, none_parsed) (parse_with_suffix-Natural (numeric_part s) small)
      | inr (n, parsed) ↦ rw (e, parsed) (positive_or_default (int_div n 20))
    ]
  ]

  -- Memory is not negative, provided that the number in front of the suffix, times 2 ^ 20, is an int.
  pub parse_memory_mib-Natural :
      (s : Text)
      → HasSmall (numeric_part (trim_space s)).0
      → lebℤ (pos 0) (parse_memory_mib parse_float s) ≡ true
  unfolding parse_memory_mib
  parse_memory_mib-Natural s small = parse_trimmed-Natural (trim_space s) small

  -- Blanks before and behind make no difference.
  parse_memory_mib_trimmed :
      (s : Text) → parse_memory_mib parse_float (trim_space s) ≡ parse_memory_mib parse_float s
  unfolding parse_memory_mib
  parse_memory_mib_trimmed s = ap (parse_trimmed parse_float) (trim_space_idem s)

-- What a value of the compose file comes to: itself, or a placeholder where there is none. The output
-- of another resource comes to nothing.
abbrev pub resolved : Text → Option (Option StringInput) → Option Text
resolved k none = none
resolved k (some none) = some (codes "${" ++ k ++ codes "}")
resolved k (some (some (literal s))) = some s
resolved k (some (some (output handle))) = none

resolved_or : Text → Option (Option StringInput) → Option Text → Option Text
resolved_or k v before = elim (resolved k v) [ none ↦ before | some s ↦ some s ]

lookup-resolve_value :
    (k j : Text) (v : Option StringInput) (env : Map Text)
    → lookup k (resolve_value j (static_env_value v) env)
      ≡ (if text_eq j k then resolved_or k (some v) (lookup k env) else lookup k env)
unfolding resolve_value static_env_value resolved_or
lookup-resolve_value k j none env =
    ground (arith, text_eq_iff j k, lookup-insert j k (codes "${" ++ j ++ codes "}") env)
lookup-resolve_value k j (some (literal s)) env =
    ground (arith, text_eq_iff j k, lookup-insert j k s env)
lookup-resolve_value k j (some (output handle)) env = ground arith

lookup-resolve_loop :
    (k : Text) (environment : Environment) (env : Map Text)
    → IsMap environment
    → lookup k (resolve_loop environment env) ≡ resolved_or k (lookup k environment) (lookup k env)
unfolding resolve_loop resolved_or
lookup-resolve_loop k [] env distinct = refl
lookup-resolve_loop k ((j, v) ∷ environment) env (fresh, distinct) =
    let next = resolve_value j (static_env_value v) env in
    let rest = lookup-resolve_loop k environment next distinct in
    elim (Bool-cases (text_eq j k)) [
      | inl e ↦
          let gone : lookup k environment ≡ none =
            lookup-none k environment
              (subst (λ x. ¬ Has x (keys environment)) ((text_eq_iff j k).0 e) fresh) in
          rest ∙ rw (gone, lookup-resolve_value k j v env, e)
      | inr e ↦ rest ∙ rw (lookup-resolve_value k j v env, e)
    ]

resolved_or-none :
    (k : Text) (v : Option (Option StringInput)) → resolved_or k v none ≡ resolved k v
unfolding resolved_or
resolved_or-none k none = refl
resolved_or-none k (some none) = refl
resolved_or-none k (some (some (literal s))) = refl
resolved_or-none k (some (some (output handle))) = refl

-- The environment that is resolved gives each name what its value comes to.
pub lookup-resolved_environment :
    (s : ServiceConfig) (k : Text)
    → IsMap s.environment
    → lookup k (resolved_environment s) ≡ resolved k (lookup k s.environment)
unfolding resolved_environment
lookup-resolved_environment s k distinct =
    lookup-resolve_loop k s.environment [] distinct ∙ resolved_or-none k (lookup k s.environment)
