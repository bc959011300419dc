-- ===== src/Scaleway/Containers/Accepted.antt =====
-- Exactly which services a serverless container accepts (validateContainerService).
use pulumi_defang.Prelude.{
  Text, codes, text_eq, text_eq_iff, List, [], ◌∷◌, All, true, false, Option, is_some, Result, ok,
  err, ok-eq, err-ok, ◌>>=◌, >>=-ok, ℤ, pos, negsuc, lebℤ, ℕ, ◌+◌, ◌≤◌, ltb, ◌≡◌, refl, ap, ◌↔◌,
  inl, inr, Bool-cases, arith, if◌then◌else◌,
}
use pulumi_defang.Compose.Types.{Float64, ServiceConfig, ServicePortConfig, Environment}
use pulumi_defang.Compose.Ports.{is_ingress, is_host}
use pulumi_defang.Compose.Sizes.{get_cpus, get_memory_mib, get_replicas, get_platform}
use pulumi_defang.Scaleway.Containers.{
  ContainerError, cpu_out_of_range, memory_out_of_range, replicas_out_of_range, container_cpu_limit,
  container_memory_limit, outside, check_range, is_reserved_port, check_ports,
  validate_container_ports, is_reserved_variable, validate_container_environment,
  validate_container_kind, validate_container_resources, validate_container_service,
}

abbrev pub In : (low high : ℕ) → ℤ → Type 0
In low high n = (lebℤ (pos low) n ≡ true) × (lebℤ n (pos high) ≡ true)

outside_iff : (low high : ℕ) (n : ℤ) → (outside low high n ≡ false) ↔ In low high n
outside_iff low high (pos n) = ground arith
outside_iff low high (negsuc n) = ground arith

check_range_iff :
    (error : ℤ → ContainerError) (low high : ℕ) (n : ℤ)
    → (check_range error low high n ≡ ok tt) ↔ In low high n
unfolding check_range
check_range_iff error low high n = elim (Bool-cases (outside low high n)) [
  | inl e ↦
      (λ out. absurd (err-ok (rw e at out)), λ h. absurd (cc ((outside_iff low high n).1 h, e)))
  | inr e ↦ (λ out. (outside_iff low high n).0 e, λ h. rw e)
]

abbrev pub IsPort : ServicePortConfig → Type 0
IsPort p = (is_host p ≡ false) × (is_reserved_port p.target ≡ false)

-- The public ones among the ports.
unfoldable pub public_ports : List ServicePortConfig → ℕ
public_ports [] = 0
public_ports (p ∷ ports) = if is_ingress p then public_ports ports + 1 else public_ports ports

check_ports-ok :
    (n m : ℕ) (ports : List ServicePortConfig)
    → check_ports n ports ≡ ok m
    → All IsPort ports × (m ≡ n + public_ports ports)
unfolding check_ports public_ports
check_ports-ok n m [] out = (tt, let same = ok-eq out in omega arith)
check_ports-ok n m (p ∷ ports) out = elim (Bool-cases (is_host p)) [
  | inl e ↦ absurd (err-ok (rw e at out))
  | inr e ↦ elim (Bool-cases (is_reserved_port p.target)) [
    | inl e' ↦ absurd (err-ok (rw (e, e') at out))
    | inr e' ↦ elim (Bool-cases (is_ingress p)) [
      | inl e'' ↦
          let (all, count) = check_ports-ok (n + 1) m ports (rw (e, e', e'') at out) in
          (((e, e'), all), rw e'' (omega arith))
      | inr e'' ↦
          let (all, count) = check_ports-ok n m ports (rw (e, e', e'') at out) in
          (((e, e'), all), rw e'' count)
    ]
  ]
]

check_ports-of :
    (n : ℕ) (ports : List ServicePortConfig)
    → All IsPort ports
    → check_ports n ports ≡ ok (n + public_ports ports)
unfolding check_ports public_ports
check_ports-of n [] h = ap ok (omega arith)
check_ports-of n (p ∷ ports) ((e, e'), all) = elim (Bool-cases (is_ingress p)) [
  | inl e'' ↦ rw (e, e', e'', check_ports-of (n + 1) ports all) (ap ok (omega arith))
  | inr e'' ↦ rw (e, e', e'', check_ports-of n ports all)
]

abbrev pub ArePorts : List ServicePortConfig → Type 0
ArePorts ports = All IsPort ports × (public_ports ports ≤ 1)

ports_iff : (svc : ServiceConfig) → (validate_container_ports svc ≡ ok tt) ↔ ArePorts svc.ports
unfolding validate_container_ports
ports_iff svc = (
  λ out.
      let (n, counted, few) = >>=-ok (check_ports 0 svc.ports) _ out in
      let (all, count) = check_ports-ok 0 n svc.ports counted in
      elim (Bool-cases (ltb 1 n)) [
        | inl e ↦ absurd (err-ok (rw e at few))
        | inr e ↦ (all, ground arith)
      ],
  λ (all, few).
      let e : ltb 1 (0 + public_ports svc.ports) ≡ false = ground arith in
      rw (check_ports-of 0 svc.ports all, e),
)

abbrev pub AreVariables : Environment → Type 0
AreVariables = All (λ (k, v). is_reserved_variable k ≡ false)

environment_iff :
    (environment : Environment)
    → (validate_container_environment environment ≡ ok tt) ↔ AreVariables environment
unfolding validate_container_environment
environment_iff [] = (λ out. tt, λ h. refl)
environment_iff ((k, v) ∷ environment) = elim (Bool-cases (is_reserved_variable k)) [
  | inl e ↦ (λ out. absurd (err-ok (rw e at out)), λ (h, hs). absurd (cc (h, e)))
  | inr e ↦ (
    λ out. (e, (environment_iff environment).0 (rw e at out)),
    λ (h, hs). rw e ((environment_iff environment).1 hs),
  )
]

abbrev pub IsKind : ServiceConfig → Type 0
IsKind svc = (is_some svc.llm ≡ false) × (get_platform svc ≡ codes "linux/amd64")

IsKind-iff : (svc : ServiceConfig) → (validate_container_kind svc ≡ ok tt) ↔ IsKind svc
unfolding validate_container_kind
IsKind-iff svc = elim (Bool-cases (is_some svc.llm)) [
  | inl e ↦ (λ out. absurd (err-ok (rw e at out)), λ (h, h'). absurd (cc (h, e)))
  | inr e ↦ elim (Bool-cases (text_eq (get_platform svc) (codes "linux/amd64"))) [
    | inl e' ↦
        (λ out. (e, (text_eq_iff (get_platform svc) (codes "linux/amd64")).0 e'), λ h. rw (e, e'))
    | inr e' ↦ (
      λ out. absurd (err-ok (rw (e, e') at out)),
      λ (h, h'). absurd (cc ((text_eq_iff (get_platform svc) (codes "linux/amd64")).1 h', e')),
    )
  ]
]

-- A second check runs after the first one has passed.
seq_iff :
    (first second : Result ContainerError (Unit {0}))
    → ((first >>= λ u. second) ≡ ok tt) ↔ ((first ≡ ok tt) × (second ≡ ok tt))
seq_iff (err e) second = (λ out. absurd (err-ok out), λ (h, h'). absurd (err-ok h))
seq_iff (ok u) second = (λ out. (refl, out), λ (h, h'). h')

module _ (parse_float : Text → Option Float64) (ceil_millis : Float64 → ℤ) where
  abbrev pub AreResources : ServiceConfig → Type 0
  AreResources svc =
      In 70 6000 (container_cpu_limit ceil_millis (get_cpus svc))
      × In 128 12228 (container_memory_limit (get_memory_mib parse_float svc))
      × In 1 50 (get_replicas svc)

  resources_iff :
      (svc : ServiceConfig)
      → (validate_container_resources parse_float ceil_millis svc ≡ ok tt) ↔ AreResources svc
  unfolding validate_container_resources
  resources_iff svc =
      let cpu = container_cpu_limit ceil_millis (get_cpus svc) in
      let mem = container_memory_limit (get_memory_mib parse_float svc) in
      let third = check_range replicas_out_of_range 1 50 (get_replicas svc) in
      let second = check_range memory_out_of_range 128 12228 mem in
      (
        λ out.
            let (h, rest) =
              (seq_iff (check_range cpu_out_of_range 70 6000 cpu) (second >>= λ b. third)).0 out in
            let (h', h'') = (seq_iff second third).0 rest in
            (
              (check_range_iff cpu_out_of_range 70 6000 cpu).0 h,
              (check_range_iff memory_out_of_range 128 12228 mem).0 h',
              (check_range_iff replicas_out_of_range 1 50 (get_replicas svc)).0 h'',
            ),
        λ (h, h', h'').
            (seq_iff (check_range cpu_out_of_range 70 6000 cpu) (second >>= λ b. third)).1 (
              (check_range_iff cpu_out_of_range 70 6000 cpu).1 h,
              (seq_iff second third).1 (
                (check_range_iff memory_out_of_range 128 12228 mem).1 h',
                (check_range_iff replicas_out_of_range 1 50 (get_replicas svc)).1 h'',
              ),
            ),
      )

  -- The provider accepts a service exactly where its CPU, memory and replicas stand in the ranges of
  -- the platform, no port is in host mode or reserved, at most one port is public, no variable is
  -- reserved, it is no model service, and its image is for linux/amd64.
  pub validate_container_service_iff :
      (svc : ServiceConfig)
      → (validate_container_service parse_float ceil_millis svc ≡ ok tt)
        ↔ (AreResources svc × ArePorts svc.ports × AreVariables svc.environment × IsKind svc)
  unfolding validate_container_service
  validate_container_service_iff svc =
      let a = validate_container_resources parse_float ceil_millis svc in
      let b = validate_container_ports svc in
      let c = validate_container_environment svc.environment in
      let d = validate_container_kind svc in
      (
        λ out.
            let (h, rest) = (seq_iff a (b >>= λ u. c >>= λ u'. d)).0 out in
            let (h', rest') = (seq_iff b (c >>= λ u'. d)).0 rest in
            let (h'', h3) = (seq_iff c d).0 rest' in
            (
              (resources_iff svc).0 h,
              (ports_iff svc).0 h',
              (environment_iff svc.environment).0 h'',
              (IsKind-iff svc).0 h3,
            ),
        λ (h, h', h'', h3). (seq_iff a (b >>= λ u. c >>= λ u'. d)).1 (
          (resources_iff svc).1 h,
          (seq_iff b (c >>= λ u'. d)).1 (
            (ports_iff svc).1 h',
            (seq_iff c d).1 ((environment_iff svc.environment).1 h'', (IsKind-iff svc).1 h3),
          ),
        ),
      )
