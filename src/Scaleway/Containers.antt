-- ===== src/Scaleway/Containers.antt =====
-- provider/defangscaleway/scaleway/containers.go: what a serverless container accepts, and the
-- arguments that it is created with. strconv.ParseFloat and the int of math.Ceil(cpus * 1000) are
-- parameters.
pub mod Accepted
pub mod Shim
pub mod Probes
use pulumi_defang.Prelude.{
  Text, codes, text_eq, is_empty, has_prefix, contains_byte, any, join, Map, List, [], ◌∷◌, ◌++◌,
  Bool, true, false, not, ◌&&◌, ◌||◌, Option, none, some, Result, ok, err, ◌>>=◌, is_some,
  if◌then◌else◌, ℤ, pos, negsuc, lebℤ, ltbℤ, maxℤ, ℕ, ◌+◌, ltb, ◌==◌, decimal,
}
use pulumi_defang.Compose.Types.{Float64, ServiceConfig, ServicePortConfig, Environment}
use pulumi_defang.Compose.Ports.{is_ingress, is_host, get_app_protocol, has_ingress_ports}
use pulumi_defang.Compose.Sizes.{
  get_cpus, is_not_positive, get_memory_mib, get_replicas, get_platform,
}
use pulumi_defang.Scaleway.Script.{sh_quote}

-- All of them wrap ErrContainerUnsupported.
pub data ContainerError : Type 0 where
  cpu_out_of_range memory_out_of_range replicas_out_of_range : ℤ → ContainerError
  host_port two_public_ports llm_service : ContainerError
  reserved_port : ℤ → ContainerError
  reserved_variable : Text → ContainerError
  other_platform : Text → ContainerError

unfoldable pub container_cpu_limit : (ceil_millis : Float64 → ℤ) → Float64 → ℤ
container_cpu_limit ceil_millis cpus = if is_not_positive cpus then pos 140 else ceil_millis cpus

unfoldable pub container_memory_limit : ℤ → ℤ
container_memory_limit mem_mib = if lebℤ mem_mib (pos 0) then pos 256 else maxℤ mem_mib (pos 128)

abbrev pub outside : (low high : ℕ) → ℤ → Bool
outside low high n = ltbℤ n (pos low) || ltbℤ (pos high) n

unfoldable pub check_range :
    (error : ℤ → ContainerError) (low high : ℕ) → ℤ → Result ContainerError (Unit {0})
check_range error low high n = if outside low high n then err (error n) else ok tt

abbrev pub is_reserved_port : ℤ → Bool
is_reserved_port (pos n) = any (λ p. n == p) (8008 ∷ 8012 ∷ 8013 ∷ 8022 ∷ 9090 ∷ 9091 ∷ [])
is_reserved_port (negsuc n) = false

-- The loop over the ports, with the public ones seen so far.
unfoldable pub check_ports : (ingress_ports : ℕ) → List ServicePortConfig → Result ContainerError ℕ
check_ports ingress_ports [] = ok ingress_ports
check_ports ingress_ports (p ∷ ports) =
    let with_it = check_ports (ingress_ports + 1) ports in
    let without = check_ports ingress_ports ports in
    if is_host p
    then err host_port
    else if is_reserved_port p.target
    then err (reserved_port p.target)
    else if is_ingress p
    then with_it
    else without

unfoldable pub validate_container_ports : ServiceConfig → Result ContainerError (Unit {0})
unfolding check_ports
validate_container_ports svc = do
  n ← check_ports 0 svc.ports
  if ltb 1 n then err two_public_ports else ok tt

abbrev pub is_reserved_variable : Text → Bool
is_reserved_variable k = text_eq k (codes "PORT") || has_prefix (codes "SCW_") k

unfoldable pub validate_container_environment : Environment → Result ContainerError (Unit {0})
validate_container_environment [] = ok tt
validate_container_environment ((k, v) ∷ environment) =
    let rest = validate_container_environment environment in
    if is_reserved_variable k then err (reserved_variable k) else rest

unfoldable pub validate_container_kind : ServiceConfig → Result ContainerError (Unit {0})
validate_container_kind svc =
    if is_some svc.llm
    then err llm_service
    else if not (text_eq (get_platform svc) (codes "linux/amd64"))
    then err (other_platform (get_platform svc))
    else ok tt

module _ (parse_float : Text → Option Float64) (ceil_millis : Float64 → ℤ) where
  unfoldable pub validate_container_resources : ServiceConfig → Result ContainerError (Unit {0})
  unfolding check_range container_cpu_limit container_memory_limit
  validate_container_resources svc = do
    a ← check_range cpu_out_of_range 70 6000 (container_cpu_limit ceil_millis (get_cpus svc))
    b ←
        check_range memory_out_of_range 128 12228
          (container_memory_limit (get_memory_mib parse_float svc))
    check_range replicas_out_of_range 1 50 (get_replicas svc)

  unfoldable pub validate_container_service : ServiceConfig → Result ContainerError (Unit {0})
  unfolding validate_container_resources validate_container_ports validate_container_environment
      validate_container_kind
  validate_container_service svc = do
    a ← validate_container_resources svc
    b ← validate_container_ports svc
    c ← validate_container_environment svc.environment
    validate_container_kind svc

unfoldable pub container_protocol : ServiceConfig → Text
container_protocol svc = elim svc.ports [
  | [] ↦ codes "http1"
  | p ∷ ports ↦
      if text_eq (get_app_protocol p) (codes "http2") || text_eq (get_app_protocol p) (codes "grpc")
      then codes "h2c"
      else codes "http1"
]

-- The first port with a target.
unfoldable pub container_port : List ServicePortConfig → Option ℤ
container_port [] = none
container_port (p ∷ ports) =
    let rest = container_port ports in if ltbℤ (pos 0) p.target then some p.target else rest

unfoldable pub needs_health_shim : ServiceConfig → Bool
unfolding container_port
needs_health_shim svc = not (is_some (container_port svc.ports))

-- strings.ContainsAny, with the characters first.
abbrev pub contains_any : Text → Text → Bool
contains_any chars s = any (λ c. contains_byte c chars) s

abbrev pub unsafe_chars : Text
unsafe_chars = codes " \t\n\"'\\$;|&(){}[]<>?*~`!#"

unfoldable pub shell_arg : Text → Text
shell_arg a = if contains_any unsafe_chars a then sh_quote a else a

unfoldable pub shell_join : List Text → Text
unfolding shell_arg
shell_join [] = []
shell_join (a ∷ []) = shell_arg a
shell_join (a ∷ b ∷ args) = shell_arg a ++ 32 ∷ shell_join (b ∷ args)

python_health_server : Text
python_health_server =
    codes "from http.server import HTTPServer,BaseHTTPRequestHandler;import os;"
    ++ codes
        "HTTPServer(('0.0.0.0',int(os.environ.get('PORT',8080))),BaseHTTPRequestHandler).serve_forever()"

health_servers : List Text
unfolding python_health_server
health_servers =
    codes
      "node -e \"require('http').createServer((_,r)=>{r.writeHead(200);r.end('OK')}).listen(process.env.PORT||8080)\""
    ∷ (codes "python3 -c \"" ++ python_health_server ++ codes "\"")
    ∷ (codes "python -c \"" ++ python_health_server ++ codes "\"")
    ∷ (codes "while true; do "
        ++ codes "printf 'HTTP/1.1 200 OK\\r\\nContent-Length: 2\\r\\n\\r\\nOK' | "
        ++ codes "nc -l -p ${PORT:-8080} -q 0 2>/dev/null || break; "
        ++ codes "done")
    ∷ []

with_health_servers : Text → Text
unfolding health_servers
with_health_servers original =
    codes "(" ++ join (codes " 2>/dev/null || ") health_servers ++ codes ") & exec " ++ original

-- Empty where no command is known.
unfoldable pub health_shim_script : ServiceConfig → Text
unfolding shell_join with_health_servers
health_shim_script svc = elim svc.entrypoint [
  | e ∷ es ↦ with_health_servers (shell_join (svc.entrypoint ++ svc.command))
  | [] ↦ elim svc.command [ [] ↦ [] | c ∷ cs ↦ with_health_servers (shell_join svc.command) ]
]

unfoldable pub container_privacy : ServiceConfig → Text
container_privacy svc = if has_ingress_ports svc then codes "public" else codes "private"

unfoldable pub container_min_scale : ServiceConfig → ℤ
unfolding needs_health_shim
container_min_scale svc =
    if needs_health_shim svc
    then pos 1
    else if lebℤ (get_replicas svc) (pos 1)
    then pos 0
    else pos 1

unfoldable pub container_max_scale : ServiceConfig → ℤ
container_max_scale svc = get_replicas svc
