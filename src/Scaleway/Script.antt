-- ===== src/Scaleway/Script.antt =====
-- provider/defangscaleway/build.go: the inputs of a build, and the script that the server runs.
pub mod Quoting
use pulumi_defang.Prelude.{
  Text, codes, join, is_empty, cut, Map, List, [], ◌∷◌, ◌++◌, Bool, true, false, Option, none, some,
  Result, ok, err, ℤ, ℕ, ◌==◌, ◌||◌, if◌then◌else◌, or_else,
}
use pulumi_defang.Common.Maps.{sorted}
use pulumi_defang.Scaleway.Api.{Error, missing_aws_credentials, World}

pub record BuildInputs : Type 0 where
  pub region : Text
  pub project_id : Text
  pub source : Text
  pub destination : Text
  pub dockerfile : Option Text
  pub target : Option Text
  pub args : Map Text
  pub max_wait_time : Option ℤ
  pub triggers : List Text
  pub instance_type : Option Text
  pub disk_size_gb : Option ℤ
  pub logs_endpoint : Text
  pub logs_token : Text

-- strings.IndexByte, where a slash at the start is no end of a host.
unfoldable pub registry_host : Text → Text
registry_host destination = elim (cut b'/' destination) [
  | none ↦ destination
  | some (host, path) ↦ if is_empty host then destination else host
]

unfoldable pub default_zone : Text → Text
default_zone region = region ++ codes "-1"

escape_quotes : Text → Text
escape_quotes [] = []
escape_quotes (c ∷ s) =
    let rest = escape_quotes s in if c == b'\'' then codes "'\"'\"'" ++ rest else c ∷ rest

unfoldable pub sh_quote : Text → Text
unfolding escape_quotes
sh_quote s = b'\'' ∷ escape_quotes s ++ b'\'' ∷ []

-- A pointer to a text that is not empty, or the default.
abbrev pub or_default : Text → Option Text → Text
or_default default none = default
or_default default (some s) = if is_empty s then default else s

unfoldable pub target_flag : Option Text → Text
target_flag none = []
target_flag (some s) = if is_empty s then [] else codes " --target " ++ sh_quote s

unfoldable pub build_arg_flags : Map Text → Text
build_arg_flags [] = []
build_arg_flags ((k, v) ∷ args) =
    codes " --build-arg " ++ sh_quote (k ++ codes "=" ++ v) ++ build_arg_flags args

-- Sends one line to the log source.
push_log_function : BuildInputs → (log_source : Text) → Text
push_log_function inputs log_source =
    codes "push_log() {\n"
    ++ codes "  local ts; ts=$(date +%s%N)\n"
    ++ codes
        "  local esc; esc=$(python3 -c 'import json,sys; print(json.dumps(sys.argv[1]))' \"$1\")\n"
    ++ codes "  curl -s -o /dev/null -u "
    ++ sh_quote (codes "api_key:" ++ inputs.logs_token)
    ++ codes " -H 'Content-Type: application/json' \\\n"
    ++ codes "    -d '{\"streams\":[{\"stream\":{\"source\":\""
    ++ log_source
    ++ codes "\"},\"values\":[[\"'\"$ts\"'\",'\"$esc\"']]}]}' \\\n"
    ++ codes "    "
    ++ sh_quote inputs.logs_endpoint
    ++ codes "/loki/api/v1/push >/dev/null 2>&1\n"
    ++ codes "}\n"
    ++ codes "\n"

abbrev empty_payload_sha256 : Text
empty_payload_sha256 = codes "e3b0c44298fc1c149afbf4c8996fb92427ae41e4649b934ca495991b7852b855"

fetch_context : BuildInputs → (user s3_url : Text) → Text
fetch_context inputs user s3_url =
    codes "push_log 'defang-build: fetching build context'\n"
    ++ codes "for i in 1 2 3 4 5; do\n"
    ++ codes "  CODE=$(curl -s --aws-sigv4 "
    ++ sh_quote (codes "aws:amz:" ++ inputs.region ++ codes ":s3")
    ++ codes " --user "
    ++ sh_quote user
    ++ codes " -H 'x-amz-content-sha256: "
    ++ empty_payload_sha256
    ++ codes "' "
    ++ sh_quote s3_url
    ++ codes " -o /root/context.tar.gz -w '%{http_code}' 2>/root/context-fetch.log)\n"
    ++ codes "  if [ \"$CODE\" = \"200\" ]; then break; fi\n"
    ++ codes
        "  push_log \"defang-build: context fetch attempt $i got HTTP $CODE: $(tr '\\n' ' ' < /root/context.tar.gz | head -c 300) $(tr '\\n' ' ' < /root/context-fetch.log)\"\n"
    ++ codes "  sleep 3\n"
    ++ codes "done\n"
    ++ codes "if [ \"$CODE\" != \"200\" ]; then push_log 'RESULT:FAILURE'; poweroff; exit 1; fi\n"
    ++ codes "mkdir -p /root/buildctx\n"
    ++ codes "tar xzf /root/context.tar.gz -C /root/buildctx\n"
    ++ codes "\n"

docker_login : BuildInputs → (registry_secret : Text) → Text
docker_login inputs registry_secret =
    codes "docker login "
    ++ sh_quote (registry_host inputs.destination)
    ++ codes " -u nologin -p "
    ++ sh_quote registry_secret
    ++ codes " >/root/login.log 2>&1\n"
    ++ codes "push_log \"docker login: $(tr '\\n' ' ' < /root/login.log)\"\n"
    ++ codes "\n"

docker_build : BuildInputs → Text
unfolding target_flag build_arg_flags
docker_build inputs =
    codes "cd /root/buildctx\n"
    ++ codes "docker buildx build --progress=plain -f "
    ++ sh_quote (or_default (codes "Dockerfile") inputs.dockerfile)
    ++ target_flag inputs.target
    ++ build_arg_flags (sorted inputs.args)
    ++ codes " -t "
    ++ sh_quote inputs.destination
    ++ codes " --push . > /root/build.log 2>&1\n"
    ++ codes "echo \"BUILD_EXIT=$?\" >> /root/build.log\n"
    ++ codes "\n"

abbrev report_result : Text
report_result =
    codes "while IFS= read -r line; do push_log \"$line\"; done < /root/build.log\n"
    ++ codes "if grep -q '^BUILD_EXIT=0$' /root/build.log; then\n"
    ++ codes "  push_log 'RESULT:SUCCESS'\n"
    ++ codes "else\n"
    ++ codes "  push_log 'RESULT:FAILURE'\n"
    ++ codes "fi\n"
    ++ codes "poweroff\n"

unfoldable pub build_script :
    World → BuildInputs → (bucket key registry_secret log_source : Text) → Result Error Text
unfolding push_log_function fetch_context docker_login docker_build registry_host
build_script w inputs bucket key registry_secret log_source =
    let id = w.getenv (codes "AWS_ACCESS_KEY_ID") in
    let secret = w.getenv (codes "AWS_SECRET_ACCESS_KEY") in
    let s3_url =
      codes "https://s3." ++ inputs.region ++ codes ".scw.cloud/" ++ bucket ++ codes "/" ++ key in
    if is_empty id || is_empty secret
    then err missing_aws_credentials
    else ok (
        codes "#!/bin/bash\n"
        ++ codes "set -u\n\n"
        ++ push_log_function inputs log_source
        ++ fetch_context inputs (id ++ codes ":" ++ secret) s3_url
        ++ docker_login inputs registry_secret
        ++ docker_build inputs
        ++ report_result)
