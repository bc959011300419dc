-- ===== src/Cd/Ttl.antt =====
-- cd/program/ttl.go: the lifetime of a stack, and the environment that its scheduled removal runs in.
-- timeutils.ParseDuration, which the CLI shares, is a parameter; a duration is in nanoseconds.
pub mod Environment
use pulumi_defang.Prelude.{
  Text, codes, text_eq, is_empty, has_prefix, cut, any, Map, insert, List, [], ◌∷◌, Bool, true,
  false, not, ◌||◌, ◌&&◌, Option, none, some, if◌then◌else◌, Result, ok, err, ℤ, pos, negsuc, ltbℤ,
  lebℤ, ℕ, ◌*◌,
}

-- Ten years of 365 days.
abbrev pub max_ttl : ℕ
max_ttl = 10 * 365 * 24 * 3600 * 1000000000

pub data TtlError : Type 0 where
  invalid_ttl ttl_out_of_range : Text → TtlError

unfoldable pub parse_ttl : (Text → Option ℤ) → Text → Result TtlError ℤ
parse_ttl parse_duration value =
    if is_empty value || text_eq value (codes "never") || text_eq value (codes "0")
    then ok (pos 0)
    else elim (parse_duration value) [
      | none ↦ err (invalid_ttl value)
      | some d ↦
          if lebℤ d (pos 0) || ltbℤ (pos max_ttl) d then err (ttl_out_of_range value) else ok d
    ]

abbrev pub self_destruct_env_exact : List Text
self_destruct_env_exact =
    codes "DOMAIN"
    ∷ codes "HOME"
    ∷ codes "NO_COLOR"
    ∷ codes "NPM_CONFIG_UPDATE_NOTIFIER"
    ∷ codes "PROJECT"
    ∷ codes "REGION"
    ∷ codes "STACK"
    ∷ codes "USER"
    ∷ []

abbrev pub self_destruct_env_exclude : List Text
self_destruct_env_exclude =
    codes "DEFANG_EVENTS_UPLOAD_URL"
    ∷ codes "DEFANG_STATES_UPLOAD_URL"
    ∷ codes "DEFANG_ETAG"
    ∷ codes "DEFANG_PULUMI_TARGETS"
    ∷ codes "DEFANG_TTL"
    ∷ codes "AZURE_FEDERATED_TOKEN_FILE"
    ∷ codes "AWS_ACCESS_KEY_ID"
    ∷ codes "AWS_SECRET_ACCESS_KEY"
    ∷ codes "AWS_SESSION_TOKEN"
    ∷ codes "AWS_CONTAINER_CREDENTIALS_RELATIVE_URI"
    ∷ codes "AWS_CONTAINER_CREDENTIALS_FULL_URI"
    ∷ codes "AWS_CONTAINER_AUTHORIZATION_TOKEN"
    ∷ codes "AWS_CONTAINER_AUTHORIZATION_TOKEN_FILE"
    ∷ codes "AZURE_CLIENT_SECRET"
    ∷ codes "AZURE_CLIENT_CERTIFICATE_PATH"
    ∷ codes "AZURE_CLIENT_CERTIFICATE_PASSWORD"
    ∷ []

abbrev pub self_destruct_env_prefixes : List Text
self_destruct_env_prefixes =
    codes "AWS_"
    ∷ codes "AZURE_"
    ∷ codes "DEFANG_"
    ∷ codes "GCLOUD_"
    ∷ codes "GCP_"
    ∷ codes "PULUMI_"
    ∷ []

-- The tests of one name against the three tables.
unfoldable pub is_excluded : Text → Bool
is_excluded k = any (λ e. text_eq e k) self_destruct_env_exclude

unfoldable pub is_exact : Text → Bool
is_exact k = any (λ e. text_eq e k) self_destruct_env_exact

unfoldable pub has_env_prefix : Text → Bool
has_env_prefix k = any (λ p. has_prefix p k) self_destruct_env_prefixes

-- The body of the loop, for one variable of the form "name=value".
unfoldable pub add_variable : Option (Text × Text) → Map Text → Map Text
add_variable none env = env
add_variable (some (k, v)) env =
    if is_excluded k
    then env
    else if is_exact k
    then insert k v env
    else if has_env_prefix k
    then insert k v env
    else env

unfoldable pub env_loop : List Text → Map Text → Map Text
unfolding add_variable
env_loop [] env = env
env_loop (kv ∷ environ) env = env_loop environ (add_variable (cut b'=' kv) env)

unfoldable pub self_destruct_env : List Text → Map Text
unfolding env_loop
self_destruct_env environ = env_loop environ []
