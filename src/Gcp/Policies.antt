-- ===== src/Gcp/Policies.antt =====
-- provider/defanggcp/gcp/iam.go: which x-defang-policies entries GCP can name, and their roles.
use pulumi_defang.Prelude.{
  Text, codes, text_eq, is_empty, contains_byte, split, List, [], ◌∷◌, ◌++◌, ℕ, Bool, true, false,
  not, ◌||◌, ◌&&◌, ◌==◌, leb, if◌then◌else◌, Result, ok, err, ◌>>=◌,
}
use pulumi_defang.Compose.Policies.{PolicyError, not_gcp, normalize_literal_policies}

-- [A-Za-z0-9_.]
unfoldable pub is_role_byte : ℕ → Bool
is_role_byte c =
    (leb b'A' c && leb c b'Z')
    || (leb b'a' c && leb c b'z')
    || (leb b'0' c && leb c b'9')
    || (c == b'_')
    || (c == b'.')

unfoldable pub all_role_bytes : Text → Bool
all_role_bytes [] = true
all_role_bytes (c ∷ s) = is_role_byte c && all_role_bytes s

-- ^[A-Za-z0-9_.]+$
unfoldable pub is_gcp_role_id : Text → Bool
unfolding all_role_bytes is_role_byte
is_gcp_role_id s = not (is_empty s) && all_role_bytes s

-- The switch on the number of parts between the slashes.
unfoldable pub role_of_parts : List Text → Bool
role_of_parts (id ∷ []) = is_gcp_role_id id
role_of_parts (roles ∷ id ∷ []) = text_eq roles (codes "roles") && is_gcp_role_id id
role_of_parts (kind ∷ parent ∷ roles ∷ id ∷ []) =
    (text_eq kind (codes "projects") || text_eq kind (codes "organizations"))
    && not (is_empty parent)
    && text_eq roles (codes "roles")
    && is_gcp_role_id id
role_of_parts parts = false

unfoldable pub is_gcp_role : Text → Bool
unfolding role_of_parts
is_gcp_role policy = role_of_parts (split b'/' policy)

unfoldable pub check_gcp : List Text → List Text → Result PolicyError (List Text)
check_gcp all [] = ok all
check_gcp all (policy ∷ policies) =
    let rest = check_gcp all policies in if is_gcp_role policy then rest else err (not_gcp policy)

unfoldable pub parse_policies : List Text → Result PolicyError (List Text)
unfolding check_gcp
parse_policies entries = do
  policies ← normalize_literal_policies entries
  check_gcp policies policies

unfoldable pub resolve_policy_role : Text → Text → Text
resolve_policy_role gcp_project policy =
    if contains_byte b'/' policy
    then policy
    else codes "projects/" ++ gcp_project ++ codes "/roles/" ++ policy
