-- ===== src/Aws/Policies.antt =====
-- provider/defangaws/aws/iam.go: which x-defang-policies entries AWS can name, and their ARNs.
use pulumi_defang.Prelude.{
  Text, codes, has_prefix, contains_byte, split, List, [], ◌∷◌, ◌++◌, Bool, ◌||◌, if◌then◌else◌,
  Result, ok, err, ◌>>=◌,
}
use pulumi_defang.Compose.Policies.{PolicyError, not_aws, normalize_literal_policies}

abbrev pub arn_prefix : Text
arn_prefix = codes "arn:"

-- strings.ContainsAny(policy, "/:")
abbrev pub has_slash_or_colon : Text → Bool
has_slash_or_colon policy = contains_byte b'/' policy || contains_byte b':' policy

unfoldable pub check_aws : List Text → List Text → Result PolicyError (List Text)
check_aws all [] = ok all
check_aws all (policy ∷ policies) =
    let rest = check_aws all policies in
    if has_prefix arn_prefix policy
    then rest
    else if has_slash_or_colon policy
    then err (not_aws policy)
    else rest

unfoldable pub parse_policies : List Text → Result PolicyError (List Text)
unfolding check_aws
parse_policies entries = do
  policies ← normalize_literal_policies entries
  check_aws policies policies

-- The account's number is what getCallerAccountId returned.
unfoldable pub resolve_policy_arn : Text → Text → Text
resolve_policy_arn account_id policy =
    if has_prefix arn_prefix policy
    then policy
    else codes "arn:aws:iam::" ++ account_id ++ codes ":policy/" ++ policy

-- What stands behind the last slash: the last part of a split at slashes.
last_part : Text → List Text → Text
last_part p [] = p
last_part p (q ∷ ps) = last_part q ps

unfoldable pub policy_name : Text → Text
unfolding last_part
policy_name policy = last_part policy (split b'/' policy)
