-- ===== src/Azure/Policies.antt =====
-- provider/defangazure/azure/policies.go: the role and the scope of an x-defang-policies entry.
pub mod RoundTrip
use pulumi_defang.Prelude.{
  Text, codes, text_eq, is_empty, has_prefix, contains_byte, cut, split, equal_fold, List, [], ◌∷◌,
  ◌++◌, ℕ, Bool, true, false, not, ◌||◌, ◌&&◌, Option, none, some, if◌then◌else◌, Result, ok, err,
  ◌>>=◌,
}
use pulumi_defang.Compose.Policies.{PolicyError, not_azure, normalize_literal_policies}

pub record PolicyGrant : Type 0 where
  pub role : Text
  pub scope : Text

abbrev pub at_sign : ℕ
at_sign = b'@'

unfoldable pub grant_string : PolicyGrant → Text
grant_string p = if is_empty p.scope then p.role else p.role ++ at_sign ∷ p.scope

unfoldable pub is_azure_role_definition_id : Text → Bool
is_azure_role_definition_id policy = has_prefix (codes "/") policy

-- The three results of strings.Cut(policy, "@"): the role, the scope, and whether there is one.
cut_scope : Text → Option (Text × Text) → Text × Text × Bool
cut_scope policy none = (policy, [], false)
cut_scope policy (some (role, scope)) = (role, scope, true)

unfoldable pub parse_grant : Text → Result PolicyError PolicyGrant
unfolding cut_scope
parse_grant policy =
    let (role, scope, scoped) = cut_scope policy (cut at_sign policy) in
    if is_empty role
      || (scoped && is_empty scope)
      || (contains_byte b'/' role && not (is_azure_role_definition_id role))
    then err (not_azure policy)
    else ok (record { role = role; scope = scope })

unfoldable pub parse_grants : List Text → Result PolicyError (List PolicyGrant)
parse_grants [] = ok []
parse_grants (policy ∷ policies) =
    let rest = parse_grants policies in
    do grant ← parse_grant policy; grants ← rest; ok (grant ∷ grants)

unfoldable pub parse_policies : List Text → Result PolicyError (List PolicyGrant)
parse_policies entries = do policies ← normalize_literal_policies entries; parse_grants policies

scope_of_parts : List Text → Option Text
scope_of_parts (p ∷ kind ∷ subscription ∷ parts) =
    if not (equal_fold kind (codes "subscriptions")) || is_empty subscription
    then none
    else some (codes "/subscriptions/" ++ subscription)
scope_of_parts parts = none

-- `none` is the error of an ID that has no subscription.
unfoldable pub subscription_scope : Text → Option Text
unfolding scope_of_parts
subscription_scope resource_group_id = scope_of_parts (split b'/' resource_group_id)

-- The outcome for the ID of the project's resource group; `none` is an error.
unfoldable pub resolve_policy_scope : Text → Text → Option Text
resolve_policy_scope resource_group_id scope =
    if is_empty scope
    then some resource_group_id
    else if text_eq scope (codes "subscription")
    then subscription_scope resource_group_id
    else if has_prefix (codes "/") scope
    then some scope
    else none
