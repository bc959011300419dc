-- ===== src/Azure/Policies/RoundTrip.antt =====
-- provider/defangazure/azure/policies.go: a parsed grant spells the entry that it was parsed from.
use pulumi_defang.Prelude.{
  Text, cut, cut-some, cut-none, map, List, [], ◌∷◌, Option-cases, inl, inr, ◌≡◌, ◌∙◌, arith, ok,
  >>=-ok, Lacks,
}
use pulumi_defang.Compose.Policies.{normalize_literal_policies, normalize_policies}
use pulumi_defang.Compose.Policies.Laws.{normalize_literal_policies_iff}
use pulumi_defang.Azure.Policies.{
  PolicyGrant, at_sign, grant_string, parse_grant, parse_grants, parse_policies,
}

-- An accepted entry has a role with no at sign in it, and the grant spells the entry.
grant_string-parse_grant :
    (policy : Text) (g : PolicyGrant)
    → parse_grant policy ≡ ok g
    → (grant_string g ≡ policy) × Lacks at_sign g.role
unfolding parse_grant grant_string
grant_string-parse_grant policy g h = elim (Option-cases (cut at_sign policy)) [
  | inl e ↦ ground (arith, cut-none at_sign policy)
  | inr ((role, scope), e) ↦ ground (arith, cut-some at_sign policy role scope)
]

map-parse_grants :
    (policies : List Text) (gs : List PolicyGrant)
    → parse_grants policies ≡ ok gs
    → map grant_string gs ≡ policies
unfolding parse_grants
map-parse_grants [] gs h = let e : gs ≡ [] = cc in rw e
map-parse_grants (p ∷ ps) gs h =
    let (g, first, more) = >>=-ok (parse_grant p) _ h in
    let (gs', rest, last) = >>=-ok (parse_grants ps) _ more in
    let e : gs ≡ g ∷ gs' = cc in
    rw (e, (grant_string-parse_grant p g first).0, map-parse_grants ps gs' rest)

-- The grants of accepted entries spell the entries' normal form, one for one.
pub map-parse_policies :
    (entries : List Text) (gs : List PolicyGrant)
    → parse_policies entries ≡ ok gs
    → map grant_string gs ≡ normalize_policies entries
unfolding parse_policies
map-parse_policies entries gs h =
    let (policies, normal, parsed) = >>=-ok (normalize_literal_policies entries) _ h in
    let (same, literal) = (normalize_literal_policies_iff entries policies).0 normal in
    map-parse_grants policies gs parsed ∙ same
