-- ===== src/Samples/Clouds.antt =====
-- Policies of each cloud on small inputs.
use pulumi_defang.Prelude.{Text, codes, List, [], ◌∷◌, map, ◌≡◌, refl, ok, All}
use pulumi_defang.Compose.Policies.{normalize_policies, normalize_literal_policies}
use pulumi_defang.Aws
use pulumi_defang.Gcp
use pulumi_defang.Azure
use pulumi_defang.Azure.Policies.{PolicyGrant, grant_string, parse_grant}
use pulumi_defang.Azure.Policies.RoundTrip.{map-parse_policies}
use pulumi_defang.Clouds.{IsBareName, accepted_by_aws_and_gcp}

abbrev written : List Text
written = codes "viewer, editor" ∷ []

abbrev names : List Text
names = codes "viewer" ∷ codes "editor" ∷ []

aws_written : Aws.Policies.parse_policies written ≡ ok names
unfolding Aws.Policies.parse_policies normalize_literal_policies normalize_policies
aws_written = refl

gcp_written : Gcp.Policies.parse_policies written ≡ ok names
unfolding Gcp.Policies.parse_policies normalize_literal_policies normalize_policies
    Gcp.Policies.is_gcp_role Gcp.Policies.is_gcp_role_id
gcp_written = refl

accepted_by_aws_and_gcp_example : All IsBareName (normalize_policies written)
accepted_by_aws_and_gcp_example =
    accepted_by_aws_and_gcp written names names aws_written gcp_written

abbrev grants : List PolicyGrant
grants =
    record { role = codes "Reader"; scope = codes "subscription" }
    ∷ record { role = codes "Owner"; scope = [] }
    ∷ []

azure_written : Azure.Policies.parse_policies (codes "Reader@subscription, Owner" ∷ []) ≡ ok grants
unfolding Azure.Policies.parse_policies normalize_literal_policies normalize_policies parse_grant
    Azure.Policies.parse_grants
azure_written = refl

map-parse_policies_example :
    map grant_string grants ≡ normalize_policies (codes "Reader@subscription, Owner" ∷ [])
map-parse_policies_example =
    map-parse_policies (codes "Reader@subscription, Owner" ∷ []) grants azure_written
