-- ===== src/Samples/Compose.antt =====
-- Ports and policies on small inputs.
use pulumi_defang.Prelude.{Text, codes, List, [], ◌∷◌, ◌≡◌, ◌↔◌, refl, All, ok}
use pulumi_defang.Compose.Types.{ServiceConfig}
use pulumi_defang.Compose.Policies.{normalize_policies, normalize_literal_policies}
use pulumi_defang.Compose.Policies.Laws.{IsLiteral, normalize_literal_policies_iff}
use pulumi_defang.Samples.{service_of, game_ports}

abbrev game : ServiceConfig
game = service_of game_ports [] []

abbrev written : List Text
written = codes " ReadOnly, arn:aws:iam::aws:policy/X,, " ∷ codes "Billing" ∷ []

abbrev normal : List Text
normal = codes "ReadOnly" ∷ codes "arn:aws:iam::aws:policy/X" ∷ codes "Billing" ∷ []

normalize_written : normalize_policies written ≡ normal
unfolding normalize_policies
normalize_written = refl

normalize_literal_policies_iff_example :
    (normalize_literal_policies written ≡ ok normal)
    ↔ ((normal ≡ normalize_policies written) × All IsLiteral (normalize_policies written))
normalize_literal_policies_iff_example = normalize_literal_policies_iff written normal
