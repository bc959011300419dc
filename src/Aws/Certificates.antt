-- ===== src/Aws/Certificates.antt =====
-- provider/defangaws/aws/cert.go: which host names share a certificate.
pub mod Groups
use pulumi_defang.Prelude.{
  Text, codes, cut_prefix, Map, lookup, insert, List, [], ◌∷◌, ◌++◌, Option, none, some, or_else,
}

abbrev pub star_dot : Text
star_dot = codes "*."

abbrev pub group_at : Text → Map (List Text) → List Text
group_at domain groups = or_else (lookup domain groups) []

-- The body of the loop: a wildcard is appended to its domain's group, any other name is put first.
unfoldable pub add_hostname : Text → Option Text → Map (List Text) → Map (List Text)
add_hostname hostname (some domain) groups =
    insert domain (group_at domain groups ++ hostname ∷ []) groups
add_hostname hostname none groups = insert hostname (hostname ∷ group_at hostname groups) groups

unfoldable pub group_loop : List Text → Map (List Text) → Map (List Text)
group_loop [] groups = groups
group_loop (hostname ∷ hostnames) groups =
    group_loop hostnames (add_hostname hostname (cut_prefix star_dot hostname) groups)

unfoldable pub group_hostnames_by_cert : List Text → Map (List Text)
group_hostnames_by_cert hostnames = group_loop hostnames []
