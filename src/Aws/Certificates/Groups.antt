-- ===== src/Aws/Certificates/Groups.antt =====
-- provider/defangaws/aws/cert.go: what stands in the group of a domain.
use pulumi_defang.Prelude.{
  Text, text_eq, text_eq_iff, cut_prefix, Map, insert, lookup-insert, List, [], ◌∷◌, ◌++◌,
  append-nil, list_laws, Option, none, some, if◌then◌else◌, ◌≡◌, refl, sym, ap, ◌∙◌, Bool-cases,
  inl, inr,
}
use pulumi_defang.Aws.Certificates.{
  star_dot, group_at, add_hostname, group_loop, group_hostnames_by_cert,
}

-- The name where it is the domain itself, and where it is the domain's wildcard.
abbrev pub plain_part : Text → Text → Option Text → List Text
plain_part domain hostname none = if text_eq hostname domain then hostname ∷ [] else []
plain_part domain hostname (some base) = []

abbrev pub wild_part : Text → Text → Option Text → List Text
wild_part domain hostname none = []
wild_part domain hostname (some base) = if text_eq base domain then hostname ∷ [] else []

-- Those of a list: the plain names, the last one first, and the wildcards in their order.
abbrev pub plain_names : Text → List Text → List Text
plain_names domain [] = []
plain_names domain (h ∷ hs) = plain_names domain hs ++ plain_part domain h (cut_prefix star_dot h)

abbrev pub wild_names : Text → List Text → List Text
wild_names domain [] = []
wild_names domain (h ∷ hs) = wild_part domain h (cut_prefix star_dot h) ++ wild_names domain hs

group_at-insert :
    (domain k : Text) (v : List Text) (groups : Map (List Text))
    → group_at domain (insert k v groups) ≡ (if text_eq k domain then v else group_at domain groups)
group_at-insert domain k v groups = elim (Bool-cases (text_eq k domain)) [
  | inl e ↦ rw (lookup-insert k domain v groups, e)
  | inr e ↦ rw (lookup-insert k domain v groups, e)
]

group_at-add_hostname :
    (domain hostname : Text) (base : Option Text) (groups : Map (List Text))
    → group_at domain (add_hostname hostname base groups)
      ≡ plain_part domain hostname base
        ++ (group_at domain groups ++ wild_part domain hostname base)
unfolding add_hostname
group_at-add_hostname domain hostname none groups =
    rw
      (
        group_at-insert domain hostname (hostname ∷ group_at hostname groups) groups,
        append-nil (group_at domain groups),
      )
      (elim (Bool-cases (text_eq hostname domain)) [
        | inl e ↦ rw e (ap (λ d. hostname ∷ group_at d groups) ((text_eq_iff hostname domain).0 e))
        | inr e ↦ rw e refl
      ])
group_at-add_hostname domain hostname (some base) groups =
    rw (group_at-insert domain base (group_at base groups ++ hostname ∷ []) groups)
      (elim (Bool-cases (text_eq base domain)) [
        | inl e ↦
            rw e (ap (λ d. group_at d groups ++ hostname ∷ []) ((text_eq_iff base domain).0 e))
        | inr e ↦ rw e (sym (append-nil (group_at domain groups)))
      ])

regroup : (a b c d e : List Text) → a ++ ((b ++ (c ++ d)) ++ e) ≡ (a ++ b) ++ (c ++ (d ++ e))
regroup a b c d e = simp list_laws

group_at-group_loop :
    (domain : Text) (hostnames : List Text) (groups : Map (List Text))
    → group_at domain (group_loop hostnames groups)
      ≡ plain_names domain hostnames ++ (group_at domain groups ++ wild_names domain hostnames)
unfolding group_loop
group_at-group_loop domain [] groups = sym (append-nil (group_at domain groups))
group_at-group_loop domain (h ∷ hs) groups =
    let base = cut_prefix star_dot h in
    group_at-group_loop domain hs (add_hostname h base groups)
    ∙ rw (group_at-add_hostname domain h base groups) (
        regroup (plain_names domain hs) (plain_part domain h base) (group_at domain groups)
          (wild_part domain h base) (wild_names domain hs))

-- The group of a domain holds exactly the host names that are the domain, first, and then the
-- wildcards over it.
pub group_at-group_hostnames_by_cert :
    (domain : Text) (hostnames : List Text)
    → group_at domain (group_hostnames_by_cert hostnames)
      ≡ plain_names domain hostnames ++ wild_names domain hostnames
unfolding group_hostnames_by_cert
group_at-group_hostnames_by_cert domain hostnames = group_at-group_loop domain hostnames []
