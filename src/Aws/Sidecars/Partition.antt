-- ===== src/Aws/Sidecars/Partition.antt =====
-- provider/defangaws/project.go: partitionSidecars puts every service in exactly one place, and
-- fails exactly if a sidecar's parent cannot hold it.
use pulumi_defang.Prelude.{
  Text, text_eq, text_eq_iff, is_empty, keys, lookup, insert, lookup-insert, IsMap, Has,
  lookup-none, [], ◌∷◌, true, false, not, ◌&&◌, Option, none, some, or_else, if◌then◌else◌, Result,
  ok, ◌≡◌, refl, ◌∙◌, ap, arith, All, Bool-cases, Option-cases, inl, inr, ◌⊎◌, ◌↔◌,
}
use pulumi_defang.Compose.Types.{ServiceConfig, Services}
use pulumi_defang.Aws.Sidecars.{
  is_managed_service, sidecar_parent, SidecarError, Groups, add_sidecar, parent_error,
  partition_loop, partition_sidecars,
}

-- `sidecars[parent][name]`
abbrev pub in_group : Groups → Text → Text → Option ServiceConfig
in_group sidecars parent name = lookup name (or_else (lookup parent sidecars) [])

in_group-add_sidecar :
    (parent name q m : Text) (svc : ServiceConfig) (sidecars : Groups)
    → in_group (add_sidecar parent name svc sidecars) q m
      ≡ (if text_eq parent q && text_eq name m then some svc else in_group sidecars q m)
unfolding add_sidecar
in_group-add_sidecar parent name q m svc sidecars =
    let group = or_else (lookup parent sidecars) [] in
    ground (
      arith,
      text_eq_iff parent q,
      lookup-insert parent q (insert name svc group) sidecars,
      lookup-insert name m svc group,
    )

-- What the walk adds to the standalone services and to the groups under a name.
abbrev pub alone_or : Option ServiceConfig → Option ServiceConfig → Option ServiceConfig
alone_or none before = before
alone_or (some s) before = if is_empty (sidecar_parent s) then some s else before

abbrev pub folded_or : Text → Option ServiceConfig → Option ServiceConfig → Option ServiceConfig
folded_or q none before = before
folded_or q (some s) before =
    if not (is_empty (sidecar_parent s)) && text_eq (sidecar_parent s) q then some s else before

module _ (n m q : Text) (s : ServiceConfig) (rest : Services) (fresh : ¬ Has n (keys rest)) where
  alone_step :
      (standalone : Services)
      → is_empty (sidecar_parent s) ≡ true
      → alone_or (lookup m rest) (lookup m (insert n s standalone))
        ≡ alone_or (lookup m ((n, s) ∷ rest)) (lookup m standalone)
  alone_step standalone e =
      ground (arith, lookup-insert n m s standalone, text_eq_iff n m, lookup-none n rest fresh)

  alone_skip :
      (before : Option ServiceConfig)
      → is_empty (sidecar_parent s) ≡ false
      → alone_or (lookup m rest) before ≡ alone_or (lookup m ((n, s) ∷ rest)) before
  alone_skip before e = ground (arith, text_eq_iff n m, lookup-none n rest fresh)

  folded_step :
      (sidecars : Groups)
      → is_empty (sidecar_parent s) ≡ false
      → folded_or q (lookup m rest) (in_group (add_sidecar (sidecar_parent s) n s sidecars) q m)
        ≡ folded_or q (lookup m ((n, s) ∷ rest)) (in_group sidecars q m)
  folded_step sidecars e = ground (
    arith,
    in_group-add_sidecar (sidecar_parent s) n q m s sidecars,
    text_eq_iff n m,
    lookup-none n rest fresh,
  )

  folded_skip :
      (before : Option ServiceConfig)
      → is_empty (sidecar_parent s) ≡ true
      → folded_or q (lookup m rest) before ≡ folded_or q (lookup m ((n, s) ∷ rest)) before
  folded_skip before e = ground (arith, text_eq_iff n m, lookup-none n rest fresh)

module _ (services : Services) (standalone' : Services) (sidecars' : Groups) where
  abbrev ResultIs : Services → Services → Groups → Type 0
  ResultIs rest standalone sidecars =
      partition_loop services rest standalone sidecars ≡ ok (standalone', sidecars')

  partition_loop_lookup :
      (rest standalone : Services) (sidecars : Groups) (m q : Text)
      → IsMap rest
      → ResultIs rest standalone sidecars
      → (lookup m standalone' ≡ alone_or (lookup m rest) (lookup m standalone))
        × (in_group sidecars' q m ≡ folded_or q (lookup m rest) (in_group sidecars q m))
  unfolding partition_loop
  partition_loop_lookup [] standalone sidecars m q distinct h =
      let e : standalone' ≡ standalone = cc in
      let e' : sidecars' ≡ sidecars = cc in (ap (lookup m) e, ap (λ g. in_group g q m) e')
  partition_loop_lookup ((n, s) ∷ rest) standalone sidecars m q (fresh, distinct) h =
      elim (Bool-cases (is_empty (sidecar_parent s))) [
        | inl e ↦
            let (a, b) =
              partition_loop_lookup rest (insert n s standalone) sidecars m q distinct
                (rw e at h) in
            (
              a ∙ alone_step n m q s rest fresh standalone e,
              b ∙ folded_skip n m q s rest fresh (in_group sidecars q m) e,
            )
        | inr e ↦
            elim (Option-cases
              (parent_error n (sidecar_parent s) (lookup (sidecar_parent s) services))) [
                | inl fine ↦
                    let (a, b) =
                      partition_loop_lookup rest standalone
                        (add_sidecar (sidecar_parent s) n s sidecars) m q distinct
                        (rw (e, fine) at h) in
                    (
                      a ∙ alone_skip n m q s rest fresh (lookup m standalone) e,
                      b ∙ folded_step n m q s rest fresh sidecars e,
                    )
                | inr (bad, wrong) ↦ cc (rw (e, wrong) at h)
              ]
      ]

-- The services split: a service that names no parent is found under its name among the standalone
-- services and in no group, and one that names a parent is found in that parent's group, in no
-- other, and not among the standalone services.
pub partition_sidecars-lookup :
    (services standalone : Services) (sidecars : Groups) (name q : Text)
    → IsMap services
    → partition_sidecars services ≡ ok (standalone, sidecars)
    → (lookup name standalone ≡ alone_or (lookup name services) none)
      × (in_group sidecars q name ≡ folded_or q (lookup name services) none)
unfolding partition_sidecars
partition_sidecars-lookup services standalone sidecars name q distinct h =
    partition_loop_lookup services standalone sidecars services [] [] name q distinct h

-- A parent that can hold a sidecar: a service that is standalone and not managed.
abbrev Holds : Option ServiceConfig → Type 0
Holds none = ⊥
Holds (some p) = (is_empty (sidecar_parent p) ≡ true) × (is_managed_service p ≡ false)

abbrev pub IsPlaceable : Services → ServiceConfig → Type 0
IsPlaceable services s =
    (is_empty (sidecar_parent s) ≡ true) ⊎ Holds (lookup (sidecar_parent s) services)

parent_error-Holds :
    (n parent : Text) (o : Option ServiceConfig) → (parent_error n parent o ≡ none) ↔ Holds o
unfolding parent_error
parent_error-Holds n parent none = ground arith
parent_error-Holds n parent (some p) = ground arith

abbrev pub Succeeds : Result SidecarError (Services × Groups) → Type 0
Succeeds r = (standalone : Services) × (sidecars : Groups) × (r ≡ ok (standalone, sidecars))

partition_loop_iff :
    (services rest standalone : Services) (sidecars : Groups)
    → Succeeds (partition_loop services rest standalone sidecars)
      ↔ All (λ e. IsPlaceable services (e.1)) rest
unfolding partition_loop
partition_loop_iff services [] standalone sidecars = (λ h. tt, λ h. (standalone, sidecars, refl))
partition_loop_iff services ((n, s) ∷ rest) standalone sidecars =
    elim (Bool-cases (is_empty (sidecar_parent s))) [
      | inl e ↦ rw e (
        λ h. (inl refl, (partition_loop_iff services rest (insert n s standalone) sidecars).0 h),
        λ h. (partition_loop_iff services rest (insert n s standalone) sidecars).1 h.1,
      )
      | inr e ↦
          let parent = sidecar_parent s in
          elim (Option-cases (parent_error n parent (lookup parent services))) [
            | inl fine ↦
                rw (e, fine)
                  (
                    λ h. (
                      inr ((parent_error-Holds n parent (lookup parent services)).0 fine),
                      (partition_loop_iff services rest standalone
                            (add_sidecar parent n s sidecars)).0
                          h,
                    ),
                    λ h.
                        (partition_loop_iff services rest standalone
                            (add_sidecar parent n s sidecars)).1
                          h.1,
                  )
            | inr (bad, wrong) ↦
                rw (e, wrong)
                  (
                    λ h. cc (h.2),
                    λ h. elim (h.0) [
                      | inl alone ↦ cc
                      | inr holds ↦
                          cc ((parent_error-Holds n parent (lookup parent services)).1 holds)
                    ],
                  )
          ]
    ]

-- The split succeeds exactly if every sidecar's parent is a service, is no sidecar itself and is not
-- managed.
pub partition_sidecars_iff :
    (services : Services)
    → Succeeds (partition_sidecars services) ↔ All (λ e. IsPlaceable services (e.1)) services
unfolding partition_sidecars
partition_sidecars_iff services = partition_loop_iff services services [] []
