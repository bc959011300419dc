-- ===== src/Aws/Sidecars/Fold.antt =====
-- provider/defangaws/project.go: what foldSidecarDeps adds to a parent's dependencies.
use pulumi_defang.Prelude.{
  Text, text_eq, text_eq_iff, keys, lookup, lookup-insert, lookup-none, has_key, IsMap, [], ◌∷◌,
  ◌||◌, Option, none, some, if◌then◌else◌, ◌≡◌, refl, sym, ◌∙◌, ap, arith, Option-cases, inl, inr,
  Has,
}
use pulumi_defang.Compose.Types.{ServiceConfig, Services, ServiceDependency, DependsOnConfig}
use pulumi_defang.Aws.Sidecars.{
  Groups, merge_deps, merge_group, fold_parent, fold_loop, fold_sidecar_deps,
}

-- The first of two values that is there.
abbrev pub first_some :
    Option ServiceDependency → Option ServiceDependency → Option ServiceDependency
first_some none o = o
first_some (some v) o = some v

first_some_assoc :
    (a b c : Option ServiceDependency)
    → first_some (first_some a b) c ≡ first_some a (first_some b c)
first_some_assoc none b c = refl
first_some_assoc (some v) b c = refl

first_some-none : (a : Option ServiceDependency) → first_some a none ≡ a
first_some-none none = refl
first_some-none (some v) = refl

module _ (parent : Text) (group : Services) (d : Text) where
  -- What a sidecar's dependencies offer to its parent under the name `d`: nothing inside the group.
  abbrev pub offered : DependsOnConfig → Option ServiceDependency
  offered deps = if has_key d group || text_eq d parent then none else lookup d deps

  -- What the group offers: the first sidecar that depends on `d` decides.
  abbrev pub offered_by : Services → Option ServiceDependency
  offered_by [] = none
  offered_by ((name, s) ∷ rest) = first_some (offered s.depends_on) (offered_by rest)

  lookup-merge_deps :
      (deps merged : DependsOnConfig)
      → lookup d (merge_deps parent group deps merged) ≡ first_some (lookup d merged) (offered deps)
  unfolding merge_deps
  lookup-merge_deps [] merged = ground (arith, first_some-none (lookup d merged))
  lookup-merge_deps ((dep, val) ∷ deps) merged =
      lookup-merge_deps deps _ ∙ ground (arith, text_eq_iff dep d, lookup-insert dep d val merged)

  lookup-merge_group :
      (rest : Services) (merged : DependsOnConfig)
      → lookup d (merge_group parent group rest merged)
        ≡ first_some (lookup d merged) (offered_by rest)
  unfolding merge_group
  lookup-merge_group [] merged = sym (first_some-none (lookup d merged))
  lookup-merge_group ((name, s) ∷ rest) merged =
      lookup-merge_group rest (merge_deps parent group s.depends_on merged)
      ∙ ap (λ o. first_some o (offered_by rest)) (lookup-merge_deps s.depends_on merged)
      ∙ first_some_assoc (lookup d merged) (offered s.depends_on) (offered_by rest)

-- A dependency of the service that a lookup finds.
abbrev pub depends : Text → Option ServiceConfig → Option ServiceDependency
depends d none = none
depends d (some s) = lookup d s.depends_on

abbrev pub group_offer : Text → Text → Option Services → Option ServiceDependency
group_offer p d none = none
group_offer p d (some group) = offered_by p group d group

abbrev pub with_group : Text → Option Services → Option ServiceConfig → Option ServiceConfig
with_group parent none o = o
with_group parent (some group) none = none
with_group parent (some group) (some svc) =
    some (record svc { depends_on = merge_group parent group group svc.depends_on })

lookup-fold_parent :
    (parent p : Text) (group graph : Services)
    → lookup p (fold_parent parent group graph)
      ≡ (if text_eq parent p then with_group p (some group) (lookup p graph) else lookup p graph)
unfolding fold_parent
lookup-fold_parent parent p group graph = elim (Option-cases (lookup parent graph)) [
  | inl e ↦ ground (arith, text_eq_iff parent p)
  | inr (svc, e) ↦
      let folded = record svc { depends_on = merge_group parent group group svc.depends_on } in
      ground (arith, text_eq_iff parent p, lookup-insert parent p folded graph)
]

group_step :
    (parent p : Text) (group graph : Services) (sidecars : Groups)
    → ¬ Has parent (keys sidecars)
    → with_group p (lookup p sidecars) (lookup p (fold_parent parent group graph))
      ≡ with_group p (lookup p ((parent, group) ∷ sidecars)) (lookup p graph)
group_step parent p group graph sidecars fresh = ground (
  arith,
  text_eq_iff parent p,
  lookup-fold_parent parent p group graph,
  lookup-none parent sidecars fresh,
)

lookup-fold_loop :
    (sidecars : Groups) (graph : Services) (p : Text)
    → IsMap sidecars
    → lookup p (fold_loop sidecars graph) ≡ with_group p (lookup p sidecars) (lookup p graph)
unfolding fold_loop
lookup-fold_loop [] graph p distinct = refl
lookup-fold_loop ((parent, group) ∷ sidecars) graph p (fresh, distinct) =
    lookup-fold_loop sidecars (fold_parent parent group graph) p distinct
    ∙ group_step parent p group graph sidecars fresh

-- In the folded graph a parent depends on `d` as it did itself, and else as the first sidecar of
-- its group does that depends on `d`, unless `d` is the parent or in the group; a service with no
-- group depends on what it did.
pub depends-fold_sidecar_deps :
    (standalone : Services) (sidecars : Groups) (p d : Text) (svc : ServiceConfig)
    → IsMap sidecars
    → lookup p standalone ≡ some svc
    → depends d (lookup p (fold_sidecar_deps standalone sidecars))
      ≡ first_some (lookup d svc.depends_on) (group_offer p d (lookup p sidecars))
unfolding fold_sidecar_deps
depends-fold_sidecar_deps standalone sidecars p d svc distinct h =
    ap (depends d) (lookup-fold_loop sidecars standalone p distinct)
    ∙ ap (λ o. depends d (with_group p (lookup p sidecars) o)) h
    ∙ offered_by_option (lookup p sidecars)
  where
    offered_by_option :
        (o : Option Services)
        → depends d (with_group p o (some svc))
          ≡ first_some (lookup d svc.depends_on) (group_offer p d o)
    offered_by_option none = sym (first_some-none (lookup d svc.depends_on))
    offered_by_option (some group) = lookup-merge_group p group d group svc.depends_on
