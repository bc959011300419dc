-- ===== src/Aws/Containers/Names.antt =====
-- provider/defangaws/aws/naming.go and ecs.go: names of containers, as the command line client reads
-- them, and the dependencies between containers.
use pulumi_defang.Prelude.{
  Text, split, split-append, split_of_Lacks, Lacks, lookup, List, [], ◌∷◌, ◌++◌, none, some, ◌≡◌,
  ◌≢◌, ◌↔◌, refl, sym, subst, inl, inr, Has, Option-cases,
}
use pulumi_defang.Compose.Types.{ServiceConfig, Services, DependsOnConfig, ServiceDependency}
use pulumi_defang.Compose.Sizes.{get_container_name}
use pulumi_defang.Common.Maps.{sorted}
use pulumi_defang.Common.Maps.Laws.{sorted_entries}
use pulumi_defang.Aws.Containers.{
  qualified_container_name, ContainerDependency, condition_of, depends_loop, build_depends_on,
}

-- What stands behind the last underscore: the client's reading of a container's name.
abbrev pub last_of : Text → List Text → Text
last_of p [] = p
last_of p (q ∷ ps) = last_of q ps

abbrev pub etag_of : Text → Text
etag_of name = last_of [] (split b'_' name)

last_of-append : (p x : Text) (ps : List Text) → last_of p (ps ++ x ∷ []) ≡ x
last_of-append p x [] = refl
last_of-append p x (q ∷ ps) = last_of-append q x ps

-- The client reads the etag back from every qualified name, whatever underscores the name itself has,
-- as long as the etag is not empty and has none.
pub etag_of-qualified_container_name :
    (name etag : Text)
    → etag ≢ []
    → Lacks b'_' etag
    → etag_of (qualified_container_name name etag) ≡ etag
unfolding qualified_container_name
etag_of-qualified_container_name name [] some_etag plain = absurd (some_etag refl)
etag_of-qualified_container_name name (c ∷ etag) some_etag plain =
    rw (split-append b'_' name (c ∷ etag), split_of_Lacks b'_' (c ∷ etag) plain)
      (last_of-append [] (c ∷ etag) (split b'_' name))

-- The container dependency of one entry.
abbrev pub dependency_of : Text → Text → ServiceDependency → ServiceConfig → ContainerDependency
dependency_of etag dep_name dep sc = record {
  container_name = qualified_container_name (get_container_name sc dep_name) etag;
  condition = condition_of dep.condition;
}

-- An entry of the dependencies whose service is in the task, with its container dependency.
abbrev pub Source : DependsOnConfig → Services → Text → ContainerDependency → Type 0
Source depends_on sidecars etag d =
    (n : Text) × (dep : ServiceDependency) × (sc : ServiceConfig) × Has (n, dep) depends_on
    × (lookup n sidecars ≡ some sc)
    × (d ≡ dependency_of etag n dep sc)

module _ (sidecars : Services) (etag : Text) where
  Source-cons :
      (e : Text × ServiceDependency) (deps : DependsOnConfig) (d : ContainerDependency)
      → Source deps sidecars etag d
      → Source (e ∷ deps) sidecars etag d
  Source-cons e deps d (n, dep, sc, has, found, is) = (n, dep, sc, inr has, found, is)

  depends_loop_skip :
      (n : Text) (dep : ServiceDependency) (deps : DependsOnConfig)
      → lookup n sidecars ≡ none
      → depends_loop sidecars etag ((n, dep) ∷ deps) ≡ depends_loop sidecars etag deps
  unfolding depends_loop
  depends_loop_skip n dep deps e = rw (e, depends_loop) refl

  depends_loop_take :
      (n : Text) (dep : ServiceDependency) (deps : DependsOnConfig) (sc : ServiceConfig)
      → lookup n sidecars ≡ some sc
      → depends_loop sidecars etag ((n, dep) ∷ deps)
        ≡ dependency_of etag n dep sc ∷ depends_loop sidecars etag deps
  unfolding depends_loop
  depends_loop_take n dep deps sc e = rw (e, depends_loop) refl

  depends_loop_sound :
      (deps : DependsOnConfig) (d : ContainerDependency)
      → Has d (depends_loop sidecars etag deps)
      → Source deps sidecars etag d
  unfolding depends_loop
  depends_loop_sound [] d h = absurd h
  depends_loop_sound ((n, dep) ∷ deps) d h = elim (Option-cases (lookup n sidecars)) [
    | inl e ↦
        Source-cons (n, dep) deps d
          (depends_loop_sound deps d (subst (Has d) (depends_loop_skip n dep deps e) h))
    | inr (sc, e) ↦ elim (subst (Has d) (depends_loop_take n dep deps sc e) h) [
      | inl is ↦ (n, dep, sc, inl refl, e, is)
      | inr later ↦ Source-cons (n, dep) deps d (depends_loop_sound deps d later)
    ]
  ]

  depends_loop_later :
      (n : Text) (dep : ServiceDependency) (deps : DependsOnConfig) (d : ContainerDependency)
      → Has d (depends_loop sidecars etag deps)
      → Has d (depends_loop sidecars etag ((n, dep) ∷ deps))
  depends_loop_later n dep deps d h = elim (Option-cases (lookup n sidecars)) [
    | inl e ↦ subst (Has d) (sym (depends_loop_skip n dep deps e)) h
    | inr (sc, e) ↦ subst (Has d) (sym (depends_loop_take n dep deps sc e)) (inr h)
  ]

  depends_loop-complete :
      (deps : DependsOnConfig) (n : Text) (dep : ServiceDependency) (sc : ServiceConfig)
      → Has (n, dep) deps
      → lookup n sidecars ≡ some sc
      → Has (dependency_of etag n dep sc) (depends_loop sidecars etag deps)
  depends_loop-complete [] n dep sc h e = absurd h
  depends_loop-complete ((n', dep') ∷ deps) n dep sc (inr later) e =
      depends_loop_later n' dep' deps _ (depends_loop-complete deps n dep sc later e)
  depends_loop-complete ((n', dep') ∷ deps) n dep sc (inl is) e =
      let found : lookup n' sidecars ≡ some sc =
        subst (λ x. lookup (x.0) sidecars ≡ some sc) is e in
      subst (Has (dependency_of etag n dep sc)) (sym (depends_loop_take n' dep' deps sc found))
        (inl (λ i. dependency_of etag ((is i).0) ((is i).1) sc))

-- The container dependencies are exactly those of the entries whose service is a sidecar of the task.
pub build_depends_on_iff :
    (depends_on : DependsOnConfig) (sidecars : Services) (etag : Text) (d : ContainerDependency)
    → Has d (build_depends_on depends_on sidecars etag) ↔ Source depends_on sidecars etag d
unfolding build_depends_on
build_depends_on_iff depends_on sidecars etag d = (
  λ h.
      let (n, dep, sc, has, found, is) = depends_loop_sound sidecars etag (sorted depends_on) d h in
      (n, dep, sc, ((sorted_entries depends_on).1 (n, dep)).0 has, found, is),
  λ (n, dep, sc, has, found, is).
      subst (λ x. Has x (depends_loop sidecars etag (sorted depends_on))) (sym is)
        (depends_loop-complete sidecars etag (sorted depends_on) n dep sc
          (((sorted_entries depends_on).1 (n, dep)).1 has) found),
)
