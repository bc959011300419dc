-- ===== src/Aws/Sidecars.antt =====
-- provider/defangaws/project.go: services that ship inside another service's task, and the order
-- and the grants that follow from their dependencies.
pub mod Partition
pub mod Fold
use pulumi_defang.Prelude.{
  Text, codes, text_eq, is_empty, cut_prefix, Map, lookup, insert, has_key, List, [], ◌∷◌, Bool,
  true, false, not, ◌||◌, ◌&&◌, ◌++◌, Option, none, some, is_some, or_else, if◌then◌else◌, Result,
  ok, err, ℕ,
}
use pulumi_defang.Compose.Types.{
  ServiceConfig, Services, ServiceDependency, DependsOnConfig, StringInput,
}

unfoldable pub is_managed_service : ServiceConfig → Bool
is_managed_service svc = is_some svc.postgres || is_some svc.redis || is_some svc.object_store

-- compose.ServiceConfig.SidecarParent
unfoldable pub sidecar_parent : ServiceConfig → Text
sidecar_parent s = or_else (cut_prefix (codes "service:") s.network_mode) []

-- The name of the service, and of its parent.
pub data SidecarError : Type 0 where
  parent_not_found parent_is_sidecar parent_managed : (name parent : Text) → SidecarError

abbrev pub Groups : Type 0
Groups = Map Services

-- `sidecars[parent][name] = svc`, with a new group where there is none.
unfoldable pub add_sidecar : Text → Text → ServiceConfig → Groups → Groups
add_sidecar parent name svc sidecars =
    insert parent (insert name svc (or_else (lookup parent sidecars) [])) sidecars

-- The switch over what is wrong with the parent; `none` if nothing is.
unfoldable pub parent_error : Text → Text → Option ServiceConfig → Option SidecarError
parent_error name parent none = some (parent_not_found name parent)
parent_error name parent (some parent_svc) =
    if not (is_empty (sidecar_parent parent_svc))
    then some (parent_is_sidecar name parent)
    else if is_managed_service parent_svc
    then some (parent_managed name parent)
    else none

-- The loop over `rest`, with the two maps that it fills.
unfoldable pub partition_loop :
    Services → Services → Services → Groups → Result SidecarError (Services × Groups)
partition_loop services [] standalone sidecars = ok (standalone, sidecars)
partition_loop services ((name, svc) ∷ rest) standalone sidecars =
    let parent = sidecar_parent svc in
    let alone = partition_loop services rest (insert name svc standalone) sidecars in
    let folded = partition_loop services rest standalone (add_sidecar parent name svc sidecars) in
    if is_empty parent
    then alone
    else elim (parent_error name parent (lookup parent services)) [ none ↦ folded | some e ↦ err e ]

unfoldable pub partition_sidecars : Services → Result SidecarError (Services × Groups)
unfolding partition_loop
partition_sidecars services = partition_loop services services [] []

abbrev pub service_healthy : Text
service_healthy = codes "service_healthy"

steady_of : DependsOnConfig → Map Bool → Map Bool
steady_of [] wait = wait
steady_of ((dep, val) ∷ deps) wait =
    steady_of deps (if text_eq val.condition service_healthy then insert dep true wait else wait)

steady_loop : Services → Map Bool → Map Bool
steady_loop [] wait = wait
steady_loop ((name, svc) ∷ services) wait = steady_loop services (steady_of svc.depends_on wait)

unfoldable pub services_needing_steady_state : Services → Map Bool
unfolding steady_of steady_loop
services_needing_steady_state services = steady_loop services []

-- A dependency that is required and not there.
pub data DependencyError : Type 0 where
  dependency_not_found : (service dependency : Text) → DependencyError

-- A resource stands by its handle.
unfoldable pub collect_deps :
    Text → DependsOnConfig → Services → Map ℕ → List ℕ → Result DependencyError (List ℕ)
collect_deps name [] sidecars dependencies deps = ok deps
collect_deps name ((dep, val) ∷ rest) sidecars dependencies deps =
    let skipped = collect_deps name rest sidecars dependencies deps in
    if has_key dep sidecars then skipped else elim (lookup dep dependencies) [
      | some r ↦ collect_deps name rest sidecars dependencies (deps ++ r ∷ [])
      | none ↦ if val.required then err (dependency_not_found name dep) else skipped
    ]

grants_loop : DependsOnConfig → Map StringInput → Map StringInput → Map StringInput
grants_loop [] stores grants = grants
grants_loop ((dep, val) ∷ deps) stores grants =
    grants_loop deps stores
      (elim (lookup dep stores) [ none ↦ grants | some arn ↦ insert dep arn grants ])

-- The nil map and the empty map are not told apart.
unfoldable pub object_store_grants : ServiceConfig → Map StringInput → Map StringInput
unfolding grants_loop
object_store_grants svc stores = grants_loop svc.depends_on stores []

-- The dependencies of one sidecar, less those inside the group; what is there already stays.
unfoldable pub merge_deps : Text → Services → DependsOnConfig → DependsOnConfig → DependsOnConfig
merge_deps parent group [] merged = merged
merge_deps parent group ((dep, val) ∷ deps) merged = merge_deps parent group deps (
    if has_key dep group || text_eq dep parent
    then merged
    else if has_key dep merged
    then merged
    else insert dep val merged)

unfoldable pub merge_group : Text → Services → Services → DependsOnConfig → DependsOnConfig
unfolding merge_deps
merge_group parent group [] merged = merged
merge_group parent group ((name, sidecar) ∷ rest) merged =
    merge_group parent group rest (merge_deps parent group sidecar.depends_on merged)

-- One round of the loop over the groups; a parent that is not there is passed over.
unfoldable pub fold_parent : Text → Services → Services → Services
unfolding merge_group
fold_parent parent group graph = elim (lookup parent graph) [
  | none ↦ graph
  | some svc ↦
      insert parent (record svc { depends_on = merge_group parent group group svc.depends_on })
        graph
]

unfoldable pub fold_loop : Groups → Services → Services
unfolding fold_parent
fold_loop [] graph = graph
fold_loop ((parent, group) ∷ sidecars) graph = fold_loop sidecars (fold_parent parent group graph)

unfoldable pub fold_sidecar_deps : Services → Groups → Services
unfolding fold_loop
fold_sidecar_deps standalone sidecars = fold_loop sidecars standalone
