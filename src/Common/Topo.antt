-- ===== src/Common/Topo.antt =====
-- provider/common/topo.go: the depth-first order of services. The recursion of `visit` takes fuel:
-- `none` means that the fuel ran out, which one more than the number of names never lets happen.
pub mod Total
pub mod Once
pub mod Order
use pulumi_defang.Prelude.{
  Text, text_eq, keys, lookup, any, length, List, [], ◌∷◌, ◌++◌, Bool, Option, none, some,
  if◌then◌else◌, ℕ, zero, suc,
}
use pulumi_defang.Compose.Types.{Services, ServiceConfig, DependsOnConfig}

-- The two variables that the closure `visit` updates.
pub record State : Type 0 where
  pub visited : List Text
  pub sorted : List Text

unfoldable pub is_visited : Text → List Text → Bool
is_visited name visited = any (λ v. text_eq v name) visited

-- `nodes[name].DependsOn`: a missing name has no dependencies.
abbrev pub deps_or_zero : Option ServiceConfig → List Text
deps_or_zero none = []
deps_or_zero (some s) = keys s.depends_on

unfoldable pub deps_of : Services → Text → List Text
deps_of nodes name = deps_or_zero (lookup name nodes)

unfoldable pub visit_all : (Text → State → Option State) → List Text → State → Option State
visit_all f [] st = some st
visit_all f (name ∷ names) st = elim (f name st) [ none ↦ none | some st' ↦ visit_all f names st' ]

-- sorted = append(sorted, name)
abbrev pub finish : Text → Option State → Option State
finish name none = none
finish name (some st) = some (record st { sorted = st.sorted ++ name ∷ [] })

unfoldable pub visit : Services → ℕ → Text → State → Option State
visit nodes zero name st = none
visit nodes (suc fuel) name st =
    let marked = record st { visited = name ∷ st.visited } in
    let rest = visit_all (visit nodes fuel) (deps_of nodes name) marked in
    if is_visited name st.visited then some st else finish name rest

-- Every name that the graph holds: the services and their dependencies.
unfoldable pub all_names : Services → List Text
all_names [] = []
all_names ((name, s) ∷ nodes) = name ∷ (keys s.depends_on ++ all_names nodes)

abbrev pub start : State
start = record { visited = []; sorted = [] }

abbrev pub sorted_of : Option State → Option (List Text)
sorted_of none = none
sorted_of (some st) = some st.sorted

unfoldable pub topological_sort : Services → Option (List Text)
topological_sort nodes =
    sorted_of (visit_all (visit nodes (suc (length (all_names nodes)))) (keys nodes) start)
