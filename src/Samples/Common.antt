-- ===== src/Samples/Common.antt =====
-- Networks, names and the order of services on small inputs.
use pulumi_defang.Prelude.{
  Text, codes, keys, List, [], ◌∷◌, true, some, ◌≡◌, inl, inr, refl, All, Has, Distinct, ◌<◌, arith,
  text_eq, text_eq_iff, if◌then◌else◌, ℕ, Bool-cases, subst, All_at,
}
use pulumi_defang.Compose.Types.{Services, ServiceConfig}
use pulumi_defang.Common.Networks.{in_public_network, is_network_internal}
use pulumi_defang.Common.Dns.{service_label}
use pulumi_defang.Common.Dns.Laws.{IsLabelByte, service_label-IsLabel}
use pulumi_defang.Common.Topo.{topological_sort, deps_of, visit, visit_all, is_visited, all_names}
use pulumi_defang.Common.Topo.Total.{topological_sort_total}
use pulumi_defang.Common.Topo.Once.{topological_sort_once}
use pulumi_defang.Common.Topo.Order.{DepsFirst, IsRanked, topological_sort_order}
use pulumi_defang.Samples.{service_of, shop, two_networks, on_default}

abbrev shop_order : List Text
shop_order = codes "queue" ∷ codes "api" ∷ codes "web" ∷ codes "log" ∷ []

sorted_shop : topological_sort shop ≡ some shop_order
unfolding topological_sort visit deps_of visit_all is_visited all_names
sorted_shop = refl

abbrev rank : Text → ℕ
rank name =
    if text_eq name (codes "log")
    then 3
    else if text_eq name (codes "web")
    then 2
    else if text_eq name (codes "api")
    then 1
    else 0

-- It is enough to look at the services one by one.
abbrev Ranks : (Text → ℕ) → Text × ServiceConfig → Type 0
Ranks r e = All (λ d. r d < r (e.0)) (keys (e.1).depends_on)

ranked : (r : Text → ℕ) (nodes : Services) → All (Ranks r) nodes → IsRanked r nodes
unfolding deps_of
ranked r [] all name d h = absurd h
ranked r ((n, s) ∷ nodes) (here, all) name d h = elim (Bool-cases (text_eq n name)) [
  | inl e ↦
      let same : n ≡ name = (text_eq_iff n name).0 e in
      subst (λ x. r d < r x) same (All_at (λ x. r x < r n) d (keys s.depends_on) here (rw e at h))
  | inr e ↦ ranked r nodes all name d (rw e at h)
]

shop-IsRanked : IsRanked rank shop
shop-IsRanked = ranked rank shop (ground arith)

topological_sort_order_example : DepsFirst shop [] shop_order
topological_sort_order_example =
    topological_sort_order shop rank shop_order shop-IsRanked sorted_shop

abbrev cyclic : Services
cyclic =
    (codes "a", service_of [] (codes "b" ∷ []) [])
    ∷ (codes "b", service_of [] (codes "a" ∷ codes "gone" ∷ []) [])
    ∷ []

topological_sort_total_example : (l : List Text) × (topological_sort cyclic ≡ some l)
topological_sort_total_example = topological_sort_total cyclic

topological_sort_once_example : Distinct shop_order × All (λ n. Has n shop_order) (keys shop)
topological_sort_once_example = topological_sort_once shop shop_order sorted_shop

on_default-in_public_network : in_public_network two_networks on_default ≡ true
unfolding in_public_network is_network_internal
on_default-in_public_network = refl

service_label-IsLabel_example : All IsLabelByte (service_label (codes "My_App.v2"))
service_label-IsLabel_example = service_label-IsLabel (codes "My_App.v2")
