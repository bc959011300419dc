-- ===== src/Common/Topo/Order.antt =====
-- provider/common/topo.go: on a graph with no cycle, dependencies come first.
use pulumi_defang.Prelude.{
  Text, keys, List, [], ◌∷◌, ◌++◌, true, Option, some, ℕ, zero, suc, ◌<◌, ◌≡◌, refl, subst, Has,
  All, All-map, All-of_Has, Has-append_left, Has-append_right, Bool-cases, inl, inr, ◌⊎◌,
  Option-cases, eq_of_some, length, arith,
}
use pulumi_defang.Compose.Types.{Services}
use pulumi_defang.Common.Topo.{
  State, is_visited, deps_of, visit_all, visit, start, all_names, topological_sort,
}
use pulumi_defang.Common.Topo.Total.{is_visited_iff}
use pulumi_defang.Common.Topo.Once.{Inv, mark, not_Has, mark-Inv, append-Inv, start-Inv}

-- Each name's dependencies stand in `seen` or before it.
abbrev pub DepsFirst : Services → List Text → List Text → Type 0
DepsFirst nodes seen [] = Unit
DepsFirst nodes seen (x ∷ xs) =
    All (λ d. Has d seen) (deps_of nodes x) × DepsFirst nodes (x ∷ seen) xs

-- Every dependency ranks below the name that needs it, so there is no cycle.
abbrev pub IsRanked : (Text → ℕ) → Services → Type 0
IsRanked rank nodes = (name d : Text) → Has d (deps_of nodes name) → rank d < rank name

DepsFirst-snoc :
    (nodes : Services) (seen xs : List Text) (x : Text)
    → DepsFirst nodes seen xs
    → All (λ d. Has d seen ⊎ Has d xs) (deps_of nodes x)
    → DepsFirst nodes seen (xs ++ x ∷ [])
DepsFirst-snoc nodes seen [] x h ds =
    (All-map (deps_of nodes x) (λ d r. elim r [ inl s ↦ s | inr f ↦ absurd f ]) ds, tt)
DepsFirst-snoc nodes seen (y ∷ xs) x (hy, h) ds = (
  hy,
  DepsFirst-snoc nodes (y ∷ seen) xs x h (
      All-map (deps_of nodes x)
        (λ d r. elim r [ inl s ↦ inl (inr s) | inr (inl e) ↦ inl (inl e) | inr (inr t) ↦ inr t ])
        ds),
)

-- What a call has to achieve beside the invariant: order, and what was sorted stays sorted.
abbrev Extends : Services → State → State → Type 0
Extends nodes st st' =
    DepsFirst nodes [] st'.sorted × ((x : Text) → Has x st.sorted → Has x st'.sorted)

module _ (nodes : Services) (rank : Text → ℕ) (ranked : IsRanked rank nodes) where
  abbrev Below : List Text → Text → Type 0
  Below stack name = (x : Text) → Has x stack → rank name < rank x

  abbrev Sorts : List Text → (Text → State → Option State) → Type 0
  Sorts stack f =
      (n : Text) (st st' : State)
      → Below stack n
      → Inv stack st
      → DepsFirst nodes [] st.sorted
      → f n st ≡ some st'
      → Inv stack st' × Extends nodes st st' × Has n st'.sorted

  visit_all-Order :
      (stack : List Text) (f : Text → State → Option State)
      → Sorts stack f
      → (ns : List Text) (st st' : State) → All (Below stack) ns
      → Inv stack st
      → DepsFirst nodes [] st.sorted
      → visit_all f ns st ≡ some st'
      → Inv stack st' × Extends nodes st st' × All (λ n. Has n st'.sorted) ns
  unfolding visit_all
  visit_all-Order stack f each [] st st' below inv first h =
      subst (λ s. Inv stack s × Extends nodes st s × Unit) (eq_of_some h)
        (inv, (first, λ x s. s), tt)
  visit_all-Order stack f each (n ∷ ns) st st' (below, belows) inv first h =
      elim (Option-cases (f n st)) [
        | inl e ↦ cc (rw (e, visit_all) at h)
        | inr (s, e) ↦
            let (inv', (first', keeps), has) = each n st s below inv first e in
            let (inv'', (first'', keeps'), hass) =
              visit_all-Order stack f each ns s st' belows inv' first' (rw (e, visit_all) at h) in
            (inv'', (first'', λ x p. keeps' x (keeps x p)), (keeps' n has, hass))
      ]

  visit-Order : (fuel : ℕ) (stack : List Text) → Sorts stack (visit nodes fuel)
  unfolding visit
  visit-Order zero stack name st st' below inv first h = cc
  visit-Order (suc fuel) stack name st st' below inv first h =
      elim (Bool-cases (is_visited name st.visited)) [
        | inl e ↦
            subst (λ s. Inv stack s × Extends nodes st s × Has name s.sorted)
              (eq_of_some (rw e at h)) (inv, (first, λ x s. s), sorted_before inv e)
        | inr e ↦
            elim (Option-cases (visit_all (visit nodes fuel) (deps_of nodes name) (mark name st))) [
              | inl out ↦ cc (rw (e, out) at h)
              | inr (s, out) ↦
                  let fresh = not_Has name st.visited e in
                  let (inv', (first', keeps), hass) =
                    visit_all-Order (name ∷ stack) (visit nodes fuel)
                      (visit-Order fuel (name ∷ stack)) (deps_of nodes name) (mark name st) s
                      deps_below (mark-Inv stack name st inv fresh) first out in
                  subst (λ s'. Inv stack s' × Extends nodes st s' × Has name s'.sorted)
                    (eq_of_some (rw (e, out) at h))
                    (
                      append-Inv stack name s inv' (λ t. fresh (inv.open_visited name t)),
                      (
                        DepsFirst-snoc nodes [] s.sorted name first'
                            (All-map (deps_of nodes name) (λ d p. inr p) hass),
                        λ x p. Has-append_left x s.sorted (name ∷ []) (keeps x p),
                      ),
                      Has-append_right name s.sorted (name ∷ []) (inl refl),
                    )
            ]
      ]
    where
      sorted_before : Inv stack st → is_visited name st.visited ≡ true → Has name st.sorted
      sorted_before inv e = elim (inv.split name ((is_visited_iff name st.visited).0 e)) [
        | inl s ↦ s
        | inr t ↦ absurd (omega (arith, below name t))
      ]

      deps_below : All (Below (name ∷ stack)) (deps_of nodes name)
      deps_below = All-of_Has _ (deps_of nodes name) λ d dep x h. elim h [
        | inl e ↦ rw e (ranked name d dep)
        | inr t ↦ omega (arith, ranked name d dep, below x t)
      ]

-- Where no dependency leads back to the name that needs it, each name in the result stands behind
-- all of its dependencies.
pub topological_sort_order :
    (nodes : Services) (rank : Text → ℕ) (l : List Text)
    → IsRanked rank nodes
    → topological_sort nodes ≡ some l
    → DepsFirst nodes [] l
unfolding topological_sort
topological_sort_order nodes rank l ranked h =
    elim (Option-cases
      (visit_all (visit nodes (suc (length (all_names nodes)))) (keys nodes) start)) [
        | inl out ↦ cc (rw out at h)
        | inr (st, out) ↦ subst (DepsFirst nodes []) (eq_of_some (rw out at h)) (
            (visit_all-Order nodes rank ranked [] _
              (visit-Order nodes rank ranked (suc (length (all_names nodes))) []) (keys nodes) start
              st (All-of_Has _ (keys nodes) (λ n _ x f. absurd f)) start-Inv tt out).1.0)
      ]
