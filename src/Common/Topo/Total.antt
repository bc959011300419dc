-- ===== src/Common/Topo/Total.antt =====
-- provider/common/topo.go: the recursion ends.
use pulumi_defang.Prelude.{
  Text, text_eq, text_eq_iff, keys, length, List, [], ◌∷◌, ◌++◌, true, false, Option, some,
  if◌then◌else◌, ℕ, zero, suc, ◌<◌, ◌≤◌, ◌≡◌, refl, arith, Has, All, Has-append_left,
  Has-append_right, Bool-cases, inl, inr, ◌↔◌, All-of_Has,
}
use pulumi_defang.Compose.Types.{Services}
use pulumi_defang.Common.Topo.{
  State, is_visited, deps_of, visit_all, visit, all_names, start, topological_sort,
}

pub is_visited_iff : (name : Text) (vs : List Text) → (is_visited name vs ≡ true) ↔ Has name vs
unfolding is_visited
is_visited_iff name [] = (λ h. cc, λ h. absurd h)
is_visited_iff name (v ∷ vs) = ground (arith, text_eq_iff v name, is_visited_iff name vs)

-- How many of `names` are not visited yet.
unseen : List Text → List Text → ℕ
unseen [] vs = 0
unseen (n ∷ names) vs = let rest = unseen names vs in if is_visited n vs then rest else suc rest

unseen-le-length : (names vs : List Text) → unseen names vs ≤ length names
unfolding unseen
unseen-le-length [] vs = omega arith
unseen-le-length (n ∷ names) vs = ground (arith, unseen-le-length names vs)

unseen-cons_le :
    (names : List Text) (v : Text) (vs : List Text) → unseen names (v ∷ vs) ≤ unseen names vs
unfolding unseen is_visited
unseen-cons_le [] v vs = omega arith
unseen-cons_le (n ∷ names) v vs = ground (arith, unseen-cons_le names v vs)

unseen-cons_lt :
    (names : List Text) (v : Text) (vs : List Text)
    → Has v names
    → is_visited v vs ≡ false
    → unseen names (v ∷ vs) < unseen names vs
unfolding unseen is_visited
unseen-cons_lt [] v vs h e = absurd h
unseen-cons_lt (n ∷ names) v vs h e =
    ground (arith, text_eq_iff v n, unseen-cons_le names v vs, unseen-cons_lt names v vs)

Has_deps : (nodes : Services) (name d : Text) → Has d (deps_of nodes name) → Has d (all_names nodes)
unfolding deps_of all_names
Has_deps [] name d h = absurd h
Has_deps ((n, s) ∷ nodes) name d h = elim (Bool-cases (text_eq n name)) [
  | inl e ↦ inr (Has-append_left d (keys s.depends_on) (all_names nodes) (rw e at h))
  | inr e ↦
      inr (
        Has-append_right d (keys s.depends_on) (all_names nodes)
          (Has_deps nodes name d (rw e at h)))
]

Has_keys : (nodes : Services) (name : Text) → Has name (keys nodes) → Has name (all_names nodes)
unfolding all_names
Has_keys [] name h = absurd h
Has_keys ((n, s) ∷ nodes) name (inl e) = inl e
Has_keys ((n, s) ∷ nodes) name (inr h) =
    inr (Has-append_right name (keys s.depends_on) (all_names nodes) (Has_keys nodes name h))

-- A run that ends, and leaves no more names unvisited than there were.
abbrev Ends : List Text → Option State → State → Type 0
Ends names r st =
    (st' : State) × (r ≡ some st') × (unseen names st'.visited ≤ unseen names st.visited)

visit_all-Ends :
    (names : List Text) (f : Text → State → Option State) (bound : ℕ)
    → ((n : Text) (st : State)
        → Has n names
        → unseen names st.visited < bound
        → Ends names (f n st) st)
    → (ns : List Text) (st : State) → All (λ n. Has n names) ns
    → unseen names st.visited < bound
    → Ends names (visit_all f ns st) st
unfolding visit_all
visit_all-Ends names f bound each [] st h lt = (st, refl, omega arith)
visit_all-Ends names f bound each (n ∷ ns) st (h, hs) lt =
    let (st', e, le) = each n st h lt in
    let (st'', e', le') = visit_all-Ends names f bound each ns st' hs (omega arith) in
    (st'', rw (e, visit_all) e', omega arith)

visit-Ends :
    (nodes : Services) (fuel : ℕ) (name : Text) (st : State)
    → Has name (all_names nodes)
    → unseen (all_names nodes) st.visited < fuel
    → Ends (all_names nodes) (visit nodes fuel name st) st
unfolding visit
visit-Ends nodes zero name st h lt = absurd (omega arith)
visit-Ends nodes (suc fuel) name st h lt = elim (Bool-cases (is_visited name st.visited)) [
  | inl e ↦ (st, rw e, omega arith)
  | inr e ↦
      let less = unseen-cons_lt (all_names nodes) name st.visited h e in
      let (st', e', le) =
        visit_all-Ends (all_names nodes) (visit nodes fuel) fuel (visit-Ends nodes fuel)
          (deps_of nodes name) (record st { visited = name ∷ st.visited })
          (All-of_Has _ (deps_of nodes name) (Has_deps nodes name)) (omega arith) in
      (record st' { sorted = st'.sorted ++ name ∷ [] }, rw (e, e'), omega arith)
]

-- The sort ends with a result on every graph of services, with cycles and with dependencies that
-- are no services too.
pub topological_sort_total :
    (nodes : Services) → (l : List Text) × (topological_sort nodes ≡ some l)
unfolding topological_sort
topological_sort_total nodes =
    let names = all_names nodes in
    let (st, e, le) =
      visit_all-Ends names (visit nodes (suc (length names))) (suc (length names))
        (visit-Ends nodes (suc (length names))) (keys nodes) start
        (All-of_Has _ (keys nodes) (Has_keys nodes)) (omega (arith, unseen-le-length names [])) in
    (st.sorted, rw e)
