-- ===== src/Common/Topo/Once.antt =====
-- provider/common/topo.go: what holds of the two variables of the walk, whatever the graph is.
use pulumi_defang.Prelude.{
  Text, keys, List, [], ◌∷◌, ◌++◌, false, Option, some, ℕ, zero, suc, ◌≡◌, refl, sym, ◌∙◌, Has, All,
  Has-append, Has-append_left, Has-append_right, Distinct, Distinct-snoc, Bool-cases, inl, inr, ◌⊎◌,
  Option-cases, eq_of_some, length, subst, All-map,
}
use mathlib.Core.Bool.{false≢true}
use pulumi_defang.Compose.Types.{Services}
use pulumi_defang.Common.Topo.{
  State, is_visited, deps_of, visit_all, visit, start, all_names, topological_sort,
}
use pulumi_defang.Common.Topo.Total.{is_visited_iff}

-- `stack` holds the names whose calls have not returned.
pub record Inv (stack : List Text) (st : State) : Type 0 where
  pub split : (x : Text) → Has x st.visited → Has x st.sorted ⊎ Has x stack
  pub placed : (x : Text) → Has x st.sorted → Has x st.visited
  pub open_visited : (x : Text) → Has x stack → Has x st.visited
  pub open_unplaced : (x : Text) → Has x stack → ¬ Has x st.sorted
  pub distinct : Distinct st.sorted

abbrev pub mark : Text → State → State
mark name st = record st { visited = name ∷ st.visited }

abbrev pub append : Text → State → State
append name st = record st { sorted = st.sorted ++ name ∷ [] }

pub not_Has : (name : Text) (vs : List Text) → is_visited name vs ≡ false → ¬ Has name vs
not_Has name vs e h = false≢true (sym e ∙ (is_visited_iff name vs).1 h)

pub mark-Inv :
    (stack : List Text) (name : Text) (st : State)
    → Inv stack st
    → ¬ Has name st.visited
    → Inv (name ∷ stack) (mark name st)
mark-Inv stack name st inv fresh = record {
  split = λ x h. elim h [
    | inl e ↦ inr (inl e)
    | inr old ↦ elim (inv.split x old) [ inl s ↦ inl s | inr t ↦ inr (inr t) ]
  ];
  placed = λ x h. inr (inv.placed x h);
  open_visited = λ x h. elim h [ inl e ↦ inl e | inr t ↦ inr (inv.open_visited x t) ];
  open_unplaced = λ x h. elim h [
    | inl e ↦ λ s. fresh (inv.placed name (subst (λ y. Has y st.sorted) e s))
    | inr t ↦ inv.open_unplaced x t
  ];
  distinct = inv.distinct;
}

pub append-Inv :
    (stack : List Text) (name : Text) (st : State)
    → Inv (name ∷ stack) st
    → ¬ Has name stack
    → Inv stack (append name st)
append-Inv stack name st inv absent = record {
  split = λ x h. elim (inv.split x h) [
    | inl s ↦ inl (Has-append_left x st.sorted (name ∷ []) s)
    | inr (inl e) ↦ inl (Has-append_right x st.sorted (name ∷ []) (inl e))
    | inr (inr t) ↦ inr t
  ];
  placed = λ x h. elim (Has-append x st.sorted (name ∷ []) h) [
    | inl s ↦ inv.placed x s
    | inr (inl e) ↦ inv.open_visited x (inl e)
    | inr (inr f) ↦ absurd f
  ];
  open_visited = λ x h. inv.open_visited x (inr h);
  open_unplaced = λ x h s. elim (Has-append x st.sorted (name ∷ []) s) [
    | inl old ↦ inv.open_unplaced x (inr h) old
    | inr (inl e) ↦ absent (subst (λ y. Has y stack) e h)
    | inr (inr f) ↦ f
  ];
  distinct = Distinct-snoc name st.sorted inv.distinct (inv.open_unplaced name (inl refl));
}

-- The visited names only grow.
abbrev pub Grows : State → State → Type 0
Grows st st' = (x : Text) → Has x st.visited → Has x st'.visited

abbrev Keeps : List Text → State → State → Type 0
Keeps stack st st' = Inv stack st' × Grows st st'

visit_all-Inv :
    (stack : List Text) (f : Text → State → Option State)
    → ((n : Text) (st st' : State)
        → Inv stack st
        → f n st ≡ some st'
        → Keeps stack st st' × Has n st'.visited)
    → (ns : List Text) (st st' : State) → Inv stack st
    → visit_all f ns st ≡ some st'
    → Keeps stack st st' × All (λ n. Has n st'.visited) ns
unfolding visit_all
visit_all-Inv stack f each [] st st' inv h =
    subst (λ s. Keeps stack st s × Unit) (eq_of_some h) ((inv, λ x v. v), tt)
visit_all-Inv stack f each (n ∷ ns) st st' inv h = elim (Option-cases (f n st)) [
  | inl e ↦ cc (rw (e, visit_all) at h)
  | inr (s, e) ↦
      let ((inv', grows), seen) = each n st s inv e in
      let ((inv'', grows'), seen') =
        visit_all-Inv stack f each ns s st' inv' (rw (e, visit_all) at h) in
      ((inv'', λ x v. grows' x (grows x v)), (grows' n seen, seen'))
]

visit-Inv :
    (nodes : Services) (fuel : ℕ) (stack : List Text) (name : Text) (st st' : State)
    → Inv stack st
    → visit nodes fuel name st ≡ some st'
    → Keeps stack st st' × Has name st'.visited
unfolding visit
visit-Inv nodes zero stack name st st' inv h = cc
visit-Inv nodes (suc fuel) stack name st st' inv h =
    elim (Bool-cases (is_visited name st.visited)) [
      | inl e ↦
          subst (λ s. Keeps stack st s × Has name s.visited) (eq_of_some (rw e at h))
            ((inv, λ x v. v), (is_visited_iff name st.visited).0 e)
      | inr e ↦
          elim (Option-cases (visit_all (visit nodes fuel) (deps_of nodes name) (mark name st))) [
            | inl out ↦ cc (rw (e, out) at h)
            | inr (s, out) ↦
                let fresh = not_Has name st.visited e in
                let ((inv', grows), seen) =
                  visit_all-Inv (name ∷ stack) (visit nodes fuel)
                    (visit-Inv nodes fuel (name ∷ stack)) (deps_of nodes name) (mark name st) s
                    (mark-Inv stack name st inv fresh) out in
                subst (λ s'. Keeps stack st s' × Has name s'.visited)
                  (eq_of_some (rw (e, out) at h))
                  (
                    (
                      append-Inv stack name s inv' (λ t. fresh (inv.open_visited name t)),
                      λ x v. grows x (inr v),
                    ),
                    grows name (inl refl),
                  )
          ]
    ]

pub start-Inv : Inv [] start
start-Inv = record {
  split = λ x h. absurd h;
  placed = λ x h. absurd h;
  open_visited = λ x h. absurd h;
  open_unplaced = λ x h. absurd h;
  distinct = tt;
}

-- Every service stands in the result, and no name stands there twice.
pub topological_sort_once :
    (nodes : Services) (l : List Text)
    → topological_sort nodes ≡ some l
    → Distinct l × All (λ n. Has n l) (keys nodes)
unfolding topological_sort
topological_sort_once nodes l h =
    elim (Option-cases
      (visit_all (visit nodes (suc (length (all_names nodes)))) (keys nodes) start)) [
        | inl out ↦ cc (rw out at h)
        | inr (st, out) ↦
            let ((inv, grows), seen) =
              visit_all-Inv [] _ (visit-Inv nodes (suc (length (all_names nodes))) []) (keys nodes)
                start st start-Inv out in
            subst (λ s. Distinct s × All (λ n. Has n s) (keys nodes)) (eq_of_some (rw out at h))
              (inv.distinct, All-map (keys nodes) (closed st inv) seen)
      ]
  where
    closed : (st : State) → Inv [] st → (n : Text) → Has n st.visited → Has n st.sorted
    closed st inv n v = elim (inv.split n v) [ inl s ↦ s | inr f ↦ absurd f ]
