-- ===== src/Scaleway/Servers/Addresses.antt =====
-- The addresses of a server, each once (getServerResources).
use pulumi_defang.Prelude.{
  Text, text_eq, text_eq_iff, is_empty, List, [], ◌∷◌, ◌++◌, Has, Has-append, Has-append_left,
  Has-append_right, Distinct, Distinct-snoc, any, Bool, true, false, not, ◌&&◌, ◌≡◌, ◌≢◌, ◌↔◌, ◌⊎◌,
  refl, sym, subst, inl, inr, Bool-cases, arith,
}
use pulumi_defang.Scaleway.Api.{ServerObject}
use pulumi_defang.Scaleway.Servers.{add_ids, all_ips, resources_of}

any-Has : (i : Text) (seen : List Text) → (any (text_eq i) seen ≡ true) ↔ Has i seen
any-Has i [] = (λ h. absurd (cc h), λ h. absurd h)
any-Has i (j ∷ seen) = elim (Bool-cases (text_eq i j)) [
  | inl e ↦ (λ h. inl ((text_eq_iff i j).0 e), λ h. rw e)
  | inr e ↦ (
    λ h. inr ((any-Has i seen).0 (rw e at h)),
    λ h. elim h [
      | inl same ↦ absurd (ground (arith, text_eq_iff i j))
      | inr has ↦ rw e ((any-Has i seen).1 has)
    ],
  )
]

abbrev is_new : Text → List Text → Bool
is_new i seen = not (is_empty i) && not (any (text_eq i) seen)

abbrev New : Text → List Text → Type 0
New i seen = (i ≢ []) × (¬ Has i seen)

is_new_iff : (i : Text) (seen : List Text) → (is_new i seen ≡ true) ↔ New i seen
is_new_iff [] seen = (λ h. absurd (cc h), λ (h, h'). absurd (h refl))
is_new_iff (c ∷ i) seen = elim (Bool-cases (any (text_eq (c ∷ i)) seen)) [
  | inl e ↦
      (λ h. absurd (cc (rw e at h)), λ (h, fresh). absurd (fresh ((any-Has (c ∷ i) seen).0 e)))
  | inr e ↦ (λ h. (λ same. cc same, λ has. cc (e, (any-Has (c ∷ i) seen).1 has)), λ h. rw e)
]

not_new : (i : Text) (seen : List Text) → is_new i seen ≡ false → i ≢ [] → Has i seen
not_new [] seen h filled = absurd (filled refl)
not_new (c ∷ i) seen h filled = elim (Bool-cases (any (text_eq (c ∷ i)) seen)) [
  | inl e ↦ (any-Has (c ∷ i) seen).0 e
  | inr e ↦ absurd (cc (rw e at h))
]

-- Where a text of the result comes from.
abbrev Comes : Text → List Text → List Text → Type 0
Comes i seen ids = Has i seen ⊎ ((i ≢ []) × Has i ids)

add_ids-Has : (i : Text) (seen ids : List Text) → Has i (add_ids seen ids) → Comes i seen ids
unfolding add_ids
add_ids-Has i seen [] h = inl h
add_ids-Has i seen (j ∷ ids) h = elim (Bool-cases (is_new j seen)) [
  | inl e ↦ elim (add_ids-Has i (seen ++ j ∷ []) ids (rw e at h)) [
    | inl old ↦ elim (Has-append i seen (j ∷ []) old) [
      | inl older ↦ inl older
      | inr (inl same) ↦ inr (subst (λ k. k ≢ []) (sym same) ((is_new_iff j seen).0 e).0, inl same)
      | inr (inr last) ↦ absurd last
    ]
    | inr (filled, later) ↦ inr (filled, inr later)
  ]
  | inr e ↦ elim (add_ids-Has i seen ids (rw e at h)) [
    | inl old ↦ inl old
    | inr (filled, later) ↦ inr (filled, inr later)
  ]
]

add_ids-of_Has : (i : Text) (seen ids : List Text) → Comes i seen ids → Has i (add_ids seen ids)
unfolding add_ids
add_ids-of_Has i seen [] (inl old) = old
add_ids-of_Has i seen [] (inr (filled, later)) = absurd later
add_ids-of_Has i seen (j ∷ ids) (inl old) = elim (Bool-cases (is_new j seen)) [
  | inl e ↦ rw e (add_ids-of_Has i (seen ++ j ∷ []) ids (inl (Has-append_left i seen (j ∷ []) old)))
  | inr e ↦ rw e (add_ids-of_Has i seen ids (inl old))
]
add_ids-of_Has i seen (j ∷ ids) (inr (filled, inl same)) = elim (Bool-cases (is_new j seen)) [
  | inl e ↦
      rw e
        (add_ids-of_Has i (seen ++ j ∷ []) ids (inl (Has-append_right i seen (j ∷ []) (inl same))))
  | inr e ↦ rw e (
      add_ids-of_Has i seen ids (
        inl (
          subst (λ k. Has k seen) (sym same) (not_new j seen e (subst (λ k. k ≢ []) same filled)))))
]
add_ids-of_Has i seen (j ∷ ids) (inr (filled, inr later)) = elim (Bool-cases (is_new j seen)) [
  | inl e ↦ rw e (add_ids-of_Has i (seen ++ j ∷ []) ids (inr (filled, later)))
  | inr e ↦ rw e (add_ids-of_Has i seen ids (inr (filled, later)))
]

add_ids-Distinct : (seen ids : List Text) → Distinct seen → Distinct (add_ids seen ids)
unfolding add_ids
add_ids-Distinct seen [] d = d
add_ids-Distinct seen (j ∷ ids) d = elim (Bool-cases (is_new j seen)) [
  | inl e ↦
      rw e
        (add_ids-Distinct (seen ++ j ∷ []) ids (Distinct-snoc j seen d ((is_new_iff j seen).0 e).1))
  | inr e ↦ rw e (add_ids-Distinct seen ids d)
]

-- The addresses that a removal deletes are each listed once, and they are the ids that the server
-- object names, in either of its two fields, without the empty one.
pub resources_of-ip_ids :
    (s : ServerObject) (i : Text)
    → Distinct (resources_of s).ip_ids
      × ((Has i (resources_of s).ip_ids) ↔ ((i ≢ []) × Has i (all_ips s)))
unfolding resources_of
resources_of-ip_ids s i = (
  add_ids-Distinct [] (all_ips s) tt,
  (
    λ h. elim (add_ids-Has i [] (all_ips s) h) [
      | inl none_yet ↦ absurd none_yet
      | inr named ↦ named
    ],
    λ h. add_ids-of_Has i [] (all_ips s) (inr h),
  ),
)
