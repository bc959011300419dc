-- ===== src/Common/Maps/Laws.antt =====
-- provider/common/maps.go: the sorted iteration visits the entries of the map, in order.
use pulumi_defang.Prelude.{
  Text, Map, [], ◌∷◌, true, false, Has, ◌↔◌, ◌≡◌, refl, inl, inr, Bool-cases, arith, All, All-map,
}
use pulumi_defang.Common.Maps.{text_leb, insert_sorted, sorted}

text_leb_total : (s t : Text) → text_leb s t ≡ false → text_leb t s ≡ true
text_leb_total [] t h = cc
text_leb_total (c ∷ s) [] h = refl
text_leb_total (c ∷ s) (d ∷ t) h = ground (arith, text_leb_total s t)

text_leb_trans : (s t u : Text) → text_leb s t ≡ true → text_leb t u ≡ true → text_leb s u ≡ true
text_leb_trans [] t u h k = refl
text_leb_trans (c ∷ s) [] u h k = cc
text_leb_trans (c ∷ s) (d ∷ t) [] h k = cc
text_leb_trans (c ∷ s) (d ∷ t) (e ∷ u) h k = ground (arith, text_leb_trans s t u)

module _ {V : Type 0} where
  -- No key stands before a smaller one.
  abbrev pub Ascending : Map V → Type 0
  Ascending [] = Unit
  Ascending ((k, v) ∷ m) = All (λ e. text_leb k (e.0) ≡ true) m × Ascending m

  Has-insert_sorted :
      (k : Text) (v : V) (m : Map V) (e : Text × V)
      → Has e (insert_sorted k v m) ↔ Has e ((k, v) ∷ m)
  unfolding insert_sorted
  Has-insert_sorted k v [] e = (λ h. h, λ h. h)
  Has-insert_sorted k v ((j, w) ∷ m) e = elim (Bool-cases (text_leb k j)) [
    | inl le ↦ rw le (λ h. h, λ h. h)
    | inr gt ↦ rw gt (
      λ h. elim h [
        | inl same ↦ inr (inl same)
        | inr later ↦ elim ((Has-insert_sorted k v m e).0 later) [
          | inl same ↦ inl same
          | inr old ↦ inr (inr old)
        ]
      ],
      λ h. elim h [
        | inl same ↦ inr ((Has-insert_sorted k v m e).1 (inl same))
        | inr (inl same) ↦ inl same
        | inr (inr old) ↦ inr ((Has-insert_sorted k v m e).1 (inr old))
      ],
    )
  ]

  insert_sorted-All :
      (P : Text × V → Type 0) (k : Text) (v : V) (m : Map V)
      → P (k, v)
      → All P m
      → All P (insert_sorted k v m)
  unfolding insert_sorted
  insert_sorted-All P k v [] p h = (p, tt)
  insert_sorted-All P k v ((j, w) ∷ m) p (q, h) = elim (Bool-cases (text_leb k j)) [
    | inl le ↦ rw le (p, (q, h))
    | inr gt ↦ rw gt (q, insert_sorted-All P k v m p h)
  ]

  insert_sorted-Ascending :
      (k : Text) (v : V) (m : Map V) → Ascending m → Ascending (insert_sorted k v m)
  unfolding insert_sorted
  insert_sorted-Ascending k v [] h = (tt, tt)
  insert_sorted-Ascending k v ((j, w) ∷ m) (least, h) = elim (Bool-cases (text_leb k j)) [
    | inl le ↦ rw le ((le, All-map m (λ e q. text_leb_trans k j (e.0) le q) least), (least, h))
    | inr gt ↦ rw gt (
      insert_sorted-All (λ e. text_leb j (e.0) ≡ true) k v m (text_leb_total k j gt) least,
      insert_sorted-Ascending k v m h,
    )
  ]

  -- The sorted iteration visits exactly the entries of the map, in ascending order of the keys.
  pub sorted_entries :
      (m : Map V) → Ascending (sorted m) × ((e : Text × V) → Has e (sorted m) ↔ Has e m)
  unfolding sorted
  sorted_entries [] = (tt, λ e. (λ h. h, λ h. h))
  sorted_entries ((k, v) ∷ m) =
      let (up, same) = sorted_entries m in
      (
        insert_sorted-Ascending k v (sorted m) up,
        λ e. (
          λ h. elim ((Has-insert_sorted k v (sorted m) e).0 h) [
            | inl is ↦ inl is
            | inr old ↦ inr ((same e).0 old)
          ],
          λ h.
              (Has-insert_sorted k v (sorted m) e).1
                (elim h [ inl is ↦ inl is | inr old ↦ inr ((same e).1 old) ]),
        ),
      )
