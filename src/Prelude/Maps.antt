-- ===== src/Prelude/Maps.antt =====
-- Go maps with string keys as association lists. The order of the list is the order in which
-- one iteration visits the keys, so a statement for every list holds for every iteration order.
use mathlib.Core.Path.{◌≡◌, refl, sym, subst}
use mathlib.Core.Logic.{inl, inr, ◌≢◌}
use mathlib.Core.Bool.{Bool, true, false}
use mathlib.Core.List.{List, [], ◌∷◌}
use mathlib.Core.Option.{Option, none, some}
use native.Mathlib.Omega.{arith}
use pulumi_defang.Prelude.Tests.{if◌then◌else◌, is_some, Bool-cases, eq_of_some}
use pulumi_defang.Prelude.Lists.{Has, Distinct}
use pulumi_defang.Prelude.Texts.{Text, text_eq, text_eq_iff, text_eq_refl}

abbrev pub Map {ℓ} : Type ℓ → Type ℓ
Map V = List (Text × V)

module _ {ℓ} {V : Type ℓ} where
  abbrev pub keys : Map V → List Text
  keys [] = []
  keys ((k, v) ∷ m) = k ∷ keys m

  abbrev pub lookup : Text → Map V → Option V
  lookup k [] = none
  lookup k ((j, v) ∷ m) = if text_eq j k then some v else lookup k m

  abbrev pub has_key : Text → Map V → Bool
  has_key k m = is_some (lookup k m)

  abbrev pub insert : Text → V → Map V → Map V
  insert k v [] = (k, v) ∷ []
  insert k v ((j, w) ∷ m) = if text_eq j k then (k, v) ∷ m else (j, w) ∷ insert k v m

  -- A Go map holds each key once.
  abbrev pub IsMap : Map V → Type 0
  IsMap m = Distinct (keys m)

  pub lookup-insert :
      (k j : Text) (v : V) (m : Map V)
      → lookup j (insert k v m) ≡ (if text_eq k j then some v else lookup j m)
  lookup-insert k j v [] = refl
  lookup-insert k j v ((i, w) ∷ m) =
      ground (arith, text_eq_iff k j, text_eq_iff i k, text_eq_iff i j, lookup-insert k j v m)

  pub lookup-insert_self : (k : Text) (v : V) (m : Map V) → lookup k (insert k v m) ≡ some v
  lookup-insert_self k v m = rw (lookup-insert k k v m, text_eq_refl k)

  pub lookup-insert_other :
      (k j : Text) (v : V) (m : Map V) → j ≢ k → lookup j (insert k v m) ≡ lookup j m
  lookup-insert_other k j v m other = elim (Bool-cases (text_eq k j)) [
    | inl e ↦ absurd (other (sym ((text_eq_iff k j).0 e)))
    | inr e ↦ rw (lookup-insert k j v m, e)
  ]

  pub lookup-eq-some_of_Has_key :
      (k : Text) (m : Map V) → Has k (keys m) → (v : V) × (lookup k m ≡ some v)
  lookup-eq-some_of_Has_key k [] h = absurd h
  lookup-eq-some_of_Has_key k ((j, w) ∷ m) (inl e) = (w, ground (arith, text_eq_iff j k))
  lookup-eq-some_of_Has_key k ((j, w) ∷ m) (inr h) =
      let (v, e) = lookup-eq-some_of_Has_key k m h in
      elim (text_eq j k) as (λ b. (v : V) × ((if b then some w else lookup k m) ≡ some v)) [
        | true ↦ (w, refl)
        | false ↦ (v, e)
      ]

  pub Has_key_of_lookup : (k : Text) (m : Map V) (v : V) → lookup k m ≡ some v → Has k (keys m)
  Has_key_of_lookup k [] v h = cc
  Has_key_of_lookup k ((j, w) ∷ m) v h = elim (Bool-cases (text_eq j k)) [
    | inl e ↦ inl (sym ((text_eq_iff j k).0 e))
    | inr e ↦ inr (Has_key_of_lookup k m v (rw e at h))
  ]

  pub lookup-none : (k : Text) (m : Map V) → ¬ Has k (keys m) → lookup k m ≡ none
  lookup-none k [] h = refl
  lookup-none k ((j, v) ∷ m) h = elim (Bool-cases (text_eq j k)) [
    | inl e ↦ absurd (h (inl (sym ((text_eq_iff j k).0 e))))
    | inr e ↦ rw e (lookup-none k m (λ x. h (inr x)))
  ]

  abbrev pub AllValues {κ} : (V → Type κ) → Map V → Type κ
  AllValues P [] = Unit
  AllValues P ((k, v) ∷ m) = P v × AllValues P m

  pub lookup-AllValues {κ} :
      (P : V → Type κ) (k : Text) (m : Map V) (v : V) → AllValues P m → lookup k m ≡ some v → P v
  lookup-AllValues P k [] v h e = cc
  lookup-AllValues P k ((j, w) ∷ m) v (p, h) e = elim (Bool-cases (text_eq j k)) [
    | inl x ↦ let same : w ≡ v = eq_of_some (rw x at e) in subst P same p
    | inr x ↦ lookup-AllValues P k m v h (rw x at e)
  ]
