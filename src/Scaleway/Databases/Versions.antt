-- ===== src/Scaleway/Databases/Versions.antt =====
-- The Redis version chosen is the best one of the catalog (selectRedisVersion).
use pulumi_defang.Prelude.{
  Result-cases, Text, List, [], ◌∷◌, Has, Bool, true, false, Option, none, some, ok, ok-eq, err-ok,
  eq_of_some, ◌≡◌, refl, sym, subst, ◌∙◌, ◌⊎◌, ◌↔◌, inl, inr, Bool-cases, Option-cases,
}
use pulumi_defang.Scaleway.Databases.{
  Semver, is_too_old, is_better, keep_better, best_version, select_redis_version,
}

-- Semantic versions are ordered with ties: builds of one version compare alike.
pub record IsWeakOrder {A : Type 0} (lt : A → A → Bool) : Type 0 where
  pub asym : (x y : A) → lt x y ≡ true → lt y x ≡ false
  pub negtrans : (x y z : A) → lt x y ≡ false → lt y z ≡ false → lt x z ≡ false

module _ (v : Semver) (requested : Option v.Version) where
  abbrev better : v.Version → v.Version → Bool
  better x y = is_better v requested x (some y)

  -- A version that is not older than the one requested, where one is.
  abbrev pub IsNewEnough : v.Version → Type 0
  IsNewEnough x = elim requested [ none ↦ Unit {0} | some r ↦ v.lt x r ≡ false ]

  -- The version `x` is not preferred to `b`: not older where a version is requested, else not newer.
  abbrev pub IsNotPreferred : v.Version → v.Version → Type 0
  IsNotPreferred x b = elim requested [ none ↦ v.lt b x ≡ false | some r ↦ v.lt x b ≡ false ]

  -- `b` is a version of the catalog that is new enough, and no other one of these is preferred.
  abbrev pub IsBest : List Text → v.Version → Type 0
  IsBest catalog b =
      ((entry : Text) × Has entry catalog × (v.parse entry ≡ some b) × IsNewEnough b)
      × ((entry : Text) (x : v.Version)
          → Has entry catalog
          → v.parse entry ≡ some x
          → IsNewEnough x
          → IsNotPreferred x b)

  -- An entry of the catalog that the code takes.
  abbrev IsCandidate : Text → v.Version → Type 0
  IsCandidate entry x = (v.parse entry ≡ some x) × (is_too_old v requested x ≡ false)

  better-IsWeakOrder : IsWeakOrder v.lt → IsWeakOrder better
  unfolding is_better
  better-IsWeakOrder o = elim requested as (λ r. IsWeakOrder (λ x y. is_better v r x (some y))) [
    | none ↦ record { asym = λ x y h. o.asym y x h; negtrans = λ x y z h h'. o.negtrans z y x h' h }
    | some r ↦ record { asym = o.asym; negtrans = o.negtrans }
  ]

  -- `out` is at least as good as `x`.
  abbrev Reaches : Option v.Version → v.Version → Type 0
  Reaches out x = (b : v.Version) × (out ≡ some b) × (better x b ≡ false)

  record IsOutcome (catalog : List Text) (best out : Option v.Version) : Type 0 where
    keeps : (x : v.Version) → best ≡ some x → Reaches out x
    covers :
        (entry : Text) (x : v.Version) → Has entry catalog → IsCandidate entry x → Reaches out x
    comes :
        (b : v.Version)
        → out ≡ some b
        → (best ≡ some b) ⊎ ((entry : Text) × Has entry catalog × IsCandidate entry b)

  -- What one step keeps.
  abbrev Step : Option v.Version → v.Version → Option v.Version → Type 0
  Step best x next =
      ((y : v.Version) → best ≡ some y → Reaches next y)
      × (is_too_old v requested x ≡ false → Reaches next x)
      × ((b : v.Version)
          → next ≡ some b
          → (best ≡ some b) ⊎ ((x ≡ b) × (is_too_old v requested x ≡ false)))

  module _ (o : IsWeakOrder better) where
    same-Reaches : (x : v.Version) → Reaches (some x) x
    same-Reaches x = elim (Bool-cases (better x x)) [
      | inl e ↦ (x, refl, o.asym x x e)
      | inr e ↦ (x, refl, e)
    ]

    keep_better-none : (x : v.Version) → Step none x (keep_better v requested none x)
    unfolding keep_better is_better
    keep_better-none x = elim (Bool-cases (is_too_old v requested x)) [
      | inl e ↦ rw e ((λ y h. cc h), (λ young. cc young), (λ b h. inl h))
      | inr e ↦ rw e ((λ y h. cc h), (λ young. same-Reaches x), (λ b h. inr (eq_of_some h, refl)))
    ]

    keep_better-some : (y x : v.Version) → Step (some y) x (keep_better v requested (some y) x)
    unfolding keep_better
    keep_better-some y x = elim (Bool-cases (is_too_old v requested x)) [
      | inl e ↦ rw e (
        (λ z h. subst (Reaches (some y)) (eq_of_some h) (same-Reaches y)),
        (λ young. cc young),
        (λ b h. inl h),
      )
      | inr e ↦ elim (Bool-cases (better x y)) [
        | inl e' ↦
            rw (e, e')
              (
                (λ z h. (x, refl, subst (λ u. better u x ≡ false) (eq_of_some h) (o.asym x y e'))),
                (λ young. same-Reaches x),
                (λ b h. inr (eq_of_some h, refl)),
              )
        | inr e' ↦
            rw (e, e')
              (
                (λ z h. subst (Reaches (some y)) (eq_of_some h) (same-Reaches y)),
                (λ young. (y, refl, e')),
                (λ b h. inl h),
              )
      ]
    ]

    keep_better-Step :
        (best : Option v.Version) (x : v.Version) → Step best x (keep_better v requested best x)
    keep_better-Step none x = keep_better-none x
    keep_better-Step (some y) x = keep_better-some y x

    through :
        (next out : Option v.Version) (x : v.Version)
        → ((y : v.Version) → next ≡ some y → Reaches out y)
        → Reaches next x
        → Reaches out x
    through next out x keeps (y, at, le) =
        let (b, at', le') = keeps y at in (b, at', o.negtrans x y b le le')

    extend :
        (entry : Text) (catalog : List Text) (best out : Option v.Version) (x : v.Version)
        → v.parse entry ≡ some x
        → IsOutcome catalog (keep_better v requested best x) out
        → IsOutcome (entry ∷ catalog) best out
    extend entry catalog best out x parsed rest =
        let next = keep_better v requested best x in
        let (old, new, from) = keep_better-Step best x in
        record {
          keeps = λ y h. through next out y rest.keeps (old y h);
          covers = λ entry' y has h. elim has [
            | inl same ↦
                let same' : x ≡ y =
                  eq_of_some (sym parsed ∙ subst (λ z. v.parse z ≡ some y) same h.0) in
                subst (Reaches out) same' (
                  through next out x rest.keeps
                    (new (subst (λ z. is_too_old v requested z ≡ false) (sym same') h.1)))
            | inr later ↦ rest.covers entry' y later h
          ];
          comes = λ b h. elim (rest.comes b h) [
            | inl at ↦ elim (from b at) [
              | inl older ↦ inl older
              | inr (same, young) ↦ inr (
                entry,
                inl refl,
                (
                  subst (λ z. v.parse entry ≡ some z) same parsed,
                  subst (λ z. is_too_old v requested z ≡ false) same young,
                ),
              )
            ]
            | inr (entry', has, h') ↦ inr (entry', inr has, h')
          ];
        }

    best_version-IsOutcome :
        (catalog : List Text) (best out : Option v.Version)
        → best_version v requested best catalog ≡ ok out
        → IsOutcome catalog best out
    unfolding best_version
    best_version-IsOutcome [] best out done =
        let same = ok-eq done in
        record {
          keeps = λ x h. subst (λ o'. Reaches o' x) (sym h ∙ same) (same-Reaches x);
          covers = λ entry x has h. absurd has;
          comes = λ b h. inl (same ∙ h);
        }
    best_version-IsOutcome (entry ∷ catalog) best out done = elim (Option-cases (v.parse entry)) [
      | inl e ↦ absurd (err-ok (rw (e, best_version) at done))
      | inr (x, e) ↦ extend entry catalog best out x e (
          best_version-IsOutcome catalog (keep_better v requested best x) out
            (rw (e, best_version) at done))
    ]

  is_too_old_iff : (x : v.Version) → (is_too_old v requested x ≡ false) ↔ IsNewEnough x
  unfolding is_too_old
  is_too_old_iff x =
      elim requested
        as (λ r.
          (is_too_old v r x ≡ false) ↔ (elim r [ none ↦ Unit {0} | some r' ↦ v.lt x r' ≡ false ])) [
            | none ↦ ((λ h. tt), (λ h. refl))
            | some r ↦ ((λ h. h), (λ h. h))
          ]

  better-IsNotPreferred : (x b : v.Version) → better x b ≡ false → IsNotPreferred x b
  unfolding is_better
  better-IsNotPreferred x b =
      elim requested
        as (λ r.
          is_better v r x (some b) ≡ false
          → elim r [ none ↦ v.lt b x ≡ false | some r' ↦ v.lt x b ≡ false ]) [
            | none ↦ λ h. h
            | some r ↦ λ h. h
          ]

  chosen-IsBest :
      (catalog : List Text) (b : v.Version)
      → IsWeakOrder v.lt
      → best_version v requested none catalog ≡ ok (some b)
      → IsBest catalog b
  chosen-IsBest catalog b o found =
      let r = best_version-IsOutcome (better-IsWeakOrder o) catalog none (some b) found in
      (
        elim (r.comes b refl) [
          | inl h ↦ absurd (cc h)
          | inr (entry, has, (parsed, young)) ↦ (entry, has, parsed, (is_too_old_iff b).0 young)
        ],
        λ entry x has parsed young.
            let (b', at, le) = r.covers entry x has (parsed, (is_too_old_iff x).1 young) in
            better-IsNotPreferred x b (subst (λ z. better x z ≡ false) (sym (eq_of_some at)) le),
      )

  -- Where the order of versions is one with ties, a version that is chosen is one of the catalog that
  -- is not older than the version requested, and of these no other is older than it; where no version
  -- is requested, it is one of the catalog and no other is newer.
  pub select_redis_version-IsBest :
      (catalog : List Text) (s : Text)
      → IsWeakOrder v.lt
      → select_redis_version v requested catalog ≡ ok s
      → (b : v.Version) × (s ≡ v.text_of b) × IsBest catalog b
  unfolding select_redis_version
  select_redis_version-IsBest [] s o done = absurd (err-ok done)
  select_redis_version-IsBest (entry ∷ catalog) s o done =
      elim (Result-cases (best_version v requested none (entry ∷ catalog))) [
        | inl (e, failed) ↦ absurd (err-ok (rw (failed, select_redis_version) at done))
        | inr (none, nothing) ↦ absurd (err-ok (rw (nothing, select_redis_version) at done))
        | inr (some b, found) ↦ (
          b,
          sym (ok-eq (rw (found, select_redis_version) at done)),
          chosen-IsBest (entry ∷ catalog) b o found,
        )
      ]
