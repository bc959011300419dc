-- ===== src/Scaleway/Secrets/Snapshot.antt =====
-- A provider of config values behaves as one that keeps the first fetch that succeeds
-- (GetConfigValue).
use pulumi_defang.Prelude.{
  if◌then◌else◌, Text, text_eq, text_eq_iff, Map, lookup, insert, lookup-insert, lookup-none, IsMap,
  List, [], ◌∷◌, All, true, false, Option, none, some, Result, ok, err, ◌≡◌, refl, sym, ◌∙◌, inl,
  inr, Bool-cases, if◌then◌else◌, subst, keys, Has,
}
use pulumi_defang.Scaleway.Secrets.{
  SecretError, ConfigProvider, new_config_provider, fill, after_fetch, get_config_value,
}

-- The abstract provider: no fetch has succeeded yet, or the values of the one that has.
pub data View : Type 0 where
  pending : View
  snapshot : Map Text → View

pub record Call : Type 0 where
  pub fetch : Result SecretError (Map Text)
  pub key : Text

unfoldable pub view_get : View → Call → Option Text × View
view_get pending c = elim c.fetch [
  | err e ↦ (none, pending)
  | ok values ↦ (lookup c.key values, snapshot values)
]
view_get (snapshot values) c = (lookup c.key values, snapshot values)

-- The answers to a sequence of calls, of the abstract provider and of the code's.
unfoldable pub view_answers : View → List Call → List (Option Text)
unfolding view_get
view_answers view [] = []
view_answers view (c ∷ calls) = (view_get view c).0 ∷ view_answers (view_get view c).1 calls

unfoldable pub answers : ConfigProvider → List Call → List (Option Text)
answers cp [] = []
answers cp (c ∷ calls) =
    (get_config_value c.fetch cp c.key).0 ∷ answers (get_config_value c.fetch cp c.key).1 calls

-- How a state of the code represents the abstract one.
Shows : ConfigProvider → View → Type 0
Shows cp pending = (cp.fetched ≡ false) × (cp.cache ≡ [])
Shows cp (snapshot values) =
    (cp.fetched ≡ true) × ((key : Text) → lookup key cp.cache ≡ lookup key values)

abbrev before : Option Text → Option Text → Option Text
before (some v) o = some v
before none o = o

lookup-fill :
    (values cache : Map Text) (key : Text)
    → IsMap values
    → lookup key (fill values cache) ≡ before (lookup key values) (lookup key cache)
unfolding fill
lookup-fill [] cache key h = refl
lookup-fill ((k, v) ∷ values) cache key (fresh, h) = elim (Bool-cases (text_eq k key)) [
  | inl e ↦
      let absent = subst (λ x. ¬ Has x (keys values)) ((text_eq_iff k key).0 e) fresh in
      rw (
        lookup-fill values (insert k v cache) key h,
        lookup-insert k key v cache,
        e,
        lookup-none key values absent,
      )
  | inr e ↦ rw (lookup-fill values (insert k v cache) key h, lookup-insert k key v cache, e)
]

before-none : (o : Option Text) → before o none ≡ o
before-none none = refl
before-none (some v) = refl

-- A fetched map holds each key once.
abbrev pub IsFetch : Result SecretError (Map Text) → Type 0
IsFetch (err e) = Unit
IsFetch (ok values) = IsMap values

abbrev Same : Option Text × ConfigProvider → Option Text × View → Type 0
Same (value, cp) (value', view) = (value ≡ value') × Shows cp view

first_fetch :
    (cp : ConfigProvider) (key : Text) (fetch : Result SecretError (Map Text))
    → IsFetch fetch
    → Shows cp pending
    → Same (after_fetch cp key fetch) (view_get pending (record { fetch = fetch; key = key }))
unfolding after_fetch view_get Shows
first_fetch cp key (err e) h shows = (refl, shows)
first_fetch cp key (ok values) h (closed, empty) =
    let same : (k : Text) → lookup k (fill values cp.cache) ≡ lookup k values =
      λ k. rw empty (lookup-fill values [] k h ∙ before-none (lookup k values)) in
    (same key, (refl, same))

get_config_value-Same :
    (cp : ConfigProvider) (view : View) (c : Call)
    → IsFetch c.fetch
    → Shows cp view
    → Same (get_config_value c.fetch cp c.key) (view_get view c)
unfolding get_config_value view_get Shows
get_config_value-Same cp pending c h (closed, empty) =
    subst
      (λ b.
        Same (if b then (lookup c.key cp.cache, cp) else after_fetch cp c.key c.fetch)
          (view_get pending c))
      (sym closed) (first_fetch cp c.key c.fetch h (closed, empty))
get_config_value-Same cp (snapshot values) c h (opened, same) =
    subst
      (λ b.
        Same (if b then (lookup c.key cp.cache, cp) else after_fetch cp c.key c.fetch)
          (view_get (snapshot values) c))
      (sym opened) (same c.key, (opened, same))

answers-from :
    (calls : List Call) (cp : ConfigProvider) (view : View)
    → All (λ c. IsFetch c.fetch) calls
    → Shows cp view
    → answers cp calls ≡ view_answers view calls
unfolding answers view_answers
answers-from [] cp view h shows = refl
answers-from (c ∷ calls) cp view (h, hs) shows =
    let (same, shows') = get_config_value-Same cp view c h shows in
    rw (same, answers-from calls _ _ hs shows')

-- Whatever the Secret Manager answers over time, a new provider answers every sequence of calls as
-- the abstract one: nothing is found until a fetch succeeds, and from then on every call reads the
-- values of that first fetch.
pub answers-new_config_provider :
    (project_name : Text) (calls : List Call)
    → All (λ c. IsFetch c.fetch) calls
    → answers (new_config_provider project_name) calls ≡ view_answers pending calls
unfolding new_config_provider Shows
answers-new_config_provider project_name calls h =
    answers-from calls (new_config_provider project_name) pending h (refl, refl)
