-- ===== src/Scaleway/Secrets/Fetched.antt =====
-- What a fetch of the secrets holds (fetchSecrets).
use pulumi_defang.Prelude.{
  is_empty_iff, text_eq-no_prefix, text_eq-cut_prefix, Text, text_eq, text_eq_iff, is_empty,
  cut_prefix, Map, lookup, insert, lookup-insert, IsMap, keys, Has, List, [], ◌∷◌, ◌++◌, true,
  false, Option, none, some, Result, ok, err, ℕ, zero, suc, ◌+◌, ◌<◌, ltb, length, ◌≡◌, ◌≢◌, refl,
  subst, ◌∙◌, ◌⊎◌, inl, inr, Bool-cases, Option-cases, arith, if◌then◌else◌,
}
use pulumi_defang.Scaleway.Secrets.{
  Secret, SecretError, SecretApi, list_pages, after_page, after_list, store_value, store_key,
  store_secret, read_secrets,
}

insert-keys :
    (k j : Text) (v : Text) (m : Map Text) → Has j (keys (insert k v m)) → (j ≡ k) ⊎ Has j (keys m)
insert-keys k j v [] (inl e) = inl e
insert-keys k j v [] (inr h) = absurd h
insert-keys k j v ((i, u) ∷ m) h = elim (Bool-cases (text_eq i k)) [
  | inl e ↦ elim (rw e at h) [ inl same ↦ inl same | inr later ↦ inr (inr later) ]
  | inr e ↦ elim (rw e at h) [
    | inl same ↦ inr (inl same)
    | inr later ↦ elim (insert-keys k j v m later) [ inl same ↦ inl same | inr old ↦ inr (inr old) ]
  ]
]

pub insert-IsMap : (k : Text) (v : Text) (m : Map Text) → IsMap m → IsMap (insert k v m)
insert-IsMap k v [] h = ((λ has. has), tt)
insert-IsMap k v ((i, u) ∷ m) (fresh, h) = elim (Bool-cases (text_eq i k)) [
  | inl e ↦ rw e (subst (λ x. ¬ Has x (keys m)) ((text_eq_iff i k).0 e) fresh, h)
  | inr e ↦ rw e (
    λ has. elim (insert-keys k i v m has) [
      | inl same ↦ cc (e, (text_eq_iff i k).1 same)
      | inr old ↦ fresh old
    ],
    insert-IsMap k v m h,
  )
]

module _ (api : SecretApi) (prefix : Text) where
  store_value-IsMap :
      (key : Text) (value : Result SecretError Text) (result : Map Text)
      → IsMap result
      → IsMap (store_value api key value result)
  unfolding store_value
  store_value-IsMap key (err e) result h = h
  store_value-IsMap key (ok v) result h = insert-IsMap key v result h

  store_key-IsMap :
      (key : Option Text) (value : Result SecretError Text) (result : Map Text)
      → IsMap result
      → IsMap (store_key api key value result)
  unfolding store_key
  store_key-IsMap none value result h = h
  store_key-IsMap (some key) value result h = elim (Bool-cases (is_empty key)) [
    | inl e ↦ rw e h
    | inr e ↦ rw e (store_value-IsMap key value result h)
  ]

  pub read_secrets-IsMap :
      (secrets : List Secret) (result : Map Text)
      → IsMap result
      → IsMap (read_secrets api prefix secrets result)
  unfolding read_secrets store_secret
  read_secrets-IsMap [] result h = h
  read_secrets-IsMap (s ∷ secrets) result h =
      read_secrets-IsMap secrets _ (store_key-IsMap _ _ result h)

  abbrev pub or_before : Result SecretError Text → Option Text → Option Text
  or_before (err e) best = best
  or_before (ok v) best = some v

  -- The value of the last secret that is named prefix and key and can be read.
  unfoldable pub latest : (key : Text) (best : Option Text) → List Secret → Option Text
  latest key best [] = best
  latest key best (s ∷ secrets) =
      let with_it = latest key (or_before (api.access s.id) best) secrets in
      let without = latest key best secrets in
      if text_eq s.name (prefix ++ key) then with_it else without

  store_value-lookup :
      (k key : Text) (value : Result SecretError Text) (result : Map Text)
      → lookup key (store_value api k value result)
        ≡ (if text_eq k key then or_before value (lookup key result) else lookup key result)
  unfolding store_value
  store_value-lookup k key (err e) result = elim (Bool-cases (text_eq k key)) [
    | inl e' ↦ rw e'
    | inr e' ↦ rw e'
  ]
  store_value-lookup k key (ok v) result = lookup-insert k key v result

  empty_other : (key : Text) → key ≢ [] → text_eq [] key ≡ false
  empty_other [] h = absurd (h refl)
  empty_other (c ∷ key) h = refl

  stored :
      (s : Secret) (key : Text) (result : Map Text)
      → key ≢ []
      → lookup key (store_secret api prefix s result) ≡ (
          if text_eq s.name (prefix ++ key)
          then or_before (api.access s.id) (lookup key result)
          else lookup key result)
  unfolding store_secret store_key
  stored s key result filled = elim (Option-cases (cut_prefix prefix s.name)) [
    | inl e ↦ rw (e, text_eq-no_prefix prefix s.name key e)
    | inr (k, e) ↦ elim (Bool-cases (is_empty k)) [
      | inl e' ↦ rw (
        e,
        e',
        text_eq-cut_prefix prefix s.name k key e,
        is_empty_iff k e',
        empty_other key filled,
      )
      | inr e' ↦
          rw (e, e', text_eq-cut_prefix prefix s.name k key e)
            (store_value-lookup k key (api.access s.id) result)
    ]
  ]

  -- A fetched map has, under a key, the value of the last secret listed with the prefix and that key
  -- that could be read, and nothing where there is none.
  pub lookup-read_secrets :
      (secrets : List Secret) (key : Text) (result : Map Text)
      → key ≢ []
      → lookup key (read_secrets api prefix secrets result) ≡ latest key (lookup key result) secrets
  unfolding read_secrets latest
  lookup-read_secrets [] key result filled = refl
  lookup-read_secrets (s ∷ secrets) key result filled =
      lookup-read_secrets secrets key (store_secret api prefix s result) filled
      ∙ elim (Bool-cases (text_eq s.name (prefix ++ key))) [
        | inl e ↦ rw (stored s key result filled, e)
        | inr e ↦ rw (stored s key result filled, e)
      ]

-- Where each page up to the n-th from `page` on is answered, and that one has fewer than a hundred
-- secrets, the listing of the pages ends with a list, in at most n + 1 rounds.
pub list_pages-total :
    (api : SecretApi) (content : ℕ → List Secret) (n page : ℕ)
    → ((i : ℕ) → api.list_secrets i ≡ ok (content i))
    → length (content (page + n)) < 100
    → (secrets : List Secret) × (list_pages api (suc n) page ≡ ok secrets)
unfolding list_pages after_list after_page
list_pages-total api content zero page answers short =
    let e : ltb (length (content page)) 100 ≡ true = ground arith in
    (content page, rw (answers page, e))
list_pages-total api content (suc n) page answers short =
    let (rest, more) = list_pages-total api content n (page + 1) answers (ground arith) in
    elim (Bool-cases (ltb (length (content page)) 100)) [
      | inl e ↦ (content page, rw (answers page, e))
      | inr e ↦ (content page ++ rest, rw (answers page, e, more))
    ]
