-- ===== src/Scaleway/Secrets.antt =====
-- provider/defangscaleway/scaleway/parameters.go: config values from the Secret Manager, fetched
-- once. The pages of the API, its answers to a read, the environment and contract.ConfigPrefix are
-- parameters.
pub mod Snapshot
pub mod Fetched
use pulumi_defang.Prelude.{
  Text, codes, is_empty, cut_prefix, Map, lookup, insert, List, [], ◌∷◌, ◌++◌, Bool, true, false,
  ◌||◌, Option, none, some, Result, ok, err, ℕ, zero, suc, ◌+◌, ltb, length, if◌then◌else◌,
}

pub record Secret : Type 0 where
  pub id : Text
  pub name : Text

pub data SecretError : Type 0 where
  config_missing : SecretError
  api_failed : Text → SecretError
  -- The model's own: the pages did not end in the rounds allowed.
  out_of_pages : SecretError

-- What the API answers while the secrets are fetched.
pub record SecretApi : Type 0 where
  pub list_secrets : (page : ℕ) → Result SecretError (List Secret)
  pub access : (id : Text) → Result SecretError Text

module _ (api : SecretApi) where
  after_page :
      (again : Result SecretError (List Secret)) (secrets : List Secret)
      → Result SecretError (List Secret)
  after_page (err e) secrets = err e
  after_page (ok rest) secrets = ok (secrets ++ rest)

  after_list :
      (again : Result SecretError (List Secret))
      → Result SecretError (List Secret)
      → Result SecretError (List Secret)
  unfolding after_page
  after_list again (err e) = err e
  after_list again (ok secrets) =
      if ltb (length secrets) 100 then ok secrets else after_page again secrets

  -- A page with fewer than a hundred secrets is the last one.
  unfoldable pub list_pages : (rounds page : ℕ) → Result SecretError (List Secret)
  unfolding after_list
  list_pages zero page = err out_of_pages
  list_pages (suc rounds) page = after_list (list_pages rounds (page + 1)) (api.list_secrets page)

  store_value : (key : Text) → Result SecretError Text → Map Text → Map Text
  store_value key (err e) result = result
  store_value key (ok value) result = insert key value result

  -- A secret that cannot be read is passed over.
  store_key : Option Text → Result SecretError Text → Map Text → Map Text
  unfolding store_value
  store_key none value result = result
  store_key (some key) value result = if is_empty key then result else store_value key value result

  unfoldable pub store_secret : (prefix : Text) → Secret → Map Text → Map Text
  unfolding store_key
  store_secret prefix s result = store_key (cut_prefix prefix s.name) (api.access s.id) result

  unfoldable pub read_secrets : (prefix : Text) → List Secret → Map Text → Map Text
  unfolding store_secret
  read_secrets prefix [] result = result
  read_secrets prefix (s ∷ secrets) result =
      read_secrets prefix secrets (store_secret prefix s result)

  unfoldable pub fetch_secrets :
      (getenv : Text → Text) (prefix : Text) (rounds : ℕ) → Result SecretError (Map Text)
  unfolding list_pages read_secrets
  fetch_secrets getenv prefix rounds =
      if is_empty (getenv (codes "SCW_ACCESS_KEY")) || is_empty (getenv (codes "SCW_SECRET_KEY"))
      then err config_missing
      else elim (list_pages rounds 1) [
        | err e ↦ err e
        | ok secrets ↦ ok (read_secrets prefix secrets [])
      ]

-- ConfigProvider, less the mutex, which makes a call one step.
pub record ConfigProvider : Type 0 where
  pub project_name : Text
  pub cache : Map Text
  pub fetched : Bool

unfoldable pub new_config_provider : Text → ConfigProvider
new_config_provider project_name = record {
  project_name = project_name;
  cache = [];
  fetched = false;
}

fill : Map Text → Map Text → Map Text
fill [] cache = cache
fill ((k, v) ∷ values) cache = fill values (insert k v cache)

-- What a call does when the secrets are not there yet; none is the value that is not found.
after_fetch : ConfigProvider → Text → Result SecretError (Map Text) → Option Text × ConfigProvider
unfolding fill
after_fetch cp key (err e) = (none, cp)
after_fetch cp key (ok values) =
    let cache = fill values cp.cache in
    (lookup key cache, record { project_name = cp.project_name; cache = cache; fetched = true })

-- `fetch` is what fetchSecrets comes to at the time of the call.
unfoldable pub get_config_value :
    (fetch : Result SecretError (Map Text)) → ConfigProvider → Text → Option Text × ConfigProvider
unfolding after_fetch
get_config_value fetch cp key =
    if cp.fetched then (lookup key cp.cache, cp) else after_fetch cp key fetch
