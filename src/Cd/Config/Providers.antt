-- ===== src/Cd/Config/Providers.antt =====
-- One cloud provider, or an error (addStackConfigFromEnv).
use pulumi_defang.Prelude.{
  Text, codes, text_eq, is_empty, Map, lookup, lookup-insert, List, [], ◌∷◌, ◌++◌, append-nil,
  append_assoc, Bool, true, false, some, Result, ok, err, ◌≡◌, refl, sym, ap, subst, ◌∙◌, inl, inr,
  Bool-cases, if◌then◌else◌, lookup-insert_self,
}
use pulumi_defang.Cd.Config.{
  text, ConfigMap, UsageError, no_provider, conflicting_providers, put_if_set, put_text,
  scw_project, aws_region, gcp_project, azure_subscription, Found, add_provider, find_providers,
  finish_config, program_config, add_stack_config_from_env, env,
}

abbrev pub named : (name value : Text) → List Text
named name value = if is_empty value then [] else name ∷ []

-- The providers that the environment asks for. AWS_REGION counts where no Scaleway project is set.
unfoldable pub wanted : Map Text → List Text
wanted e =
    (if is_empty (scw_project e) then named (codes "aws") (aws_region e) else codes "scaleway" ∷ [])
    ++ (named (codes "gcp") (gcp_project e) ++ named (codes "azure") (azure_subscription e))

add_provider-0 :
    (name value : Text) (configure : ConfigMap → ConfigMap) (found : Found)
    → (add_provider name value configure found).0 ≡ found.0 ++ named name value
unfolding add_provider
add_provider-0 name value configure (providers, config) = elim (Bool-cases (is_empty value)) [
  | inl e ↦ rw e (sym (append-nil providers))
  | inr e ↦ rw e
]

first_provider :
    (e : Map Text) (config scaleway : ConfigMap) (aws : ConfigMap → ConfigMap) (b : Bool)
    → (if b
        then add_provider (codes "aws") (aws_region e) aws ([], config)
        else (codes "scaleway" ∷ [], scaleway)).0
      ≡ (if b then named (codes "aws") (aws_region e) else codes "scaleway" ∷ [])
first_provider e config scaleway aws true =
    add_provider-0 (codes "aws") (aws_region e) aws ([], config)
first_provider e config scaleway aws false = refl

two_more :
    (gcp azure : Text) (with_gcp with_azure : ConfigMap → ConfigMap) (start : Found)
    → (add_provider
        (codes "azure")
        azure
        with_azure
        (add_provider (codes "gcp") gcp with_gcp start)).0
      ≡ start.0 ++ (named (codes "gcp") gcp ++ named (codes "azure") azure)
two_more gcp azure with_gcp with_azure start =
    add_provider-0 (codes "azure") azure with_azure (add_provider (codes "gcp") gcp with_gcp start)
    ∙ ap (λ ps. ps ++ named (codes "azure") azure) (add_provider-0 (codes "gcp") gcp with_gcp start)
    ∙ append_assoc start.0 (named (codes "gcp") gcp) (named (codes "azure") azure)

find_providers-wanted : (e : Map Text) (config : ConfigMap) → (find_providers e config).0 ≡ wanted e
unfolding find_providers wanted
find_providers-wanted e config =
    two_more (gcp_project e) (azure_subscription e) _ _ _
    ∙ ap
        (λ ps.
          ps
          ++ (named (codes "gcp") (gcp_project e) ++ named (codes "azure") (azure_subscription e)))
        (first_provider e config _ _ (is_empty (scw_project e)))

put_if_set-other :
    (k j value : Text) (config : ConfigMap)
    → text_eq k j ≡ false
    → lookup j (put_if_set k value config) ≡ lookup j config
unfolding put_if_set
put_if_set-other k j value config other = elim (Bool-cases (is_empty value)) [
  | inl e ↦ rw e
  | inr e ↦ rw e (rw (lookup-insert k j (text value) config, other))
]

abbrev pub provider_key : Text
provider_key = codes "defang:provider"

-- What the code returns for a list of providers.
abbrev pub Answers : List Text → Result UsageError ConfigMap → Type 0
Answers [] r = r ≡ err no_provider
Answers (p ∷ []) r = (out : ConfigMap) × (r ≡ ok out) × (lookup provider_key out ≡ some (text p))
Answers (p ∷ q ∷ ps) r = r ≡ err (conflicting_providers (p ∷ q ∷ ps))

finish_config-Answers :
    (e : Map Text) (providers : List Text) (config : ConfigMap)
    → Answers providers (finish_config e (providers, config))
unfolding finish_config
finish_config-Answers e [] config = refl
finish_config-Answers e (p ∷ []) config = (
  _,
  refl,
  put_if_set-other (codes "defang:ttl") provider_key (env e (codes "DEFANG_TTL"))
        (put_if_set (codes "defang:domain") (env e (codes "DOMAIN"))
          (put_text provider_key p config))
        refl
      ∙ put_if_set-other (codes "defang:domain") provider_key (env e (codes "DOMAIN"))
          (put_text provider_key p config) refl
      ∙ lookup-insert_self provider_key (text p) config,
)
finish_config-Answers e (p ∷ q ∷ ps) config = refl

-- The environment gives a config exactly where it asks for one provider, which the config then
-- names. With none, or with several, the error tells so and lists those that conflict.
pub add_stack_config_from_env-Answers :
    (version : Text) (e : Map Text) (config : ConfigMap)
    → Answers (wanted e) (add_stack_config_from_env version e config)
unfolding add_stack_config_from_env
add_stack_config_from_env-Answers version e config =
    let found = find_providers e (program_config version e config) in
    subst (λ ps. Answers ps (finish_config e found))
      (find_providers-wanted e (program_config version e config))
      (finish_config-Answers e found.0 found.1)
