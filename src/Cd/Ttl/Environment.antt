-- ===== src/Cd/Ttl/Environment.antt =====
-- cd/program/ttl.go: which variables are frozen into the scheduled removal, and with which values.
use pulumi_defang.Prelude.{
  Text, text_eq, text_eq_iff, cut, Map, lookup, lookup-insert, List, [], ◌∷◌, Bool, not, ◌||◌, ◌&&◌,
  Option, none, some, if◌then◌else◌, ◌≡◌, ◌∙◌, arith, Bool-cases, inl, inr,
}
use pulumi_defang.Cd.Ttl.{
  is_excluded, is_exact, has_env_prefix, add_variable, env_loop, self_destruct_env,
}

-- A name that may be frozen: on a list or with a prefix, and not excluded.
abbrev pub is_frozen : Text → Bool
is_frozen k = not (is_excluded k) && (is_exact k || has_env_prefix k)

abbrev value_at : Text → Option (Text × Text) → Option Text → Option Text
value_at k none before = before
value_at k (some (j, v)) before = if text_eq j k then some v else before

-- The value that the environment gives a name: the last variable of that name decides.
abbrev pub last_value : Text → List Text → Option Text → Option Text
last_value k [] before = before
last_value k (kv ∷ environ) before = last_value k environ (value_at k (cut b'=' kv) before)

lookup-add_variable :
    (k : Text) (entry : Option (Text × Text)) (env : Map Text)
    → lookup k (add_variable entry env)
      ≡ (if is_frozen k then value_at k entry (lookup k env) else lookup k env)
unfolding add_variable
lookup-add_variable k none env = ground arith
lookup-add_variable k (some (j, v)) env = ground (arith, text_eq_iff j k, lookup-insert j k v env)

lookup-env_loop :
    (k : Text) (environ : List Text) (env : Map Text)
    → lookup k (env_loop environ env)
      ≡ (if is_frozen k then last_value k environ (lookup k env) else lookup k env)
unfolding env_loop
lookup-env_loop k [] env = ground arith
lookup-env_loop k (kv ∷ environ) env = elim (Bool-cases (is_frozen k)) [
  | inl e ↦
      lookup-env_loop k environ (add_variable (cut b'=' kv) env)
      ∙ rw (lookup-add_variable k (cut b'=' kv) env, e)
  | inr e ↦
      lookup-env_loop k environ (add_variable (cut b'=' kv) env)
      ∙ rw (lookup-add_variable k (cut b'=' kv) env, e)
]

-- The scheduled removal gets exactly the variables whose name may be frozen, each with the last
-- value that the environment gives it; in particular no
-- excluded name.
pub lookup-self_destruct_env :
    (environ : List Text) (k : Text)
    → lookup k (self_destruct_env environ)
      ≡ (if is_frozen k then last_value k environ none else none)
unfolding self_destruct_env
lookup-self_destruct_env environ k = lookup-env_loop k environ []
