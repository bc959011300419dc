-- ===== src/Cd/Naming/Kept.antt =====
-- The backfill of the registry's pattern adds that pattern and keeps all that the recipe sets
-- (ensureScalewayRegistryAutonaming).
use pulumi_defang.Prelude.{
  Text, text_eq, text_eq_iff, text_eq_refl, lookup, insert, lookup-insert_self, lookup-insert_other,
  List, [], ◌∷◌, Option, none, some, Result, ok, ok-eq, err-ok, >>=-ok, or_else, ◌≡◌, ◌≢◌, refl,
  sym, ap, subst, ◌∙◌, inl, inr, Bool-cases, Option-cases, arith, if◌then◌else◌,
}
use pulumi_defang.Cd.Config.{
  Json, null, text, scalar, array, object, Fields, no_fields, field, ConfigMap,
}
use pulumi_defang.Cd.Naming.{
  get_field, set_field, default_field, child_object, ensure_path, pattern_of, registry_path,
  registry_type, registry_pattern, autonaming_key, decoded, ensure_scaleway_registry_autonaming,
  ConfigError,
}

get_field-set_field :
    (k j : Text) (v : Json) (fields : Fields)
    → get_field j (set_field k v fields) ≡ (if text_eq k j then some v else get_field j fields)
unfolding get_field set_field
get_field-set_field k j v no_fields = refl
get_field-set_field k j v (field i u fields) =
    ground
      (arith, text_eq_iff k j, text_eq_iff i k, text_eq_iff i j, get_field-set_field k j v fields)

get_field-set_self :
    (k : Text) (v : Json) (fields : Fields) → get_field k (set_field k v fields) ≡ some v
get_field-set_self k v fields = rw (get_field-set_field k k v fields, text_eq_refl k)

-- What stands at a path in an object: the keys of objects, and a last one.
unfoldable pub read_in : (Fields → Option Json) → Option Json → Option Json
read_in next none = none
read_in next (some (object child)) = next child
read_in next (some null) = none
read_in next (some (text s)) = none
read_in next (some (scalar s)) = none
read_in next (some (array items)) = none

unfoldable pub read : List Text → Text → Fields → Option Json
unfolding read_in
read [] last fields = get_field last fields
read (k ∷ ks) last fields = read_in (read ks last) (get_field k fields)

read-no_fields : (ks : List Text) (last : Text) → read ks last no_fields ≡ none
unfolding read read_in get_field
read-no_fields [] last = refl
read-no_fields (k ∷ ks) last = refl

child-read :
    (k : Text) (o : Option Json) (child : Fields) (ks : List Text) (last : Text)
    → child_object k o ≡ ok child
    → read_in (read ks last) o ≡ read ks last child
unfolding child_object read_in
child-read k none child ks last made = sym (read-no_fields ks last) ∙ ap (read ks last) (ok-eq made)
child-read k (some (object c)) child ks last made = ap (read ks last) (ok-eq made)
child-read k (some null) child ks last made = absurd (err-ok made)
child-read k (some (text s)) child ks last made = absurd (err-ok made)
child-read k (some (scalar s)) child ks last made = absurd (err-ok made)
child-read k (some (array items)) child ks last made = absurd (err-ok made)

set-read :
    (k : Text) (child fields : Fields) (ks : List Text) (last : Text)
    → read (k ∷ ks) last (set_field k (object child) fields) ≡ read ks last child
unfolding read read_in
set-read k child fields ks last = rw (get_field-set_self k (object child) fields)

module _ (t : Text) (v : Json) where
  default_field_self :
      (fields : Fields)
      → get_field t (default_field t v fields) ≡ some (or_else (get_field t fields) v)
  unfolding default_field
  default_field_self fields = elim (Option-cases (get_field t fields)) [
    | inl e ↦ rw (e, default_field) (get_field-set_self t v fields)
    | inr (u, e) ↦ rw (e, default_field) e
  ]

  -- A step of the way: the child before and behind.
  abbrev Way : Text → List Text → Fields → Fields → Type 0
  Way k ks fields out =
      (child child' : Fields) × (child_object k (get_field k fields) ≡ ok child)
      × (ensure_path ks (default_field t v) child ≡ ok child')
      × (set_field k (object child') fields ≡ out)

  way :
      (k : Text) (ks : List Text) (fields out : Fields)
      → ensure_path (k ∷ ks) (default_field t v) fields ≡ ok out
      → Way k ks fields out
  unfolding ensure_path
  way k ks fields out done =
      let (child, made, rest) = >>=-ok (child_object k (get_field k fields)) _ done in
      let (child', changed, put) = >>=-ok (ensure_path ks (default_field t v) child) _ rest in
      (child, child', made, changed, ok-eq put)

  ensure_path-last :
      (ks : List Text) (fields out : Fields)
      → ensure_path ks (default_field t v) fields ≡ ok out
      → read ks t out ≡ some (or_else (read ks t fields) v)
  unfolding ensure_path read
  ensure_path-last [] fields out done =
      subst (λ o. get_field t o ≡ some (or_else (get_field t fields) v)) (ok-eq done)
        (default_field_self fields)
  ensure_path-last (k ∷ ks) fields out done =
      let (child, child', made, changed, put) = way k ks fields out done in
      ap (read (k ∷ ks) t) (sym put)
      ∙ set-read k child' fields ks t
      ∙ ensure_path-last ks child child' changed
      ∙ ap (λ o. some (or_else o v)) (sym (child-read k (get_field k fields) child ks t made))

  default_field-kept :
      (j : Text) (u : Json) (fields : Fields)
      → get_field j fields ≡ some u
      → get_field j (default_field t v fields) ≡ some u
  unfolding default_field
  default_field-kept j u fields has = elim (Option-cases (get_field t fields)) [
    | inl e ↦ elim (Bool-cases (text_eq t j)) [
      | inl same ↦ absurd (cc (e, has, ap (λ x. get_field x fields) ((text_eq_iff t j).0 same)))
      | inr other ↦ rw (e, default_field) (rw (get_field-set_field t j v fields, other) has)
    ]
    | inr (x, e) ↦ rw (e, default_field) has
  ]

  kept_in :
      (next : Fields → Option Json) (o o' : Option Json) (leaf : Json)
      → ((u : Json) → o ≡ some u → o' ≡ some u)
      → read_in next o ≡ some leaf
      → read_in next o' ≡ some leaf
  unfolding read_in
  kept_in next none o' leaf same has = cc has
  kept_in next (some u) o' leaf same has = rw (same u refl) has

-- A setting is a value that is no object.
abbrev pub IsLeaf : Json → Type 0
IsLeaf leaf = (child : Fields) → leaf ≢ object child

leaf_child :
    (k : Text) (leaf : Json) (child : Fields)
    → IsLeaf leaf
    → ¬ (child_object k (some leaf) ≡ ok child)
unfolding child_object
leaf_child k (object c) child h made = h c refl
leaf_child k null child h made = err-ok made
leaf_child k (text s) child h made = err-ok made
leaf_child k (scalar s) child h made = err-ok made
leaf_child k (array items) child h made = err-ok made

module _ (t : Text) (v : Json) (last : Text) (leaf : Json) (h : IsLeaf leaf) where
  ensure_path-kept :
      (ks qs : List Text) (fields out : Fields)
      → ensure_path ks (default_field t v) fields ≡ ok out
      → read qs last fields ≡ some leaf
      → read qs last out ≡ some leaf
  unfolding ensure_path read
  ensure_path-kept [] [] fields out done has =
      subst (λ o. get_field last o ≡ some leaf) (ok-eq done)
        (default_field-kept t v last leaf fields has)
  ensure_path-kept [] (q ∷ qs) fields out done has =
      subst (λ o. read_in (read qs last) (get_field q o) ≡ some leaf) (ok-eq done)
        (kept_in t v (read qs last) (get_field q fields) _ leaf
          (λ u e. default_field-kept t v q u fields e) has)
  ensure_path-kept (k ∷ ks) [] fields out done has =
      let (child, child', made, changed, put) = way t v k ks fields out done in
      elim (Bool-cases (text_eq k last)) [
        | inl e ↦
            let here : get_field k fields ≡ some leaf =
              ap (λ x. get_field x fields) ((text_eq_iff k last).0 e) ∙ has in
            absurd (leaf_child k leaf child h (subst (λ o. child_object k o ≡ ok child) here made))
        | inr e ↦
            subst (λ o. get_field last o ≡ some leaf) put
              (rw (get_field-set_field k last (object child') fields, e) has)
      ]
  ensure_path-kept (k ∷ ks) (q ∷ qs) fields out done has =
      let (child, child', made, changed, put) = way t v k ks fields out done in
      subst (λ o. read_in (read qs last) (get_field q o) ≡ some leaf) put
        (elim (Bool-cases (text_eq k q)) [
          | inl e ↦
              let same = (text_eq_iff k q).0 e in
              let has' : read_in (read qs last) (get_field k fields) ≡ some leaf =
                subst (λ x. read_in (read qs last) (get_field x fields) ≡ some leaf) (sym same)
                  has in
              let below = sym (child-read k (get_field k fields) child qs last made) ∙ has' in
              rw (get_field-set_field k q (object child') fields, e)
                (ensure_path-kept ks qs child child' changed below)
          | inr e ↦ rw (get_field-set_field k q (object child') fields, e) has
        ])

-- The naming object of a config, decoded where it is a text.
abbrev pub naming : (decode_json : Text → Option Json) → ConfigMap → Result ConfigError Fields
naming decode_json config = decoded decode_json (or_else (lookup autonaming_key config) null)

-- A backfill that succeeds changes the naming object alone. There the registry has the pattern that
-- the recipe gave it, or else the default; and every other setting of the recipe is kept.
pub ensure_scaleway_registry_autonaming-kept :
    (decode_json : Text → Option Json) (config out : ConfigMap) (before : Fields)
    → naming decode_json config ≡ ok before
    → ensure_scaleway_registry_autonaming decode_json config ≡ ok out
    → ((key : Text) → key ≢ autonaming_key → lookup key out ≡ lookup key config)
      × ((behind : Fields) × (lookup autonaming_key out ≡ some (object behind))
          × (read registry_path registry_type behind
              ≡ some
                  (or_else (read registry_path registry_type before) (pattern_of registry_pattern)))
          × ((path : List Text) (last : Text) (leaf : Json)
              → IsLeaf leaf
              → read path last before ≡ some leaf
              → read path last behind ≡ some leaf))
unfolding ensure_scaleway_registry_autonaming
ensure_scaleway_registry_autonaming-kept decode_json config out before decodes done =
    let change = default_field registry_type (pattern_of registry_pattern) in
    let (fields, decodes', rest) = >>=-ok (naming decode_json config) _ done in
    let (behind, named, put) = >>=-ok (ensure_path registry_path change fields) _ rest in
    let same : fields ≡ before = ok-eq (sym decodes' ∙ decodes) in
    let named' = subst (λ f. ensure_path registry_path change f ≡ ok behind) same named in
    let out_is : insert autonaming_key (object behind) config ≡ out = ok-eq put in
    (
      λ key other.
          ap (lookup key) (sym out_is) ∙ lookup-insert_other autonaming_key key _ config other,
      (
        behind,
        ap (lookup autonaming_key) (sym out_is) ∙ lookup-insert_self autonaming_key _ config,
        ensure_path-last registry_type (pattern_of registry_pattern) registry_path before behind
            named',
        λ path last leaf h has.
            ensure_path-kept registry_type (pattern_of registry_pattern) last leaf h registry_path
              path before behind named' has,
      ),
    )
