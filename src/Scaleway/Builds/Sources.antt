-- ===== src/Scaleway/Builds/Sources.antt =====
-- The source and the name of a build (parseS3Source and sanitizeResourceName).
use pulumi_defang.Prelude.{
  cut_prefix_sound, Text, codes, Lacks, All, All-append, cut, cut_prefix, cut-some, cut-append,
  is_empty, trim_right, length, length-append, length-take, take, [], ◌∷◌, ◌++◌, map, Bool, true,
  false, none, some, ok, ℕ, ◌+◌, ◌-◌, ◌≤◌, ltb, ◌||◌, ◌≡◌, ◌≢◌, ◌↔◌, refl, sym, ap, subst, ◌∙◌, inl,
  inr, Bool-cases, Option-cases, arith, err-ok, ok-eq, trim_right-All, zero, suc, if◌then◌else◌,
  keep_or_drop,
}
use pulumi_defang.Scaleway.Builds.{parse_s3_source, replace_separator, sanitize_resource_name}

abbrev pub s3_url : Text → Text → Text
s3_url bucket key = codes "s3://" ++ (bucket ++ b'/' ∷ key)

nonempty : (s : Text) → s ≢ [] → is_empty s ≡ false
nonempty [] h = absurd (h refl)
nonempty (c ∷ s) h = refl

abbrev pub IsLocation : Text → Text → Text → Type 0
IsLocation source bucket key =
    (source ≡ s3_url bucket key) × (bucket ≢ []) × (key ≢ []) × Lacks b'/' bucket

parts_sound :
    (source rest bucket key : Text)
    → cut_prefix (codes "s3://") source ≡ some rest
    → cut b'/' rest ≡ some (bucket, key)
    → is_empty bucket || is_empty key ≡ false
    → IsLocation source bucket key
parts_sound source rest bucket key h h' h'' =
    let (parts, free) = cut-some b'/' rest bucket key h' in
    (
      cut_prefix_sound (codes "s3://") source rest h ∙ ap (λ r. codes "s3://" ++ r) parts,
      λ e. ground arith,
      λ e. ground arith,
      free,
    )

parsed_parts :
    (source bucket key : Text) (rest : Text)
    → cut_prefix (codes "s3://") source ≡ some rest
    → parse_s3_source source ≡ ok (bucket, key)
    → IsLocation source bucket key
unfolding parse_s3_source
parsed_parts source bucket key rest e out = elim (Option-cases (cut b'/' rest)) [
  | inl e' ↦ absurd (err-ok (rw (e, e') at out))
  | inr ((b, k), e') ↦ elim (Bool-cases (is_empty b || is_empty k)) [
    | inl t ↦ absurd (err-ok (rw (e, e', t) at out))
    | inr t ↦
        let same = ok-eq (rw (e, e', t) at out) in
        subst (λ (p : Text × Text). IsLocation source p.0 p.1) same
          (parts_sound source rest b k e e' t)
  ]
]

no_prefix :
    (source bucket key : Text)
    → cut_prefix (codes "s3://") source ≡ none
    → ¬ (parse_s3_source source ≡ ok (bucket, key))
unfolding parse_s3_source
no_prefix source bucket key e out = err-ok (rw e at out)

parse-location :
    (bucket key : Text)
    → bucket ≢ []
    → key ≢ []
    → Lacks b'/' bucket
    → parse_s3_source (s3_url bucket key) ≡ ok (bucket, key)
unfolding parse_s3_source
parse-location bucket key h h' free =
    rw (cut-append b'/' bucket key free, parse_s3_source, nonempty bucket h, nonempty key h')

-- A source is read as a bucket and a key exactly where it is the URL s3://bucket/key of them, with
-- neither empty and no slash in the bucket.
pub parse_s3_source_iff :
    (source bucket key : Text)
    → (parse_s3_source source ≡ ok (bucket, key)) ↔ IsLocation source bucket key
parse_s3_source_iff source bucket key = (
  λ out. elim (Option-cases (cut_prefix (codes "s3://") source)) [
    | inl e ↦ absurd (no_prefix source bucket key e out)
    | inr (rest, e) ↦ parsed_parts source bucket key rest e out
  ],
  λ (same, h, h', free).
      subst (λ s. parse_s3_source s ≡ ok (bucket, key)) (sym same)
        (parse-location bucket key h h' free),
)

length-keep_or_drop : (p : ℕ → Bool) (c : ℕ) (s : Text) → length (keep_or_drop p c s) ≤ length s + 1
length-keep_or_drop p c [] = ground arith
length-keep_or_drop p c (d ∷ s) = omega arith

length-trim_right : (p : ℕ → Bool) (s : Text) → length (trim_right p s) ≤ length s
length-trim_right p [] = omega arith
length-trim_right p (c ∷ s) =
    omega (arith, length-keep_or_drop p c (trim_right p s), length-trim_right p s)

-- The characters that the name of an instance must not hold.
abbrev pub IsNameByte : ℕ → Type 0
IsNameByte c = (c ≢ b'/') × (c ≢ b':') × (c ≢ b'.')

replaced : (s : Text) → All IsNameByte (map replace_separator s)
unfolding replace_separator
replaced [] = tt
replaced (c ∷ s) = (ground arith, replaced s)

take-All : (P : ℕ → Type 0) (n : ℕ) (s : Text) → All P s → All P (take n s)
take-All P zero s h = tt
take-All P (suc n) [] h = tt
take-All P (suc n) (c ∷ s) (p, h) = (p, take-All P n s h)

abbrev pub IsName : Text → Type 0
IsName s = (length s ≤ 40) × All IsNameByte s

trimmed : (p : ℕ → Bool) (s : Text) → IsName s → IsName (trim_right p s)
trimmed p s (short, clean) =
    (omega (arith, length-trim_right p s), trim_right-All p IsNameByte s clean)

chosen :
    (b : Bool) (s t : Text)
    → (b ≡ true → IsName s)
    → (b ≡ false → IsName t)
    → IsName (if b then s else t)
chosen true s t h h' = h refl
chosen false s t h h' = h' refl

-- The first bytes of a long name, and the suffix.
shortened :
    (p : ℕ → Bool) (s suffix : Text)
    → length suffix ≤ 40
    → All IsNameByte s
    → All IsNameByte suffix
    → IsName (trim_right p (take (40 - length suffix) s) ++ suffix)
shortened p s suffix fits hs hx =
    let cut_off = take (40 - length suffix) s in
    (
      omega (
        arith,
        length-append (trim_right p cut_off) suffix,
        length-trim_right p cut_off,
        length-take (40 - length suffix) s,
      ),
      All-append IsNameByte _ suffix
          (trim_right-All p IsNameByte cut_off (take-All IsNameByte (40 - length suffix) s hs)) hx,
    )

-- The name of a build has at most 40 bytes and none of the separators of a registry, where the
-- hash is eight bytes with no separator, as hexadecimal digits are.
pub sanitize_resource_name-IsName :
    (hash : Text → Text) (dest : Text)
    → length (hash dest) ≡ 8
    → All IsNameByte (hash dest)
    → IsName (sanitize_resource_name hash dest)
unfolding sanitize_resource_name
sanitize_resource_name-IsName hash dest short clean =
    let s = map replace_separator dest in
    trimmed _ _ (
      chosen (ltb 40 (length s)) _ s
        (λ e. shortened _ s (b'-' ∷ hash dest) (omega arith) (replaced dest) (ground arith, clean))
        (λ e. (ground arith, replaced dest)))
