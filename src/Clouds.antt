-- ===== src/Clouds.antt =====
-- x-defang-policies across the clouds: the ParsePolicies of provider/defangaws/aws/iam.go and of
-- provider/defanggcp/gcp/iam.go, and the entries that both accept.
use pulumi_defang.Prelude.{
  Text, has_prefix, contains_byte-false, split, cons_first, List, [], ◌∷◌, Bool, true, false, ◌≡◌,
  refl, ◌∙◌, subst, All, Lacks, ◌⊎◌, inl, inr, ◌↔◌, Bool-cases, arith, ok, err, >>=-ok,
  if◌then◌else◌, ◌||◌, not, has_prefix_sound, ◌≢◌, ℕ, ◌≤◌, split_of_Lacks,
}
use pulumi_defang.Compose.Policies.{not_aws, normalize_literal_policies, normalize_policies}
use pulumi_defang.Compose.Policies.Laws.{IsLiteral, normalize_literal_policies_iff}
use pulumi_defang.Aws.Policies.{arn_prefix, has_slash_or_colon, check_aws}
use pulumi_defang.Aws
use pulumi_defang.Gcp.Policies.{
  is_role_byte, all_role_bytes, is_gcp_role, role_of_parts, is_gcp_role_id, check_gcp,
}
use pulumi_defang.Gcp

-- What AWS can name: a full ARN, or a name with no slash and no colon.
abbrev pub IsAwsName : Text → Type 0
IsAwsName p = (has_prefix arn_prefix p ≡ true) ⊎ (Lacks b'/' p × Lacks b':' p)

IsAwsName-iff :
    (p : Text) → IsAwsName p ↔ ((has_prefix arn_prefix p || not (has_slash_or_colon p)) ≡ true)
IsAwsName-iff p = ground (arith, contains_byte-false b'/' p, contains_byte-false b':' p)

abbrev is_aws_name : Text → Bool
is_aws_name p = has_prefix arn_prefix p || not (has_slash_or_colon p)

check_aws-cons :
    (all : List Text) (p : Text) (ps : List Text)
    → check_aws all (p ∷ ps) ≡ (if is_aws_name p then check_aws all ps else err (not_aws p))
unfolding check_aws
check_aws-cons all p ps = ground arith

check_aws_iff :
    (all policies l : List Text)
    → (check_aws all policies ≡ ok l) ↔ ((l ≡ all) × All IsAwsName policies)
check_aws_iff all [] l = unfold check_aws in (λ h. (cc, tt), λ h. cc (h.0))
check_aws_iff all (p ∷ ps) l = elim (Bool-cases (is_aws_name p)) [
  | inl e ↦
      rw (check_aws-cons, e)
        (
          λ h.
              let (whole, named) = (check_aws_iff all ps l).0 h in
              (whole, ((IsAwsName-iff p).1 e, named)),
          λ h. (check_aws_iff all ps l).1 (h.0, h.1.1),
        )
  | inr e ↦ rw (check_aws-cons, e) (λ h. cc, λ h. cc (e, (IsAwsName-iff p).0 h.1.0))
]

-- AWS accepts entries exactly if each entry of their normal form is literal, and is a full ARN or a
-- name with no slash and no colon; it returns the normal form.
pub parse_policies_aws_iff :
    (entries l : List Text)
    → (Aws.Policies.parse_policies entries ≡ ok l) ↔ (
        (l ≡ normalize_policies entries)
        × All IsLiteral (normalize_policies entries)
        × All IsAwsName (normalize_policies entries))
unfolding Aws.Policies.parse_policies
parse_policies_aws_iff entries l = (
  λ h.
      let (policies, normal, checked) = >>=-ok (normalize_literal_policies entries) _ h in
      let (same, literal) = (normalize_literal_policies_iff entries policies).0 normal in
      let (whole, named) = (check_aws_iff policies policies l).0 checked in
      (whole ∙ same, literal, subst (All IsAwsName) same named),
  λ h.
      let normal = normalize_policies entries in
      rw ((normalize_literal_policies_iff entries normal).1 (refl, h.1))
        ((check_aws_iff normal normal l).1 (h.0, h.2)),
)

check_gcp_ok :
    (all policies l : List Text)
    → check_gcp all policies ≡ ok l
    → (l ≡ all) × All (λ p. is_gcp_role p ≡ true) policies
unfolding check_gcp
check_gcp_ok all [] l h = (cc, tt)
check_gcp_ok all (p ∷ ps) l h = ground (arith, check_gcp_ok all ps l)

arn_parts :
    (ps : List Text)
    → role_of_parts (cons_first b'a' (cons_first b'r' (cons_first b'n' (cons_first b':' ps))))
      ≡ false
unfolding role_of_parts is_gcp_role_id
arn_parts [] = refl
arn_parts (p ∷ []) = refl
arn_parts (p ∷ q ∷ []) = refl
arn_parts (p ∷ q ∷ r ∷ []) = refl
arn_parts (p ∷ q ∷ r ∷ s ∷ []) = refl
arn_parts (p ∷ q ∷ r ∷ s ∷ t ∷ ps) = refl

-- A GCP role with a slash has a kind in front of it, so no ARN is a role.
gcp_role_of_aws_name : (p : Text) → IsAwsName p → is_gcp_role p ≡ true → Lacks b'/' p
unfolding is_gcp_role
gcp_role_of_aws_name p (inr plain) h = plain.0
gcp_role_of_aws_name p (inl arn) h =
    let (rest, e) = has_prefix_sound arn_prefix p arn in
    let parts : role_of_parts (split b'/' p) ≡ false = rw e (arn_parts (split b'/' rest)) in cc

-- One of the characters of a role's own name.
abbrev pub IsRoleByte : ℕ → Type 0
IsRoleByte c =
    (b'A' ≤ c × c ≤ b'Z') ⊎ (b'a' ≤ c × c ≤ b'z') ⊎ (b'0' ≤ c × c ≤ b'9') ⊎ (c ≡ b'_') ⊎ (c ≡ b'.')

-- A name with nothing that qualifies it.
abbrev pub IsBareName : Text → Type 0
IsBareName p = (p ≢ []) × All IsRoleByte p

is_role_byte_sound : (c : ℕ) → is_role_byte c ≡ true → IsRoleByte c
unfolding is_role_byte
is_role_byte_sound c h = ground arith

all_role_bytes_sound : (s : Text) → all_role_bytes s ≡ true → All IsRoleByte s
unfolding all_role_bytes
all_role_bytes_sound [] h = tt
all_role_bytes_sound (c ∷ s) h =
    (is_role_byte_sound c (ground arith), all_role_bytes_sound s (ground arith))

is_gcp_role_id_sound : (s : Text) → is_gcp_role_id s ≡ true → IsBareName s
unfolding is_gcp_role_id
is_gcp_role_id_sound [] h = absurd (ground arith)
is_gcp_role_id_sound (c ∷ s) h = ((λ e. cc e), all_role_bytes_sound (c ∷ s) h)

IsBareName-of_names : (p : Text) → IsAwsName p → is_gcp_role p ≡ true → IsBareName p
unfolding is_gcp_role role_of_parts
IsBareName-of_names p named h =
    let whole = split_of_Lacks b'/' p (gcp_role_of_aws_name p named h) in
    is_gcp_role_id_sound p (rw (is_gcp_role, whole) at h)

bare_names :
    (ps : List Text) → All IsAwsName ps → All (λ p. is_gcp_role p ≡ true) ps → All IsBareName ps
bare_names [] h k = tt
bare_names (p ∷ ps) (h, hs) (k, ks) = (IsBareName-of_names p h k, bare_names ps hs ks)

-- Every entry that both AWS and GCP accept is a bare name: it is not empty, and has letters, digits,
-- underscores and dots only, so no colon and no slash.
pub accepted_by_aws_and_gcp :
    (entries l l' : List Text)
    → Aws.Policies.parse_policies entries ≡ ok l
    → Gcp.Policies.parse_policies entries ≡ ok l'
    → All IsBareName (normalize_policies entries)
unfolding Gcp.Policies.parse_policies
accepted_by_aws_and_gcp entries l l' h k =
    let (policies, normal, checked) = >>=-ok (normalize_literal_policies entries) _ k in
    let (same, literal) = (normalize_literal_policies_iff entries policies).0 normal in
    bare_names (normalize_policies entries) ((parse_policies_aws_iff entries l).0 h).2
      (subst (All (λ p. is_gcp_role p ≡ true)) same (check_gcp_ok policies policies l' checked).1)
