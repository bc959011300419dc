-- ===== src/Aws/CodeBuild.antt =====
-- provider/defangaws/aws/codebuild.go: which bucket the host name of an S3 endpoint addresses.
pub mod Hosts
use mathlib.Core.List.{reverse}
use pulumi_defang.Prelude.{
  Text, codes, text_eq, has_prefix, cut_prefix, split, join, List, [], ◌∷◌, Bool, true, false, not,
  ◌&&◌, ◌||◌, Option, none, some, if◌then◌else◌, length, ltb,
}

abbrev pub s3_endpoint_suffix : Text
s3_endpoint_suffix = codes ".amazonaws.com"

abbrev pub restored : Option Text → Option Text
restored none = none
restored (some rest) = some (reverse rest)

-- strings.CutSuffix, with the suffix first
abbrev pub cut_suffix : Text → Text → Option Text
cut_suffix suffix s = restored (cut_prefix (reverse suffix) (reverse s))

-- s3, or s3-<region>
abbrev pub is_legacy : Text → Bool
is_legacy label =
    text_eq label (codes "s3") || (ltb 3 (length label) && has_prefix (codes "s3-") label)

abbrev pub legacy : Text → List Text → Option (List Text)
legacy label rest = if is_legacy label then some rest else none

-- The switch over the labels, which are given from the right; what is left of them is the bucket.
unfoldable pub bucket_labels : List Text → Option (List Text)
bucket_labels [] = none
bucket_labels (last ∷ []) = legacy last []
bucket_labels (last ∷ second ∷ []) =
    if text_eq second (codes "s3") && not (text_eq last (codes "dualstack"))
    then some []
    else legacy last (second ∷ [])
bucket_labels (last ∷ second ∷ third ∷ rest) =
    if text_eq third (codes "s3") && text_eq second (codes "dualstack")
    then some rest
    else if text_eq second (codes "s3") && not (text_eq last (codes "dualstack"))
    then some (third ∷ rest)
    else legacy last (second ∷ third ∷ rest)

abbrev pub bucket_of : Option (List Text) → Text × Bool
bucket_of none = ([], false)
bucket_of (some labels) = (join (codes ".") (reverse labels), true)

abbrev pub bucket_of_host : Option Text → Text × Bool
bucket_of_host none = ([], false)
bucket_of_host (some rest) = bucket_of (bucket_labels (reverse (split b'.' rest)))

-- The bucket, and whether the host is an S3 endpoint at all.
unfoldable pub parse_s3_host : Text → Text × Bool
parse_s3_host host = bucket_of_host (cut_suffix s3_endpoint_suffix host)
