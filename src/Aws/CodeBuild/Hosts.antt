-- ===== src/Aws/CodeBuild/Hosts.antt =====
-- provider/defangaws/aws/codebuild.go: every bucket is read back from its endpoints.
use mathlib.Core.List.{reverse, reverse-append, reverse-reverse}
use pulumi_defang.Prelude.{
  Text, codes, text_eq, cut_prefix, split, split-append, split_of_Lacks, join, Lacks, cons_first,
  List, [], ◌∷◌, ◌++◌, Bool, true, false, some, if◌then◌else◌, ◌≡◌, refl, sym, ap, ◌∙◌, Bool-cases,
  inl, inr, arith, ◌==◌, ==_iff, ℕ,
}
use pulumi_defang.Aws.CodeBuild.{
  s3_endpoint_suffix, cut_suffix, bucket_labels, bucket_of, bucket_of_host, restored, parse_s3_host,
}

cut_prefix-append : (p s : Text) → cut_prefix p (p ++ s) ≡ some s
cut_prefix-append [] s = refl
cut_prefix-append (c ∷ p) s = ground (arith, cut_prefix-append p s)

cut_suffix-append : (s p : Text) → cut_suffix p (s ++ p) ≡ some s
cut_suffix-append s p =
    ap (λ x. restored (cut_prefix (reverse p) x)) (reverse-append s p)
    ∙ ap restored (cut_prefix-append (reverse p) (reverse s))
    ∙ ap some (reverse-reverse s)

join-cons_first :
    (c : ℕ) (p : Text) (ps : List Text)
    → join (codes ".") (cons_first c (p ∷ ps)) ≡ c ∷ join (codes ".") (p ∷ ps)
join-cons_first c p [] = refl
join-cons_first c p (q ∷ ps) = refl

-- A text is its parts with the dots between them.
abbrev Split : Text → List Text → Type 0
Split s parts = (p : Text) × (ps : List Text) × (parts ≡ p ∷ ps) × (join (codes ".") parts ≡ s)

Split-cons :
    (c : ℕ) (s : Text) (b : Bool) (parts : List Text)
    → (b ≡ true → c ≡ b'.')
    → Split s parts
    → Split (c ∷ s) (if b then [] ∷ parts else cons_first c parts)
Split-cons c s true parts is (p, ps, e, joined) = (
  [],
  parts,
  refl,
  ap (λ x. join (codes ".") ([] ∷ x)) e
      ∙ ap (λ x. b'.' ∷ join (codes ".") x) (sym e)
      ∙ (λ i. sym (is refl) i ∷ joined i),
)
Split-cons c s false parts is (p, ps, e, joined) = (
  c ∷ p,
  ps,
  ap (cons_first c) e,
  ap (λ x. join (codes ".") (cons_first c x)) e
      ∙ join-cons_first c p ps
      ∙ ap (λ x. c ∷ join (codes ".") x) (sym e)
      ∙ ap (λ x. c ∷ x) joined,
)

split-Split : (s : Text) → Split s (split b'.' s)
split-Split [] = ([], [], refl, refl)
split-Split (c ∷ s) = Split-cons c s (c == b'.') (split b'.' s) ((==_iff c b'.').0) (split-Split s)

join-split : (s : Text) → join (codes ".") (split b'.' s) ≡ s
join-split s = let (p, ps, e, joined) = split-Split s in joined

bucket_labels_regional :
    (region : Text) (rest : List Text)
    → text_eq region (codes "dualstack") ≡ false
    → bucket_labels (region ∷ codes "s3" ∷ rest) ≡ some rest
unfolding bucket_labels
bucket_labels_regional region [] h = rw h refl
bucket_labels_regional region (third ∷ rest) h = elim (Bool-cases (text_eq third (codes "s3"))) [
  | inl e ↦ rw (e, h) refl
  | inr e ↦ rw (e, h) refl
]

bucket_labels_dualstack :
    (region : Text) (rest : List Text)
    → bucket_labels (region ∷ codes "dualstack" ∷ codes "s3" ∷ rest) ≡ some rest
unfolding bucket_labels
bucket_labels_dualstack region rest = refl

bucket_of-split : (bucket : Text) → bucket_of (some (reverse (split b'.' bucket))) ≡ (bucket, true)
bucket_of-split bucket =
    ap (λ x. (join (codes ".") x, true)) (reverse-reverse (split b'.' bucket))
    ∙ ap (λ x. (x, true)) (join-split bucket)

abbrev regional : Text → Text → Text
regional bucket region = bucket ++ b'.' ∷ (codes "s3" ++ b'.' ∷ region)

abbrev dualstack : Text → Text → Text
dualstack bucket region = bucket ++ b'.' ∷ (codes "s3.dualstack" ++ b'.' ∷ region)

module _ (bucket region : Text) (one_label : Lacks b'.' region) where
  split-regional :
      split b'.' (regional bucket region) ≡ split b'.' bucket ++ codes "s3" ∷ region ∷ []
  split-regional =
      split-append b'.' bucket (codes "s3" ++ b'.' ∷ region)
      ∙ ap (λ x. split b'.' bucket ++ codes "s3" ∷ x) (split_of_Lacks b'.' region one_label)

  split-dualstack :
      split b'.' (dualstack bucket region)
      ≡ split b'.' bucket ++ codes "s3" ∷ codes "dualstack" ∷ region ∷ []
  split-dualstack =
      split-append b'.' bucket (codes "s3.dualstack" ++ b'.' ∷ region)
      ∙ ap (λ x. split b'.' bucket ++ codes "s3" ∷ codes "dualstack" ∷ x)
          (split_of_Lacks b'.' region one_label)

  parse_regional :
      text_eq region (codes "dualstack") ≡ false
      → parse_s3_host (regional bucket region ++ s3_endpoint_suffix) ≡ (bucket, true)
  unfolding parse_s3_host
  parse_regional h =
      ap bucket_of_host (cut_suffix-append (regional bucket region) s3_endpoint_suffix)
      ∙ ap (λ x. bucket_of (bucket_labels (reverse x))) split-regional
      ∙ ap (λ x. bucket_of (bucket_labels x))
          (reverse-append (split b'.' bucket) (codes "s3" ∷ region ∷ []))
      ∙ ap bucket_of (bucket_labels_regional region (reverse (split b'.' bucket)) h)
      ∙ bucket_of-split bucket

  parse_dualstack : parse_s3_host (dualstack bucket region ++ s3_endpoint_suffix) ≡ (bucket, true)
  unfolding parse_s3_host
  parse_dualstack =
      ap bucket_of_host (cut_suffix-append (dualstack bucket region) s3_endpoint_suffix)
      ∙ ap (λ x. bucket_of (bucket_labels (reverse x))) split-dualstack
      ∙ ap (λ x. bucket_of (bucket_labels x))
          (reverse-append (split b'.' bucket) (codes "s3" ∷ codes "dualstack" ∷ region ∷ []))
      ∙ ap bucket_of (bucket_labels_dualstack region (reverse (split b'.' bucket)))
      ∙ bucket_of-split bucket

-- Every bucket, whatever dots its name has, is read back from its regional and from its dual-stack
-- endpoint, in every region that is one label; for the regional one, a region not called "dualstack".
pub parse_s3_host-endpoint :
    (bucket region : Text)
    → Lacks b'.' region
    → text_eq region (codes "dualstack") ≡ false
    → (parse_s3_host ((bucket ++ b'.' ∷ (codes "s3" ++ b'.' ∷ region)) ++ s3_endpoint_suffix)
        ≡ (bucket, true))
      × (parse_s3_host
            ((bucket ++ b'.' ∷ (codes "s3.dualstack" ++ b'.' ∷ region)) ++ s3_endpoint_suffix)
          ≡ (bucket, true))
parse_s3_host-endpoint bucket region one_label h =
    (parse_regional bucket region one_label h, parse_dualstack bucket region one_label)
