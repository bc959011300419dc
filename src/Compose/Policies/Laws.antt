-- ===== src/Compose/Policies/Laws.antt =====
-- provider/compose/policies.go: the normal form is stable, its entries are single trimmed
-- identifiers, and a comma inside an entry separates as two entries do.
use mathlib.Core.Bool.{false≢true}
use pulumi_defang.Prelude.{
  Text, split, split_of_Lacks, split-Lacks, split-append, trim_space, trim_space_idem,
  trim_space-Lacks, is_empty, contains_text, List, [], ◌∷◌, ◌++◌, ok, ◌≡◌, refl, sym, ap, ◌∙◌, All,
  All-append, Lacks, false, Bool-cases, inl, inr, arith, append_assoc, >>=-ok, ◌↔◌, Excludes,
  contains_text-false_iff,
}
use pulumi_defang.Compose.Policies.{
  comma, keep_parts, normalize_policies, check_literal, normalize_literal_policies, variable_open,
}

-- One identifier: not blank, with no comma and no space round it.
pub record IsEntry (s : Text) : Type 0 where
  pub present : is_empty s ≡ false
  pub single : Lacks comma s
  pub trimmed : trim_space s ≡ s

keep_parts-IsEntry : (parts : List Text) → All (Lacks comma) parts → All IsEntry (keep_parts parts)
unfolding keep_parts
keep_parts-IsEntry [] h = tt
keep_parts-IsEntry (part ∷ parts) (h, hs) = elim (Bool-cases (is_empty (trim_space part))) [
  | inl e ↦ rw e (keep_parts-IsEntry parts hs)
  | inr e ↦ rw e (
    record { present = e; single = trim_space-Lacks comma part h; trimmed = trim_space_idem part },
    keep_parts-IsEntry parts hs,
  )
]

-- Every entry of a normal form is one identifier.
pub normalize_policies-IsEntry : (entries : List Text) → All IsEntry (normalize_policies entries)
unfolding normalize_policies
normalize_policies-IsEntry [] = tt
normalize_policies-IsEntry (entry ∷ entries) =
    All-append IsEntry (keep_parts (split comma entry)) (normalize_policies entries)
      (keep_parts-IsEntry (split comma entry) (split-Lacks comma entry))
      (normalize_policies-IsEntry entries)

normalize_policies_of_IsEntry :
    (entries : List Text) → All IsEntry entries → normalize_policies entries ≡ entries
unfolding normalize_policies
normalize_policies_of_IsEntry [] h = refl
normalize_policies_of_IsEntry (entry ∷ entries) (h, hs) =
    rw (split_of_Lacks comma entry h.single, h.trimmed, h.present)
      (ap (λ r. entry ∷ r) (normalize_policies_of_IsEntry entries hs))

-- Normalising twice is normalising once.
pub normalize_policies_idem :
    (entries : List Text)
    → normalize_policies (normalize_policies entries) ≡ normalize_policies entries
normalize_policies_idem entries =
    normalize_policies_of_IsEntry (normalize_policies entries) (normalize_policies-IsEntry entries)

keep_parts-append : (ps qs : List Text) → keep_parts (ps ++ qs) ≡ keep_parts ps ++ keep_parts qs
unfolding keep_parts
keep_parts-append [] qs = refl
keep_parts-append (p ∷ ps) qs = ground (arith, keep_parts-append ps qs)

-- An entry that holds two lists with a comma between them is the same as two entries.
pub normalize_policies-comma :
    (s t : Text) (entries : List Text)
    → normalize_policies ((s ++ comma ∷ t) ∷ entries) ≡ normalize_policies (s ∷ t ∷ entries)
unfolding normalize_policies
normalize_policies-comma s t entries =
    rw (split-append comma s t, keep_parts-append (split comma s) (split comma t), append_assoc)

abbrev pub IsLiteral : Text → Type 0
IsLiteral = Excludes variable_open

check_literal_iff :
    (entries checked : List Text)
    → (check_literal entries ≡ ok checked) ↔ ((checked ≡ entries) × All IsLiteral entries)
unfolding check_literal
check_literal_iff [] checked = (λ h. (cc, tt), λ h. cc)
check_literal_iff (e ∷ es) checked = elim (Bool-cases (contains_text variable_open e)) [
  | inl here ↦ (
    λ h. cc (rw here at h),
    λ h. absurd (false≢true (sym ((contains_text-false_iff variable_open e).1 h.1.0) ∙ here)),
  )
  | inr literal ↦ (
    λ h.
        let (l, first, last) = >>=-ok (check_literal es) _ (rw literal at h) in
        let (same, rest) = (check_literal_iff es l).0 first in
        (cc, ((contains_text-false_iff variable_open e).0 literal, rest)),
    λ h. rw (literal, (check_literal_iff es es).1 (refl, h.1.1)) (cc (h.0)),
  )
]

-- Entries are accepted exactly if no entry of their normal form holds the opening of a variable,
-- and what is returned is the normal form.
pub normalize_literal_policies_iff :
    (entries checked : List Text)
    → (normalize_literal_policies entries ≡ ok checked)
      ↔ ((checked ≡ normalize_policies entries) × All IsLiteral (normalize_policies entries))
unfolding normalize_literal_policies
normalize_literal_policies_iff entries checked =
    check_literal_iff (normalize_policies entries) checked
