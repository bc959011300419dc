-- ===== src/Compose/Policies.antt =====
-- provider/compose/policies.go: the normal form of x-defang-policies.
pub mod Laws
use pulumi_defang.Prelude.{
  Text, codes, split, trim_space, is_empty, contains_text, List, [], ◌∷◌, ◌++◌, if◌then◌else◌, ℕ,
  Result, ok, err, ◌>>=◌,
}

abbrev pub comma : ℕ
comma = b','

-- The inner loop: the parts of one entry that are not blank.
unfoldable pub keep_parts : List Text → List Text
keep_parts [] = []
keep_parts (part ∷ parts) =
    let rest = keep_parts parts in
    let trimmed = trim_space part in if is_empty trimmed then rest else trimmed ∷ rest

unfoldable pub normalize_policies : List Text → List Text
unfolding keep_parts
normalize_policies [] = []
normalize_policies (entry ∷ entries) = keep_parts (split comma entry) ++ normalize_policies entries

pub data PolicyError : Type 0 where
  unresolved_variable not_aws not_gcp not_azure : Text → PolicyError

-- The opening of a variable.
abbrev pub variable_open : Text
variable_open = codes "${"

unfoldable pub check_literal : List Text → Result PolicyError (List Text)
check_literal [] = ok []
check_literal (entry ∷ entries) =
    let rest = check_literal entries in
    if contains_text variable_open entry
    then err (unresolved_variable entry)
    else (rest >>= λ checked. ok (entry ∷ checked))

unfoldable pub normalize_literal_policies : List Text → Result PolicyError (List Text)
unfolding check_literal
normalize_literal_policies entries = check_literal (normalize_policies entries)
