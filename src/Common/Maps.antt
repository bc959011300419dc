-- ===== src/Common/Maps.antt =====
-- provider/common/maps.go: the iteration over a map in ascending order of its keys.
pub mod Laws
use pulumi_defang.Prelude.{Text, Map, [], ◌∷◌, Bool, true, false, if◌then◌else◌, ltb, ◌==◌}

-- s <= t, byte by byte.
abbrev pub text_leb : Text → Text → Bool
text_leb [] t = true
text_leb (c ∷ s) [] = false
text_leb (c ∷ s) (d ∷ t) = if ltb c d then true else if c == d then text_leb s t else false

module _ {V : Type 0} where
  unfoldable pub insert_sorted : Text → V → Map V → Map V
  insert_sorted k v [] = (k, v) ∷ []
  insert_sorted k v ((j, w) ∷ m) =
      let rest = insert_sorted k v m in if text_leb k j then (k, v) ∷ (j, w) ∷ m else (j, w) ∷ rest

  unfoldable pub sorted : Map V → Map V
  sorted [] = []
  sorted ((k, v) ∷ m) = insert_sorted k v (sorted m)
