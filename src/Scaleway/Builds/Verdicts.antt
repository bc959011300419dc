-- ===== src/Scaleway/Builds/Verdicts.antt =====
-- The verdict that a batch of log lines tells, described line by line (waitForInstanceBuild).
use pulumi_defang.Prelude.{
  Text, codes, contains_text, List, [], ◌∷◌, ◌++◌, take, All, true, false, none, some, ℕ, zero, suc,
  ◌≡◌, refl, ◌⊎◌, inl, inr, Bool-cases,
}
use pulumi_defang.Scaleway.Builds.{verdict}
use native.Mathlib.Omega.{arith}

-- A line tells of a success and no line before it tells of anything.
pub data SuccessFirst : List Text → Type 0 where
  here :
      {line : Text} {lines : List Text}
      → contains_text (codes "RESULT:SUCCESS") line ≡ true
      → SuccessFirst (line ∷ lines)
  later :
      {line : Text} {lines : List Text}
      → contains_text (codes "RESULT:SUCCESS") line ≡ false
      → contains_text (codes "RESULT:FAILURE") line ≡ false
      → SuccessFirst lines
      → SuccessFirst (line ∷ lines)

pub verdict-SuccessFirst : (lines : List Text) → verdict lines ≡ some true → SuccessFirst lines
unfolding verdict
verdict-SuccessFirst [] told = ground arith
verdict-SuccessFirst (line ∷ lines) told =
    elim (Bool-cases (contains_text (codes "RESULT:SUCCESS") line)) [
      | inl won ↦ here won
      | inr e ↦ elim (Bool-cases (contains_text (codes "RESULT:FAILURE") line)) [
        | inl lost ↦ ground arith
        | inr e' ↦ later e e' (verdict-SuccessFirst lines (rw (e, e') at told))
      ]
    ]

pub SuccessFirst-verdict : (lines : List Text) → SuccessFirst lines → verdict lines ≡ some true
unfolding verdict
SuccessFirst-verdict [] first = elim first [ ]
SuccessFirst-verdict (line ∷ lines) (here won) = rw won
SuccessFirst-verdict (line ∷ lines) (later e e' first) =
    rw (e, e') (SuccessFirst-verdict lines first)

-- A success among the first `k` lines stays there when more lines follow.
pub verdict-more :
    (k : ℕ) (xs more : List Text)
    → verdict (take k xs) ≡ some true
    → verdict (take k (xs ++ more)) ≡ some true
unfolding verdict
verdict-more zero xs more h = h
verdict-more (suc k) [] more h = absurd (ground (arith, h))
verdict-more (suc k) (x ∷ xs) more h =
    elim (Bool-cases (contains_text (codes "RESULT:SUCCESS") x)) [
      | inl e ↦ rw e
      | inr e ↦ elim (Bool-cases (contains_text (codes "RESULT:FAILURE") x)) [
        | inl e' ↦ absurd (ground (arith, rw (e, e') at h))
        | inr e' ↦ rw (e, e') (verdict-more k xs more (rw (e, e') at h))
      ]
    ]

-- Before these lines follow, the first `k` lines tell of that success or of nothing.
pub verdict-before :
    (k : ℕ) (xs more : List Text)
    → verdict (take k (xs ++ more)) ≡ some true
    → (verdict (take k xs) ≡ some true) ⊎ (verdict (take k xs) ≡ none)
unfolding verdict
verdict-before zero xs more h = inl h
verdict-before (suc k) [] more h = inr refl
verdict-before (suc k) (x ∷ xs) more h =
    elim (Bool-cases (contains_text (codes "RESULT:SUCCESS") x)) [
      | inl e ↦ rw e (inl refl)
      | inr e ↦ elim (Bool-cases (contains_text (codes "RESULT:FAILURE") x)) [
        | inl e' ↦ absurd (ground (arith, rw (e, e') at h))
        | inr e' ↦ rw (e, e') (verdict-before k xs more (rw (e, e') at h))
      ]
    ]

-- The line has neither marker.
abbrev pub IsQuiet : Text → Type 0
IsQuiet line =
    (contains_text (codes "RESULT:SUCCESS") line ≡ false)
    × (contains_text (codes "RESULT:FAILURE") line ≡ false)

pub verdict-IsQuiet : (lines : List Text) → All IsQuiet lines → verdict lines ≡ none
unfolding verdict
verdict-IsQuiet [] quiet = refl
verdict-IsQuiet (line ∷ lines) ((e, e'), quiet) = rw (e, e') (verdict-IsQuiet lines quiet)
