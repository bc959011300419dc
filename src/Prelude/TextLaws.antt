-- ===== src/Prelude/TextLaws.antt =====
-- Laws of the text functions: cut, split, trim and case.
use Prim.Native.Nat.{ℕ}
use mathlib.Core.Path.{◌≡◌, refl, ap}
use mathlib.Core.Logic.{inl, inr, ◌≢◌, ◌↔◌}
use mathlib.Core.Bool.{Bool, true, false}
use mathlib.Core.List.{List, [], ◌∷◌, ◌++◌}
use mathlib.Core.Option.{none, some}
use native.Mathlib.Omega.{arith}
use pulumi_defang.Prelude.Tests.{◌==◌, Bool-cases, Option-cases, eq_of_some}
use pulumi_defang.Prelude.Lists.{All}
use pulumi_defang.Prelude.Texts.{
  Text, text_eq, cut_prefix, is_empty, has_prefix, contains_text, contains_byte, cut, split,
  cons_first, trim_left, trim_right, keep_or_drop, trim_space, is_space,
}

abbrev pub Lacks : ℕ → Text → Type 0
Lacks b = All (λ c. c ≢ b)

-- A cut text is its two parts round the first separator.
pub cut-some : (b : ℕ) (s x y : Text) → cut b s ≡ some (x, y) → (s ≡ x ++ b ∷ y) × Lacks b x
cut-some b [] x y h = cc
cut-some b (c ∷ s) x y h = elim (Option-cases (cut b s)) [
  | inl e ↦ ground arith
  | inr ((x', y'), e) ↦ ground (arith, cut-some b s x' y')
]

pub cut-none : (b : ℕ) (s : Text) → cut b s ≡ none → Lacks b s
cut-none b [] h = tt
cut-none b (c ∷ s) h = ground (arith, cut-none b s)

pub cut-append : (b : ℕ) (x y : Text) → Lacks b x → cut b (x ++ b ∷ y) ≡ some (x, y)
cut-append b [] y h = ground arith
cut-append b (c ∷ x) y h = ground (arith, cut-append b x y)

pub cut_of_Lacks : (b : ℕ) (x : Text) → Lacks b x → cut b x ≡ none
cut_of_Lacks b [] h = refl
cut_of_Lacks b (c ∷ x) h = ground (arith, cut_of_Lacks b x)

-- A text with no separator is one part, and no part holds the separator.
pub split_of_Lacks : (b : ℕ) (s : Text) → Lacks b s → split b s ≡ s ∷ []
split_of_Lacks b [] h = refl
split_of_Lacks b (c ∷ s) h = ground (arith, split_of_Lacks b s)

cons_first-Lacks :
    (b c : ℕ) (ps : List Text) → c ≢ b → All (Lacks b) ps → All (Lacks b) (cons_first c ps)
cons_first-Lacks b c [] h hs = ((h, tt), tt)
cons_first-Lacks b c (p ∷ ps) h (hp, hs) = ((h, hp), hs)

pub split-Lacks : (b : ℕ) (s : Text) → All (Lacks b) (split b s)
split-Lacks b [] = (tt, tt)
split-Lacks b (c ∷ s) = elim (Bool-cases (c == b)) [
  | inl e ↦ rw e (tt, split-Lacks b s)
  | inr e ↦ rw e (cons_first-Lacks b c (split b s) (ground arith) (split-Lacks b s))
]

cons_first-cons_first :
    (c d : ℕ) (ps qs : List Text)
    → cons_first c (cons_first d ps ++ qs) ≡ cons_first c (cons_first d ps) ++ qs
cons_first-cons_first c d [] qs = refl
cons_first-cons_first c d (p ∷ ps) qs = refl

cons_first-append :
    (b c : ℕ) (s : Text) (qs : List Text)
    → cons_first c (split b s ++ qs) ≡ cons_first c (split b s) ++ qs
cons_first-append b c [] qs = refl
cons_first-append b c (d ∷ s) qs = elim (Bool-cases (d == b)) [
  | inl e ↦ rw e
  | inr e ↦ rw e (cons_first-cons_first c d (split b s) qs)
]

-- A text with a separator in it has the parts of what stands before and behind.
pub split-append : (b : ℕ) (s t : Text) → split b (s ++ b ∷ t) ≡ split b s ++ split b t
split-append b [] t = ground arith
split-append b (c ∷ s) t = elim (Bool-cases (c == b)) [
  | inl e ↦ rw (e, split-append b s t)
  | inr e ↦ rw (e, split-append b s t) (cons_first-append b c s (split b t))
]

module _ (p : ℕ → Bool) where
  pub trim_left_idem : (s : Text) → trim_left p (trim_left p s) ≡ trim_left p s
  trim_left_idem [] = refl
  trim_left_idem (c ∷ s) = ground (arith, trim_left_idem s)

  keep_or_drop_idem :
      (c : ℕ) (s : Text)
      → trim_right p s ≡ s
      → trim_right p (keep_or_drop p c s) ≡ keep_or_drop p c s
  keep_or_drop_idem c [] h = ground arith
  keep_or_drop_idem c (d ∷ s) h = ap (keep_or_drop p c) h

  pub trim_right_idem : (s : Text) → trim_right p (trim_right p s) ≡ trim_right p s
  trim_right_idem [] = refl
  trim_right_idem (c ∷ s) = keep_or_drop_idem c (trim_right p s) (trim_right_idem s)

  trim_left-keep_or_drop :
      (c : ℕ) (s : Text) → p c ≡ false → trim_left p (keep_or_drop p c s) ≡ keep_or_drop p c s
  trim_left-keep_or_drop c [] h = ground arith
  trim_left-keep_or_drop c (d ∷ s) h = ground arith

  pub trim_left-trim_right :
      (s : Text) → trim_left p (trim_right p (trim_left p s)) ≡ trim_right p (trim_left p s)
  trim_left-trim_right [] = refl
  trim_left-trim_right (c ∷ s) = elim (Bool-cases (p c)) [
    | inl e ↦ rw e (trim_left-trim_right s)
    | inr e ↦ rw e (trim_left-keep_or_drop c (trim_right p s) e)
  ]

  module _ (P : ℕ → Type 0) where
    trim_left-All : (s : Text) → All P s → All P (trim_left p s)
    trim_left-All [] h = tt
    trim_left-All (c ∷ s) h = ground (arith, trim_left-All s)

    keep_or_drop-All : (c : ℕ) (s : Text) → P c → All P s → All P (keep_or_drop p c s)
    keep_or_drop-All c [] h hs = ground arith
    keep_or_drop-All c (d ∷ s) h hs = (h, hs)

    pub trim_right-All : (s : Text) → All P s → All P (trim_right p s)
    trim_right-All [] h = tt
    trim_right-All (c ∷ s) (hc, hs) = keep_or_drop-All c (trim_right p s) hc (trim_right-All s hs)

pub trim_space_idem : (s : Text) → trim_space (trim_space s) ≡ trim_space s
trim_space_idem s =
    rw (trim_left-trim_right is_space s) (trim_right_idem is_space (trim_left is_space s))

pub trim_space-Lacks : (b : ℕ) (s : Text) → Lacks b s → Lacks b (trim_space s)
trim_space-Lacks b s h =
    trim_right-All is_space _ (trim_left is_space s) (trim_left-All is_space _ s h)

pub is_empty_iff : (s : Text) → is_empty s ≡ true → s ≡ []
is_empty_iff [] h = refl
is_empty_iff (c ∷ s) h = cc

-- `s` holds `p`, with `x` before it and `y` behind.
pub has_prefix_sound : (p s : Text) → has_prefix p s ≡ true → (y : Text) × (s ≡ p ++ y)
has_prefix_sound [] s h = (s, refl)
has_prefix_sound (c ∷ p) [] h = cc
has_prefix_sound (c ∷ p) (d ∷ s) h =
    let (y, e) = has_prefix_sound p s (ground arith) in (y, ground arith)

pub has_prefix-append : (p y : Text) → has_prefix p (p ++ y) ≡ true
has_prefix-append [] y = refl
has_prefix-append (c ∷ p) y = ground (arith, has_prefix-append p y)

pub contains_text_sound :
    (p s : Text) → contains_text p s ≡ true → (x : Text) × (y : Text) × (s ≡ x ++ (p ++ y))
contains_text_sound [] [] h = ([], [], refl)
contains_text_sound (c ∷ p) [] h = cc
contains_text_sound p (d ∷ s) h = elim (Bool-cases (has_prefix p (d ∷ s))) [
  | inl e ↦ let (y, e') = has_prefix_sound p (d ∷ s) e in ([], y, e')
  | inr e ↦ let (x, y, e') = contains_text_sound p s (rw e at h) in (d ∷ x, y, ap (λ r. d ∷ r) e')
]

pub contains_text-append : (p x y : Text) → contains_text p (x ++ (p ++ y)) ≡ true
contains_text-append [] [] [] = refl
contains_text-append [] [] (c ∷ y) = refl
contains_text-append (c ∷ p) [] y = ground (arith, has_prefix-append (c ∷ p) y)
contains_text-append p (d ∷ x) y = ground (arith, contains_text-append p x y)

-- A text does not hold the part.
abbrev pub Excludes : Text → Text → Type 0
Excludes p s = (x y : Text) → s ≢ x ++ (p ++ y)

pub contains_text-false_iff : (p s : Text) → (contains_text p s ≡ false) ↔ Excludes p s
contains_text-false_iff p s = (
  λ h x y e. cc (contains_text-append p x y, ap (contains_text p) e),
  λ h. elim (Bool-cases (contains_text p s)) [
    | inl e ↦ let (x, y, e') = contains_text_sound p s e in absurd (h x y e')
    | inr e ↦ e
  ],
)

pub contains_byte-false : (b : ℕ) (s : Text) → (contains_byte b s ≡ false) ↔ Lacks b s
contains_byte-false b [] = (λ h. tt, λ h. refl)
contains_byte-false b (c ∷ s) = ground (arith, contains_byte-false b s)

pub cut_prefix_sound : (p s x : Text) → cut_prefix p s ≡ some x → s ≡ p ++ x
cut_prefix_sound [] s x h = ground arith
cut_prefix_sound (c ∷ p) [] x h = ground arith
cut_prefix_sound (c ∷ p) (d ∷ s) x h = elim (Bool-cases (c == d)) [
  | inl e ↦ ground (arith, cut_prefix_sound p s x)
  | inr e ↦ ground arith
]

-- A text that a prefix was cut from is compared by what is left of it.
pub text_eq-cut_prefix :
    (p s x y : Text) → cut_prefix p s ≡ some x → text_eq s (p ++ y) ≡ text_eq x y
text_eq-cut_prefix [] s x y h = ap (λ z. text_eq z y) (eq_of_some h)
text_eq-cut_prefix (c ∷ p) [] x y h = ground arith
text_eq-cut_prefix (c ∷ p) (d ∷ s) x y h = elim (Bool-cases (c == d)) [
  | inl e ↦ ground (arith, text_eq-cut_prefix p s x y)
  | inr e ↦ ground arith
]

pub text_eq-no_prefix : (p s y : Text) → cut_prefix p s ≡ none → text_eq s (p ++ y) ≡ false
text_eq-no_prefix [] s y h = cc
text_eq-no_prefix (c ∷ p) [] y h = refl
text_eq-no_prefix (c ∷ p) (d ∷ s) y h = elim (Bool-cases (c == d)) [
  | inl e ↦ ground (arith, text_eq-no_prefix p s y)
  | inr e ↦ ground arith
]
