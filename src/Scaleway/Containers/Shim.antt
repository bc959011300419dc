-- ===== src/Scaleway/Containers/Shim.antt =====
-- The command line of the health shim as the shell reads it (shellJoin).
use pulumi_defang.Prelude.{
  append-nil, Text, contains_byte, is_empty, not, List, [], ◌∷◌, ◌++◌, filter_by, false, some, ℕ,
  ◌==◌, ◌≡◌, ◌≢◌, refl, ap, subst, inl, inr, Bool-cases, arith,
}
use pulumi_defang.Scaleway.Script.Quoting.{
  unquoted, read_word, read_break, special, add_byte, Words, blank, word, AtBreak, quoted_word,
}
use pulumi_defang.Scaleway.Containers.{contains_any, unsafe_chars, shell_arg, shell_join}

-- A character outside shellJoin's list means itself to the shell.
record IsPlain (c : ℕ) : Type 0 where
  no_space : (c == 32) ≡ false
  no_quote : (c == b'\'') ≡ false
  no_double : (c == b'"') ≡ false
  not_special : special c ≡ false

plain : (c : ℕ) → contains_byte c unsafe_chars ≡ false → IsPlain c
unfolding special
plain c h = record {
  no_space = ground arith;
  no_quote = ground arith;
  no_double = ground arith;
  not_special = ground arith;
}

read_safe :
    (a rest : Text)
    → contains_any unsafe_chars a ≡ false
    → AtBreak rest
    → read_word unquoted (a ++ rest) ≡ some (a, rest)
unfolding read_word
read_safe [] rest h at = read_break rest at
read_safe (c ∷ a) rest h at = elim (Bool-cases (contains_byte c unsafe_chars)) [
  | inl e ↦ absurd (cc (rw e at h))
  | inr e ↦
      let p = plain c e in
      rw (p.no_space, p.no_quote, p.no_double, p.not_special)
        (ap (add_byte c) (read_safe a rest (rw e at h) at))
]

starts_filled : (c : ℕ) (a : Text) → contains_any unsafe_chars (c ∷ a) ≡ false → c ≢ 32
starts_filled c a h e = elim (Bool-cases (contains_byte c unsafe_chars)) [
  | inl e' ↦ cc (rw e' at h)
  | inr e' ↦ let p = plain c e' in ground (arith, p.no_space)
]

arg_word :
    (c : ℕ) (a rest : Text) (ws : List Text)
    → AtBreak rest
    → Words rest ws
    → Words (shell_arg (c ∷ a) ++ rest) ((c ∷ a) ∷ ws)
unfolding shell_arg
arg_word c a rest ws at behind = elim (Bool-cases (contains_any unsafe_chars (c ∷ a))) [
  | inl e ↦ rw e (quoted_word (c ∷ a) rest ws at behind)
  | inr e ↦ rw e (word (starts_filled c a e) (read_safe (c ∷ a) rest e at) behind)
]

abbrev pub filled : List Text → List Text
filled = filter_by (λ a. not (is_empty a))

-- The shell reads the joined arguments as the arguments themselves, whatever characters they hold,
-- but for the empty ones, which are lost.
pub shell_join-Words : (args : List Text) → Words (shell_join args) (filled args)
unfolding shell_join
shell_join-Words [] = Words.end
shell_join-Words ([] ∷ []) = Words.end
shell_join-Words ((c ∷ a) ∷ []) =
    subst (λ s. Words s ((c ∷ a) ∷ [])) (append-nil (shell_arg (c ∷ a)))
      (arg_word c a [] [] tt Words.end)
shell_join-Words ([] ∷ b ∷ args) = blank (shell_join-Words (b ∷ args))
shell_join-Words ((c ∷ a) ∷ b ∷ args) =
    arg_word c a (32 ∷ shell_join (b ∷ args)) (filled (b ∷ args)) refl
      (blank (shell_join-Words (b ∷ args)))
