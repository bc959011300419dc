-- ===== src/Scaleway/Script/Quoting.antt =====
-- How a POSIX shell reads the words that sh_quote writes (shQuote of
-- provider/defangscaleway/build.go).
use pulumi_defang.Prelude.{
  Text, codes, Map, List, [], ◌∷◌, ◌++◌, append_assoc, Bool, Option, none, some, ℕ, ◌==◌, ==_iff,
  ◌||◌, if◌then◌else◌, ◌≡◌, ◌≢◌, arith, refl, ap, sym, ◌∙◌, any, Bool-cases, inl, inr,
}
use pulumi_defang.Scaleway.Script.{escape_quotes, sh_quote, build_arg_flags}

-- Inside no quotes, inside single quotes, inside double quotes.
pub data Quotes : Type 0 where
  unquoted single double : Quotes

abbrev pub add_byte : ℕ → Option (Text × Text) → Option (Text × Text)
add_byte c none = none
add_byte c (some (word, rest)) = some (c ∷ word, rest)

-- The characters that mean something to the shell outside quotes.
unfoldable pub special : ℕ → Bool
special c = any (λ d. c == d) (codes "$`\\;&|<>()*?[]#~!{}\n\t")

-- One word of a command line and what stands behind it; none where more than quoting is needed.
unfoldable pub read_word : Quotes → Text → Option (Text × Text)
unfolding special
read_word unquoted [] = some ([], [])
read_word unquoted (c ∷ s) =
    let bare = read_word unquoted s in
    let in_single = read_word single s in
    let in_double = read_word double s in
    if c == 32
    then some ([], c ∷ s)
    else if c == b'\''
    then in_single
    else if c == b'"'
    then in_double
    else if special c
    then none
    else add_byte c bare
read_word single [] = none
read_word single (c ∷ s) =
    let closed = read_word unquoted s in
    let open_still = read_word single s in if c == b'\'' then closed else add_byte c open_still
read_word double [] = none
read_word double (c ∷ s) =
    let closed = read_word unquoted s in
    let open_still = read_word double s in
    if c == b'"'
    then closed
    else if (c == b'$') || ((c == b'`') || (c == b'\\'))
    then none
    else add_byte c open_still

-- A command line as the list of its words.
pub data Words : Text → List Text → Type 0 where
  end : Words [] []
  blank : {s : Text} {ws : List Text} → Words s ws → Words (32 ∷ s) ws
  word :
      {c : ℕ} {s x rest : Text} {ws : List Text}
      → c ≢ 32
      → read_word unquoted (c ∷ s) ≡ some (x, rest)
      → Words rest ws
      → Words (c ∷ s) (x ∷ ws)

-- The end of the line, or a space.
abbrev pub AtBreak : Text → Type 0
AtBreak [] = Unit
AtBreak (c ∷ s) = c ≡ 32

pub read_break : (rest : Text) → AtBreak rest → read_word unquoted rest ≡ some ([], rest)
unfolding read_word
read_break [] h = refl
read_break (c ∷ s) h = rw h

read_escaped :
    (s rest : Text)
    → AtBreak rest
    → read_word single (escape_quotes s ++ b'\'' ∷ rest) ≡ some (s, rest)
unfolding read_word escape_quotes
read_escaped [] rest h = read_break rest h
read_escaped (c ∷ s) rest h = elim (Bool-cases (c == b'\'')) [
  | inl e ↦
      rw e (rw (read_escaped s rest h) (ap (λ d. some (d ∷ s, rest)) (sym ((==_iff c b'\'').0 e))))
  | inr e ↦ rw e (rw e (ap (add_byte c) (read_escaped s rest h)))
]

-- A quoted text followed by a space or the end is one word, the text itself, whatever it holds.
pub read_word-sh_quote :
    (s rest : Text) → AtBreak rest → read_word unquoted (sh_quote s ++ rest) ≡ some (s, rest)
unfolding sh_quote read_word
read_word-sh_quote s rest h =
    ap (read_word single) (append_assoc (escape_quotes s) (b'\'' ∷ []) rest) ∙ read_escaped s rest h

pub quoted_word :
    (s rest : Text) (ws : List Text)
    → AtBreak rest
    → Words rest ws
    → Words (sh_quote s ++ rest) (s ∷ ws)
unfolding sh_quote
quoted_word s rest ws at behind =
    word {c = b'\''} (ground arith) (read_word-sh_quote s rest at) behind

-- What the flags are to mean: two words for each argument.
unfoldable pub arg_words : Map Text → List Text
arg_words [] = []
arg_words ((k, v) ∷ args) = codes "--build-arg" ∷ (k ++ codes "=" ++ v) ∷ arg_words args

flags-AtBreak : (args : Map Text) → AtBreak (build_arg_flags args)
unfolding build_arg_flags
flags-AtBreak [] = tt
flags-AtBreak ((k, v) ∷ args) = refl

-- The shell reads the flags of the build arguments as two words for each argument, the second one
-- the key, an equals sign and the value, whatever characters the keys and the values hold.
pub build_arg_flags-Words : (args : Map Text) → Words (build_arg_flags args) (arg_words args)
unfolding build_arg_flags arg_words read_word
build_arg_flags-Words [] = Words.end
build_arg_flags-Words ((k, v) ∷ args) =
    let value =
      quoted_word (k ++ codes "=" ++ v) _ _ (flags-AtBreak args) (build_arg_flags-Words args) in
    blank (word {c = b'-'} (ground arith) refl (blank value))
