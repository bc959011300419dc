-- ===== src/Cd/Log.antt =====
-- cd/log.go: the writers between the deployment engine and the log. A sink is a state with a write
-- that may fail; the lock makes each Write and Flush one step.
pub mod Stream
use pulumi_defang.Prelude.{
  Text, codes, contains_text, length, List, [], ◌∷◌, ◌++◌, ℕ, Bool, true, false, ◌==◌,
  if◌then◌else◌, is_empty,
}

abbrev pub newline : ℕ
newline = 10

-- io.StringWriter: the new state of the sink, and whether there was an error.
abbrev pub Sink : Type 0 → Type 0
Sink S = Text → S → S × Bool

-- The substrings whose lines are not passed on.
abbrev pub ignore_substrs : List Text
ignore_substrs =
    codes " `pulumi "
    ∷ codes "press ^C"
    ∷ codes "grpc: the client connection is closing"
    ∷ codes ") will not show as a stack output."
    ∷ []

module _ {S : Type 0} where
  -- IgnoreWriter.WriteString: the loop over the substrings, and the sink behind it.
  unfoldable pub ignore_write : List Text → Sink S → Sink S
  ignore_write [] sw s st = sw s st
  ignore_write (ignore ∷ ignores) sw s st =
      let rest = ignore_write ignores sw s st in
      if contains_text ignore s then (st, false) else rest

pub record LineWriter (S : Type 0) : Type 0 where
  pub buf : Text
  pub sink : S

-- bytes.SplitAfter at one byte: the first part, and the others.
unfoldable pub split_after : ℕ → Text → Text × List Text
split_after b [] = ([], [])
split_after b (c ∷ s) =
    let (first, rest) = split_after b s in
    if c == b then (c ∷ [], first ∷ rest) else (c ∷ first, rest)

module _ {S : Type 0} (sw : Sink S) where
  -- The loop over lines[1:]. An error leaves the line in the buffer.
  unfoldable pub write_lines : List Text → LineWriter S → LineWriter S × Bool
  write_lines [] lw = (lw, false)
  write_lines (line ∷ lines) lw =
      let (sink', failed) = sw lw.buf lw.sink in
      let rest = write_lines lines (record { buf = line; sink = sink' }) in
      if failed then (record lw { sink = sink' }, true) else rest

  -- The writer, the number of bytes, and whether there was an error.
  unfoldable pub write : Text → LineWriter S → LineWriter S × ℕ × Bool
  unfolding write_lines split_after
  write p lw =
      let (first, rest) = split_after newline p in
      let (lw', failed) = write_lines rest (record lw { buf = lw.buf ++ first }) in
      if failed then (lw', 0, true) else (lw', length p, false)

  unfoldable pub flush : LineWriter S → LineWriter S × Bool
  flush lw =
      let (sink', failed) = sw lw.buf lw.sink in
      if is_empty lw.buf then (lw, false) else (record { buf = []; sink = sink' }, failed)

-- A log that keeps what it is given.
abbrev pub recorder : Sink (List Text)
recorder s out = (out ++ s ∷ [], false)
