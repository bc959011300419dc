-- ===== src/Cd/Log/Stream.antt =====
-- cd/log.go: the progress stream passes on each complete line once, less those that are ignored,
-- however the engine cuts its output into writes.
use pulumi_defang.Prelude.{
  Text, contains_text, any, filter_by, length, List, [], ◌∷◌, ◌++◌, append_assoc, append-nil,
  list_laws, ℕ, Bool, true, false, not, ◌==◌, if◌then◌else◌, ◌≡◌, refl, arith, Bool-cases, inl, inr,
}
use mathlib.Core.List.{flatten}
use pulumi_defang.Cd.Log.{
  newline, Sink, ignore_write, LineWriter, split_after, write_lines, write, recorder,
}

-- The lines of a text that are complete, each with its newline, and what follows the last.
abbrev pub prepend : ℕ → List Text × Text → List Text × Text
prepend c ([], r) = ([], c ∷ r)
prepend c (l ∷ ls, r) = ((c ∷ l) ∷ ls, r)

unfoldable pub terminated : Text → List Text × Text
terminated [] = ([], [])
terminated (c ∷ s) =
    let (ls, r) = terminated s in if c == newline then ((c ∷ []) ∷ ls, r) else prepend c (ls, r)

-- The bytes in front of a text join its first line, or what follows the last.
abbrev attach : Text → List Text × Text → List Text × Text
attach buf ([], r) = ([], buf ++ r)
attach buf (l ∷ ls, r) = ((buf ++ l) ∷ ls, r)

abbrev pub is_ignored : List Text → Text → Bool
is_ignored subs s = any (λ i. contains_text i s) subs

module _ (subs : List Text) where
  abbrev pub progress : Sink (List Text)
  progress = ignore_write subs recorder

  abbrev keep : Text → List Text → List Text
  keep s out = if is_ignored subs s then out else out ++ s ∷ []

  abbrev emit : List Text → LineWriter (List Text) → LineWriter (List Text)
  emit [] lw = lw
  emit (l ∷ ls) lw = emit ls (record { buf = l; sink = keep lw.buf lw.sink })

  -- One byte of the engine's output.
  abbrev step : LineWriter (List Text) → ℕ → LineWriter (List Text)
  step lw c =
      if c == newline
      then record { buf = []; sink = keep (lw.buf ++ c ∷ []) lw.sink }
      else record lw { buf = lw.buf ++ c ∷ [] }

  abbrev run : Text → LineWriter (List Text) → LineWriter (List Text)
  run [] lw = lw
  run (c ∷ s) lw = run s (step lw c)

ignore_write-recorder :
    (subs : List Text) (s : Text) (out : List Text)
    → ignore_write subs recorder s out ≡ (keep subs s out, false)
unfolding ignore_write
ignore_write-recorder [] s out = refl
ignore_write-recorder (i ∷ subs) s out = ground (arith, ignore_write-recorder subs s out)

write_lines-emit :
    (subs ls : List Text) (lw : LineWriter (List Text))
    → write_lines (progress subs) ls lw ≡ (emit subs ls lw, false)
unfolding write_lines
write_lines-emit subs [] lw = refl
write_lines-emit subs (l ∷ ls) lw =
    rw (ignore_write-recorder subs lw.buf lw.sink) (write_lines-emit subs ls _)

emit-run :
    (subs : List Text) (p : Text) (lw : LineWriter (List Text))
    → emit subs (split_after newline p).1 (record lw { buf = lw.buf ++ (split_after newline p).0 })
      ≡ run subs p lw
unfolding split_after
emit-run subs [] lw = rw (append-nil lw.buf)
emit-run subs (c ∷ p) lw = elim (Bool-cases (c == newline)) [
  | inl e ↦
      rw e (emit-run subs p (record { buf = []; sink = keep subs (lw.buf ++ c ∷ []) lw.sink }))
  | inr e ↦ rw e (rw append_assoc at (emit-run subs p (record lw { buf = lw.buf ++ c ∷ [] })))
]

-- A write always succeeds over a sink that does, and does what its bytes do one by one.
write-run :
    (subs : List Text) (p : Text) (lw : LineWriter (List Text))
    → write (progress subs) p lw ≡ (run subs p lw, length p, false)
unfolding write
write-run subs p lw =
    rw (write_lines-emit subs (split_after newline p).1 _) (rw (emit-run subs p lw))

run-append :
    (subs : List Text) (p q : Text) (lw : LineWriter (List Text))
    → run subs (p ++ q) lw ≡ run subs q (run subs p lw)
run-append subs [] q lw = refl
run-append subs (c ∷ p) q lw = run-append subs p q (step subs lw c)

attach-nil : (t : List Text × Text) → attach [] t ≡ t
attach-nil ([], r) = refl
attach-nil (l ∷ ls, r) = refl

attach-prepend :
    (buf : Text) (c : ℕ) (t : List Text × Text)
    → attach (buf ++ c ∷ []) t ≡ attach buf (prepend c t)
attach-prepend buf c ([], r) = simp list_laws
attach-prepend buf c (l ∷ ls, r) = simp list_laws

abbrev pub kept : List Text → List Text → List Text
kept subs = filter_by (λ l. not (is_ignored subs l))

keep-kept :
    (subs : List Text) (line : Text) (out ls : List Text)
    → keep subs line out ++ kept subs ls ≡ out ++ kept subs (line ∷ ls)
keep-kept subs line out ls = ground (arith, append_assoc out (line ∷ []) (kept subs ls))

run-terminated :
    (subs : List Text) (s : Text) (lw : LineWriter (List Text))
    → run subs s lw ≡ record {
      buf = (attach lw.buf (terminated s)).1;
      sink = lw.sink ++ kept subs (attach lw.buf (terminated s)).0;
    }
unfolding terminated
run-terminated subs [] lw = rw (append-nil lw.buf, append-nil lw.sink)
run-terminated subs (c ∷ s) lw = elim (Bool-cases (c == newline)) [
  | inl e ↦
      rw (e, run-terminated subs s _, attach-nil (terminated s))
        (λ i. record {
          buf = (terminated s).1;
          sink = keep-kept subs (lw.buf ++ c ∷ []) lw.sink (terminated s).0 i;
        })
  | inr e ↦ rw (e, run-terminated subs s _, attach-prepend lw.buf c (terminated s))
]

-- The writes of the engine, one after the other, up to the first error.
unfoldable pub write_all : {S : Type 0} → Sink S → List Text → LineWriter S → LineWriter S × Bool
write_all sw [] lw = (lw, false)
write_all sw (chunk ∷ chunks) lw =
    let (lw', n, failed) = write sw chunk lw in
    let rest = write_all sw chunks lw' in if failed then (lw', true) else rest

write_all-run :
    (subs chunks : List Text) (lw : LineWriter (List Text))
    → write_all (progress subs) chunks lw ≡ (run subs (flatten chunks) lw, false)
unfolding write_all flatten
write_all-run subs [] lw = refl
write_all-run subs (chunk ∷ chunks) lw =
    rw (write-run subs chunk lw, run-append subs chunk (flatten chunks) lw)
      (write_all-run subs chunks (run subs chunk lw))

-- However the engine cuts its output into writes, the log holds exactly the complete lines of the
-- whole output in their order, each once, less the lines with an ignored substring; the buffer
-- holds what follows the last newline; and no write fails.
pub progress_stream_lines :
    (subs chunks : List Text)
    → write_all (progress subs) chunks (record { buf = []; sink = [] }) ≡ (
      record {
        buf = (terminated (flatten chunks)).1;
        sink = kept subs (terminated (flatten chunks)).0;
      },
      false,
    )
progress_stream_lines subs chunks = rw (
  write_all-run subs chunks (record { buf = []; sink = [] }),
  run-terminated subs (flatten chunks) (record { buf = []; sink = [] }),
  attach-nil (terminated (flatten chunks)),
)
