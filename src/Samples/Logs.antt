-- ===== src/Samples/Logs.antt =====
-- The wait for a Scaleway build on logs that grow.
use pulumi_defang.Prelude.{
  map, Text, codes, [], ◌∷◌, ◌++◌, false, some, ok, pos, ℕ, ◌+◌, ◌≤◌, ◌≡◌, refl, arith, inl, All,
  ◌≢◌, List, take, ap, zero, suc, Bool-cases, inr, if◌then◌else◌, ltb,
}
use pulumi_defang.Scaleway.Api.{answered, World}
use pulumi_defang.Scaleway.Api.Clock.{Ticks}
use pulumi_defang.Scaleway.Builds.{
  wait_for_instance_build, loki_query, lines_of_streams, query_loki, deadline_after,
}
use pulumi_defang.Scaleway.Builds.Verdicts.{SuccessFirst, here, later, IsQuiet}
use pulumi_defang.Scaleway.Builds.Store.{IsStore}
use pulumi_defang.Scaleway.Builds.Ending.{
  IsUndisturbed, wait_for_instance_build-eventually, wait_for_instance_build-unseen,
}
use pulumi_defang.Samples.Builds.{fine, clock, small_world, small_world-Ticks, hello_logs}

-- A value of a stream, as Loki writes it.
abbrev stamped : Text → List Text
stamped line = codes "1" ∷ line ∷ []

lines_of_streams-stamped : (lines : List Text) → lines_of_streams (map stamped lines ∷ []) ≡ lines
unfolding lines_of_streams
lines_of_streams-stamped [] = refl
lines_of_streams-stamped (line ∷ lines) = ap (λ rest. line ∷ rest) (lines_of_streams-stamped lines)

-- The small world with a log store that has the lines of a log.
abbrev serving : (ℕ → List Text) → World
serving log = record small_world {
  logs = λ h q.
      answered (record fine { streams = some (map stamped (take q.limit (log (clock h))) ∷ []) });
}

abbrev Growing : (ℕ → List Text) → Type 0
Growing log = (t t' : ℕ) → t ≤ t' → (more : List Text) × (log t' ≡ log t ++ more)

serving-Ticks : (log : ℕ → List Text) → Ticks (serving log)
serving-Ticks log = record { forward = small_world-Ticks.forward; lasts = small_world-Ticks.lasts }

serving-IsStore :
    (log : ℕ → List Text) (start : ℕ) → Growing log → IsStore (serving log) hello_logs start log
unfolding loki_query
serving-IsStore log start growing = record {
  answers = λ h forward.
      (_, _, refl, omega arith, refl, lines_of_streams-stamped (take 1000 (log (clock h))));
  grows = growing;
}

serving-IsUndisturbed :
    (log : ℕ → List Text) (start : ℕ) → IsUndisturbed (serving log) hello_logs start 1000000
unfolding query_loki clock
serving-IsUndisturbed log start = record { live = λ h. refl; quick = λ h. omega arith }

-- The build is done seven seconds after the wait has begun.
abbrev done_at : ℕ
done_at = 1000000007000000000

abbrev build_log : ℕ → List Text
build_log n =
    if ltb n done_at then codes "step" ∷ [] else codes "step" ∷ codes "RESULT:SUCCESS" ∷ []

build_log-Growing : Growing build_log
build_log-Growing t t' le = elim (Bool-cases (ltb t done_at)) [
  | inl e ↦ elim (Bool-cases (ltb t' done_at)) [
    | inl e' ↦ rw (e, e') ([], refl)
    | inr e' ↦ rw (e, e') (codes "RESULT:SUCCESS" ∷ [], refl)
  ]
  | inr e ↦ let e' : ltb t' done_at ≡ false = ground arith in rw (e, e') ([], refl)
]

build_log-SuccessFirst : SuccessFirst (take 1000 (build_log done_at))
build_log-SuccessFirst = later refl refl (here refl)

in_time : done_at + 1000000 ≤ deadline_after (clock []) (pos 60)
unfolding deadline_after clock
in_time = omega arith

wait_for_instance_build-eventually_example :
    (wait_for_instance_build (serving build_log) hello_logs (pos 60) []).0 ≡ ok tt
wait_for_instance_build-eventually_example =
    wait_for_instance_build-eventually (serving build_log) hello_logs 60 done_at 1000000 build_log
      [] (serving-Ticks build_log) (serving-IsStore build_log _ build_log-Growing)
      (serving-IsUndisturbed build_log _) build_log-SuccessFirst in_time

steps : ℕ → List Text
steps zero = codes "RESULT:SUCCESS" ∷ []
steps (suc n) = codes "step" ∷ steps n

steps-IsQuiet : (n : ℕ) → All IsQuiet (take n (steps n))
unfolding steps
steps-IsQuiet zero = tt
steps-IsQuiet (suc n) = ((refl, refl), steps-IsQuiet n)

-- A thousand lines, and the success behind them.
abbrev long_log : ℕ → List Text
long_log t = steps 1000

append-nil : (lines : List Text) → lines ≡ lines ++ []
append-nil [] = refl
append-nil (line ∷ lines) = ap (λ rest. line ∷ rest) (append-nil lines)

long_log-Growing : Growing long_log
long_log-Growing t t' le = ([], append-nil (steps 1000))

wait_for_instance_build-unseen_example :
    (wait_for_instance_build (serving long_log) hello_logs (pos 60) []).0 ≢ ok tt
wait_for_instance_build-unseen_example =
    wait_for_instance_build-unseen (serving long_log) hello_logs (pos 60) long_log []
      (serving-Ticks long_log) (serving-IsStore long_log _ long_log-Growing)
      (λ n. steps-IsQuiet 1000)
