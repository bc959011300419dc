-- ===== src/Scaleway/Builds/Success.antt =====
-- What a build that is reported as done has seen (runInstanceBuild).
use pulumi_defang.Prelude.{
  Text, List, false, true, ok, err-ok, ok-eq, Result-cases, ℤ, ℕ, ◌-◌, ◌≡◌, refl, sym, ap, ◌∙◌, inl,
  inr, or_else,
}
use pulumi_defang.Scaleway.Api.{Done, History, World, Outcome}
use pulumi_defang.Scaleway.Api.Clock.{Ticks}
use pulumi_defang.Scaleway.Api.Keeps.{continue-ok}
use pulumi_defang.Scaleway.Script.{BuildInputs}
use pulumi_defang.Scaleway.Builds.{
  LogStream, InstanceBuildResult, log_stream, judgement, query_loki, wait_for_instance_build,
  deadline_after, clock_skew, default_build_max_wait_time, defer_teardown, build_on_server,
  start_server, prepare_script, run_instance_build,
}
use pulumi_defang.Scaleway.Builds.Waiting.{Waits, timed_out, interrupted, unreadable, told, quiet}
use pulumi_defang.Scaleway.Builds.Verdicts.{SuccessFirst, verdict-SuccessFirst}
use pulumi_defang.Scaleway.Builds.Ending.{wait_for_instance_build-Waits}

-- The log store has answered lines that tell of a success before they tell of a failure.
abbrev pub SawSuccess : World → LogStream → Type 0
SawSuccess w logs =
    (h : History) × (start end : ℕ) × (lines : List Text) × ((query_loki w logs start end h).0
      ≡ ok lines)
    × SuccessFirst lines

module _ (w : World) (logs : LogStream) (max_wait : ℤ) (deadline start : ℕ) where
  Waits-ok :
      (h h' : History) (r : Done)
      → Waits w logs max_wait deadline start h r h'
      → r ≡ ok tt
      → SawSuccess w logs
  unfolding judgement
  Waits-ok h h' r (timed_out late) won = absurd (err-ok won)
  Waits-ok h h' r (interrupted early asleep) won = absurd (err-ok won)
  Waits-ok h h' r (unreadable early asleep asked) won = absurd (err-ok won)
  Waits-ok h h' r (told {g} {lines} {b = true} early asleep asked said) won = (
    g,
    start,
    w.now g,
    lines,
    ap (λ (o : Outcome (List Text)). o.0) asked,
    verdict-SuccessFirst lines said,
  )
  Waits-ok h h' r (told {b = false} early asleep asked said) won = absurd (err-ok won)
  Waits-ok h h' r (quiet {g'} early asleep asked said rest) won = Waits-ok g' h' r rest won

wait-ok :
    (w : World) (logs : LogStream) (max_wait : ℤ) (h : History)
    → Ticks w
    → (wait_for_instance_build w logs max_wait h).0 ≡ ok tt
    → SawSuccess w logs
wait-ok w logs max_wait h ticks won =
    Waits-ok w logs max_wait (deadline_after (w.now h) max_wait) (w.now h - clock_skew) h _ _
      ((wait_for_instance_build-Waits w logs max_wait h _ _ ticks).0 refl) won

on_server-ok :
    (w : World) (inputs : BuildInputs) (script id : Text) (h : History)
    (result : InstanceBuildResult)
    → Ticks w
    → (build_on_server w inputs script id h).0 ≡ ok result
    → (result.instance_id ≡ id)
      × (result.log_selector ≡ (log_stream w inputs).selector)
      × SawSuccess w (log_stream w inputs)
unfolding build_on_server
on_server-ok w inputs script id h result ticks out =
    let (a, g1, at1, out1) = continue-ok _ _ out in
    let (b, g2, at2, out2) = continue-ok _ _ out1 in
    let (c, g3, at3, out3) = continue-ok _ _ out2 in
    let same = ok-eq out3 in
    (
      ap (λ (x : InstanceBuildResult). x.instance_id) (sym same),
      ap (λ (x : InstanceBuildResult). x.log_selector) (sym same),
      wait-ok w (log_stream w inputs) (or_else inputs.max_wait_time default_build_max_wait_time) g2
          ticks (ap (λ (o : Outcome Unit). o.0) at3),
    )

-- A build is reported as done only with the id of the server that the API created, the selector of
-- its own log, and after the log store has answered lines of which one has the success marker, with no marker in a
-- line before it.
pub run_instance_build-ok :
    (w : World) (inputs : BuildInputs) (h : History) (result : InstanceBuildResult)
    → Ticks w
    → (run_instance_build w inputs h).0 ≡ ok result
    → ((start_server w inputs h).0 ≡ ok result.instance_id)
      × (result.log_selector ≡ (log_stream w inputs).selector)
      × SawSuccess w (log_stream w inputs)
unfolding run_instance_build defer_teardown
run_instance_build-ok w inputs h result ticks out = elim (Result-cases (prepare_script w inputs)) [
  | inl (e, failed) ↦ absurd (err-ok (rw (failed, run_instance_build) at out))
  | inr (script, prepared) ↦
      let (id, g, at, out') = continue-ok _ _ (rw (prepared, run_instance_build) at out) in
      let (same, selected, saw) = on_server-ok w inputs script id g result ticks out' in
      (ap (λ (o : Outcome Text). o.0) at ∙ ap ok (sym same), selected, saw)
]
