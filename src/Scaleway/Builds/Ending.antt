-- ===== src/Scaleway/Builds/Ending.antt =====
-- The rounds of the wait are enough, and a success in the log ends it (waitForInstanceBuild).
use pulumi_defang.Prelude.{
  ◌∷◌, Text, take, All, ◌≢◌, err-ok, refl, sym, ltb, Bool-cases, true, false, List, none, some, ok,
  ℤ, pos, negsuc, ℕ, zero, suc, ◌+◌, ◌-◌, ◌≤◌, ◌<◌, ◌≡◌, ap, subst, ◌↔◌, ◌⊎◌, inl, inr, arith,
}
use pulumi_defang.Scaleway.Api.{slept, Done, History, World, Outcome, sleep}
use pulumi_defang.Scaleway.Api.Clock.{Ticks}
use pulumi_defang.Scaleway.Builds.{
  LogStream, verdict, judgement, query_loki, poll_interval, wait_rounds, deadline_after, clock_skew,
  wait_for_instance_build,
}
use pulumi_defang.Scaleway.Builds.Store.{IsStore, query_loki-IsStore, query_loki-lines}
use pulumi_defang.Scaleway.Builds.Verdicts.{
  SuccessFirst, SuccessFirst-verdict, verdict-more, verdict-before, IsQuiet, verdict-IsQuiet,
}
use pulumi_defang.Scaleway.Builds.Waiting.{
  Waits, timed_out, interrupted, unreadable, told, quiet, Enough, wait_loop-Waits,
  wait_loop-of_Waits, round-lasts,
}

rounds_enough :
    (w : World) (logs : LogStream) (max_wait : ℤ) (h : History)
    → Enough w logs max_wait
        (deadline_after (w.now h) max_wait)
        (w.now h - clock_skew)
        (wait_rounds max_wait)
        h
unfolding deadline_after wait_rounds
rounds_enough w logs (pos s) h = (omega arith, omega arith)
rounds_enough w logs (negsuc n) h = (omega arith, omega arith)

-- Where the clock never goes back and sleeps last, the wait returns a result at a history exactly
-- where the relation without fuel says so: the wait ends, by the deadline, a context that is done,
-- a log store that cannot be read, or the first verdict in a batch of lines.
pub wait_for_instance_build-Waits :
    (w : World) (logs : LogStream) (max_wait : ℤ) (h h' : History) (r : Done)
    → Ticks w
    → (wait_for_instance_build w logs max_wait h ≡ (r, h'))
      ↔ Waits w logs max_wait (deadline_after (w.now h) max_wait) (w.now h - clock_skew) h r h'
unfolding wait_for_instance_build
wait_for_instance_build-Waits w logs max_wait h h' r ticks =
    let deadline = deadline_after (w.now h) max_wait in
    let start = w.now h - clock_skew in
    let enough = rounds_enough w logs max_wait h in
    (
      λ out.
          subst (λ (o : Outcome Unit). Waits w logs max_wait deadline start h o.0 o.1) out
            (wait_loop-Waits w logs max_wait deadline start (wait_rounds max_wait) h ticks enough),
      λ ends.
          wait_loop-of_Waits w logs max_wait deadline start (wait_rounds max_wait) h h' r ticks
            enough ends,
    )

now_early : (w : World) (s : ℕ) (h : History) → w.now h ≤ deadline_after (w.now h) (pos s)
unfolding deadline_after
now_early w s h = omega arith

-- Nothing stops the wait, and reading the log takes at most `slack` nanoseconds.
pub record IsUndisturbed (w : World) (logs : LogStream) (start slack : ℕ) : Type 0 where
  pub live : (h : History) → w.context_done h ≡ false
  pub quick : (h : History) → w.now (query_loki w logs start (w.now h) h).1 ≤ w.now h + slack

before_or_from : (n t : ℕ) → (n < t) ⊎ (t ≤ n)
before_or_from n t = elim (Bool-cases (ltb n t)) [
  | inl e ↦ inl (ground arith)
  | inr e ↦ inr (ground arith)
]

module _ (w : World) (logs : LogStream) (start t : ℕ) (log : ℕ → List Text) where
  -- From `t` on, the lines that a query reads tell of the success; before, of it or of nothing.
  told_by :
      (n : ℕ)
      → IsStore w logs start log
      → SuccessFirst (take 1000 (log t))
      → (verdict (take 1000 (log n)) ≡ some true) ⊎ ((verdict (take 1000 (log n)) ≡ none) × (n < t))
  told_by n store first = elim (before_or_from n t) [
    | inl before ↦
        let (more, at) = store.grows n t (omega arith) in
        let first' = SuccessFirst-verdict _ first in
        elim (verdict-before 1000 (log n) more
          (subst (λ l. verdict (take 1000 l) ≡ some true) at first')) [
            | inl won ↦ inl won
            | inr nothing ↦ inr (nothing, before)
          ]
    | inr from ↦
        let (more, at) = store.grows t n from in
        inl (
          subst (λ l. verdict (take 1000 l) ≡ some true) (sym at)
            (verdict-more 1000 (log t) more (SuccessFirst-verdict _ first)))
  ]

module _ (w : World) (logs : LogStream) (max_wait : ℤ) (deadline start t slack : ℕ)
    (log : ℕ → List Text) where
  sleep-undisturbed :
      (h : History)
      → w.context_done (slept poll_interval ∷ h) ≡ false
      → sleep w poll_interval h ≡ (ok tt, slept poll_interval ∷ h)
  unfolding sleep
  sleep-undisturbed h e = rw e

  ends_well :
      (rounds : ℕ) (h : History)
      → Ticks w
      → IsStore w logs start log
      → IsUndisturbed w logs start slack
      → SuccessFirst (take 1000 (log t))
      → t + slack ≤ deadline
      → w.now h ≤ deadline
      → Enough w logs max_wait deadline start rounds h
      → (h' : History) × Waits w logs max_wait deadline start h (ok tt) h'
  unfolding judgement
  ends_well zero h ticks store calm first in_time early (some_left, enough) = absurd (omega arith)
  ends_well (suc rounds) h ticks store calm first in_time early (some_left, enough) =
      let g : History = slept poll_interval ∷ h in
      let g' = (query_loki w logs start (w.now g) g).1 in
      let asleep = sleep-undisturbed h (calm.live g) in
      let read = query_loki-IsStore w logs start log g store (calm.live g) in
      let asked : query_loki w logs start (w.now g) g ≡ (ok (take 1000 (log (w.now g))), g') =
        ap (λ c. (c, g')) read in
      let later = round-lasts w logs max_wait deadline start tt h g g' _ ticks asleep asked in
      elim (told_by w logs start t log (w.now g) store first) [
        | inl won ↦ (g', told early asleep asked won)
        | inr (nothing, before) ↦
            let quick = calm.quick g in
            let (h', ends) =
              ends_well rounds g' ticks store calm first in_time (omega arith)
                (omega arith, omega arith) in
            (h', quiet early asleep asked nothing ends)
      ]

-- Where the log store holds a log that only grows, and by time `t` the first thousand lines of the
-- log tell of a success before they tell of a failure, the wait returns without an error, provided
-- that `t` is early enough before the deadline for one more reading of the log, that the context is
-- not done, and that the clock never goes back and sleeps last.
pub wait_for_instance_build-eventually :
    (w : World) (logs : LogStream) (s t slack : ℕ) (log : ℕ → List Text) (h : History)
    → Ticks w
    → IsStore w logs (w.now h - clock_skew) log
    → IsUndisturbed w logs (w.now h - clock_skew) slack
    → SuccessFirst (take 1000 (log t))
    → t + slack ≤ deadline_after (w.now h) (pos s)
    → (wait_for_instance_build w logs (pos s) h).0 ≡ ok tt
wait_for_instance_build-eventually w logs s t slack log h ticks store calm first in_time =
    let (h', ends) =
      ends_well w logs (pos s) (deadline_after (w.now h) (pos s)) (w.now h - clock_skew) t slack log
        (wait_rounds (pos s)) h ticks store calm first in_time (now_early w s h)
        (rounds_enough w logs (pos s) h) in
    ap (λ (o : Outcome Unit). o.0)
      ((wait_for_instance_build-Waits w logs (pos s) h h' (ok tt) ticks).1 ends)

module _ (w : World) (logs : LogStream) (max_wait : ℤ) (deadline start : ℕ)
    (log : ℕ → List Text) where
  Waits-unseen :
      (h h' : History) (r : Done)
      → IsStore w logs start log
      → ((n : ℕ) → All IsQuiet (take 1000 (log n)))
      → Waits w logs max_wait deadline start h r h'
      → r ≢ ok tt
  unfolding judgement
  Waits-unseen h h' r store silent (timed_out late) won = err-ok won
  Waits-unseen h h' r store silent (interrupted early asleep) won = err-ok won
  Waits-unseen h h' r store silent (unreadable early asleep asked) won = err-ok won
  Waits-unseen h h' r store silent (told {g} {lines} early asleep asked said) won =
      let read = query_loki-lines w logs start log g h' lines store asked in
      let nothing = verdict-IsQuiet lines (subst (All IsQuiet) (sym read) (silent (w.now g))) in
      absurd (ground (arith, said, nothing))
  Waits-unseen h h' r store silent (quiet {g'} early asleep asked said rest) won =
      Waits-unseen g' h' r store silent rest won

-- Where the log store holds a log that only grows, and no line among the first thousand of the log
-- ever has a marker, the wait never returns without an error, whatever the lines behind them say,
-- provided that the clock never goes back and sleeps last.
pub wait_for_instance_build-unseen :
    (w : World) (logs : LogStream) (max_wait : ℤ) (log : ℕ → List Text) (h : History)
    → Ticks w
    → IsStore w logs (w.now h - clock_skew) log
    → ((n : ℕ) → All IsQuiet (take 1000 (log n)))
    → (wait_for_instance_build w logs max_wait h).0 ≢ ok tt
wait_for_instance_build-unseen w logs max_wait log h ticks store silent =
    Waits-unseen w logs max_wait (deadline_after (w.now h) max_wait) (w.now h - clock_skew) log h _
      _ store silent ((wait_for_instance_build-Waits w logs max_wait h _ _ ticks).0 refl)
