-- ===== src/Scaleway/Builds/Waiting.antt =====
-- The wait for the end of a build as a relation without fuel (waitForInstanceBuild).
use pulumi_defang.Prelude.{
  Text, codes, Bool, true, false, List, [], none, some, Result, ok, err, ℤ, ℕ, zero, suc, ◌+◌, ◌*◌,
  ◌≤◌, ◌<◌, ltb, ◌≡◌, refl, ap, subst, ◌∙◌, inl, inr, Bool-cases, Option-cases, arith,
}
use pulumi_defang.Scaleway.Api.{
  Done, History, World, Error, wrapped, Outcome, Call, continue, wrap_result, sleep,
}
use pulumi_defang.Scaleway.Api.Clock.{Ticks, sleep-lasts}
use pulumi_defang.Scaleway.Builds.{
  LogStream, verdict, judgement, timeout_error, query_loki, judge, poll, poll_after, poll_interval,
  wait_loop,
}

module _ (w : World) (logs : LogStream) (max_wait : ℤ) (deadline start : ℕ) where
  -- How a wait that has come to a history ends: what it returns, and the history then.
  pub data Waits : History → Done → History → Type 0 where
    timed_out : {h : History} → deadline < w.now h → Waits h (err (timeout_error max_wait)) h
    interrupted :
        {h g : History} {e : Error}
        → w.now h ≤ deadline
        → sleep w poll_interval h ≡ (err e, g)
        → Waits h (err e) g
    unreadable :
        {h g g' : History} {u : Unit} {e : Error}
        → w.now h ≤ deadline
        → sleep w poll_interval h ≡ (ok u, g)
        → query_loki w logs start (w.now g) g ≡ (err e, g')
        → Waits h (err (wrapped (codes "polling build logs: ") e [])) g'
    told :
        {h g g' : History} {u : Unit} {lines : List Text} {b : Bool}
        → w.now h ≤ deadline
        → sleep w poll_interval h ≡ (ok u, g)
        → query_loki w logs start (w.now g) g ≡ (ok lines, g')
        → verdict lines ≡ some b
        → Waits h (judgement logs b) g'
    quiet :
        {h g g' h' : History} {u : Unit} {lines : List Text} {r : Done}
        → w.now h ≤ deadline
        → sleep w poll_interval h ≡ (ok u, g)
        → query_loki w logs start (w.now g) g ≡ (ok lines, g')
        → verdict lines ≡ none
        → Waits g' r h'
        → Waits h r h'

  query-forward : (g : History) → Ticks w → w.now g ≤ w.now (query_loki w logs start (w.now g) g).1
  unfolding query_loki
  query-forward g ticks = elim (Bool-cases (w.context_done g)) [
    | inl e ↦ rw e (omega arith)
    | inr e ↦ rw e (ticks.forward _ g)
  ]

  -- A round that tells nothing takes the time of its sleep.
  pub round-lasts :
      (u : Unit) (h g g' : History) (c : Result Error (List Text))
      → Ticks w
      → sleep w poll_interval h ≡ (ok u, g)
      → query_loki w logs start (w.now g) g ≡ (c, g')
      → w.now h + poll_interval ≤ w.now g'
  round-lasts u h g g' c ticks asleep asked =
      let later' : w.now g ≤ w.now g' =
        subst (λ x. w.now g ≤ w.now x) (ap (λ (o : Outcome (List Text)). o.1) asked)
          (query-forward g ticks) in
      omega (arith, sleep-lasts w poll_interval u h g ticks asleep, later')

  -- The rounds left last until behind the deadline.
  abbrev pub Enough : ℕ → History → Type 0
  Enough rounds h = (0 < rounds) × (deadline + poll_interval < w.now h + rounds * poll_interval)

  judged :
      (h g g' : History) (u : Unit) (again : Call Unit) (lines : List Text)
      → w.now h ≤ deadline
      → sleep w poll_interval h ≡ (ok u, g)
      → query_loki w logs start (w.now g) g ≡ (ok lines, g')
      → Waits g' (again g').0 (again g').1
      → Waits h (judge w logs again lines g').0 (judge w logs again lines g').1
  unfolding judge
  judged h g g' u again lines early asleep asked rest = elim (Option-cases (verdict lines)) [
    | inl e ↦ rw (e, judge) (quiet early asleep asked e rest)
    | inr (b, e) ↦ rw (e, judge) (told early asleep asked e)
  ]

  asked_round :
      (h g : History) (u : Unit) (again : Call Unit) (o : Outcome (List Text))
      → w.now h ≤ deadline
      → sleep w poll_interval h ≡ (ok u, g)
      → query_loki w logs start (w.now g) g ≡ o
      → Waits o.1 (again o.1).0 (again o.1).1
      → Waits h
          (continue (judge w logs again) (wrap_result (codes "polling build logs: ") [] o)).0
          (continue (judge w logs again) (wrap_result (codes "polling build logs: ") [] o)).1
  unfolding continue
  asked_round h g u again (err e, g') early asleep asked rest = unreadable early asleep asked
  asked_round h g u again (ok lines, g') early asleep asked rest =
      judged h g g' u again lines early asleep asked rest

  -- One round, whose sleep has ended with `o`.
  slept_round :
      (again : Call Unit) (h : History) (o : Outcome Unit)
      → w.now h ≤ deadline
      → sleep w poll_interval h ≡ o
      → ((u : Unit) (g : History) (o' : Outcome (List Text))
          → sleep w poll_interval h ≡ (ok u, g)
          → query_loki w logs start (w.now g) g ≡ o'
          → Waits o'.1 (again o'.1).0 (again o'.1).1)
      → Waits h (poll_after w logs start again o).0 (poll_after w logs start again o).1
  unfolding poll_after continue
  slept_round again h (err e, g) early asleep rest = interrupted early asleep
  slept_round again h (ok u, g) early asleep rest =
      asked_round h g u again _ early asleep refl (rest u g _ asleep refl)

  pub wait_loop-Waits :
      (rounds : ℕ) (h : History)
      → Ticks w
      → Enough rounds h
      → Waits h
          (wait_loop w logs max_wait deadline start rounds h).0
          (wait_loop w logs max_wait deadline start rounds h).1
  unfolding wait_loop poll
  wait_loop-Waits zero h ticks (some_left, enough) = absurd (omega arith)
  wait_loop-Waits (suc rounds) h ticks (some_left, enough) =
      elim (Bool-cases (ltb deadline (w.now h))) [
        | inl e ↦ rw e (timed_out (ground arith))
        | inr e ↦
            let early : w.now h ≤ deadline = ground arith in
            rw e (
              slept_round (wait_loop w logs max_wait deadline start rounds) h _ early refl
                (λ u g o asleep asked. wait_loop-Waits rounds o.1 ticks (
                  let later = round-lasts u h g o.1 o.0 ticks asleep asked in
                  (omega arith, omega arith))))
      ]

  pub judge-told :
      (again : Call Unit) (lines : List Text) (b : Bool) (h : History)
      → verdict lines ≡ some b
      → judge w logs again lines h ≡ (judgement logs b, h)
  unfolding judge judgement
  judge-told again lines b h said = rw (judge, said)

  pub judge-quiet :
      (again : Call Unit) (lines : List Text) (h : History)
      → verdict lines ≡ none
      → judge w logs again lines h ≡ again h
  unfolding judge
  judge-quiet again lines h said = rw (judge, said)

  pub wait_loop-of_Waits :
      (rounds : ℕ) (h h' : History) (r : Done)
      → Ticks w
      → Enough rounds h
      → Waits h r h'
      → wait_loop w logs max_wait deadline start rounds h ≡ (r, h')
  unfolding wait_loop poll poll_after continue judge
  wait_loop-of_Waits zero h h' r ticks (some_left, enough) ends = absurd (omega arith)
  wait_loop-of_Waits (suc rounds) h h' r ticks enough (timed_out late) =
      let e : ltb deadline (w.now h) ≡ true = ground arith in rw e
  wait_loop-of_Waits (suc rounds) h h' r ticks enough (interrupted early asleep) =
      let e : ltb deadline (w.now h) ≡ false = ground arith in rw (e, asleep)
  wait_loop-of_Waits (suc rounds) h h' r ticks enough (unreadable early asleep asked) =
      let e : ltb deadline (w.now h) ≡ false = ground arith in rw (e, asleep, asked)
  wait_loop-of_Waits (suc rounds) h h' r ticks enough (told {lines} {b} early asleep asked said) =
      let e : ltb deadline (w.now h) ≡ false = ground arith in
      rw (e, asleep, asked) (judge-told _ lines b h' said)
  wait_loop-of_Waits (suc rounds) h h' r ticks (some_left, enough)
        (quiet {g} {g'} {u} {lines} early asleep asked said rest) =
      let e : ltb deadline (w.now h) ≡ false = ground arith in
      let later = round-lasts u h g g' _ ticks asleep asked in
      rw (e, asleep, asked)
        (judge-quiet _ lines g' said
          ∙ wait_loop-of_Waits rounds g' h' r ticks (omega arith, omega arith) rest)
