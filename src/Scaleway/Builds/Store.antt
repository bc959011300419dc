-- ===== src/Scaleway/Builds/Store.antt =====
-- The log store as a build's log that grows (queryLoki).
use pulumi_defang.Prelude.{
  refl, codes, Text, List, ◌++◌, take, some, ok, ok-eq, err-ok, false, ℕ, ◌≤◌, ◌<◌, ◌≡◌, ap, sym,
  ◌∙◌, leb, Bool-cases, inl, inr, arith,
}
use pulumi_defang.Scaleway.Api.{Response, answered, check_status, History, World, Outcome}
use pulumi_defang.Scaleway.Builds.{
  LogStream, loki_query, query_loki, lines_of_response, lines_of_streams,
}

-- Loki answers a forward range query with the oldest lines of the log, as many as the limit says at
-- most. The lines that it has of a build at a time are `log`; more are added behind them.
pub record IsStore (w : World) (logs : LogStream) (start : ℕ) (log : ℕ → List Text) : Type 0 where
  pub answers :
      (h : History)
      → let q = loki_query logs start (w.now h) in
        q.direction ≡ codes "forward"
        → (r : Response) × (streams : List (List (List Text))) × (w.logs h q ≡ answered r)
          × (r.status < 400)
          × (r.streams ≡ some streams)
          × (lines_of_streams streams ≡ take q.limit (log (w.now h)))
  pub grows : (t t' : ℕ) → t ≤ t' → (more : List Text) × (log t' ≡ log t ++ more)

module _ (w : World) (logs : LogStream) (start : ℕ) (log : ℕ → List Text) where
  -- While the context is not done, a query reads the first thousand lines.
  pub query_loki-IsStore :
      (h : History)
      → IsStore w logs start log
      → w.context_done h ≡ false
      → (query_loki w logs start (w.now h) h).0 ≡ ok (take 1000 (log (w.now h)))
  unfolding query_loki lines_of_response check_status loki_query
  query_loki-IsStore h store live =
      let (r, streams, at, good, is_streams, lines) = store.answers h refl in
      let small : leb 400 r.status ≡ false = ground arith in
      rw (live, at, small, is_streams) (ap ok lines)

  -- A query that is answered has read them.
  pub query_loki-lines :
      (h g : History) (lines : List Text)
      → IsStore w logs start log
      → query_loki w logs start (w.now h) h ≡ (ok lines, g)
      → lines ≡ take 1000 (log (w.now h))
  unfolding query_loki
  query_loki-lines h g lines store asked = elim (Bool-cases (w.context_done h)) [
    | inl done ↦ absurd (err-ok (ap (λ (o : Outcome (List Text)). o.0) (rw done at asked)))
    | inr live ↦
        ok-eq (sym (ap (λ (o : Outcome (List Text)). o.0) asked) ∙ query_loki-IsStore h store live)
  ]
