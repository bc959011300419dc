-- ===== src/Scaleway/Removal/Attempts.antt =====
-- The attempts of retryCleanup.
use pulumi_defang.Prelude.{ok, err, ℕ, zero, suc}
use pulumi_defang.Scaleway.Api.{History, World, Outcome, Call}
use pulumi_defang.Scaleway.Api.Keeps.{IsStable, Keeps, sleep-Keeps}
use pulumi_defang.Scaleway.Removal.{retry_after, retry_loop, retry_cleanup, cleanup_retry_delay}

module _ (w : World) (P : History → Type 0) (stable : IsStable w P) {A : Type 0}
    (call : Call A) where
  retry_after-Keeps :
      (again : Call A) → Keeps P again → (o : Outcome A) → P o.1 → P (retry_after w again o).1
  unfolding retry_after
  retry_after-Keeps again keeps (ok a, h) has = has
  retry_after-Keeps again keeps (err x, h) has =
      keeps _ (sleep-Keeps w P stable cleanup_retry_delay h has)

  retry_loop-Keeps : (left : ℕ) → Keeps P call → Keeps P (retry_loop w call left)
  unfolding retry_loop
  retry_loop-Keeps zero keeps h has = keeps h has
  retry_loop-Keeps (suc left) keeps h has =
      retry_after-Keeps (retry_loop w call left) (retry_loop-Keeps left keeps) (call h)
        (keeps h has)

  pub retry_cleanup-Keeps : Keeps P call → Keeps P (retry_cleanup w call)
  unfolding retry_cleanup
  retry_cleanup-Keeps keeps = retry_loop-Keeps 2 keeps

  -- What the first attempt has done stands in the history at the end.
  pub retry_cleanup-first :
      (h : History) → Keeps P call → P (call h).1 → P (retry_cleanup w call h).1
  unfolding retry_cleanup retry_loop
  retry_cleanup-first h keeps has =
      retry_after-Keeps (retry_loop w call 1) (retry_loop-Keeps 1 keeps) (call h) has

module _ (w : World) {A : Type 0} (call : Call A) where
  retry_after-all :
      (again : Call A) (P : Outcome A → Type 0)
      → ((g : History) → P (again g))
      → (o : Outcome A) → P o
      → P (retry_after w again o)
  unfolding retry_after
  retry_after-all again P rest (ok b, g) first = first
  retry_after-all again P rest (err x, g) first = rest _

  -- What holds of every attempt holds of the last one.
  pub retry_loop-all :
      (P : Outcome A → Type 0)
      → ((g : History) → P (call g))
      → (left : ℕ) (h : History) → P (retry_loop w call left h)
  unfolding retry_loop
  retry_loop-all P each zero h = each h
  retry_loop-all P each (suc left) h =
      retry_after-all (retry_loop w call left) P (retry_loop-all P each left) (call h) (each h)

  pub retry_cleanup-all :
      (P : Outcome A → Type 0)
      → ((g : History) → P (call g))
      → (h : History) → P (retry_cleanup w call h)
  unfolding retry_cleanup
  retry_cleanup-all P each h = retry_loop-all P each 2 h
