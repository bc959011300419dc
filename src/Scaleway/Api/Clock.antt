-- ===== src/Scaleway/Api/Clock.antt =====
-- The clock that the waits rely on.
use pulumi_defang.Prelude.{
  ℕ, ◌+◌, ◌≤◌, ◌≡◌, ◌∷◌, ap, subst, false, ok, err-ok, Bool-cases, inl, inr,
}
use pulumi_defang.Scaleway.Api.{Event, slept, History, World, Outcome, sleep}

-- time.Now of a process never goes back, and a sleep that the context does not cut short lasts as
-- long as it was asked to.
pub record Ticks (w : World) : Type 0 where
  pub forward : (e : Event) (h : History) → w.now h ≤ w.now (e ∷ h)
  pub lasts :
      (d : ℕ) (h : History)
      → w.context_done (slept d ∷ h) ≡ false
      → w.now h + d ≤ w.now (slept d ∷ h)

pub sleep-lasts :
    (w : World) (d : ℕ) (u : Unit) (h g : History)
    → Ticks w
    → sleep w d h ≡ (ok u, g)
    → w.now h + d ≤ w.now g
unfolding sleep
sleep-lasts w d u h g ticks out = elim (Bool-cases (w.context_done (slept d ∷ h))) [
  | inl e ↦ absurd (err-ok (ap (λ (o : Outcome Unit). o.0) (rw e at out)))
  | inr e ↦
      subst (λ x. w.now h + d ≤ w.now x) (ap (λ (o : Outcome Unit). o.1) out) (ticks.lasts d h e)
]
