-- ===== src/Scaleway/Api/Keeps.antt =====
-- Calls of the Scaleway API keep what was done before them.
use pulumi_defang.Prelude.{
  Text, true, ok, err, Has, inl, inr, ◌≡◌, refl, ℕ, ==_iff, leb, arith, Bool-cases, err-eq, err-ok,
  sym, ap, subst, false, ◌⊎◌, ◌∷◌,
}
use pulumi_defang.Scaleway.Api.{
  Body, Request, sent, withheld, slept, not_sent, Response, Reply, failed, answered, Event, History,
  World, Error, api, as_api, is_not_found, Outcome, Call, continue, wrap, wrap_result, check_status,
  do_request, sleep,
}

-- What no step of the client ends.
pub record IsStable (w : World) (P : History → Type 0) : Type 0 where
  pub sends :
      (r : Request) (h : History) → w.context_done h ≡ false → P h → P (sent r (w.reply h r) ∷ h)
  pub withholds : (r : Request) (h : History) → w.context_done h ≡ true → P h → P (withheld r ∷ h)
  pub sleeps : (d : ℕ) (h : History) → P h → P (slept d ∷ h)

-- An event stays in the history.
pub Has-IsStable : (w : World) (e : Event) → IsStable w (Has e)
Has-IsStable w e = record {
  sends = λ r h live has. inr has;
  withholds = λ r h done has. inr has;
  sleeps = λ d h has. inr has;
}

-- What holds before the call holds behind it.
abbrev pub Keeps : {A : Type 0} → (P : History → Type 0) → Call A → Type 0
Keeps P call = (h : History) → P h → P (call h).1

module _ (w : World) where
  pub do_request-cases :
      (verb url : Text) (body : Body) (h : History)
      → let request : Request = record { verb = verb; url = url; body = body } in
        ((w.context_done h ≡ true)
          × (do_request w verb url body h ≡ (err (not_sent verb url), withheld request ∷ h)))
        ⊎ ((w.context_done h ≡ false)
            × (do_request w verb url body h
                ≡ (check_status (w.reply h request), sent request (w.reply h request) ∷ h)))
  unfolding do_request
  do_request-cases verb url body h = elim (Bool-cases (w.context_done h)) [
    | inl done ↦ inl (done, rw done)
    | inr live ↦ inr (live, rw live)
  ]

  -- A request is one event, sent or not.
  pub do_request-event :
      (verb url : Text) (body : Body) (h : History)
      → (e : Event) × ((do_request w verb url body h).1 ≡ e ∷ h)
  do_request-event verb url body h = elim (do_request-cases verb url body h) [
    | inl (done, at) ↦ (_, ap (λ (o : Outcome Response). o.1) at)
    | inr (live, at) ↦ (_, ap (λ (o : Outcome Response). o.1) at)
  ]

module _ (w : World) (P : History → Type 0) (stable : IsStable w P) where
  pub do_request-Keeps : (verb url : Text) (body : Body) → Keeps P (do_request w verb url body)
  do_request-Keeps verb url body h has = elim (do_request-cases w verb url body h) [
    | inl (done, at) ↦
        subst (λ (o : Outcome Response). P o.1) (sym at) (stable.withholds _ h done has)
    | inr (live, at) ↦ subst (λ (o : Outcome Response). P o.1) (sym at) (stable.sends _ h live has)
  ]

  pub sleep-Keeps : (d : ℕ) → Keeps P (sleep w d)
  unfolding sleep
  sleep-Keeps d h has = stable.sleeps d h has

pub continue-Keeps :
    (P : History → Type 0) {A B : Type 0} (next : A → Call B) (o : Outcome A)
    → ((a : A) → Keeps P (next a))
    → P o.1
    → P (continue next o).1
unfolding continue
continue-Keeps P next (err x, h) keeps has = has
continue-Keeps P next (ok a, h) keeps has = keeps a h has

wrap_result-1 :
    {A : Type 0} (before behind : Text) (o : Outcome A) → (wrap_result before behind o).1 ≡ o.1
wrap_result-1 before behind (err e, h) = refl
wrap_result-1 before behind (ok a, h) = refl

pub wrap-Keeps :
    (P : History → Type 0) {A : Type 0} (before : Text) (call : Call A) (behind : Text)
    → Keeps P call
    → Keeps P (wrap before call behind)
wrap-Keeps P before call behind keeps h has =
    rw (wrap_result-1 before behind (call h)) (keeps h has)

-- Only a response of status 404 is an error that isNotFound accepts.
pub check_status-404 :
    (r : Reply) (e : Error)
    → check_status r ≡ err e
    → is_not_found e ≡ true
    → (response : Response) × (r ≡ answered response) × (response.status ≡ 404)
unfolding check_status is_not_found as_api
check_status-404 (failed what) e out gone =
    absurd (ground (arith, subst (λ x. is_not_found x ≡ true) (sym (err-eq out)) gone))
check_status-404 (answered r) e out gone = elim (Bool-cases (leb 400 r.status)) [
  | inl b ↦
      let same : err (api r.status r.text) ≡ err e = rw b at out in
      let at_404 = subst (λ x. is_not_found x ≡ true) (sym (err-eq same)) gone in
      (r, refl, (==_iff r.status 404).0 at_404)
  | inr b ↦ absurd (err-ok (sym (rw b at out)))
]

-- A run that succeeds has a first call that succeeds.
pub continue-ok :
    {A B : Type 0} (next : A → Call B) (o : Outcome A) {b : B}
    → (continue next o).0 ≡ ok b
    → (a : A) × (h : History) × (o ≡ (ok a, h)) × ((next a h).0 ≡ ok b)
unfolding continue
continue-ok next (err e, h) out = absurd (err-ok out)
continue-ok next (ok a, h) out = (a, h, refl, out)
