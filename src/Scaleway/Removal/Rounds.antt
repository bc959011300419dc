-- ===== src/Scaleway/Removal/Rounds.antt =====
-- The rounds of the loop over a volume are enough (deleteServerResources).
use pulumi_defang.Prelude.{
  Text, List, [], ◌∷◌, ◌++◌, All, All-append, Option, none, some, Result, ok, err, ℕ, zero, suc,
  ◌+◌, ◌*◌, ◌≤◌, ◌<◌, ltb, not, ◌||◌, ◌≡◌, ◌≢◌, refl, sym, ◌∙◌, codes, ap, err-eq, err-ok, subst,
  inl, inr, Bool-cases, Option-cases, arith,
}
use pulumi_defang.Scaleway.Api.{
  Done, slept, History, World, Error, out_of_fuel, Outcome, Call, continue, ◌>>=◌, return, no_body,
  sleep, Response,
}
use pulumi_defang.Scaleway.Api.Keeps.{do_request-event}
use pulumi_defang.Scaleway.Api.Clock.{Ticks, sleep-lasts}
use pulumi_defang.Scaleway.Servers.{
  ServerResources, is_retryable_volume_delete, found_or_absent, delete_if_exists,
}
use pulumi_defang.Scaleway.Removal.{
  volume_urls, add_error, join_errors, report, after_delete, delete_volume, delete_volumes, note_ip,
  delete_ips, delete_server_resources, volume_detach_poll, volume_detach_timeout, volume_rounds,
}

module _ {A : Type 0} where
  -- A value with a property, or an error of the code's own.
  pub Ends : (A → Type 0) → Result Error A → Type 0
  Ends P (err e) = e ≢ out_of_fuel
  Ends P (ok a) = P a

continue-Ends :
    {A B : Type 0} (P : A → Type 0) (Q : B → Type 0) (next : A → Call B) (o : Outcome A)
    → ((a : A) (h : History) → P a → Ends Q (next a h).0)
    → Ends P o.0
    → Ends Q (continue next o).0
unfolding Ends continue
continue-Ends P Q next (err e, h) rest first = first
continue-Ends P Q next (ok a, h) rest first = rest a h first

abbrev IsOwn : Error → Type 0
IsOwn e = e ≢ out_of_fuel

abbrev AreOwn : Option Error → Type 0
AreOwn none = Unit
AreOwn (some e) = IsOwn e

module _ (w : World) where
  found_or_absent-1 : (o : Outcome Response) → (found_or_absent o).1 ≡ o.1
  unfolding found_or_absent
  found_or_absent-1 (ok r, h) = refl
  found_or_absent-1 (err e, h) = refl

  delete-forward :
      (url : Text) (h : History) → Ticks w → w.now h ≤ w.now (delete_if_exists w url h).1
  unfolding delete_if_exists
  delete-forward url h ticks =
      let (e, at) = do_request-event w (codes "DELETE") url no_body h in
      subst (λ g. w.now h ≤ w.now g) (sym (found_or_absent-1 _ ∙ at)) (ticks.forward e h)

  sleep-IsOwn : (h g : History) (e : Error) → sleep w volume_detach_poll h ≡ (err e, g) → IsOwn e
  unfolding sleep
  sleep-IsOwn h g e out = elim (Bool-cases (w.context_done (slept volume_detach_poll ∷ h))) [
    | inl b ↦ λ same. cc (err-eq (ap (λ (o : Outcome Unit). o.0) (rw b at out)), same)
    | inr b ↦ absurd (err-ok (sym (ap (λ (o : Outcome Unit). o.0) (rw b at out))))
  ]

  slept_on :
      (again : Call (Option Error)) (h : History) (o : Outcome Unit)
      → Ticks w
      → sleep w volume_detach_poll h ≡ o
      → ((g : History) → w.now h + volume_detach_poll ≤ w.now g → Ends AreOwn (again g).0)
      → Ends AreOwn (continue (λ u. again) o).0
  unfolding Ends continue
  slept_on again h (err e, g) ticks asleep rest = sleep-IsOwn h g e asleep
  slept_on again h (ok u, g) ticks asleep rest = rest g (sleep-lasts w _ u h g ticks asleep)

  after_delete-Ends :
      (deadline : ℕ) (url : Text) (again : Call (Option Error)) (o : Outcome Unit)
      → Ticks w
      → ((g : History)
          → w.now o.1 ≤ deadline
          → w.now o.1 + volume_detach_poll ≤ w.now g
          → Ends AreOwn (again g).0)
      → Ends AreOwn (after_delete w deadline url again o).0
  unfolding after_delete Ends
  after_delete-Ends deadline url again (ok u, h) ticks rest = tt
  after_delete-Ends deadline url again (err e, h) ticks rest =
      elim (Bool-cases (not (is_retryable_volume_delete e) || ltb deadline (w.now h))) [
        | inl b ↦ rw b (λ same. cc same)
        | inr b ↦ rw b (slept_on again h _ ticks refl (λ g later. rest g (ground arith) later))
      ]

  pub delete_volume-Ends :
      (deadline rounds : ℕ) (url : Text) (h : History)
      → Ticks w
      → 0 < rounds
      → deadline + volume_detach_poll < w.now h + rounds * volume_detach_poll
      → Ends AreOwn (delete_volume w deadline rounds url h).0
  unfolding delete_volume
  delete_volume-Ends deadline zero url h ticks left enough = absurd (omega arith)
  delete_volume-Ends deadline (suc rounds) url h ticks left enough =
      let forward = delete-forward url h ticks in
      after_delete-Ends deadline url (delete_volume w deadline rounds url) _ ticks (λ g early later.
        delete_volume-Ends deadline rounds url g ticks (omega arith) (omega arith))

  add_error-IsOwn :
      (e : Option Error) (es : List Error) → AreOwn e → All IsOwn es → All IsOwn (add_error e es)
  add_error-IsOwn none es own owns = owns
  add_error-IsOwn (some e) es own owns = (own, owns)

  gathered :
      (next : Call (List Error)) (o : Outcome (Option Error))
      → ((h : History) → Ends (All IsOwn) (next h).0)
      → Ends AreOwn o.0
      → Ends (All IsOwn) (continue (λ e. next >>= λ es. return (add_error e es)) o).0
  unfolding Ends
  gathered next o rest first =
      continue-Ends AreOwn (All IsOwn) _ o
        (λ e h own.
          continue-Ends (All IsOwn) (All IsOwn) _ (next h)
            (λ es g owns. add_error-IsOwn e es own owns) (rest h))
        first

  delete_volumes-Ends :
      (urls : List Text) (h : History) → Ticks w → Ends (All IsOwn) (delete_volumes w urls h).0
  unfolding delete_volumes Ends
  delete_volumes-Ends [] h ticks = tt
  delete_volumes-Ends (url ∷ urls) h ticks =
      gathered (delete_volumes w urls) _ (λ g. delete_volumes-Ends urls g ticks)
        (delete_volume-Ends (w.now h + volume_detach_timeout) volume_rounds url h ticks
          (omega arith) (omega arith))

  note_ip-Ends : (id : Text) (o : Outcome Unit) → Ends AreOwn (note_ip w id o).0
  unfolding note_ip Ends
  note_ip-Ends id (ok u, h) = tt
  note_ip-Ends id (err e, h) = λ same. cc same

  delete_ips-Ends :
      (zone : Text) (ids : List Text) (h : History) → Ends (All IsOwn) (delete_ips w zone ids h).0
  unfolding delete_ips Ends
  delete_ips-Ends zone [] h = tt
  delete_ips-Ends zone (id ∷ ids) h =
      gathered (delete_ips w zone ids) _ (delete_ips-Ends zone ids) (note_ip-Ends id _)

join_errors-own : (es : List Error) → All IsOwn es → AreOwn (join_errors es)
unfolding join_errors
join_errors-own [] owns = tt
join_errors-own (e ∷ es) (own, owns) = elim (Option-cases (join_errors es)) [
  | inl eq ↦ rw eq own
  | inr (x, eq) ↦ rw eq (λ same. cc same)
]

report-Ends : (o : Option Error) (h : History) → AreOwn o → Ends (λ u. Unit {0}) (report o h).0
unfolding report Ends
report-Ends none h own = tt
report-Ends (some e) h own = own

Ends-own : (r : Done) → Ends (λ u. Unit {0}) r → r ≢ err out_of_fuel
unfolding Ends
Ends-own (err e) ends same = ends (err-eq same)
Ends-own (ok u) ends same = err-ok (sym same)

-- Where the clock never goes back and sleeps last, the loops of a removal end by their own tests:
-- the rounds that the model allows to each volume are never used up.
pub delete_server_resources-ends :
    (w : World) (zone : Text) (res : ServerResources) (h : History)
    → Ticks w
    → (delete_server_resources w zone res h).0 ≢ err out_of_fuel
unfolding delete_server_resources
delete_server_resources-ends w zone res h ticks = Ends-own _ (
    continue-Ends (All IsOwn) (λ u. Unit) _ _
      (λ es g owns.
        continue-Ends (All IsOwn) (λ u. Unit) _ _
          (λ more g' owns'.
            report-Ends _ g' (join_errors-own (es ++ more) (All-append IsOwn es more owns owns')))
          (delete_ips-Ends w zone res.ip_ids g))
      (delete_volumes-Ends w (volume_urls zone res) h ticks))
