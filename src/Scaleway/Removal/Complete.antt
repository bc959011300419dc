-- ===== src/Scaleway/Removal/Complete.antt =====
-- A removal without an error has removed every volume and every address (deleteServerResources).
use pulumi_defang.Prelude.{
  Text, codes, List, [], ◌∷◌, ◌++◌, map, All, All-append, Option, none, some, Result, ok, err,
  ok-eq, err-ok, ℕ, zero, suc, ◌+◌, ◌<◌, leb, ltb, not, ◌||◌, ◌≡◌, refl, ap, subst, ◌⊎◌, inl, inr,
  Bool-cases, Option-cases, arith,
}
use pulumi_defang.Scaleway.Api.{
  Request, Response, Reply, failed, answered, History, World, Error, no_body, is_not_found, as_api,
  not_sent, check_status, Outcome, Call, continue, ◌>>=◌, return,
}
use pulumi_defang.Scaleway.Api.Keeps.{do_request-cases, check_status-404}
use pulumi_defang.Scaleway.Servers.{
  ServerResources, is_retryable_volume_delete, found_or_absent, delete_if_exists,
}
use pulumi_defang.Scaleway.Removal.{
  volume_urls, ip_url, add_error, join_errors, report, after_delete, delete_volume, delete_volumes,
  note_ip, delete_ips, delete_server_resources, volume_detach_timeout, volume_rounds,
}

abbrev pub delete_request : Text → Request
delete_request url = record { verb = codes "DELETE"; url = url; body = no_body }

-- The API has answered a request to delete: it did, or there was nothing to delete.
abbrev pub IsDeleted : World → Text → Type 0
IsDeleted w url =
    (h : History) × (r : Response) × (w.reply h (delete_request url) ≡ answered r)
    × ((r.status < 400) ⊎ (r.status ≡ 404))

check_status-ok :
    (c : Reply) (r : Response) → check_status c ≡ ok r → (c ≡ answered r) × (r.status < 400)
unfolding check_status
check_status-ok (failed what) r out = absurd (err-ok out)
check_status-ok (answered x) r out = elim (Bool-cases (leb 400 x.status)) [
  | inl e ↦ absurd (err-ok (rw e at out))
  | inr e ↦
      let same : x ≡ r = ok-eq (rw e at out) in
      (ap answered same, subst (λ (y : Response). y.status < 400) same (ground arith))
]

module _ (w : World) where
  absent-IsDeleted :
      (url : Text) (h : History) (c : Result Error Response) (g : History)
      → check_status (w.reply h (delete_request url)) ≡ c
      → (found_or_absent (c, g)).0 ≡ ok tt
      → IsDeleted w url
  unfolding found_or_absent
  absent-IsDeleted url h (ok r) g same out =
      let (at, small) = check_status-ok (w.reply h (delete_request url)) r same in
      (h, r, at, inl small)
  absent-IsDeleted url h (err e) g same out = elim (Bool-cases (is_not_found e)) [
    | inl gone ↦
        let (r, at, is_404) = check_status-404 (w.reply h (delete_request url)) e same gone in
        (h, r, at, inr is_404)
    | inr there ↦ absurd (err-ok (rw there at out))
  ]

  delete_if_exists-IsDeleted :
      (url : Text) (h : History) → (delete_if_exists w url h).0 ≡ ok tt → IsDeleted w url
  unfolding delete_if_exists found_or_absent not_sent is_not_found as_api
  delete_if_exists-IsDeleted url h out = elim (do_request-cases w (codes "DELETE") url no_body h) [
    | inl (done, at) ↦
        absurd (err-ok (subst (λ (o : Outcome Response). (found_or_absent o).0 ≡ ok tt) at out))
    | inr (live, at) ↦
        absent-IsDeleted url h _ _ refl
          (subst (λ (o : Outcome Response). (found_or_absent o).0 ≡ ok tt) at out)
  ]

  Cleared : Text → Outcome (Option Error) → Type 0
  Cleared url o = o.0 ≡ ok none → IsDeleted w url

  sleep-Cleared :
      (url : Text) (again : Call (Option Error)) (o : Outcome Unit)
      → ((h : History) → Cleared url (again h))
      → Cleared url (continue (λ u. again) o)
  unfolding continue Cleared
  sleep-Cleared url again (err e, h) rest out = absurd (err-ok out)
  sleep-Cleared url again (ok u, h) rest out = rest h out

  kept_error : {e : Error} → ◌≡◌ {A = Result Error (Option Error)} (ok (some e)) (ok none) → ⊥
  kept_error out = cc (ok-eq out)

  after_delete-Cleared :
      (deadline : ℕ) (url : Text) (again : Call (Option Error)) (o : Outcome Unit)
      → ((h : History) → Cleared url (again h))
      → (o.0 ≡ ok tt → IsDeleted w url)
      → Cleared url (after_delete w deadline url again o)
  unfolding after_delete Cleared
  after_delete-Cleared deadline url again (ok u, h) rest first out = first refl
  after_delete-Cleared deadline url again (err e, h) rest first out =
      elim (Bool-cases (not (is_retryable_volume_delete e) || ltb deadline (w.now h))) [
        | inl b ↦ absurd (kept_error (rw b at out))
        | inr b ↦ sleep-Cleared url again _ rest (rw b at out)
      ]

  delete_volume-Cleared :
      (deadline rounds : ℕ) (url : Text) (h : History)
      → Cleared url (delete_volume w deadline rounds url h)
  unfolding delete_volume Cleared
  delete_volume-Cleared deadline zero url h out = absurd (err-ok out)
  delete_volume-Cleared deadline (suc rounds) url h out =
      after_delete-Cleared deadline url (delete_volume w deadline rounds url) _
        (delete_volume-Cleared deadline rounds url) (delete_if_exists-IsDeleted url h) out

  note_ip-Cleared :
      (id url : Text) (o : Outcome Unit)
      → (o.0 ≡ ok tt → IsDeleted w url)
      → Cleared url (note_ip w id o)
  unfolding note_ip Cleared
  note_ip-Cleared id url (ok u, h) first out = first refl
  note_ip-Cleared id url (err e, h) first out = absurd (kept_error out)

  -- A list of errors that stays empty.
  AllCleared : List Text → Outcome (List Error) → Type 0
  AllCleared urls o = o.0 ≡ ok [] → All (IsDeleted w) urls

  add_cleared :
      (url : Text) (urls : List Text) (e : Option Error) (o : Outcome (List Error))
      → (e ≡ none → IsDeleted w url)
      → AllCleared urls o
      → AllCleared (url ∷ urls) (continue (λ es. return (add_error e es)) o)
  unfolding AllCleared continue
  add_cleared url urls e (err x, h) first rest out = absurd (err-ok out)
  add_cleared url urls none (ok es, h) first rest out = (first refl, rest out)
  add_cleared url urls (some x) (ok es, h) first rest out = absurd (cc (ok-eq out))

  next-Cleared :
      (url : Text) (urls : List Text) (next : Call (List Error)) (o : Outcome (Option Error))
      → Cleared url o
      → ((h : History) → AllCleared urls (next h))
      → AllCleared (url ∷ urls) (continue (λ e. next >>= λ es. return (add_error e es)) o)
  unfolding AllCleared Cleared continue
  next-Cleared url urls next (err x, h) first rest out = absurd (err-ok out)
  next-Cleared url urls next (ok e, h) first rest out =
      add_cleared url urls e (next h) (λ same. first (ap ok same)) (rest h) out

  delete_volumes-AllCleared :
      (urls : List Text) (h : History) → AllCleared urls (delete_volumes w urls h)
  unfolding delete_volumes AllCleared
  delete_volumes-AllCleared [] h out = tt
  delete_volumes-AllCleared (url ∷ urls) h out =
      next-Cleared url urls (delete_volumes w urls) _
        (delete_volume-Cleared (w.now h + volume_detach_timeout) volume_rounds url h)
        (delete_volumes-AllCleared urls) out

  delete_ips-AllCleared :
      (zone : Text) (ids : List Text) (h : History)
      → AllCleared (map (ip_url zone) ids) (delete_ips w zone ids h)
  unfolding delete_ips AllCleared
  delete_ips-AllCleared zone [] h out = tt
  delete_ips-AllCleared zone (id ∷ ids) h out =
      next-Cleared (ip_url zone id) _ (delete_ips w zone ids) _
        (note_ip-Cleared id (ip_url zone id) _ (delete_if_exists-IsDeleted (ip_url zone id) h))
        (delete_ips-AllCleared zone ids) out

  no_errors : (es : List Error) → join_errors es ≡ none → es ≡ []
  unfolding join_errors
  no_errors [] h = refl
  no_errors (e ∷ es) h = elim (Option-cases (join_errors es)) [
    | inl eq ↦ absurd (cc (rw eq at h))
    | inr (x, eq) ↦ absurd (cc (rw eq at h))
  ]

  both_empty : (xs ys : List Error) → xs ++ ys ≡ [] → (xs ≡ []) × (ys ≡ [])
  both_empty [] ys h = (refl, h)
  both_empty (x ∷ xs) ys h = absurd (cc h)

  reported : (o : Option Error) (h : History) → (report o h).0 ≡ ok tt → o ≡ none
  unfolding report
  reported none h out = refl
  reported (some e) h out = absurd (err-ok out)

  ips_reported :
      (ids : List Text) (es : List Error) (o : Outcome (List Error))
      → AllCleared ids o
      → (continue (λ more. report (join_errors (es ++ more))) o).0 ≡ ok tt
      → (es ≡ []) × All (IsDeleted w) ids
  unfolding continue AllCleared
  ips_reported ids es (err e, h) rest out = absurd (err-ok out)
  ips_reported ids es (ok more, h) rest out =
      let (none_first, none_behind) = both_empty es more (no_errors _ (reported _ h out)) in
      (none_first, rest (ap ok none_behind))

  volumes_reported :
      (urls ids : List Text) (next : Call (List Error)) (o : Outcome (List Error))
      → AllCleared urls o
      → ((h : History) → AllCleared ids (next h))
      → (continue (λ es. next >>= λ more. report (join_errors (es ++ more))) o).0 ≡ ok tt
      → All (IsDeleted w) (urls ++ ids)
  unfolding continue AllCleared
  volumes_reported urls ids next (err e, h) first rest out = absurd (err-ok out)
  volumes_reported urls ids next (ok es, h) first rest out =
      let (empty, behind) = ips_reported ids es (next h) (rest h) out in
      All-append (IsDeleted w) urls ids (first (ap ok empty)) behind

-- A removal that returns no error leaves nothing behind: for each block volume, each local volume
-- and each address, the API has answered that it deleted it or that there was nothing to delete.
pub delete_server_resources-IsDeleted :
    (w : World) (zone : Text) (res : ServerResources) (h : History)
    → (delete_server_resources w zone res h).0 ≡ ok tt
    → All (IsDeleted w) (volume_urls zone res ++ map (ip_url zone) res.ip_ids)
unfolding delete_server_resources
delete_server_resources-IsDeleted w zone res h out =
    volumes_reported w (volume_urls zone res) (map (ip_url zone) res.ip_ids) _ _
      (delete_volumes-AllCleared w (volume_urls zone res) h)
      (delete_ips-AllCleared w zone res.ip_ids) out
