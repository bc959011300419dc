-- ===== src/Scaleway/Builds/Teardown.antt =====
-- Every build server that was created is terminated (runInstanceBuild and teardownServer).
use pulumi_defang.Prelude.{
  Text, codes, ◌++◌, Bool, true, false, Result, ok, err, err-eq, err-ok, Has, inl, inr, ◌⊎◌, ◌≡◌,
  refl, sym, ap, subst, ◌∙◌, [], ◌∷◌, Bool-cases, Option-cases, arith,
}
use pulumi_defang.Scaleway.Api.{
  Request, Response, Reply, Event, answered, sent, withheld, not_sent, Call, History, World, Error,
  no_body, action, is_not_found, as_api, Outcome, continue, ◌>>=◌, return, instance_base_url,
}
use pulumi_defang.Scaleway.Api.Keeps.{IsStable, do_request-cases, check_status-404, continue-Keeps}
use pulumi_defang.Scaleway.Servers.{
  ServerResources, server_url, server_action, decode_server, resources_of, get_server_resources,
}
use pulumi_defang.Scaleway.Servers.Keeps.{terminate_server-after, terminate_server-Keeps}
use pulumi_defang.Scaleway.Removal.{found_resources, list_resources, retry_cleanup}
use pulumi_defang.Scaleway.Removal.Keeps.{list_resources-Keeps, delete_server_resources-Keeps}
use pulumi_defang.Scaleway.Removal.Attempts.{
  retry_cleanup-Keeps, retry_cleanup-first, retry_cleanup-all,
}
use pulumi_defang.Scaleway.Script.{BuildInputs, default_zone}
use pulumi_defang.Scaleway.Builds.{
  parse_s3_source, or_found, remove_server, teardown_server, defer_teardown, start_server,
  prepare_script, run_instance_build,
}

abbrev pub terminate_request : (zone id : Text) → Request
terminate_request zone id = record {
  verb = codes "POST";
  url = server_url zone id ++ codes "/action";
  body = action (codes "terminate");
}

abbrev pub get_request : (zone id : Text) → Request
get_request zone id = record { verb = codes "GET"; url = server_url zone id; body = no_body }

-- In the history, the API has answered that there is no such server.
abbrev pub IsGone : (zone id : Text) → History → Type 0
IsGone zone id h =
    (r : Response) × Has (sent (get_request zone id) (answered r)) h × (r.status ≡ 404)

-- In the history, a request to terminate the server was sent, the API has answered that there is no
-- such server, or the context was done when the request was about to be sent.
abbrev pub IsRemoved : (zone id : Text) → History → Type 0
IsRemoved zone id h =
    ((reply : Reply) × Has (sent (terminate_request zone id) reply) h)
    ⊎ (IsGone zone id h ⊎ Has (withheld (terminate_request zone id)) h)

module _ (w : World) (zone id : Text) where
  IsRemoved-IsStable : IsStable w (IsRemoved zone id)
  IsRemoved-IsStable = record {
    sends = λ r h live. later _ h;
    withholds = λ r h done. later _ h;
    sleeps = λ d h. later _ h;
  }
    where
      later : (e : Event) (h : History) → IsRemoved zone id h → IsRemoved zone id (e ∷ h)
      later e h (inl (reply, has)) = inl (reply, inr has)
      later e h (inr (inl (r, has, at))) = inr (inl (r, inr has, at))
      later e h (inr (inr has)) = inr (inr (inr has))

  -- What a listing that found the server gone tells.
  Told : Outcome (ServerResources × Bool) → Type 0
  Told (err e, h) = Unit
  Told (ok (res, true), h) = IsGone zone id h
  Told (ok (res, false), h) = Unit

  decode-404 :
      (r : Response) (h : History) (e : Error)
      → ((decode_server r >>= λ s. return (resources_of s)) h).0 ≡ err e
      → ¬ (is_not_found e ≡ true)
  unfolding decode_server continue is_not_found as_api
  decode-404 r h e out gone = elim (Option-cases r.server) [
    | inl eq ↦ ground (arith, sym (err-eq (rw eq at out)))
    | inr (s, eq) ↦ err-ok (sym (rw eq at out))
  ]

  answer-404 :
      (c : Result Error Response) (h : History) (e : Error)
      → (continue (λ r. decode_server r >>= λ s. return (resources_of s)) (c, h)).0 ≡ err e
      → is_not_found e ≡ true
      → c ≡ err e
  unfolding continue
  answer-404 (err x) h e out gone = ap err (err-eq out)
  answer-404 (ok r) h e out gone = absurd (decode-404 r h e out gone)

  continue-1 :
      (o : Outcome Response)
      → (continue (λ r. decode_server r >>= λ s. return (resources_of s)) o).1 ≡ o.1
  unfolding continue decode_server
  continue-1 (err e, h) = refl
  continue-1 (ok r, h) = elim (Option-cases r.server) [ inl eq ↦ rw eq | inr (s, eq) ↦ rw eq ]

  not_sent-404 : ¬ (is_not_found (not_sent (codes "GET") (server_url zone id)) ≡ true)
  unfolding is_not_found as_api not_sent
  not_sent-404 h = ground (arith, h)

  get-404 :
      (h : History) (e : Error)
      → (get_server_resources w zone id h).0 ≡ err e
      → is_not_found e ≡ true
      → IsGone zone id (get_server_resources w zone id h).1
  unfolding get_server_resources
  get-404 h e out gone =
      let next : Response → Call ServerResources =
        λ r. decode_server r >>= λ s. return (resources_of s) in
      elim (do_request-cases w (codes "GET") (server_url zone id) no_body h) [
        | inl (done, at) ↦
            let same = answer-404 _ _ e (subst (λ o. (continue next o).0 ≡ err e) at out) gone in
            absurd (not_sent-404 (subst (λ x. is_not_found x ≡ true) (sym (err-eq same)) gone))
        | inr (live, at) ↦
            let same = answer-404 _ _ e (subst (λ o. (continue next o).0 ≡ err e) at out) gone in
            let (r, is_r, is_404) =
              check_status-404 (w.reply h (get_request zone id)) e same gone in
            let last = continue-1 _ ∙ ap (λ (o : Outcome Response). o.1) at in
            (
              r,
              subst (Has (sent (get_request zone id) (answered r))) (sym last)
                  (inl (ap (sent (get_request zone id)) (sym is_r))),
              is_404,
            )
      ]

  found-Told :
      (o : Outcome ServerResources)
      → ((e : Error) → o.0 ≡ err e → is_not_found e ≡ true → IsGone zone id o.1)
      → Told (found_resources w o)
  unfolding found_resources Told
  found-Told (ok res, h') told = tt
  found-Told (err e, h') told = elim (Bool-cases (is_not_found e)) [
    | inl gone ↦ rw gone (told e refl gone)
    | inr there ↦ rw there tt
  ]

  list_resources-Told : (h : History) → Told (list_resources w zone id h)
  unfolding list_resources
  list_resources-Told h = found-Told _ (get-404 h)

  action-IsRemoved :
      (h : History) → IsRemoved zone id (server_action w zone id (codes "terminate") h).1
  unfolding server_action
  action-IsRemoved h =
      continue-Keeps (IsRemoved zone id) _ _ (λ r h has. has)
        (elim (do_request-cases w (codes "POST") (server_url zone id ++ codes "/action")
          (action (codes "terminate")) h) [
            | inl (done, at) ↦
                subst (λ (o : Outcome Response). IsRemoved zone id o.1) (sym at)
                  (inr (inr (inl refl)))
            | inr (live, at) ↦
                subst (λ (o : Outcome Response). IsRemoved zone id o.1) (sym at) (inl (_, inl refl))
          ])

  removed :
      (b : Bool) (h : History)
      → (b ≡ true → IsGone zone id h)
      → IsRemoved zone id (remove_server w zone id b h).1
  unfolding remove_server
  removed true h gone = inr (inl (gone refl))
  removed false h gone =
      retry_cleanup-first w (IsRemoved zone id) IsRemoved-IsStable _ h
        (terminate_server-Keeps w _ IsRemoved-IsStable zone id)
        (terminate_server-after w _ IsRemoved-IsStable zone id h (action-IsRemoved h))

  Told-or_found :
      (o : Outcome (ServerResources × Bool)) → Told o → (or_found o).1 ≡ true → IsGone zone id o.1
  unfolding Told
  Told-or_found (err e, h) told gone = absurd (ground arith)
  Told-or_found (ok (res, true), h) told gone = told
  Told-or_found (ok (res, false), h) told gone = absurd (ground arith)

  teardown_server-IsRemoved : (h : History) → IsRemoved zone id (teardown_server w zone id h).1
  unfolding teardown_server
  teardown_server-IsRemoved h =
      let listed = retry_cleanup w (list_resources w zone id) h in
      let told = retry_cleanup-all w _ Told list_resources-Told h in
      retry_cleanup-Keeps w (IsRemoved zone id) IsRemoved-IsStable _
        (delete_server_resources-Keeps w _ IsRemoved-IsStable zone _) _
        (removed (or_found listed).1 listed.1 (Told-or_found listed told))

-- What is stable is kept by a whole teardown.
pub teardown_server-Keeps :
    (w : World) (P : History → Type 0)
    → IsStable w P
    → (zone id : Text) (h : History) → P h
    → P (teardown_server w zone id h).1
unfolding teardown_server remove_server
teardown_server-Keeps w P stable zone id h has =
    let listed = retry_cleanup w (list_resources w zone id) h in
    let at_listed =
      retry_cleanup-Keeps w P stable _ (list_resources-Keeps w P stable zone id) h has in
    retry_cleanup-Keeps w P stable _ (delete_server_resources-Keeps w P stable zone _) _
      (unless_gone (or_found listed).1 listed.1 at_listed)
  where
    unless_gone : (b : Bool) (g : History) → P g → P (remove_server w zone id b g).1
    unless_gone true g at = at
    unless_gone false g at =
        retry_cleanup-Keeps w P stable _ (terminate_server-Keeps w P stable zone id) g at

-- Once the API has created a server for a build, then in whatever way the build ends, the run has
-- sent a request to terminate that server, or has been answered that there is no such server, or
-- has found the context done when it was about to send that request.
pub run_instance_build-terminates :
    (w : World) (inputs : BuildInputs) (script id : Text) (h : History)
    → prepare_script w inputs ≡ ok script
    → start_server w inputs [] ≡ (ok id, h)
    → IsRemoved (default_zone inputs.region) id (run_instance_build w inputs []).1
unfolding run_instance_build continue defer_teardown parse_s3_source instance_base_url
run_instance_build-terminates w inputs script id h prepared started =
    rw (prepared, started) (teardown_server-IsRemoved w (default_zone inputs.region) id _)
