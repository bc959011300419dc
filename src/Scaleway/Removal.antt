-- ===== src/Scaleway/Removal.antt =====
-- provider/defangscaleway/build.go: what removes a build server, its volumes and its addresses.
pub mod Keeps
pub mod Attempts
pub mod Complete
pub mod Rounds
use pulumi_defang.Prelude.{
  Text, codes, contains_byte, List, [], ◌∷◌, ◌++◌, map, Bool, true, false, Option, none, some,
  Result, ok, err, ℕ, zero, suc, ◌+◌, ltb, ◌||◌, not, if◌then◌else◌,
}
use pulumi_defang.Scaleway.Api.{
  History, World, Error, wrapped, joined, out_of_fuel, is_not_found, Outcome, Call, ◌>>=◌, return,
  fail, sleep, instance_base_url, block_base_url,
}
use pulumi_defang.Scaleway.Servers.{
  ServerResources, no_resources, is_retryable_volume_delete, terminate_server, get_server_resources,
  delete_if_exists,
}

-- In nanoseconds: two seconds, five seconds and five minutes.
abbrev pub cleanup_retry_delay : ℕ
cleanup_retry_delay = 2000000000

abbrev pub volume_detach_poll : ℕ
volume_detach_poll = 5000000000

abbrev pub volume_detach_timeout : ℕ
volume_detach_timeout = 300000000000

-- The rounds of a loop that sleeps five seconds in each and stops after five minutes.
abbrev pub volume_rounds : ℕ
volume_rounds = 62

-- errors.Join
unfoldable pub join_errors : List Error → Option Error
join_errors [] = none
join_errors (e ∷ es) = elim (join_errors es) [ none ↦ some e | some e' ↦ some (joined e e') ]

-- What stands behind the last slash.
last_segment : Text → Text
last_segment [] = []
last_segment (c ∷ s) =
    let rest = last_segment s in if contains_byte b'/' (c ∷ s) then rest else c ∷ s

unfoldable pub volume_urls : Text → ServerResources → List Text
volume_urls zone res =
    map (λ id. block_base_url zone ++ codes "/volumes/" ++ id) res.volume_ids
    ++ map (λ id. instance_base_url zone ++ codes "/volumes/" ++ id) res.local_volume_ids

abbrev pub ip_url : Text → Text → Text
ip_url zone id = instance_base_url zone ++ codes "/ips/" ++ id

abbrev pub add_error : Option Error → List Error → List Error
add_error none es = es
add_error (some e) es = e ∷ es

report : Option Error → Call Unit
report none = return tt
report (some e) = fail e

module _ (w : World) where
  unfoldable pub after_delete :
      (deadline : ℕ) (url : Text) (again : Call (Option Error))
      → Outcome Unit
      → Outcome (Option Error)
  unfolding last_segment
  after_delete deadline url again (ok u, h) = (ok none, h)
  after_delete deadline url again (err e, h) =
      if not (is_retryable_volume_delete e) || ltb deadline (w.now h)
      then (
        ok (some (wrapped (codes "deleting volume " ++ last_segment url ++ codes ": ") e [])),
        h,
      )
      else (sleep w volume_detach_poll >>= λ u. again) h

  -- The loop for one volume: an error that waiting does not mend is kept for the end.
  unfoldable pub delete_volume : ℕ → ℕ → Text → Call (Option Error)
  unfolding after_delete
  delete_volume deadline zero url h = fail out_of_fuel h
  delete_volume deadline (suc rounds) url h =
      after_delete deadline url (delete_volume deadline rounds url) (delete_if_exists w url h)

  unfoldable pub delete_volumes : List Text → Call (List Error)
  unfolding delete_volume
  delete_volumes [] = return []
  delete_volumes (url ∷ urls) = do
    e ← λ h. delete_volume (w.now h + volume_detach_timeout) volume_rounds url h
    es ← delete_volumes urls
    return (add_error e es)

  note_ip : Text → Outcome Unit → Outcome (Option Error)
  note_ip id (ok u, h) = (ok none, h)
  note_ip id (err e, h) = (ok (some (wrapped (codes "deleting IP " ++ id ++ codes ": ") e [])), h)

  unfoldable pub delete_ips : Text → List Text → Call (List Error)
  unfolding note_ip
  delete_ips zone [] = return []
  delete_ips zone (id ∷ ids) = do
    e ← λ h. note_ip id (delete_if_exists w (ip_url zone id) h)
    es ← delete_ips zone ids
    return (add_error e es)

  unfoldable pub delete_server_resources : Text → ServerResources → Call Unit
  unfolding delete_volumes delete_ips volume_urls report
  delete_server_resources zone res = do
    es ← delete_volumes (volume_urls zone res)
    more ← delete_ips zone res.ip_ids
    report (join_errors (es ++ more))

  module _ {A : Type 0} where
    unfoldable pub retry_after : Call A → Outcome A → Outcome A
    retry_after again (ok a, h) = (ok a, h)
    retry_after again (err e, h) = again (sleep w cleanup_retry_delay h).1

    -- One attempt, and `left` more while they fail.
    unfoldable pub retry_loop : Call A → ℕ → Call A
    unfolding retry_after
    retry_loop call zero h = call h
    retry_loop call (suc left) h = retry_after (retry_loop call left) (call h)

    -- Three attempts; a sleep that the context cuts short does not stop them.
    unfoldable pub retry_cleanup : Call A → Call A
    unfolding retry_loop
    retry_cleanup call = retry_loop call 2

  -- The resources, and whether the server is gone.
  unfoldable pub found_resources : Outcome ServerResources → Outcome (ServerResources × Bool)
  found_resources (ok res, h) = (ok (res, false), h)
  found_resources (err e, h) = (if is_not_found e then ok (no_resources, true) else err e, h)

  unfoldable pub list_resources : Text → Text → Call (ServerResources × Bool)
  unfolding found_resources
  list_resources zone id h = found_resources (get_server_resources w zone id h)
