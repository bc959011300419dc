-- ===== src/Scaleway/Builds.antt =====
-- provider/defangscaleway/build.go: a build on a server of its own, and the wait for its end.
pub mod Teardown
pub mod Interrupted
pub mod Waiting
pub mod Ending
pub mod Verdicts
pub mod Store
pub mod Success
pub mod Sources
use pulumi_defang.Prelude.{
  Text, codes, contains_text, is_empty, cut, cut_prefix, trim_right, length, List, [], ◌∷◌, ◌++◌,
  map, Bool, true, false, Option, none, some, Result, ok, err, ℤ, pos, negsuc, ℕ, zero, suc, ◌+◌,
  ◌-◌, ◌*◌, ◌/◌, ltb, ◌==◌, ◌||◌, if◌then◌else◌, or_else, decimal, quote, take,
}
use pulumi_defang.Scaleway.Api.{
  LokiQuery, Response, queried, History, World, Error, wrapped, context_error, undecodable,
  build_failed, build_timeout, invalid_source, out_of_fuel, check_status, Done, Outcome, Call,
  continue, ◌>>=◌, return, fail, wrap, sleep,
}
use pulumi_defang.Scaleway.BuildInstance.{lookup_build_instance_type}
use pulumi_defang.Scaleway.Servers.{
  ServerResources, no_resources, create_server, set_cloud_init, power_on_server, terminate_server,
}
use pulumi_defang.Scaleway.Removal.{delete_server_resources, retry_cleanup, list_resources}
use pulumi_defang.Scaleway.Script.{BuildInputs, build_script, default_zone}

-- strings.HasPrefix, then the bucket and the key at the first slash; neither is empty.
unfoldable pub parse_s3_source : Text → Result Error (Text × Text)
parse_s3_source source = elim (cut_prefix (codes "s3://") source) [
  | none ↦ err (invalid_source source)
  | some rest ↦ elim (cut b'/' rest) [
    | none ↦ err (invalid_source source)
    | some (bucket, key) ↦
        if is_empty bucket || is_empty key then err (invalid_source source) else ok (bucket, key)
  ]
]

replace_separator : ℕ → ℕ
replace_separator c = if (c == b'/') || (c == b':') || (c == b'.') then b'-' else c

-- At most 40 bytes; a longer name ends in a hash of the destination.
unfoldable pub sanitize_resource_name : (hash : Text → Text) → Text → Text
unfolding replace_separator
sanitize_resource_name hash dest =
    let s = map replace_separator dest in
    let suffix = b'-' ∷ hash dest in
    let short = trim_right (λ c. c == b'-') (take (40 - length suffix) s) ++ suffix in
    trim_right (λ c. c == b'-') (if ltb 40 (length s) then short else s)

-- The second text of each value that has one.
lines_of_values : List (List Text) → List Text
lines_of_values [] = []
lines_of_values ([] ∷ values) = lines_of_values values
lines_of_values ((time ∷ []) ∷ values) = lines_of_values values
lines_of_values ((time ∷ line ∷ more) ∷ values) = line ∷ lines_of_values values

unfoldable pub lines_of_streams : List (List (List Text)) → List Text
unfolding lines_of_values
lines_of_streams [] = []
lines_of_streams (values ∷ streams) = lines_of_values values ++ lines_of_streams streams

unfoldable pub lines_of_response : Result Error Response → Result Error (List Text)
unfolding lines_of_streams
lines_of_response (err e) = err e
lines_of_response (ok r) = elim r.streams [
  | none ↦ err (undecodable (codes "decoding Loki response"))
  | some streams ↦ ok (lines_of_streams streams)
]

-- The first line that tells a result: true for success.
unfoldable pub verdict : List Text → Option Bool
verdict [] = none
verdict (line ∷ lines) =
    let rest = verdict lines in
    if contains_text (codes "RESULT:SUCCESS") line
    then some true
    else if contains_text (codes "RESULT:FAILURE") line
    then some false
    else rest

-- Three seconds and one minute, in nanoseconds.
abbrev pub poll_interval : ℕ
poll_interval = 3000000000

abbrev pub clock_skew : ℕ
clock_skew = 60000000000

-- time.Now() and maxWait seconds, which may be negative. The product wraps at 64 bits in the source,
-- for waits beyond 290 years, which are left out.
unfoldable pub deadline_after : ℕ → ℤ → ℕ
deadline_after now (pos s) = now + s * 1000000000
deadline_after now (negsuc n) = now - (n + 1) * 1000000000

-- The rounds of the wait: three seconds each.
unfoldable pub wait_rounds : ℤ → ℕ
wait_rounds (pos s) = s / 3 + 2
wait_rounds (negsuc n) = 2

pub record LogStream : Type 0 where
  pub endpoint : Text
  pub token : Text
  pub selector : Text

-- The parameters of the range query: the oldest lines first, a thousand at most.
unfoldable pub loki_query : LogStream → (start end : ℕ) → LokiQuery
loki_query logs start end = record {
  endpoint = logs.endpoint;
  token = logs.token;
  selector = logs.selector;
  start = start;
  end = end;
  direction = codes "forward";
  limit = 1000;
}

int_text : ℤ → Text
int_text (pos n) = decimal n
int_text (negsuc n) = b'-' ∷ decimal (n + 1)

unfoldable pub timeout_error : ℤ → Error
unfolding int_text
timeout_error max_wait =
    wrapped (codes "build ") build_timeout (codes " after " ++ int_text max_wait ++ codes "s")

failure_error : LogStream → Error
failure_error logs = wrapped [] build_failed (
    codes ": see build logs at "
    ++ logs.endpoint
    ++ codes " (selector "
    ++ logs.selector
    ++ codes ")")

unfoldable pub judgement : LogStream → Bool → Done
unfolding failure_error
judgement logs true = ok tt
judgement logs false = err (failure_error logs)

module _ (w : World) where
  -- The *url.Error around a context that is done is left out, with the encoding of the URL.
  unfoldable pub query_loki : LogStream → ℕ → ℕ → Call (List Text)
  unfolding lines_of_response loki_query
  query_loki logs start end h =
      let query = loki_query logs start end in
      if w.context_done h
      then (err context_error, h)
      else (lines_of_response (check_status (w.logs h query)), queried query ∷ h)

  -- The end of a round: a verdict ends the wait.
  unfoldable pub judge : LogStream → (again : Call Unit) → List Text → Call Unit
  unfolding judgement
  judge logs again lines = elim (verdict lines) [
    | none ↦ again
    | some b ↦ λ h. (judgement logs b, h)
  ]

  -- What a round does when it has slept.
  unfoldable pub poll_after :
      LogStream → (start : ℕ) → (again : Call Unit) → Outcome Unit → Outcome Unit
  unfolding judge
  poll_after logs start again = continue λ u. do
    lines ← wrap (codes "polling build logs: ") (λ h. query_loki logs start (w.now h) h) []
    judge logs again lines

  unfoldable pub poll : LogStream → (start : ℕ) → (again : Call Unit) → Call Unit
  unfolding poll_after
  poll logs start again h = poll_after logs start again (sleep w poll_interval h)

  unfoldable pub wait_loop : LogStream → (max_wait : ℤ) → (deadline start : ℕ) → ℕ → Call Unit
  unfolding poll timeout_error
  wait_loop logs max_wait deadline start zero h = fail out_of_fuel h
  wait_loop logs max_wait deadline start (suc rounds) h =
      if ltb deadline (w.now h)
      then fail (timeout_error max_wait) h
      else poll logs start (wait_loop logs max_wait deadline start rounds) h

  unfoldable pub wait_for_instance_build : LogStream → ℤ → Call Unit
  unfolding wait_loop
  wait_for_instance_build logs max_wait h =
      let now = w.now h in
      wait_loop logs max_wait (deadline_after now max_wait) (now - clock_skew)
        (wait_rounds max_wait) h

-- The warnings that teardownServer logs.
pub data Warning : Type 0 where
  not_listed not_removed left_behind : Error → Warning

abbrev pub or_found : Outcome (ServerResources × Bool) → ServerResources × Bool
or_found (ok found, h) = found
or_found (err e, h) = (no_resources, false)

abbrev pub warn_of : {A : Type 0} → (Error → Warning) → Result Error A → List Warning
warn_of warning (ok a) = []
warn_of warning (err e) = warning e ∷ []

pub record InstanceBuildResult : Type 0 where
  pub instance_id : Text
  pub log_selector : Text

abbrev pub log_source : World → BuildInputs → Text
log_source w inputs = codes "defang-build-" ++ sanitize_resource_name w.hash inputs.destination

abbrev pub log_stream : World → BuildInputs → LogStream
log_stream w inputs = record {
  endpoint = inputs.logs_endpoint;
  token = inputs.logs_token;
  selector = codes "{source=" ++ quote (log_source w inputs) ++ codes "}";
}

-- common.DefaultBuildMaxWaitTime
abbrev pub default_build_max_wait_time : ℤ
default_build_max_wait_time = pos 3600

module _ (w : World) where
  -- The second part: the server is terminated unless it is gone.
  remove_server : Text → Text → Bool → History → Outcome Unit
  remove_server zone id true h = return tt h
  remove_server zone id false h = retry_cleanup w (terminate_server w zone id) h

  unfoldable pub teardown_server : Text → Text → History → List Warning × History
  unfolding remove_server
  teardown_server zone id h =
      let listed = retry_cleanup w (list_resources w zone id) h in
      let found = or_found listed in
      let removed = remove_server zone id found.1 listed.1 in
      let cleaned = retry_cleanup w (delete_server_resources w zone found.0) removed.1 in
      (
        warn_of not_listed listed.0
            ++ warn_of not_removed removed.0
            ++ warn_of left_behind cleaned.0,
        cleaned.1,
      )

  -- A deferred call runs whichever way the rest ends.
  unfoldable pub defer_teardown : {A : Type 0} → Text → Text → Outcome A → Outcome A
  unfolding teardown_server
  defer_teardown zone id (r, h) = (r, (teardown_server zone id h).1)

  unfoldable pub build_on_server : BuildInputs → (script id : Text) → Call InstanceBuildResult
  build_on_server inputs script id = do
    let zone = default_zone inputs.region
    let max_wait = or_else inputs.max_wait_time default_build_max_wait_time
    a ← wrap (codes "setting build instance cloud-init: ") (set_cloud_init w zone id script) []
    b ← wrap (codes "starting build instance: ") (power_on_server w zone id) []
    c ← wait_for_instance_build w (log_stream w inputs) max_wait
    return (record { instance_id = id; log_selector = (log_stream w inputs).selector })

  unfoldable pub start_server : BuildInputs → Call Text
  start_server inputs =
      let type = lookup_build_instance_type (or_else inputs.instance_type (codes "DEV1-L")) in
      wrap (codes "creating build instance: ")
        (create_server w (default_zone inputs.region) inputs.project_id
          (sanitize_resource_name w.hash inputs.destination) type
          (or_else inputs.disk_size_gb (pos 16)))
        []

  -- What is decided before a request is sent.
  unfoldable pub prepare_script : BuildInputs → Result Error Text
  prepare_script inputs = elim (parse_s3_source inputs.source) [
    | err e ↦ err e
    | ok (bucket, key) ↦
        build_script w inputs bucket key (w.getenv (codes "SCW_SECRET_KEY")) (log_source w inputs)
  ]

  unfoldable pub run_instance_build : BuildInputs → Call InstanceBuildResult
  unfolding prepare_script start_server build_on_server defer_teardown
  run_instance_build inputs h = elim (prepare_script inputs) [
    | err e ↦ (err e, h)
    | ok script ↦
        continue
          (λ id h'.
            defer_teardown (default_zone inputs.region) id (build_on_server inputs script id h'))
          (start_server inputs h)
  ]
