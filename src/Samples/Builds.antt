-- ===== src/Samples/Builds.antt =====
-- A Scaleway build on a small world, and what the theorems say of it.
use pulumi_defang.Prelude.{
  Map, map, ◌-◌, Result, Text, codes, [], ◌∷◌, ◌++◌, false, none, some, ok, err, pos, ℕ, ◌+◌, ◌≤◌,
  ◌≡◌, refl, arith, All, Has, Distinct, ◌↔◌, ◌≢◌,
}
use pulumi_defang.Scaleway.Builds.{InstanceBuildResult}
use pulumi_defang.Scaleway.Api.{
  Error, Response, answered, ServerObject, Event, sent, withheld, queried, slept, History, World,
  do_request, sleep, continue, check_status, out_of_fuel,
}
use pulumi_defang.Scaleway.Api.Clock.{Ticks}
use pulumi_defang.Scaleway.Servers.{
  ServerResources, resources_of, create_server, delete_if_exists, set_cloud_init, power_on_server,
}
use pulumi_defang.Scaleway.Servers.Addresses.{resources_of-ip_ids}
use pulumi_defang.Scaleway.Removal.{join_errors, volume_urls, ip_url, delete_server_resources}
use pulumi_defang.Scaleway.Removal.Complete.{IsDeleted, delete_server_resources-IsDeleted}
use pulumi_defang.Scaleway.Removal.Rounds.{delete_server_resources-ends}
use pulumi_defang.Scaleway.Script.{default_zone, BuildInputs, build_script, build_arg_flags}
use pulumi_defang.Scaleway.Script.Quoting.{Words, arg_words, build_arg_flags-Words}
use pulumi_defang.Scaleway.Builds.{
  LogStream, prepare_script, start_server, run_instance_build, wait_for_instance_build,
  parse_s3_source, log_stream, build_on_server, query_loki, verdict, wait_rounds, deadline_after,
  clock_skew,
}
use pulumi_defang.Scaleway.Builds.Teardown.{IsRemoved, run_instance_build-terminates}
use pulumi_defang.Scaleway.Builds.Waiting.{Waits}
use pulumi_defang.Scaleway.Builds.Ending.{wait_for_instance_build-Waits}
use pulumi_defang.Scaleway.Builds.Success.{SawSuccess, run_instance_build-ok}
use pulumi_defang.Scaleway.Builds.Sources.{IsLocation, parse_s3_source_iff, IsNameByte}
use pulumi_defang.Scaleway.BuildResource.{BuildState}

abbrev srv : ServerObject
srv = record {
  id = codes "11";
  volumes = (codes "0", record { id = codes "vol"; volume_type = codes "l_ssd" }) ∷ [];
  public_ip = some (codes "ip");
  public_ips = codes "ip" ∷ [];
}

abbrev pub fine : Response
fine = record {
  status = 200;
  text = [];
  server = some srv;
  streams = some (((codes "1" ∷ codes "RESULT:SUCCESS" ∷ []) ∷ []) ∷ []);
}

-- A clock that started in 2001; a reading of the log takes a millisecond.
unfoldable pub clock : History → ℕ
clock [] = 1000000000000000000
clock (sent r reply ∷ h) = clock h
clock (withheld r ∷ h) = clock h
clock (queried q ∷ h) = clock h + 1000000
clock (slept d ∷ h) = clock h + d

abbrev pub small_world : World
small_world = record {
  reply = λ h r. answered fine;
  logs = λ h q. answered fine;
  now = clock;
  context_done = λ h. false;
  getenv = λ name. codes "key";
  hash = λ s. codes "0a1b2c3d";
}

abbrev hello : BuildInputs
hello = record {
  region = codes "fr-par";
  project_id = codes "p";
  source = codes "s3://b/k";
  destination = codes "rg.fr-par.scw.cloud/ns/hello:1";
  dockerfile = none;
  target = none;
  args = [];
  max_wait_time = some (pos 60);
  triggers = [];
  instance_type = none;
  disk_size_gb = none;
  logs_endpoint = codes "https://logs";
  logs_token = codes "t";
}

pub small_world-Ticks : Ticks small_world
unfolding clock
small_world-Ticks = record { forward = forward; lasts = λ d h e. omega arith }
  where
    forward : (e : Event) (h : History) → clock h ≤ clock (e ∷ h)
    forward (sent r reply) h = omega arith
    forward (withheld r) h = omega arith
    forward (queried q) h = omega arith
    forward (slept d) h = omega arith

value : {A : Type 0} → A → Result Error A → A
value default (err e) = default
value default (ok a) = a

abbrev zone : Text
zone = codes "fr-par-1"

abbrev script : Text
script = value [] (prepare_script small_world hello)

hello-script : prepare_script small_world hello ≡ ok script
unfolding prepare_script value parse_s3_source build_script
hello-script = refl

hello_server :
    start_server small_world hello [] ≡ (ok (codes "11"), (start_server small_world hello []).1)
unfolding start_server create_server do_request check_status continue
hello_server = refl

run_instance_build-terminates_example :
    IsRemoved zone (codes "11") (run_instance_build small_world hello []).1
unfolding default_zone
run_instance_build-terminates_example =
    run_instance_build-terminates small_world hello script (codes "11")
      (start_server small_world hello []).1 hello-script hello_server

abbrev built : InstanceBuildResult
built = record { instance_id = codes "11"; log_selector = (log_stream small_world hello).selector }

hello-built : (run_instance_build small_world hello []).0 ≡ ok built
unfolding run_instance_build prepare_script parse_s3_source build_script start_server
    build_on_server wait_for_instance_build clock continue create_server do_request set_cloud_init
    power_on_server wait_rounds deadline_after sleep query_loki verdict
hello-built = refl

run_instance_build-ok_example :
    ((start_server small_world hello []).0 ≡ ok (codes "11"))
    × (built.log_selector ≡ (log_stream small_world hello).selector)
    × SawSuccess small_world (log_stream small_world hello)
run_instance_build-ok_example =
    run_instance_build-ok small_world hello [] built small_world-Ticks hello-built

abbrev pub hello_logs : LogStream
hello_logs = log_stream small_world hello

abbrev waited : History
waited = (wait_for_instance_build small_world hello_logs (pos 60) []).1

wait_for_instance_build-Waits_example :
    (wait_for_instance_build small_world hello_logs (pos 60) [] ≡ (ok tt, waited))
    ↔ Waits small_world hello_logs
        (pos 60)
        (deadline_after (clock []) (pos 60))
        (clock [] - clock_skew)
        []
        (ok tt)
        waited
wait_for_instance_build-Waits_example =
    wait_for_instance_build-Waits small_world hello_logs (pos 60) [] waited (ok tt)
      small_world-Ticks

abbrev left_over : ServerResources
left_over = record {
  volume_ids = codes "v1" ∷ [];
  local_volume_ids = codes "v2" ∷ [];
  ip_ids = codes "ip" ∷ [];
}

removed : (delete_server_resources small_world zone left_over []).0 ≡ ok tt
unfolding delete_server_resources continue delete_if_exists do_request join_errors
removed = refl

delete_server_resources-IsDeleted_example :
    All (IsDeleted small_world) (volume_urls zone left_over ++ map (ip_url zone) (codes "ip" ∷ []))
delete_server_resources-IsDeleted_example =
    delete_server_resources-IsDeleted small_world zone left_over [] removed

delete_server_resources-ends_example :
    (delete_server_resources small_world zone left_over []).0 ≢ err out_of_fuel
delete_server_resources-ends_example =
    delete_server_resources-ends small_world zone left_over [] small_world-Ticks

resources_of-ip_ids_example :
    Distinct (resources_of srv).ip_ids
    × ((Has (codes "ip") (resources_of srv).ip_ids)
        ↔ ((codes "ip" ≢ []) × Has (codes "ip") (codes "ip" ∷ codes "ip" ∷ [])))
resources_of-ip_ids_example = resources_of-ip_ids srv (codes "ip")

parse_s3_source_iff_example :
    (parse_s3_source (codes "s3://b/k") ≡ ok (codes "b", codes "k"))
    ↔ IsLocation (codes "s3://b/k") (codes "b") (codes "k")
parse_s3_source_iff_example = parse_s3_source_iff (codes "s3://b/k") (codes "b") (codes "k")

hash_clean : All IsNameByte (codes "0a1b2c3d")
hash_clean = ground arith

abbrev quoted_args : Map Text
quoted_args = (codes "A", codes "it's; $(rm)") ∷ []

build_arg_flags-Words_example : Words (build_arg_flags quoted_args) (arg_words quoted_args)
build_arg_flags-Words_example = build_arg_flags-Words quoted_args

abbrev old_state : BuildState
old_state = record { inputs = hello; build_id = []; image = []; log_selector = [] }
