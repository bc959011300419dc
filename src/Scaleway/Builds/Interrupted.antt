-- ===== src/Scaleway/Builds/Interrupted.antt =====
-- A build whose context is done leaves its server (runInstanceBuild and teardownServer).
use pulumi_defang.Prelude.{Text, true, ◌∷◌, ok, Has, inl, inr, ◌≡◌, arith}
use pulumi_defang.Scaleway.Api.{Request, Reply, Event, sent, History, World, continue, do_request}
use pulumi_defang.Scaleway.Api.Keeps.{IsStable}
use pulumi_defang.Scaleway.Servers.{set_cloud_init}
use pulumi_defang.Scaleway.Script.{BuildInputs, default_zone}
use pulumi_defang.Scaleway.Builds.{
  parse_s3_source, defer_teardown, build_on_server, start_server, prepare_script,
  run_instance_build,
}
use pulumi_defang.Scaleway.Builds.Teardown.{teardown_server-Keeps}

-- A context that is done stays done.
abbrev pub StaysDone : World → Type 0
StaysDone w = (e : Event) (h : History) → w.context_done h ≡ true → w.context_done (e ∷ h) ≡ true

-- The context is done, and no request was sent since `before`.
abbrev IsSilent : World → (before h : History) → Type 0
IsSilent w before h =
    (w.context_done h ≡ true)
    × ((r : Request) (reply : Reply) → Has (sent r reply) h → Has (sent r reply) before)

module _ (w : World) (before : History) (stays : StaysDone w) where
  IsSilent-IsStable : IsStable w (IsSilent w before)
  IsSilent-IsStable = record {
    sends = λ r h live silent. absurd (ground (arith, live, silent.0));
    withholds = λ r h done silent. (
      stays _ h done,
      λ r' reply has. elim has [ inl same ↦ absurd (cc same) | inr has' ↦ silent.1 r' reply has' ],
    );
    sleeps = λ d h silent. (
      stays _ h silent.0,
      λ r' reply has. elim has [ inl same ↦ absurd (cc same) | inr has' ↦ silent.1 r' reply has' ],
    );
  }

  on_server :
      (inputs : BuildInputs) (script id : Text)
      → w.context_done before ≡ true
      → IsSilent w before (build_on_server w inputs script id before).1
  unfolding build_on_server set_cloud_init do_request continue
  on_server inputs script id done = rw done (
    stays _ before done,
    λ r reply has. elim has [ inl same ↦ absurd (cc same) | inr has' ↦ has' ],
  )

-- Where the context is done once the server is created, and stays done, the rest of the build and
-- its teardown send no request: the server is left as it is.
pub run_instance_build-interrupted :
    (w : World) (inputs : BuildInputs) (script id : Text) (h h' : History) (r : Request)
    (reply : Reply)
    → StaysDone w
    → prepare_script w inputs ≡ ok script
    → start_server w inputs h ≡ (ok id, h')
    → w.context_done h' ≡ true
    → Has (sent r reply) (run_instance_build w inputs h).1
    → Has (sent r reply) h'
unfolding run_instance_build continue defer_teardown parse_s3_source
run_instance_build-interrupted w inputs script id h h' r reply stays prepared started done has =
    let silent =
      teardown_server-Keeps w (IsSilent w h') (IsSilent-IsStable w h' stays)
        (default_zone inputs.region) id _ (on_server w h' stays inputs script id done) in
    silent.1 r reply (rw (prepared, started) at has)
