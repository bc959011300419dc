-- ===== src/Scaleway/BuildResource.antt =====
-- provider/defangscaleway/build.go: the Build resource, as the Pulumi engine creates, updates and
-- deletes it.
use pulumi_defang.Prelude.{Text, codes, [], Bool, true, false, ok, err, ◌≡◌, refl}
use pulumi_defang.Scaleway.Api.{History, World, Outcome, Call, continue, ◌>>=◌, return, wrap}
use pulumi_defang.Scaleway.Script.{BuildInputs}
use pulumi_defang.Scaleway.Builds.{InstanceBuildResult, run_instance_build}

-- BuildInputs is embedded.
pub record BuildState : Type 0 where
  pub inputs : BuildInputs
  pub build_id : Text
  pub image : Text
  pub log_selector : Text

pub record CreateResponse : Type 0 where
  pub id : Text
  pub output : BuildState

abbrev pub built_state : BuildInputs → InstanceBuildResult → BuildState
built_state inputs result = record {
  inputs = inputs;
  build_id = result.instance_id;
  image = inputs.destination;
  log_selector = result.log_selector;
}

module _ (w : World) where
  unfoldable pub rebuild : BuildInputs → Call BuildState
  rebuild inputs = do
    result ← wrap (codes "build failed: ") (run_instance_build w inputs) []
    return (built_state inputs result)

  unfoldable pub create : (name : Text) (dry_run : Bool) → BuildInputs → Call CreateResponse
  unfolding rebuild
  create name true inputs h =
      let state : BuildState = record {
        inputs = inputs;
        build_id = [];
        image = [];
        log_selector = [];
      } in
      (ok (record { id = name; output = state }), h)
  create name false inputs h =
      (rebuild inputs >>= λ state. return (record { id = name; output = state })) h

  unfoldable pub update : (dry_run : Bool) → BuildInputs → BuildState → Call BuildState
  unfolding rebuild
  update true inputs state h =
      let planned : BuildState = record {
        inputs = inputs;
        build_id = state.build_id;
        image = inputs.destination;
        log_selector = state.log_selector;
      } in
      (ok planned, h)
  update false inputs state h = rebuild inputs h

  -- The server is gone when Create or Update returns, so there is nothing to delete.
  unfoldable pub delete : BuildState → Call Unit
  delete state = return tt

returned-1 : {A B : Type 0} (f : A → B) (o : Outcome A) → (continue (λ a. return (f a)) o).1 ≡ o.1
unfolding continue
returned-1 f (err e, h) = refl
returned-1 f (ok a, h) = refl

-- A preview sends nothing, whatever it is asked to do; and a creation that is no preview ends as an
-- update would, with the same requests, whatever state the update starts from.
pub update-create :
    (w : World) (name : Text) (inputs : BuildInputs) (state : BuildState) (h : History)
    → ((create w name true inputs h).1 ≡ h)
      × ((update w true inputs state h).1 ≡ h)
      × ((create w name false inputs h).1 ≡ (update w false inputs state h).1)
unfolding create update
update-create w name inputs state h = (refl, refl, returned-1 _ _)
