-- ===== src/Tests/Runtime.antt =====
-- The credential lock at concrete inputs.
use edge_weapon_detection_pl.Base.{
  ℕ, ◌≡◌, refl, true, false, some, none, List, [], ◌∷◌, nat_beq, All,
}
use edge_weapon_detection_pl.Identity.{DeviceIdentity, operational, reactivation_required}
use edge_weapon_detection_pl.Runtime.Coordinator.{
  OperationalStateCoordinator, Behaviour, pending_components, start_operational_components,
  enter_reactivation_required,
}
use edge_weapon_detection_pl.Runtime.Coordinator.Rollback.{
  IsAllOrNothing, start_operational_components-IsAllOrNothing,
}
use edge_weapon_detection_pl.Runtime.Coordinator.Locked.{
  Request, start_components, unlock, validation_result, request_all, IsStop,
  enter_reactivation_required-locked,
}
use edge_weapon_detection_pl.Json.{Value, Fields}
use edge_weapon_detection_pl.Sync.Client.{Response}
use edge_weapon_detection_pl.Credentials.Activation.{KeyFile, ActivationResponse, Body}
use edge_weapon_detection_pl.Credentials.Service.{ActivationState}
use edge_weapon_detection_pl.Runtime.Supervisor.{Surroundings, new_supervisor, start_runtime}
use edge_weapon_detection_pl.Runtime.Supervisor.Closed.{IsWatched}
use edge_weapon_detection_pl.Runtime.Supervisor.Watched.{
  Event, monitoring, shutting_down, run_events, run_events-start_runtime-IsWatched,
}

-- The third component does not start, and the first does not stop.
abbrev troubled : Behaviour
troubled = record { start_raises = λ c. nat_beq c 3; stop_raises = λ c. nat_beq c 1 }

abbrev first_runs : OperationalStateCoordinator
first_runs = record { components = 1 ∷ 2 ∷ 3 ∷ []; state = operational; running = 1 ∷ [] }

start_operational_components-IsAllOrNothing_example :
    IsAllOrNothing troubled first_runs
      (pending_components first_runs)
      (start_operational_components troubled first_runs)
start_operational_components-IsAllOrNothing_example =
    start_operational_components-IsAllOrNothing troubled first_runs

abbrev locked_identity : DeviceIdentity
locked_identity = record {
  device_id = "d";
  shared_secret = none;
  activated_at = record { is_aware = true; instant = 1 };
  last_activated_at = record { is_aware = true; instant = 1 };
  operational_state = reactivation_required;
}

abbrev requests : List Request
requests =
    start_components troubled
    ∷ unlock (some (some locked_identity))
    ∷ validation_result troubled true
    ∷ start_components troubled
    ∷ []

enter_reactivation_required-locked_example :
    let locked = (enter_reactivation_required troubled first_runs).after in
    ((request_all locked requests).0.state ≡ reactivation_required)
    × All IsStop (request_all locked requests).1
enter_reactivation_required-locked_example =
    enter_reactivation_required-locked troubled first_runs requests (tt, (refl, (tt, (tt, tt))))

-- A device that is not activated yet, with the key in its file.
abbrev provisioned : ActivationState
provisioned = record { stored = none; key_file = KeyFile.content "id.secret" }

abbrev surroundings : Surroundings ℕ
surroundings = record {
  activation = record {
    environment_key = none;
    answer = λ key. ActivationResponse.response 200 (
        Body.json (
          Value.obj (
            Fields.field "success" (Value.bool true) (
              Fields.field "data"
                (Value.obj (
                  Fields.field "deviceId" (Value.str "d") (
                    Fields.field "sharedSecret" (Value.str "t")
                      (Fields.field "branchId" (Value.str "b") Fields.end))))
                Fields.end))));
    now = record { is_aware = true; instant = 1 };
    store_fails = false;
    unlink_fails = false;
  };
  answer = Response.timed_out;
  lock_fails = false;
  components = 1 ∷ 2 ∷ [];
  behaviour = troubled;
  owns_client = true;
}

-- The Backend is not reached, and then the agent is shut down.
abbrev events : List (Event ℕ)
events =
    monitoring troubled (record { answer = Response.timed_out; lock_fails = false } ∷ [])
    ∷ shutting_down troubled true
    ∷ []

run_events-start_runtime-IsWatched_example :
    IsWatched (run_events (start_runtime surroundings (new_supervisor provisioned)) events)
run_events-start_runtime-IsWatched_example =
    run_events-start_runtime-IsWatched surroundings provisioned events
