-- ===== src/Tests/Credentials.antt =====
-- Validation of the credentials and activation at concrete inputs.
use edge_weapon_detection_pl.Base.{ℕ, true, false, some, none, List, [], ◌∷◌}
use edge_weapon_detection_pl.Time.{DateTime}
use edge_weapon_detection_pl.Json.{Value, Fields}
use edge_weapon_detection_pl.Identity.{DeviceIdentity, operational}
use edge_weapon_detection_pl.Sync.Client.{timed_out, response}
use edge_weapon_detection_pl.Credentials.Monitor.{
  Attempt, run_monitor, IsGuardedRun, run_monitor-IsGuardedRun,
}
use edge_weapon_detection_pl.Credentials.Activation.{content, ActivationResponse, Body}
use edge_weapon_detection_pl.Credentials.Service.{ActivationState, ActivationWorld, activate}
use edge_weapon_detection_pl.Credentials.Service.Activated.{Outcome, activate-Outcome}

abbrev noon : DateTime
noon = record { is_aware = true; instant = 1000 }

abbrev device : DeviceIdentity
device = record {
  device_id = "d";
  shared_secret = some "s";
  activated_at = noon;
  last_activated_at = noon;
  operational_state = operational;
}

-- A timeout, and then the confirmed rejection.
abbrev attempts : List (Attempt ℕ)
attempts =
    record { answer = timed_out; lock_fails = false }
    ∷ record {
      answer = response 401 (
          some (
            Value.obj (
              Fields.field "success" (Value.bool false)
                (Fields.field "errorCode" (Value.str "INVALID_DEVICE_CREDENTIALS") Fields.end))));
      lock_fails = false;
    }
    ∷ []

run_monitor-IsGuardedRun_example :
    IsGuardedRun attempts (some device) (run_monitor attempts (some device))
run_monitor-IsGuardedRun_example = run_monitor-IsGuardedRun attempts (some device)

abbrev accepted : ActivationWorld ℕ
accepted = record {
  environment_key = none;
  answer = λ key. ActivationResponse.response 200 (
      Body.json (
        Value.obj (
          Fields.field "success" (Value.bool true) (
            Fields.field "data"
              (Value.obj (
                Fields.field "deviceId" (Value.str "d") (
                  Fields.field "sharedSecret" (Value.str "t")
                    (Fields.field "branchId" (Value.str "b") Fields.end))))
              Fields.end))));
  now = noon;
  store_fails = false;
  unlink_fails = false;
}

abbrev provisioned : ActivationState
provisioned = record { stored = some device; key_file = content "id.secret\n" }

activate-Outcome_example : Outcome accepted provisioned (activate accepted provisioned).0
activate-Outcome_example = activate-Outcome accepted provisioned
