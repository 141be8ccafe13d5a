-- ===== src/Runtime/Supervisor.antt =====
-- The startup of the agent, its monitor and its shutdown: agent/src/weapon_detection_agent/runtime/
-- supervisor.py, with what `_start` of runtime/startup.py does where the startup raises.
pub mod Closed
pub mod Watched
use edge_weapon_detection_pl.Base.{
  ℕ, Bool, true, false, Option, none, some, List, [], ◌∷◌, ◌++◌, if◌then◌else◌,
}
use edge_weapon_detection_pl.Identity.{
  OperationalState, reactivation_required, DeviceIdentity, is_operational, can_authenticate,
}
use edge_weapon_detection_pl.Identity.Repository.{
  Stored, IdentityError, load, mark_reactivation_required,
}
use edge_weapon_detection_pl.Sync.Client.{Response}
use edge_weapon_detection_pl.Credentials.Client.{
  CredentialValidationResult, valid, confirmed_rejected, indeterminate, validate,
}
use edge_weapon_detection_pl.Credentials.Monitor.{
  Attempt, AttemptEnd, keep_polling, reactivation_result, identity_unavailable, lock_not_persisted,
  invalid_identity, run_monitor,
}
use edge_weapon_detection_pl.Credentials.Activation.{
  KeyFile, Resolution, no_key, key_file_error, decode_error, resolved, resolve,
}
use edge_weapon_detection_pl.Credentials.Service.{
  ActivationEnd, ActivationState, ActivationWorld, first_activation, reactivation,
  already_activated, activate,
}
use edge_weapon_detection_pl.Runtime.Coordinator.{
  OperationalStateCoordinator, Called, Ending, Transition, Behaviour, start_operational_components,
  enter_reactivation_required, handle_validation_loop_result,
}

pub data StartupBranch : Type 0 where
  first reactivated locked_locally validated offline confirmed_rejection : StartupBranch

pub data MonitorTask : Type 0 where
  absent watching done : MonitorTask

-- The supervisor with what it owns: the stored identity and the key file, the coordinator, and the calls
-- of the components that were made.
pub record Supervisor : Type 0 where
  pub durable : ActivationState
  pub coordinator : Option OperationalStateCoordinator
  pub monitor_task : MonitorTask
  pub started : Bool
  pub shutdown_done : Bool
  pub client_closed : Bool
  pub startup_branch : Option StartupBranch
  pub fatal_error : Bool
  pub called : List Called

abbrev pub new_supervisor : ActivationState → Supervisor
new_supervisor durable = record {
  durable = durable;
  coordinator = none;
  monitor_task = absent;
  started = false;
  shutdown_done = false;
  client_closed = false;
  startup_branch = none;
  fatal_error = false;
  called = [];
}

-- What the startup meets: the Backend and the clock for the activation, its answer to the validation,
-- whether the lock can be stored, and the components with what they do.
pub record Surroundings (F : Type 0) : Type 0 where
  pub activation : ActivationWorld F
  pub answer : Response F
  pub lock_fails : Bool
  pub components : List ℕ
  pub behaviour : Behaviour
  pub owns_client : Bool

-- How `startup` ends: it returns, or what it raises.
pub data StartupEnd : Type 0 where
  up already_started identity_not_loaded key_unreadable activation_failed : StartupEnd
  identity_unusable key_missing structurally_invalid not_locked components_failed : StartupEnd

abbrev pub is_up : StartupEnd → Bool
is_up up = true
is_up already_started = false
is_up identity_not_loaded = false
is_up key_unreadable = false
is_up activation_failed = false
is_up identity_unusable = false
is_up key_missing = false
is_up structurally_invalid = false
is_up not_locked = false
is_up components_failed = false

-- `activate` returns; otherwise it raises.
abbrev pub is_activated : ActivationEnd → Bool
is_activated first_activation = true
is_activated reactivation = true
is_activated already_activated = true
is_activated end = false

abbrev pub activation_branch : Option DeviceIdentity → StartupBranch
activation_branch none = first
activation_branch (some identity) = reactivated

-- The state after a transition of the coordinator
abbrev pub moved : Supervisor → Transition → Supervisor
moved s t = record s { coordinator = some t.after; called = s.called ++ t.called }

abbrev pub after_start : Supervisor → Ending → Supervisor × StartupEnd
after_start s Ending.returns = (record s { monitor_task = watching }, up)
after_start s Ending.components_locked = (s, components_failed)
after_start s Ending.unknown_result = (s, components_failed)
after_start s Ending.not_persisted = (s, components_failed)
after_start s (Ending.start_failed c) = (s, components_failed)
after_start s (Ending.shutdown_failed cs) = (s, components_failed)

-- The wait for the monitor's task is not modelled: the task is done, or is cancelled here.
abbrev pub lock_coordinator :
    Behaviour → Option OperationalStateCoordinator → Supervisor → Supervisor
lock_coordinator b none s = s
lock_coordinator b (some c) s = moved s (enter_reactivation_required b c)

unfoldable pub on_monitor_fatal : Behaviour → Supervisor → Supervisor
on_monitor_fatal b s = lock_coordinator b s.coordinator (record s { fatal_error = true })

abbrev pub after_handling : Behaviour → Supervisor → Ending → Supervisor
after_handling b s Ending.returns = s
after_handling b s Ending.components_locked = on_monitor_fatal b s
after_handling b s Ending.unknown_result = on_monitor_fatal b s
after_handling b s Ending.not_persisted = on_monitor_fatal b s
after_handling b s (Ending.start_failed c) = on_monitor_fatal b s
after_handling b s (Ending.shutdown_failed cs) = on_monitor_fatal b s

abbrev pub coordinator_handle :
    Behaviour → Option OperationalStateCoordinator → Supervisor → Supervisor
coordinator_handle b none s = s
coordinator_handle b (some c) s =
    let t = handle_validation_loop_result b true c in after_handling b (moved s t) t.ending

-- The monitor's loop has made these attempts; it goes on, or it has ended.
abbrev pub monitor_ended : Behaviour → Supervisor → AttemptEnd → Supervisor
monitor_ended b s keep_polling = s
monitor_ended b s reactivation_result =
    coordinator_handle b s.coordinator (record s { monitor_task = done })
monitor_ended b s identity_unavailable = on_monitor_fatal b (record s { monitor_task = done })
monitor_ended b s lock_not_persisted = on_monitor_fatal b (record s { monitor_task = done })
monitor_ended b s invalid_identity = on_monitor_fatal b (record s { monitor_task = done })

abbrev pub after_attempts : Behaviour → Supervisor → Stored × AttemptEnd → Supervisor
after_attempts b s (stored, end) =
    monitor_ended b (record s { durable = record s.durable { stored = stored } }) end

abbrev pub while_watching : MonitorTask → Supervisor → Supervisor → Supervisor
while_watching absent s s' = s
while_watching done s s' = s
while_watching watching s s' = s'

unfoldable pub monitor_step : {F : Type 0} → Behaviour → List (Attempt F) → Supervisor → Supervisor
monitor_step b attempts s =
    while_watching s.monitor_task s (after_attempts b s (run_monitor attempts s.durable.stored))

unfoldable pub shutdown : Behaviour → Bool → Supervisor → Supervisor
shutdown b owns_client s =
    if s.shutdown_done
    then s
    else lock_coordinator b s.coordinator (record s {
      shutdown_done = true;
      monitor_task = absent;
      client_closed = if owns_client then true else s.client_closed;
    })

module _ {F : Type 0} (w : Surroundings F) where
  abbrev pub locked_coordinator : OperationalStateCoordinator
  locked_coordinator = record {
    components = w.components;
    state = reactivation_required;
    running = [];
  }

  abbrev pub enter_locked : StartupBranch → Supervisor → Supervisor
  enter_locked branch s = record s {
    startup_branch = some branch;
    coordinator = some locked_coordinator;
  }

  -- `_enter_operational`, with the coordinator of `from_identity`
  unfoldable pub enter_operational : DeviceIdentity → Supervisor → Supervisor × StartupEnd
  enter_operational identity s =
      let t =
        start_operational_components w.behaviour (record {
          components = w.components;
          state = identity.operational_state;
          running = [];
        }) in
      after_start (moved s t) t.ending

  abbrev pub enter_activated : Supervisor → Option (Option DeviceIdentity) → Supervisor × StartupEnd
  enter_activated s none = (s, identity_not_loaded)
  enter_activated s (some none) = (s, identity_unusable)
  enter_activated s (some (some identity)) =
      if can_authenticate identity then enter_operational identity s else (s, identity_unusable)

  abbrev pub after_activation :
      Option DeviceIdentity → Supervisor → ActivationState × ActivationEnd → Supervisor × StartupEnd
  after_activation before s (durable, end) =
      if is_activated end
      then enter_activated
          (record s { durable = durable; startup_branch = some (activation_branch before) })
          (load durable.stored)
      else (record s { durable = durable }, activation_failed)

  abbrev pub after_lock : Supervisor → Stored × Option IdentityError → Supervisor × StartupEnd
  after_lock s (stored, none) = (
    enter_locked confirmed_rejection (record s { durable = record s.durable { stored = stored } }),
    up,
  )
  after_lock s (stored, some e) = (
    enter_locked confirmed_rejection (record s { durable = record s.durable { stored = stored } }),
    not_locked,
  )

  abbrev pub after_startup_validation :
      DeviceIdentity → Supervisor → CredentialValidationResult → Supervisor × StartupEnd
  after_startup_validation identity s (confirmed_rejected status) =
      after_lock s (mark_reactivation_required s.durable.stored w.lock_fails)
  after_startup_validation identity s (valid status) =
      enter_operational identity (record s { startup_branch = some validated })
  after_startup_validation identity s (indeterminate reason status) =
      enter_operational identity (record s { startup_branch = some offline })

  abbrev pub startup_known : DeviceIdentity → Supervisor → Supervisor × StartupEnd
  startup_known identity s =
      if is_operational identity.operational_state
      then (if can_authenticate identity
          then after_startup_validation identity s (validate w.answer)
          else (s, structurally_invalid))
      else (enter_locked locked_locally s, up)

  abbrev pub startup_for : Option DeviceIdentity → Supervisor → Resolution → Supervisor × StartupEnd
  startup_for identity s key_file_error = (s, key_unreadable)
  startup_for identity s decode_error = (s, key_unreadable)
  startup_for identity s (resolved key source) =
      after_activation identity s (activate w.activation s.durable)
  startup_for none s no_key = (s, key_missing)
  startup_for (some identity) s no_key = startup_known identity s

  abbrev pub startup_loaded : Supervisor → Option (Option DeviceIdentity) → Supervisor × StartupEnd
  startup_loaded s none = (s, identity_not_loaded)
  startup_loaded s (some identity) =
      startup_for identity s (resolve w.activation.environment_key s.durable.key_file)

  unfoldable pub startup : Supervisor → Supervisor × StartupEnd
  startup s =
      if s.started
      then (s, already_started)
      else startup_loaded (record s { started = true }) (load s.durable.stored)

  abbrev pub or_shutdown : Supervisor × StartupEnd → Supervisor
  or_shutdown (s, end) = if is_up end then s else shutdown w.behaviour w.owns_client s

  -- `_start`: a startup that raises is followed by a shutdown.
  unfoldable pub start_runtime : Supervisor → Supervisor
  start_runtime s = or_shutdown (startup s)
