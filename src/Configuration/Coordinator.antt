-- ===== src/Configuration/Coordinator.antt =====
-- The coordinator that fetches and applies the configuration: agent/src/weapon_detection_agent/
-- configuration/coordinator.py, with persistence/config_cache_repository.py and the file that
-- deepstream/config_generator.py writes. A call runs to its end: a stop falls between two polls.
pub mod Serving
pub mod Mapped
pub mod Unchanged
use edge_weapon_detection_pl.Base.{
  ℕ, String, Bool, true, false, not, ◌||◌, Option, none, some, List, [], ◌∷◌, any, if◌then◌else◌,
}
use edge_weapon_detection_pl.Base.Eq.{◌==◌, string_eq}
use edge_weapon_detection_pl.Time.{DateTime}
use edge_weapon_detection_pl.Identity.{DeviceIdentity, is_operational}
use edge_weapon_detection_pl.Identity.Repository.{Stored, load}
use edge_weapon_detection_pl.Deepstream.{
  ProcessManager, StartError, create, start, stop, watch, is_settable,
}
use edge_weapon_detection_pl.Configuration.{
  DeviceCameraConfig, DeviceConfiguration, SourceGenerationTracker, no_generation, install,
}
use edge_weapon_detection_pl.Configuration.Validation.{Rejection, validate_configuration}
use edge_weapon_detection_pl.Configuration.Client.{
  Read, value, malformed, attribute_error, Fetched, fetched, failure, uncaught,
}

-- What the coordinator is constructed with, and the library's functions.
pub record Setting : Type 0 where
  pub max_cameras : ℕ
  pub serialize : DeviceConfiguration → String
  pub deserialize : String → Read DeviceConfiguration
  pub urlparse : String → Option (String × String)
  pub uuid_of : String → Option ℕ

-- `generated` is the file of the generated configuration, `cached` the row of ConfigCache.
pub record CoordinatorState : Type 0 where
  pub applied : Option DeviceConfiguration
  pub tracker : SourceGenerationTracker
  pub bridge_running : Bool
  pub has_task : Bool
  pub manager : ProcessManager (List DeviceCameraConfig)
  pub generated : Option (List DeviceCameraConfig)
  pub cached : Option (String × DateTime)

abbrev pub constructed : CoordinatorState
constructed = record {
  applied = none;
  tracker = no_generation;
  bridge_running = false;
  has_task = false;
  manager = create;
  generated = none;
  cached = none;
}

-- What a call meets: the stored identity, the answer to its request, and what fails in it.
pub record Surroundings : Type 0 where
  pub stored : Stored
  pub answer : Fetched
  pub cache_fails : Bool
  pub template_fails : Bool
  pub spawn_fails : Bool

-- How a call ends: it returns True or False, or an exception leaves it.
pub data CallEnd : Type 0 where
  finished refused raised : CallEnd

-- `generate_runtime_config` writes the file; otherwise it raises, and has written nothing.
abbrev pub generates : Surroundings → List DeviceCameraConfig → Bool
generates w cameras = not (w.template_fails || any (λ c. not (is_settable c.stream_url)) cameras)

abbrev pub is_empty : List DeviceCameraConfig → Bool
is_empty [] = true
is_empty (c ∷ cameras) = false

abbrev pub started :
    CoordinatorState
    → ProcessManager (List DeviceCameraConfig) × Option StartError
    → CoordinatorState × CallEnd
started s (manager, none) = (record s { manager = manager; bridge_running = true }, finished)
started s (manager, some error) = (record s { manager = manager }, raised)

-- The process reads the file that the coordinator has just written.
abbrev pub start_bridge :
    Surroundings → List DeviceCameraConfig → CoordinatorState → CoordinatorState × CallEnd
start_bridge w cameras s =
    if is_empty cameras then (s, finished) else started s (start cameras w.spawn_fails s.manager)

abbrev pub install_configuration : DeviceConfiguration → CoordinatorState → CoordinatorState
install_configuration c s = record s {
  generated = some c.cameras;
  tracker = install s.tracker c;
  applied = some c;
}

-- `_apply`, and the start of the process behind it
unfoldable pub apply_configuration :
    Surroundings → DeviceConfiguration → CoordinatorState → CoordinatorState × CallEnd
apply_configuration w c s =
    if generates w c.cameras
    then start_bridge w c.cameras (install_configuration c s)
    else (s, raised)

unfoldable pub stop_bridge : CoordinatorState → CoordinatorState
stop_bridge s =
    if s.bridge_running then record s { manager = stop s.manager; bridge_running = false } else s

abbrev pub has_version : Option DeviceConfiguration → DeviceConfiguration → Bool
has_version none c = false
has_version (some applied) c = applied.configuration_version == c.configuration_version

-- `save` of ConfigCacheRepository: the row is written over.
abbrev pub save_cached : String → DateTime → CoordinatorState → CoordinatorState
save_cached text at s = record s { cached = some (text, at) }

module _ (setting : Setting) where
  -- `save`, and `_apply_async`
  abbrev pub save_and_apply :
      Surroundings → DeviceConfiguration → CoordinatorState → CoordinatorState × CallEnd
  save_and_apply w c s =
      if w.cache_fails
      then (s, raised)
      else apply_configuration w c
          (stop_bridge (save_cached (setting.serialize c) c.generated_at_utc s))

  abbrev pub after_validation :
      Surroundings
      → DeviceConfiguration
      → CoordinatorState
      → Option Rejection
      → CoordinatorState × CallEnd
  after_validation w c s (some (Rejection.reason text)) = (s, refused)
  after_validation w c s (some Rejection.unparsable_url) = (s, raised)
  after_validation w c s none =
      if has_version s.applied c then (s, finished) else save_and_apply w c s

  abbrev pub validate_fetched :
      Surroundings → DeviceConfiguration → CoordinatorState → Option ℕ → CoordinatorState × CallEnd
  validate_fetched w c s none = (s, raised)
  validate_fetched w c s (some expected) =
      after_validation w c s
        (validate_configuration setting.urlparse c expected setting.max_cameras)

  abbrev pub after_fetch :
      Surroundings → DeviceIdentity → CoordinatorState → Fetched → CoordinatorState × CallEnd
  after_fetch w identity s (fetched c) = validate_fetched w c s (setting.uuid_of identity.device_id)
  after_fetch w identity s (failure reason status) = (s, refused)
  after_fetch w identity s uncaught = (s, raised)

  abbrev pub poll_loaded :
      Surroundings → CoordinatorState → Option (Option DeviceIdentity) → CoordinatorState × CallEnd
  poll_loaded w s none = (s, raised)
  poll_loaded w s (some none) = (s, finished)
  poll_loaded w s (some (some identity)) =
      if is_operational identity.operational_state
      then after_fetch w identity s w.answer
      else (s, finished)

  unfoldable pub poll_once : Surroundings → CoordinatorState → CoordinatorState × CallEnd
  poll_once w s = poll_loaded w s (load w.stored)

  -- The rules on what the cache holds; their ValueError is caught here.
  abbrev pub apply_cached :
      Surroundings
      → DeviceConfiguration
      → CoordinatorState
      → Option Rejection
      → CoordinatorState × CallEnd
  apply_cached w c s none = apply_configuration w c s
  apply_cached w c s (some rejection) = (s, refused)

  abbrev pub read_cached :
      Surroundings → ℕ → CoordinatorState → Read DeviceConfiguration → CoordinatorState × CallEnd
  read_cached w expected s malformed = (s, refused)
  read_cached w expected s attribute_error = (s, raised)
  read_cached w expected s (value c) =
      apply_cached w c s (validate_configuration setting.urlparse c expected setting.max_cameras)

  abbrev pub load_cached :
      Surroundings → ℕ → CoordinatorState → Option (String × DateTime) → CoordinatorState × CallEnd
  load_cached w expected s none = (s, refused)
  load_cached w expected s (some (text, at)) = read_cached w expected s (setting.deserialize text)

  unfoldable pub load_and_apply_cache :
      Surroundings → ℕ → CoordinatorState → CoordinatorState × CallEnd
  load_and_apply_cache w expected s =
      if w.cache_fails then (s, raised) else load_cached w expected s s.cached

  abbrev pub cache_for : Surroundings → CoordinatorState → Option ℕ → CoordinatorState × CallEnd
  cache_for w s none = (s, raised)
  cache_for w s (some expected) = load_and_apply_cache w expected s

  abbrev pub start_loaded :
      Surroundings → CoordinatorState → Option (Option DeviceIdentity) → CoordinatorState × CallEnd
  start_loaded w s none = (s, raised)
  start_loaded w s (some none) = (s, finished)
  start_loaded w s (some (some identity)) =
      if is_operational identity.operational_state
      then cache_for w s (setting.uuid_of identity.device_id)
      else (s, finished)

  abbrev pub with_task : CoordinatorState × CallEnd → CoordinatorState × CallEnd
  with_task (s, raised) = (s, raised)
  with_task (s, finished) = (record s { has_task = true }, finished)
  with_task (s, refused) = (record s { has_task = true }, finished)

  unfoldable pub start_coordinator : Surroundings → CoordinatorState → CoordinatorState × CallEnd
  start_coordinator w s =
      if s.has_task then (s, finished) else with_task (start_loaded w s (load w.stored))

  unfoldable pub stop_coordinator : CoordinatorState → CoordinatorState
  stop_coordinator s = stop_bridge (record s { has_task = false })

  -- What happens to the coordinator and to its process. The loop polls while it has its task.
  pub data Event : Type 0 where
    starting polling : Surroundings → Event
    stopping exiting : Event

  abbrev pub after_event : CoordinatorState → Event → CoordinatorState
  after_event s (starting w) = (start_coordinator w s).0
  after_event s (polling w) = if s.has_task then (poll_once w s).0 else s
  after_event s stopping = stop_coordinator s
  after_event s exiting = record s { manager = watch s.manager }

  unfoldable pub after_events : CoordinatorState → List Event → CoordinatorState
  after_events s [] = s
  after_events s (e ∷ events) = after_events (after_event s e) events
