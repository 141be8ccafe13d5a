-- ===== src/Tests/Configuration.antt =====
-- The configuration's coordinator at concrete inputs.
use edge_weapon_detection_pl.Base.{
  ℕ, zero, suc, ap, arith, Option, String, true, false, some, List, [], ◌∷◌, map, ◌≡◌, refl,
}
use mathlib.Core.List.{Memᴰ}
use edge_weapon_detection_pl.Base.Int.{pos}
use edge_weapon_detection_pl.Base.Sets.{contains, add}
use edge_weapon_detection_pl.Time.{DateTime}
use edge_weapon_detection_pl.Identity.{DeviceIdentity, operational, is_well_formed}
use edge_weapon_detection_pl.Identity.Repository.{load}
use edge_weapon_detection_pl.Deepstream.{start, is_settable}
use edge_weapon_detection_pl.Configuration.{
  DeviceCameraConfig, DeviceConfiguration, resolve_camera_id,
}
use edge_weapon_detection_pl.Configuration.Validation.{
  validate_configuration, validate_camera_key, validate_output_path, validate_stream_url,
  check_cameras, matches_key,
}
use edge_weapon_detection_pl.Configuration.Client.{fetched}
use edge_weapon_detection_pl.Configuration.Coordinator.{
  Setting, CoordinatorState, constructed, Surroundings, Event, starting, polling, after_events,
  poll_once, start_coordinator, stop_bridge, apply_configuration, load_and_apply_cache,
}
use edge_weapon_detection_pl.Configuration.Client.{value, malformed}
use edge_weapon_detection_pl.Configuration.Serialization.{
  deserialize_configuration, serialize_configuration,
}
use edge_weapon_detection_pl.Configuration.Serialization.Restored.{
  device_fields, deserialize-serialize_configuration,
}
use edge_weapon_detection_pl.Configuration.Coordinator.Mapped.{after_events-resolve_camera_id}
use edge_weapon_detection_pl.Configuration.Coordinator.Unchanged.{same_version, after_events-same}

abbrev noon : DateTime
noon = record { is_aware = true; instant = 1000 }

abbrev device : DeviceIdentity
device = record {
  device_id = "d";
  shared_secret = some "s";
  activated_at = noon;
  last_activated_at = noon;
  operational_state = operational;
}

abbrev camera_named : ℕ → ℕ → String → String → DeviceCameraConfig
camera_named id order key path = record {
  camera_id = id;
  camera_key = key;
  name = "";
  stream_url = "rtsp://h";
  enabled = true;
  source_order = pos order;
  output_path = path;
}

abbrev door : DeviceCameraConfig
door = camera_named 21 0 "door" "cameras/door"

abbrev yard : DeviceCameraConfig
yard = camera_named 22 1 "yard" "cameras/yard"

abbrev configuration : DeviceConfiguration
configuration = record {
  schema_version = pos 1;
  configuration_version = "v";
  device_id = 7;
  branch_id = 8;
  generated_at_utc = noon;
  cameras = door ∷ yard ∷ [];
}

abbrev setting : Setting
setting = record {
  max_cameras = 4;
  serialize = λ c. "text";
  deserialize = λ text. malformed;
  urlparse = λ url. some ("rtsp", "h");
  uuid_of = λ text. some 7;
}

abbrev surroundings : Surroundings
surroundings = record {
  stored = some device;
  answer = fetched configuration;
  cache_fails = false;
  template_fails = false;
  spawn_fails = false;
}

-- The first launch of the process fails.
abbrev failing : Surroundings
failing = record surroundings { spawn_fails = true }

abbrev events : List (Event setting)
events = starting surroundings ∷ polling surroundings ∷ []

-- After the start and the first poll, the process runs with both cameras.
runs_both : (after_events setting constructed events).manager.process ≡ some (door ∷ yard ∷ [])
unfolding after_events start_coordinator poll_once load is_well_formed load_and_apply_cache
    validate_configuration check_cameras validate_camera_key validate_output_path
    validate_stream_url matches_key contains add apply_configuration stop_bridge start is_settable
runs_both = refl

after_events-resolve_camera_id_example :
    resolve_camera_id (after_events setting constructed events).tracker (pos 1) ≡ some 22
after_events-resolve_camera_id_example =
    after_events-resolve_camera_id setting events (door ∷ yard ∷ []) yard runs_both
      (Memᴰ.tail (Memᴰ.head refl)) refl

-- The configuration is applied, and its process could not be launched.
abbrev without_process : CoordinatorState
without_process = after_events setting constructed (starting failing ∷ polling failing ∷ [])

applied_without_process : without_process.applied ≡ some configuration
unfolding after_events start_coordinator poll_once load is_well_formed load_and_apply_cache
    validate_configuration check_cameras validate_camera_key validate_output_path
    validate_stream_url matches_key contains add apply_configuration stop_bridge start is_settable
applied_without_process = refl

-- The process is not launched by the polls that follow, though it could be.
after_events-same_example :
    after_events setting without_process (map (λ w. polling w) (surroundings ∷ surroundings ∷ []))
    ≡ without_process
after_events-same_example =
    after_events-same setting configuration (surroundings ∷ surroundings ∷ []) without_process
      applied_without_process
      (same_version configuration refl, (same_version configuration refl, tt))

-- The text of a number, with one character for each unit.
abbrev unary : ℕ → String
unary zero = ""
unary (suc n) = String.◌∷◌ "i" (unary n)

abbrev text_length : String → ℕ
text_length String.[] = 0
text_length (String.◌∷◌ c s) = suc (text_length s)

abbrev uuid_of : String → Option ℕ
uuid_of s = some (text_length s)

abbrev utc_of : String → Option DateTime
utc_of s = some (record { is_aware = true; instant = text_length s })

text_length-unary : (n : ℕ) → text_length (unary n) ≡ n
text_length-unary zero = refl
text_length-unary (suc n) = omega (arith, text_length-unary n)

reads_uuid : (n : ℕ) → uuid_of (unary n) ≡ some n
reads_uuid n = ap (λ m. some m) (text_length-unary n)

reads_utc : (t : DateTime) → t.is_aware ≡ true → utc_of (unary t.instant) ≡ some t
reads_utc t aware = ground (arith, text_length-unary t.instant)

deserialize-serialize_configuration_example :
    deserialize_configuration uuid_of utc_of {F = ℕ}
      (serialize_configuration unary (λ t. unary t.instant) configuration)
    ≡ value (device_fields configuration)
deserialize-serialize_configuration_example =
    deserialize-serialize_configuration uuid_of utc_of unary (λ t. unary t.instant) reads_uuid
      reads_utc configuration refl (refl, (refl, tt))
