-- ===== src/Configuration/Serialization.antt =====
-- The configuration as the agent caches it: agent/src/weapon_detection_agent/configuration/
-- serialization.py, between the dataclass and the value that `json.dumps` writes and `json.loads` reads.
-- `uuid_text` and `iso_of` are `str` of a UUID and `to_iso_utc`, and `uuid_of` and `utc_of` their readers.
pub mod Restored
use edge_weapon_detection_pl.Base.{
  ℕ, String, Bool, true, false, Option, none, some, List, [], ◌∷◌, nat_beq, if◌then◌else◌,
}
use Prim.Native.Char.{code}
use edge_weapon_detection_pl.Base.Eq.{◌==◌, string_eq}
use edge_weapon_detection_pl.Base.Int.{ℤ}
use edge_weapon_detection_pl.Base.Dict.{get}
use edge_weapon_detection_pl.Time.{DateTime}
use edge_weapon_detection_pl.Json.{Value, Items, Fields, Payload, dict_of, list_of}
use edge_weapon_detection_pl.Configuration.{DeviceCameraConfig, DeviceConfiguration}
use edge_weapon_detection_pl.Configuration.Client.{
  Read, value, malformed, attribute_error, ◌>>=◌, read_option, as_uuid, as_utc,
}

-- The dataclasses as they are made from a cached value, whose fields nobody has checked.
pub record CachedCamera (F : Type 0) : Type 0 where
  pub camera_id : ℕ
  pub camera_key : String
  pub name : Value F
  pub stream_url : Value F
  pub enabled : Value F
  pub source_order : Value F
  pub output_path : Value F

pub record CachedDevice (F : Type 0) : Type 0 where
  pub schema_version : Value F
  pub configuration_version : Value F
  pub device_id : ℕ
  pub branch_id : ℕ
  pub generated_at_utc : DateTime
  pub cameras : List (CachedCamera F)

-- text[len(prefix):], where the text starts with the prefix
abbrev pub without_prefix : String → String → Option String
without_prefix String.[] s = some s
without_prefix (String.◌∷◌ p ps) String.[] = none
without_prefix (String.◌∷◌ p ps) (String.◌∷◌ c s) =
    let rest = without_prefix ps s in if nat_beq (code p) (code c) then rest else none

abbrev pub non_empty : Option String → Read String
non_empty none = malformed
non_empty (some s) = if s == "" then malformed else value s

module _ {F : Type 0} where
  abbrev pub recovered_key : Value F → Read String
  recovered_key (Value.str path) = non_empty (without_prefix "cameras/" path)
  recovered_key v = malformed

  abbrev pub key_or : Option (Value F) → Read String → Read String
  key_or (some (Value.str key)) rest = if key == "" then rest else value key
  key_or v rest = rest

  unfoldable pub parse_camera_key : Payload F → Read String
  parse_camera_key raw =
      key_or (get raw "cameraKey") do path ← read_option (get raw "outputPath"); recovered_key path

  -- What the comprehension over `data["cameras"]` runs over. A text that is not empty and an object
  -- give texts, which are no camera entries.
  abbrev pub entries : Value F → Read (List (Value F))
  entries (Value.arr items) = value (list_of items)
  entries (Value.str text) = if text == "" then value [] else malformed
  entries (Value.obj Fields.end) = value []
  entries v = malformed

module _ (uuid_of : String → Option ℕ) (utc_of : String → Option DateTime) {F : Type 0} where
  abbrev pub camera_of : Payload F → Read (CachedCamera F)
  camera_of raw = do
    id ← read_option (get raw "cameraId")
    camera_id ← as_uuid uuid_of id
    camera_key ← parse_camera_key raw
    name ← read_option (get raw "name")
    stream_url ← read_option (get raw "streamUrl")
    enabled ← read_option (get raw "enabled")
    source_order ← read_option (get raw "sourceOrder")
    output_path ← read_option (get raw "outputPath")
    value (record {
      camera_id = camera_id;
      camera_key = camera_key;
      name = name;
      stream_url = stream_url;
      enabled = enabled;
      source_order = source_order;
      output_path = output_path;
    })

  unfoldable pub cached_camera : Value F → Read (CachedCamera F)
  unfolding parse_camera_key
  cached_camera (Value.obj fields) = camera_of (dict_of fields)
  cached_camera v = malformed

  unfoldable pub cached_cameras : List (Value F) → Read (List (CachedCamera F))
  unfolding cached_camera
  cached_cameras [] = value []
  cached_cameras (raw ∷ raws) = do
    camera ← cached_camera raw
    cameras ← cached_cameras raws
    value (camera ∷ cameras)

  abbrev pub device_of : Payload F → Read (CachedDevice F)
  device_of fields = do
    schema_version ← read_option (get fields "schemaVersion")
    configuration_version ← read_option (get fields "configurationVersion")
    raw_device ← read_option (get fields "deviceId")
    device_id ← as_uuid uuid_of raw_device
    raw_branch ← read_option (get fields "branchId")
    branch_id ← as_uuid uuid_of raw_branch
    raw_generated ← read_option (get fields "generatedAtUtc")
    generated_at_utc ← as_utc utc_of raw_generated
    raw_cameras ← read_option (get fields "cameras")
    raws ← entries raw_cameras
    cameras ← cached_cameras raws
    value (record {
      schema_version = schema_version;
      configuration_version = configuration_version;
      device_id = device_id;
      branch_id = branch_id;
      generated_at_utc = generated_at_utc;
      cameras = cameras;
    })

  unfoldable pub deserialize_configuration : Value F → Read (CachedDevice F)
  unfolding cached_cameras
  deserialize_configuration (Value.obj fields) = device_of (dict_of fields)
  deserialize_configuration v = malformed

module _ (uuid_text : ℕ → String) (iso_of : DateTime → String) {F : Type 0} where
  unfoldable pub serialize_camera : DeviceCameraConfig → Value F
  serialize_camera c = Value.obj (
      Fields.field "cameraId" (Value.str (uuid_text c.camera_id)) (
        Fields.field "cameraKey" (Value.str c.camera_key) (
          Fields.field "name" (Value.str c.name) (
            Fields.field "streamUrl" (Value.str c.stream_url) (
              Fields.field "enabled" (Value.bool c.enabled) (
                Fields.field "sourceOrder" (Value.int c.source_order)
                  (Fields.field "outputPath" (Value.str c.output_path) Fields.end)))))))

  unfoldable pub serialize_cameras : List DeviceCameraConfig → Items F
  unfolding serialize_camera
  serialize_cameras [] = Items.nil
  serialize_cameras (c ∷ cameras) = Items.cons (serialize_camera c) (serialize_cameras cameras)

  unfoldable pub serialize_configuration : DeviceConfiguration → Value F
  unfolding serialize_cameras
  serialize_configuration c = Value.obj (
      Fields.field "schemaVersion" (Value.int c.schema_version) (
        Fields.field "configurationVersion" (Value.str c.configuration_version) (
          Fields.field "deviceId" (Value.str (uuid_text c.device_id)) (
            Fields.field "branchId" (Value.str (uuid_text c.branch_id)) (
              Fields.field "generatedAtUtc" (Value.str (iso_of c.generated_at_utc)) (
                Fields.field "cameras" (Value.arr (serialize_cameras c.cameras))
                  (Fields.field "pipelineHash" (Value.str c.configuration_version) Fields.end)))))))
