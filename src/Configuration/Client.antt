-- ===== src/Configuration/Client.antt =====
-- The Backend's answer to a request for the configuration: agent/src/weapon_detection_agent/
-- configuration/client.py. `uuid_of` is the constructor `UUID` on a text and `utc_of` the reading of
-- an ISO-8601 text in UTC, `none` their ValueError; the HTTP client is given by its answers.
use edge_weapon_detection_pl.Base.{
  ℕ, String, Bool, true, false, Option, none, some, List, [], ◌∷◌, ltb, leb, nat_beq, length,
  if◌then◌else◌,
}
use edge_weapon_detection_pl.Base.Eq.{string_eq}
use edge_weapon_detection_pl.Base.Int.{ℤ, pos}
use edge_weapon_detection_pl.Base.Dict.{get}
use edge_weapon_detection_pl.Time.{DateTime}
use edge_weapon_detection_pl.Json.{Value, Payload, dict_of, list_of}
use edge_weapon_detection_pl.Sync.Client.{is_true}
use edge_weapon_detection_pl.Configuration.{DeviceCameraConfig, DeviceConfiguration}

pub data ConfigurationFailureReason : Type 0 where
  unauthorized unavailable invalid_response timeout transport_failure : ConfigurationFailureReason

-- What `fetch` returns; `uncaught` is the AttributeError of `UUID` on a value that is no text.
pub data Fetched : Type 0 where
  fetched : DeviceConfiguration → Fetched
  failure : ConfigurationFailureReason → Option ℕ → Fetched
  uncaught : Fetched

-- The HTTP client's exception, or the status, the size of the content, and its JSON if it is any.
pub data ConfigurationResponse (F : Type 0) : Type 0 where
  timed_out transport_error : ConfigurationResponse F
  response : ℕ → ℕ → Option (Value F) → ConfigurationResponse F

-- A value that is read, or what makes the reader return None, or an AttributeError.
pub data Read {ℓ} (A : Type ℓ) : Type ℓ where
  value : A → Read A
  malformed : Read A
  attribute_error : Read A

infixl 5 ◌>>=◌
abbrev pub ◌>>=◌ {ℓ κ} : {A : Type ℓ} {B : Type κ} → Read A → (A → Read B) → Read B
value a >>= f = f a
malformed >>= f = malformed
attribute_error >>= f = attribute_error

abbrev pub read_option {ℓ} : {A : Type ℓ} → Option A → Read A
read_option none = malformed
read_option (some a) = value a

abbrev pub read_if : Bool → Read (Unit {0})
read_if true = value tt
read_if false = malformed

abbrev pub fetched_of : ℕ → Read DeviceConfiguration → Fetched
fetched_of status (value configuration) = fetched configuration
fetched_of status malformed = failure invalid_response (some status)
fetched_of status attribute_error = uncaught

module _ {F : Type 0} where
  abbrev pub as_text : Value F → Read String
  as_text (Value.str s) = value s
  as_text v = malformed

  abbrev pub as_bool : Value F → Read Bool
  as_bool (Value.bool b) = value b
  as_bool v = malformed

  abbrev pub as_int : Value F → Read ℤ
  as_int (Value.int n) = value n
  as_int v = malformed

  -- isinstance(v, int), which holds of a bool too
  abbrev pub as_version : Value F → Read ℤ
  as_version (Value.int n) = value n
  as_version (Value.bool true) = value (pos 1)
  as_version (Value.bool false) = value (pos 0)
  as_version v = malformed

  abbrev pub as_list : Value F → Read (List (Value F))
  as_list (Value.arr items) = value (list_of items)
  as_list v = malformed

  -- UUID(v)
  abbrev pub as_uuid : (String → Option ℕ) → Value F → Read ℕ
  as_uuid uuid_of (Value.str s) = read_option (uuid_of s)
  as_uuid uuid_of Value.null = malformed
  as_uuid uuid_of v = attribute_error

  abbrev pub as_utc : (String → Option DateTime) → Value F → Read DateTime
  as_utc utc_of (Value.str s) = read_option (utc_of s)
  as_utc utc_of v = malformed

module _ (uuid_of : String → Option ℕ) (utc_of : String → Option DateTime) {F : Type 0} where
  abbrev pub read_camera_fields : Payload F → Read DeviceCameraConfig
  read_camera_fields raw = do
    id ← read_option (get raw "cameraId")
    camera_id ← as_uuid uuid_of id
    raw_key ← read_option (get raw "cameraKey")
    raw_name ← read_option (get raw "name")
    raw_url ← read_option (get raw "streamUrl")
    raw_enabled ← read_option (get raw "enabled")
    raw_order ← read_option (get raw "sourceOrder")
    raw_path ← read_option (get raw "outputPath")
    camera_key ← as_text raw_key
    name ← as_text raw_name
    stream_url ← as_text raw_url
    enabled ← as_bool raw_enabled
    source_order ← as_int raw_order
    output_path ← as_text raw_path
    value (record {
      camera_id = camera_id;
      camera_key = camera_key;
      name = name;
      stream_url = stream_url;
      enabled = enabled;
      source_order = source_order;
      output_path = output_path;
    })

  unfoldable pub parse_camera : Value F → Read DeviceCameraConfig
  parse_camera (Value.obj fields) = read_camera_fields (dict_of fields)
  parse_camera v = malformed

  unfoldable pub parse_cameras : List (Value F) → Read (List DeviceCameraConfig)
  unfolding parse_camera
  parse_cameras [] = value []
  parse_cameras (raw ∷ raws) = do
    camera ← parse_camera raw
    cameras ← parse_cameras raws
    value (camera ∷ cameras)

  abbrev pub read_configuration : ℕ → Payload F → Read DeviceConfiguration
  read_configuration max_cameras data' = do
    raw_schema ← read_option (get data' "schemaVersion")
    raw_version ← read_option (get data' "configurationVersion")
    raw_device ← read_option (get data' "deviceId")
    device_id ← as_uuid uuid_of raw_device
    raw_branch ← read_option (get data' "branchId")
    branch_id ← as_uuid uuid_of raw_branch
    raw_generated ← read_option (get data' "generatedAtUtc")
    generated_at_utc ← as_utc utc_of raw_generated
    raw_cameras ← read_option (get data' "cameras")
    schema_version ← as_version raw_schema
    configuration_version ← as_text raw_version
    items ← as_list raw_cameras
    within ← read_if (leb (length items) max_cameras)
    cameras ← parse_cameras items
    value (record {
      schema_version = schema_version;
      configuration_version = configuration_version;
      device_id = device_id;
      branch_id = branch_id;
      generated_at_utc = generated_at_utc;
      cameras = cameras;
    })

  unfoldable pub parse_configuration : ℕ → Option (Value F) → Read DeviceConfiguration
  unfolding parse_cameras
  parse_configuration max_cameras (some (Value.obj fields)) =
      read_configuration max_cameras (dict_of fields)
  parse_configuration max_cameras v = malformed

  abbrev pub parse_payload : ℕ → ℕ → Option (Value F) → Fetched
  parse_payload max_cameras status (some (Value.obj fields)) =
      if is_true (get (dict_of fields) "success")
      then fetched_of status (parse_configuration max_cameras (get (dict_of fields) "data"))
      else failure invalid_response (some status)
  parse_payload max_cameras status v = failure invalid_response (some status)

  unfoldable pub parse_success : ℕ → ℕ → ℕ → Option (Value F) → Fetched
  unfolding parse_configuration
  parse_success max_cameras status size body =
      if ltb 0x100000 size
      then failure invalid_response (some status)
      else parse_payload max_cameras status body

  unfoldable pub classify : ℕ → ℕ → ℕ → Option (Value F) → Fetched
  unfolding parse_success
  classify max_cameras status size body =
      if nat_beq status 200
      then parse_success max_cameras status size body
      else if nat_beq status 401
      then failure unauthorized (some status)
      else if nat_beq status 503
      then failure unavailable (some status)
      else failure invalid_response (some status)

  -- `fetch` behind its request.
  unfoldable pub fetch : ℕ → ConfigurationResponse F → Fetched
  unfolding classify
  fetch max_cameras timed_out = failure timeout none
  fetch max_cameras transport_error = failure transport_failure none
  fetch max_cameras (response status size body) = classify max_cameras status size body
