-- ===== src/Credentials/Activation.antt =====
-- The activation key and the Backend's answer to an activation: agent/src/weapon_detection_agent/
-- activation/key_resolver.py, activation/backend_client.py and activation/models.py. The HTTP client
-- and the key file are given by what they hold.
pub mod Secret
use edge_weapon_detection_pl.Base.{
  ℕ, String, Bool, true, false, Option, none, some, nat_beq, if◌then◌else◌, ◌>>=◌,
}
use edge_weapon_detection_pl.Base.Eq.{string_eq}
use edge_weapon_detection_pl.Base.Dict.{get}
use edge_weapon_detection_pl.Base.Text.{is_blank, strip}
use edge_weapon_detection_pl.Json.{Value, Payload, dict_of}
use edge_weapon_detection_pl.Sync.Client.{text_of, is_true}

pub data KeySource : Type 0 where
  environment file : KeySource

-- The configured key file; `undecodable` is one that is no UTF-8.
pub data KeyFile : Type 0 where
  missing unreadable undecodable : KeyFile
  content : String → KeyFile

-- What `resolve` returns, or its ActivationKeyFileError, or the UnicodeDecodeError that it does not
-- catch.
pub data Resolution : Type 0 where
  no_key key_file_error decode_error : Resolution
  resolved : String → KeySource → Resolution

abbrev pub resolve_file : KeyFile → Resolution
resolve_file missing = no_key
resolve_file unreadable = key_file_error
resolve_file undecodable = decode_error
resolve_file (content raw) =
    if is_blank (strip raw) then key_file_error else resolved (strip raw) file

unfoldable pub resolve : Option String → KeyFile → Resolution
unfolding is_blank strip
resolve (some key) key_file = resolved key environment
resolve none key_file = resolve_file key_file

pub record ActivationResult : Type 0 where
  pub device_id : String
  pub shared_secret : String
  pub branch_id : String

-- What the HTTP client gives for the request: an exception, or a status with a body, which may be no
-- JSON or no UTF-8.
pub data Body (F : Type 0) : Type 0 where
  json : Value F → Body F
  not_json not_utf8 : Body F

pub data ActivationResponse (F : Type 0) : Type 0 where
  timed_out transport_error : ActivationResponse F
  response : ℕ → Body F → ActivationResponse F

-- What `BackendActivationClient.activate` returns or raises; `uncaught` is a UnicodeDecodeError.
pub data Activating : Type 0 where
  activated : ActivationResult → Activating
  activation_timeout transport_failed invalid_response uncaught : Activating
  rejected : Option String → Activating
  server_error : ℕ → Activating

abbrev pub non_blank : Option String → Option String
non_blank none = none
non_blank (some s) = if is_blank s then none else some s

abbrev pub activating_of : Option ActivationResult → Activating
activating_of none = invalid_response
activating_of (some result) = activated result

module _ {F : Type 0} where
  -- `none` is the ValueError for a field that is missing, no text, or blank.
  unfoldable pub require_non_blank_str : Payload F → String → Option String
  require_non_blank_str payload key = non_blank (text_of (get payload key))

  abbrev pub result_of : Payload F → Option ActivationResult
  result_of payload = do
    device_id ← require_non_blank_str payload "deviceId"
    shared_secret ← require_non_blank_str payload "sharedSecret"
    branch_id ← require_non_blank_str payload "branchId"
    some (record { device_id = device_id; shared_secret = shared_secret; branch_id = branch_id })

  unfoldable pub from_response_data : Option (Value F) → Option ActivationResult
  unfolding require_non_blank_str
  from_response_data (some (Value.obj fields)) = result_of (dict_of fields)
  from_response_data v = none

  unfoldable pub parse_activation : Body F → Activating
  parse_activation (json (Value.obj fields)) =
      if is_true (get (dict_of fields) "success")
      then activating_of (from_response_data (get (dict_of fields) "data"))
      else invalid_response
  parse_activation (json v) = invalid_response
  parse_activation not_json = invalid_response
  parse_activation not_utf8 = uncaught

  unfoldable pub safe_error_code : Body F → Activating
  safe_error_code (json (Value.obj fields)) = rejected (text_of (get (dict_of fields) "errorCode"))
  safe_error_code (json v) = rejected none
  safe_error_code not_json = rejected none
  safe_error_code not_utf8 = uncaught

  -- `activate` behind its request.
  unfoldable pub backend_activate : ActivationResponse F → Activating
  unfolding parse_activation safe_error_code
  backend_activate timed_out = activation_timeout
  backend_activate transport_error = transport_failed
  backend_activate (response status body) =
      if nat_beq status 200
      then parse_activation body
      else if nat_beq status 401
      then safe_error_code body
      else server_error status
