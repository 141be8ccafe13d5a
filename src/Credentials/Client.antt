-- ===== src/Credentials/Client.antt =====
-- The answer of the Backend to a validation of the credentials: agent/src/weapon_detection_agent/
-- validation/client.py and validation/models.py. The HTTP client is given by its answers.
use edge_weapon_detection_pl.Base.{
  ℕ, String, Bool, true, false, ◌&&◌, Option, none, some, ltb, leb, nat_beq, if◌then◌else◌,
}
use edge_weapon_detection_pl.Base.Eq.{◌==◌, string_eq}
use edge_weapon_detection_pl.Base.Dict.{get}
use edge_weapon_detection_pl.Json.{Value, Payload, dict_of}
use edge_weapon_detection_pl.Sync.Client.{Response, timed_out, transport_error, response, is_true}

pub data IndeterminateReason : Type 0 where
  timeout transport_failure server_failure unexpected_status invalid_response : IndeterminateReason

pub data CredentialValidationResult : Type 0 where
  valid confirmed_rejected : ℕ → CredentialValidationResult
  indeterminate : IndeterminateReason → Option ℕ → CredentialValidationResult

abbrev pub invalid_validation : ℕ → CredentialValidationResult
invalid_validation status = indeterminate IndeterminateReason.invalid_response (some status)

module _ {F : Type 0} where
  -- payload.get("success") is False
  abbrev pub is_false : Option (Value F) → Bool
  is_false (some (Value.bool false)) = true
  is_false v = false

  -- payload.get(key) is None
  abbrev pub is_null : Option (Value F) → Bool
  is_null none = true
  is_null (some Value.null) = true
  is_null v = false

  abbrev pub equals_text : Option (Value F) → String → Bool
  equals_text (some (Value.str s)) text = s == text
  equals_text v text = false

  abbrev pub affirms : Payload F → Bool
  affirms payload =
      is_true (get payload "success")
      && (is_null (get payload "errorCode") && is_null (get payload "data"))

  abbrev pub rejects : Payload F → Bool
  rejects payload =
      is_false (get payload "success")
      && equals_text (get payload "errorCode") "INVALID_DEVICE_CREDENTIALS"

  -- `body` is what `_safe_json` gives, `none` for a body that is no JSON.
  unfoldable pub classify_success : ℕ → Option (Value F) → CredentialValidationResult
  classify_success status (some (Value.obj fields)) =
      if affirms (dict_of fields) then valid status else invalid_validation status
  classify_success status v = invalid_validation status

  unfoldable pub classify_rejection : ℕ → Option (Value F) → CredentialValidationResult
  classify_rejection status (some (Value.obj fields)) =
      if rejects (dict_of fields) then confirmed_rejected status else invalid_validation status
  classify_rejection status v = invalid_validation status

  unfoldable pub classify_validation : ℕ → Option (Value F) → CredentialValidationResult
  unfolding classify_success classify_rejection
  classify_validation status body =
      if nat_beq status 200
      then classify_success status body
      else if nat_beq status 401
      then classify_rejection status body
      else if leb 500 status && ltb status 600
      then indeterminate IndeterminateReason.server_failure (some status)
      else indeterminate IndeterminateReason.unexpected_status (some status)

  -- `validate` behind its request.
  unfoldable pub validate : Response F → CredentialValidationResult
  unfolding classify_validation
  validate timed_out = indeterminate IndeterminateReason.timeout none
  validate transport_error = indeterminate IndeterminateReason.transport_failure none
  validate (response status body) = classify_validation status body
