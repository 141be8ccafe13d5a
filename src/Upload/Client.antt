-- ===== src/Upload/Client.antt =====
-- The answer of the Backend to an uploaded snapshot: agent/src/weapon_detection_agent/snapshot/client.py
-- and snapshot/models.py. The HTTP client is given by its answers.
use edge_weapon_detection_pl.Base.{
  ℕ, String, ◌&&◌, ◌||◌, Option, none, some, ltb, leb, nat_beq, if◌then◌else◌,
}
use edge_weapon_detection_pl.Base.Eq.{◌==◌, string_eq}
use edge_weapon_detection_pl.Base.Dict.{get}
use edge_weapon_detection_pl.Json.{Value, dict_of}
use edge_weapon_detection_pl.Sync.Client.{
  Response, timed_out, transport_error, response, text_of, is_true,
}

pub data SnapshotUploadOutcome : Type 0 where
  accepted duplicate : SnapshotUploadOutcome

pub data SnapshotUploadFailureReason : Type 0 where
  timeout transport_failure server_failure unauthorized : SnapshotUploadFailureReason
  invalid_response unexpected_status conflict : SnapshotUploadFailureReason
  local_file_missing local_file_modified : SnapshotUploadFailureReason

-- the text that is stored as the row's error category
abbrev pub reason_value : SnapshotUploadFailureReason → String
reason_value timeout = "timeout"
reason_value transport_failure = "transport_failure"
reason_value server_failure = "server_failure"
reason_value unauthorized = "unauthorized"
reason_value invalid_response = "invalid_response"
reason_value unexpected_status = "unexpected_status"
reason_value conflict = "conflict"
reason_value local_file_missing = "local_file_missing"
reason_value local_file_modified = "local_file_modified"

-- `SnapshotUploadResult | SnapshotUploadFailure`
pub data UploadOutcome : Type 0 where
  stored : SnapshotUploadOutcome → UploadOutcome
  failure : SnapshotUploadFailureReason → Option ℕ → UploadOutcome

abbrev pub invalid_upload : ℕ → UploadOutcome
invalid_upload status = failure SnapshotUploadFailureReason.invalid_response (some status)

abbrev pub upload_named : ℕ → String → UploadOutcome
upload_named status s =
    if s == "accepted"
    then stored SnapshotUploadOutcome.accepted
    else if s == "duplicate"
    then stored SnapshotUploadOutcome.duplicate
    else invalid_upload status

abbrev pub outcome_text : ℕ → Option String → UploadOutcome
outcome_text status none = invalid_upload status
outcome_text status (some s) = upload_named status s

module _ {F : Type 0} where
  -- data.get("outcome") where `data` is a dict
  abbrev pub data_outcome : Option (Value F) → Option String
  data_outcome (some (Value.obj fields)) = text_of (get (dict_of fields) "outcome")
  data_outcome v = none

  -- `body` is what `_safe_json` gives, `none` for a body that is no JSON.
  unfoldable pub parse_upload : ℕ → Option (Value F) → UploadOutcome
  parse_upload status (some (Value.obj fields)) =
      if is_true (get (dict_of fields) "success")
      then outcome_text status (data_outcome (get (dict_of fields) "data"))
      else invalid_upload status
  parse_upload status v = invalid_upload status

  unfoldable pub classify_upload : ℕ → Option (Value F) → UploadOutcome
  unfolding parse_upload
  classify_upload status body =
      if nat_beq status 201 || nat_beq status 200
      then parse_upload status body
      else if nat_beq status 401
      then failure SnapshotUploadFailureReason.unauthorized (some status)
      else if nat_beq status 409
      then failure SnapshotUploadFailureReason.conflict (some status)
      else if leb 500 status && ltb status 600
      then failure SnapshotUploadFailureReason.server_failure (some status)
      else failure SnapshotUploadFailureReason.unexpected_status (some status)

  -- The part of `upload` behind the request.
  unfoldable pub upload_outcome : Response F → UploadOutcome
  unfolding classify_upload
  upload_outcome timed_out = failure SnapshotUploadFailureReason.timeout none
  upload_outcome transport_error = failure SnapshotUploadFailureReason.transport_failure none
  upload_outcome (response status body) = classify_upload status body
