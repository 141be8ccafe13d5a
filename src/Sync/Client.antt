-- ===== src/Sync/Client.antt =====
-- The answer of the Backend to a batch: agent/src/weapon_detection_agent/sync/client.py and
-- sync/models.py. `uuid_of` is the constructor `UUID` on a text, `none` its ValueError.
pub mod Verdict
use edge_weapon_detection_pl.Base.{
  ℕ, zero, suc, ◌≡◌, String, Bool, true, false, ◌&&◌, not, Option, none, some, List, [], ◌∷◌, ltb,
  leb, nat_beq, if◌then◌else◌,
}
use edge_weapon_detection_pl.Base.Eq.{◌==◌, nat_eq, string_eq}
use edge_weapon_detection_pl.Base.Int.{ℤ, pos}
use edge_weapon_detection_pl.Base.Dict.{Dict, get, put, pop}
use edge_weapon_detection_pl.Base.Sets.{contains, add, discard}
use edge_weapon_detection_pl.Json.{Value, Payload, Items, dict_of, list_of}

pub data SyncFailureReason : Type 0 where
  timeout transport_failure server_failure unauthorized : SyncFailureReason
  invalid_response unexpected_status : SyncFailureReason

pub record SyncEventQuotaInfo : Type 0 where
  pub maximum : ℤ
  pub local_date : String

pub record SyncBatchResult : Type 0 where
  pub accepted : List ℕ
  pub duplicate : List ℕ
  pub rejected : Dict ℕ String
  pub quota_exceeded : Dict ℕ SyncEventQuotaInfo
  pub alert_ids : Dict ℕ String

-- `SyncBatchResult | SyncBatchFailure`
pub data SyncOutcome : Type 0 where
  answered : SyncBatchResult → SyncOutcome
  failure : SyncFailureReason → Option ℕ → SyncOutcome

-- What the code distinguishes of an item's outcome.
pub data ItemOutcome : Type 0 where
  accepted duplicate rejected quota_exceeded unrecognized : ItemOutcome

abbrev pub outcome_named : String → ItemOutcome
outcome_named s =
    if s == "accepted"
    then ItemOutcome.accepted
    else if s == "duplicate"
    then ItemOutcome.duplicate
    else if s == "rejected"
    then ItemOutcome.rejected
    else if s == "quota_exceeded"
    then ItemOutcome.quota_exceeded
    else ItemOutcome.unrecognized

-- The local variables of `_parse_results`.
pub record Parsed : Type 0 where
  pub result : SyncBatchResult
  pub open result use *
  pub seen : List ℕ
  pub ambiguous : List ℕ

abbrev pub nothing_parsed : Parsed
nothing_parsed = record {
  result = record {
    accepted = [];
    duplicate = [];
    rejected = [];
    quota_exceeded = [];
    alert_ids = [];
  };
  seen = [];
  ambiguous = [];
}

-- One turn of the loop over the ambiguous ids.
unfoldable pub forget : SyncBatchResult → ℕ → SyncBatchResult
forget r event_id = record {
  accepted = discard r.accepted event_id;
  duplicate = discard r.duplicate event_id;
  rejected = pop r.rejected event_id;
  quota_exceeded = pop r.quota_exceeded event_id;
  alert_ids = pop r.alert_ids event_id;
}

unfoldable pub forget_all : List ℕ → SyncBatchResult → SyncBatchResult
forget_all [] r = r
forget_all (i ∷ is) r = forget_all is (forget r i)

-- `_invalid_response`
abbrev pub invalid : ℕ → SyncOutcome
invalid status = failure SyncFailureReason.invalid_response (some status)

module _ {F : Type 0} where
  -- isinstance(v, str)
  abbrev pub text_of : Option (Value F) → Option String
  text_of (some (Value.str s)) = some s
  text_of v = none

  abbrev pub text_or : Option (Value F) → String → String
  text_or v default = elim (text_of v) [ none ↦ default | some s ↦ s ]

  -- `isinstance(maximum, int)` holds of a bool too.
  abbrev pub int_or_zero : Option (Value F) → ℤ
  int_or_zero (some (Value.int n)) = n
  int_or_zero (some (Value.bool true)) = pos 1
  int_or_zero (some (Value.bool false)) = pos 0
  int_or_zero v = pos 0

  unfoldable pub parse_quota_info : Option (Value F) → SyncEventQuotaInfo
  parse_quota_info (some (Value.obj fields)) = record {
    maximum = int_or_zero (get (dict_of fields) "maximum");
    local_date = text_or (get (dict_of fields) "localDate") "";
  }
  parse_quota_info v = record { maximum = pos 0; local_date = "" }

  abbrev pub outcome_of : Payload F → ItemOutcome
  outcome_of item = elim (text_of (get item "outcome")) [
    | none ↦ ItemOutcome.unrecognized
    | some s ↦ outcome_named s
  ]

  -- alert_id = item.get("alertId"), where it is a text that is not empty
  abbrev pub add_alert : Payload F → ℕ → Dict ℕ String → Dict ℕ String
  add_alert item event_id alerts = elim (text_of (get item "alertId")) [
    | none ↦ alerts
    | some s ↦ if s == "" then alerts else put alerts event_id s
  ]

  abbrev pub classify_by : ItemOutcome → Payload F → ℕ → SyncBatchResult → SyncBatchResult
  classify_by ItemOutcome.accepted item event_id r = record r {
    accepted = add r.accepted event_id;
    alert_ids = add_alert item event_id r.alert_ids;
  }
  classify_by ItemOutcome.duplicate item event_id r = record r {
    duplicate = add r.duplicate event_id;
    alert_ids = add_alert item event_id r.alert_ids;
  }
  classify_by ItemOutcome.rejected item event_id r = record r {
    rejected = put r.rejected event_id (text_or (get item "errorCode") "UNKNOWN");
  }
  classify_by ItemOutcome.quota_exceeded item event_id r = record r {
    quota_exceeded = put r.quota_exceeded event_id (parse_quota_info (get item "quota"));
  }
  classify_by ItemOutcome.unrecognized item event_id r = r

  unfoldable pub classify_item : Payload F → ℕ → SyncBatchResult → SyncBatchResult
  classify_item item event_id r = classify_by (outcome_of item) item event_id r

  abbrev pub parse_id : (String → Option ℕ) → Payload F → Option ℕ
  parse_id uuid_of item = elim (text_of (get item "eventId")) [ none ↦ none | some s ↦ uuid_of s ]

  -- One turn of the loop, for an item that is an object.
  abbrev pub parse_named : Payload F → Option ℕ → Parsed → Parsed
  parse_named item none p = p
  parse_named item (some event_id) p =
      if contains p.seen event_id
      then record p { ambiguous = add p.ambiguous event_id }
      else record p { result = classify_item item event_id p.result; seen = add p.seen event_id }

  unfoldable pub parse_item : (String → Option ℕ) → Value F → Parsed → Parsed
  parse_item uuid_of (Value.obj fields) p =
      parse_named (dict_of fields) (parse_id uuid_of (dict_of fields)) p
  parse_item uuid_of v p = p

  unfoldable pub parse_items : (String → Option ℕ) → List (Value F) → Parsed → Parsed
  parse_items uuid_of [] p = p
  parse_items uuid_of (v ∷ vs) p = parse_items uuid_of vs (parse_item uuid_of v p)

  unfoldable pub parse_results : (String → Option ℕ) → List (Value F) → SyncBatchResult
  unfolding parse_items forget_all
  parse_results uuid_of results =
      let p = parse_items uuid_of results nothing_parsed in forget_all p.ambiguous p.result

  abbrev pub parse_result_list : (String → Option ℕ) → ℕ → Option (Value F) → SyncOutcome
  parse_result_list uuid_of status (some (Value.arr items)) =
      answered (parse_results uuid_of (list_of items))
  parse_result_list uuid_of status v = invalid status

  abbrev pub parse_data : (String → Option ℕ) → ℕ → Option (Value F) → SyncOutcome
  parse_data uuid_of status (some (Value.obj fields)) =
      parse_result_list uuid_of status (get (dict_of fields) "results")
  parse_data uuid_of status v = invalid status

  -- payload.get("success") is True
  abbrev pub is_true : Option (Value F) → Bool
  is_true (some (Value.bool true)) = true
  is_true v = false

  -- `body` is what `_safe_json` gives, `none` for a body that is no JSON.
  unfoldable pub parse_success : (String → Option ℕ) → ℕ → Option (Value F) → SyncOutcome
  parse_success uuid_of status (some (Value.obj fields)) =
      if is_true (get (dict_of fields) "success")
      then parse_data uuid_of status (get (dict_of fields) "data")
      else invalid status
  parse_success uuid_of status v = invalid status

  unfoldable pub classify : (String → Option ℕ) → ℕ → Option (Value F) → SyncOutcome
  unfolding parse_success
  classify uuid_of status body =
      if nat_beq status 200
      then parse_success uuid_of status body
      else if nat_beq status 401
      then failure SyncFailureReason.unauthorized (some status)
      else if leb 500 status && ltb status 600
      then failure SyncFailureReason.server_failure (some status)
      else failure SyncFailureReason.unexpected_status (some status)

-- What the HTTP client gives for a request: an exception of its own, or a status with a body.
pub data Response (F : Type 0) : Type 0 where
  timed_out : Response F
  transport_error : Response F
  response : ℕ → Option (Value F) → Response F

-- The part of `send_batch` behind the request.
unfoldable pub batch_outcome : {F : Type 0} → (String → Option ℕ) → Response F → SyncOutcome
unfolding classify
batch_outcome uuid_of timed_out = failure SyncFailureReason.timeout none
batch_outcome uuid_of transport_error = failure SyncFailureReason.transport_failure none
batch_outcome uuid_of (response status body) = classify uuid_of status body
