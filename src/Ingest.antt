-- ===== src/Ingest.antt =====
-- The consumer's side of the ingest handler: `_process`, `_send_ack` and `_resolve_device_id` of
-- agent/src/weapon_detection_agent/detection/ingest_handler.py.
pub mod Acknowledged
pub mod Connection
use edge_weapon_detection_pl.Base.{
  ℕ, zero, suc, String, Bool, true, false, ◌&&◌, Option, none, some, List, [], ◌∷◌, ◌++◌,
  if◌then◌else◌, ◌≡◌,
}
use edge_weapon_detection_pl.Base.Eq.{◌==◌, string_eq}
use edge_weapon_detection_pl.Base.Int.{ℤ, pos, int_eq, int_beq}
use edge_weapon_detection_pl.Base.Dict.{Dict, get}
use edge_weapon_detection_pl.Time.{DateTime}
use edge_weapon_detection_pl.Float.{Float}
use edge_weapon_detection_pl.Json.{Value, Payload}
use edge_weapon_detection_pl.Event.{DetectionEvent}
use edge_weapon_detection_pl.Validation.{Context, normalize_v2_payload, validate_detection}
use edge_weapon_detection_pl.Validation.Outcome.{
  Check, pass, reject, raise, DetectionRejectionReason, unresolved_camera_source,
}
use edge_weapon_detection_pl.Cooldown.{
  DetectionCooldownTracker, CooldownDecision, accept, suppress, decide, commit,
}
use edge_weapon_detection_pl.EventStore.{Row, InsertError, Faults, insert}

-- The outcomes that an acknowledgement names.
pub data AckOutcome : Type 0 where
  accepted : ℕ → AckOutcome
  suppressed : AckOutcome
  rejected : DetectionRejectionReason → AckOutcome

-- The body of an acknowledgement; `event_id` and `error_code` stand in its outcome.
pub record Ack : Type 0 where
  pub message_id : String
  pub outcome : AckOutcome
  pub snapshot_required : Bool

-- A payload's connection, while it is open; a write to it that fails is swallowed.
pub record Writer : Type 0 where
  pub is_closing : Bool
  pub write_fails : Bool

unfoldable pub send_ack : Writer → Ack → List Ack → List Ack
send_ack writer ack acks =
    if writer.is_closing then acks else if writer.write_fails then acks else acks ++ ack ∷ []

-- `writer` is `none` for a call without a connection.
abbrev pub ack_if : Option (Writer × String) → AckOutcome → Bool → List Ack → List Ack
ack_if none outcome snapshot_required acks = acks
ack_if (some (writer, message_id)) outcome snapshot_required acks =
    send_ack writer
      (record { message_id = message_id; outcome = outcome; snapshot_required = snapshot_required })
      acks

-- What `_process` reads and writes; `acks` are the acknowledgements that were written so far.
pub record IngestState (F : Type 0) : Type 0 where
  pub device_id : Option String
  pub cooldown : DetectionCooldownTracker
  pub events : List (Row F)
  pub acks : List Ack

-- What the handler was constructed with. The provider of the device's id and the resolver of a
-- source's camera are callables; `none` from the provider is an exception.
pub record IngestConfig (F : Type 0) : Type 0 where
  pub device_id_provider : Option String
  pub camera_id : String
  pub camera_id_resolver : Option (ℤ → Option String)
  pub class_names : Dict ℤ String
  pub min_confidence : F
  pub snapshot_capture_enabled : Bool

-- The readings of the clocks, the id that is made up, and where the database fails, in one call.
pub record Moment : Type 0 where
  pub now : DateTime
  pub event_id : ℕ
  pub decided_at : ℕ
  pub created_at : DateTime
  pub faults : Faults
  pub committed_at : ℕ

-- payload.get("schema_version", payload.get("schemaVersion"))
abbrev pub schema_version_of : {F : Type 0} → Payload F → Option (Value F)
schema_version_of payload = elim (get payload "schema_version") [
  | some v ↦ some v
  | none ↦ get payload "schemaVersion"
]

-- isinstance(raw_source_id, int) and not isinstance(raw_source_id, bool)
abbrev pub int_of : {F : Type 0} → Option (Value F) → Option ℤ
int_of (some (Value.int n)) = some n
int_of v = none

abbrev pub string_of : {F : Type 0} → Option (Value F) → Option String
string_of (some (Value.str s)) = some s
string_of v = none

-- `_resolve_device_id`: the id, and what is cached afterwards.
unfoldable pub resolve_device_id : Option String → Option String → Option String
resolve_device_id (some cached) provider = some cached
resolve_device_id none provider = provider

-- The camera of a payload; `none` is a source that is rejected.
abbrev pub resolve_by : {F : Type 0} → (ℤ → Option String) → Option (Value F) → Option String
resolve_by resolver v = elim (int_of v) [ none ↦ none | some n ↦ resolver n ]

unfoldable pub camera_of : {F : Type 0} → IngestConfig F → Payload F → Option String
camera_of cfg payload = elim cfg.camera_id_resolver [
  | none ↦ some cfg.camera_id
  | some resolver ↦ resolve_by resolver (get payload "source_id")
]

abbrev pub target_if : Bool → Option Writer → Option String → Option (Writer × String)
target_if true (some writer) (some message_id) = some (writer, message_id)
target_if v2 writer message_id = none

module _ (float : Float) where
  open float use {F, le, of_int}

  -- v == n, for Python's numbers: a bool is 0 or 1, and a float may equal an int.
  unfoldable pub equals_int : Option (Value F) → ℕ → Bool
  equals_int (some (Value.int m)) n = int_beq m (pos n)
  equals_int (some (Value.bool true)) n = int_beq (pos 1) (pos n)
  equals_int (some (Value.bool false)) n = int_beq (pos 0) (pos n)
  equals_int (some (Value.float x)) n = elim (of_int (pos n)) [
    | none ↦ false
    | some y ↦ le x y && le y x
  ]
  equals_int v n = false

  abbrev pub is_v2 : Payload F → Bool
  is_v2 payload = equals_int (schema_version_of payload) 2

  abbrev pub ack_target : Option Writer → Payload F → Option (Writer × String)
  ack_target writer payload = target_if (is_v2 payload) writer (string_of (get payload "messageId"))

  -- From the insert on.
  abbrev pub after_commit :
      IngestConfig F
      → Option (Writer × String)
      → DetectionEvent F
      → List (Row F)
      → IngestState F
      → Option DetectionCooldownTracker
      → IngestState F
  after_commit cfg target event events s none = record s { events = events }
  after_commit cfg target event events s (some cooldown) = record s {
    cooldown = cooldown;
    events = events;
    acks = ack_if target (accepted event.event_id) cfg.snapshot_capture_enabled s.acks;
  }

  -- An insert that raises is logged, whatever it raises.
  abbrev pub after_insert :
      IngestConfig F
      → Moment
      → Option (Writer × String)
      → DetectionEvent F
      → List (Row F) × Option InsertError
      → IngestState F
      → IngestState F
  after_insert cfg m target event (events, some error) s = record s { events = events }
  after_insert cfg m target event (events, none) s =
      after_commit cfg target event events s
        (commit s.cooldown event.device_id event.camera_id event.class_name m.committed_at)

  -- `none` is the ValueError of `decide` for a blank part, which `_consume` logs.
  abbrev pub after_decide :
      IngestConfig F
      → Moment
      → Option (Writer × String)
      → DetectionEvent F
      → Option CooldownDecision
      → IngestState F
      → IngestState F
  after_decide cfg m target event none s = s
  after_decide cfg m target event (some suppress) s = record s {
    acks = ack_if target suppressed false s.acks;
  }
  after_decide cfg m target event (some accept) s =
      after_insert cfg m target event (insert s.events event m.created_at m.faults) s

  abbrev pub after_validation :
      IngestConfig F
      → Moment
      → Option (Writer × String)
      → Check (DetectionEvent F)
      → IngestState F
      → IngestState F
  after_validation cfg m target (raise e) s = s
  after_validation cfg m target (reject reason field) s = record s {
    acks = ack_if target (rejected reason) false s.acks;
  }
  after_validation cfg m target (pass event) s =
      after_decide cfg m target event
        (decide s.cooldown event.device_id event.camera_id event.class_name m.decided_at) s

  abbrev pub context_of : IngestConfig F → Moment → String → String → Context float
  context_of cfg m device_id camera_id = record {
    device_id = device_id;
    camera_id = camera_id;
    class_names = cfg.class_names;
    min_confidence = cfg.min_confidence;
    now = m.now;
    event_id = m.event_id;
  }

  -- The id is cached before the validation starts.
  abbrev pub process_for :
      IngestConfig F
      → Moment
      → Option (Writer × String)
      → Payload F
      → String
      → Option String
      → IngestState F
      → IngestState F
  process_for cfg m target payload camera_id none s = s
  process_for cfg m target payload camera_id (some device_id) s =
      after_validation cfg m target
        (validate_detection float payload (context_of cfg m device_id camera_id))
        (record s { device_id = some device_id })

  abbrev pub process_from :
      IngestConfig F
      → Moment
      → Option (Writer × String)
      → Payload F
      → Option String
      → IngestState F
      → IngestState F
  process_from cfg m target payload none s = record s {
    acks = ack_if target (rejected unresolved_camera_source) false s.acks;
  }
  process_from cfg m target payload (some camera_id) s =
      process_for cfg m target payload camera_id
        (resolve_device_id s.device_id cfg.device_id_provider) s

  abbrev pub normalized : Payload F → Payload F
  normalized payload = if is_v2 payload then normalize_v2_payload payload else payload

  -- `_process`, with the handler of `_consume` around it: what it raises is logged.
  unfoldable pub process :
      IngestConfig F → Moment → Option Writer → Payload F → IngestState F → IngestState F
  process cfg m writer payload s =
      process_from cfg m (ack_target writer payload) (normalized payload)
        (camera_of cfg (normalized payload)) s
