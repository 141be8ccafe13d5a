-- ===== src/Tests/Ingest.antt =====
-- The consumer of the ingest handler at concrete inputs.
use edge_weapon_detection_pl.Base.{ℕ, refl, true, false, some, none, List, [], ◌∷◌, Option}
use edge_weapon_detection_pl.Base.Int.{pos, int_eq}
use edge_weapon_detection_pl.Base.Dict.{get}
use edge_weapon_detection_pl.Time.{DateTime}
use edge_weapon_detection_pl.Json.{Value, Fields, Payload, dict_of}
use edge_weapon_detection_pl.Cooldown.{start_tracker}
use edge_weapon_detection_pl.EventStore.{no_faults}
use edge_weapon_detection_pl.Ingest.{IngestState, IngestConfig, Moment, Writer}
use edge_weapon_detection_pl.Ingest.Acknowledged.{IsHonest, process_all, process_all-IsHonest}
use edge_weapon_detection_pl.Tests.Floats.{thousandths}

abbrev noon : DateTime
noon = record { is_aware = true; instant = 1000 }

abbrev config : IngestConfig ℕ
config = record {
  device_id_provider = some "d";
  camera_id = "c";
  camera_id_resolver = none;
  class_names = (pos 0, "gun") ∷ [];
  min_confidence = 400;
  snapshot_capture_enabled = true;
}

abbrev started : IngestState ℕ
started = record { device_id = none; cooldown = start_tracker 10; events = []; acks = [] }

started-IsHonest : IsHonest started
unfolding get
started-IsHonest = record { promises = refl; windows = λ key. refl }

abbrev moment : ℕ → ℕ → Moment
moment id at = record {
  now = noon;
  event_id = id;
  decided_at = at;
  created_at = noon;
  faults = no_faults;
  committed_at = at;
}

abbrev open_writer : Writer
open_writer = record { is_closing = false; write_fails = false }

abbrev message : Payload ℕ
message = dict_of (
    Fields.field "schemaVersion" (Value.int (pos 2)) (
      Fields.field "messageId" (Value.str "m") (
        Fields.field "classId" (Value.int (pos 0)) (
          Fields.field "sourceId" (Value.int (pos 2)) (
            Fields.field "frameNumber" (Value.int (pos 30)) (
              Fields.field "confidence" (Value.float 900) (
                Fields.field "boundingBox"
                  (Value.obj (
                    Fields.field "left" (Value.int (pos 600)) (
                      Fields.field "top" (Value.int (pos 10)) (
                        Fields.field "width" (Value.int (pos 100))
                          (Fields.field "height" (Value.int (pos 50)) Fields.end)))))
                  Fields.end)))))))

-- A detection, the same one within the cooldown, and one behind it.
abbrev calls : List (Moment × Option Writer × Payload ℕ)
calls =
    (moment 7 100, some open_writer, message)
    ∷ (moment 8 105, some open_writer, message)
    ∷ (moment 9 120, some open_writer, message)
    ∷ []

process_all-IsHonest_example : IsHonest (process_all thousandths config started calls)
process_all-IsHonest_example =
    process_all-IsHonest thousandths config started calls started-IsHonest
