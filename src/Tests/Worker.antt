-- ===== src/Tests/Worker.antt =====
-- An iteration of the upload at concrete inputs.
use edge_weapon_detection_pl.Base.{
  ap, sym, String, false, ◌≡◌, ℕ, refl, true, some, none, [], ◌∷◌, if◌then◌else◌,
}
use edge_weapon_detection_pl.Base.Eq.{◌==◌, string_eq}
use edge_weapon_detection_pl.Base.Int.{pos}
use edge_weapon_detection_pl.Base.Dict.{Dict, get, put}
use edge_weapon_detection_pl.Base.Sets.{contains, add}
use edge_weapon_detection_pl.Sync.Client.Verdict.{has}
use edge_weapon_detection_pl.Time.{DateTime}
use edge_weapon_detection_pl.Json.{Value, Fields, Items}
use edge_weapon_detection_pl.Event.{DetectionEvent}
use edge_weapon_detection_pl.Base.Rows.{count_rows}
use edge_weapon_detection_pl.SnapshotOutbox.Ready.{ready_of}
use edge_weapon_detection_pl.Sync.Worker.Forgotten.{IsForgotten, AnswersItsBatch}
use edge_weapon_detection_pl.Sync.Worker.LateCapture.{
  iteration, capture, run_later, late_capture_never_ready,
}
use edge_weapon_detection_pl.EventStore.{set_delivered, new_row}
use edge_weapon_detection_pl.Identity.{DeviceIdentity, operational}
use edge_weapon_detection_pl.Sync.Client.{
  response, batch_outcome, SyncOutcome, answered, failure, parse_results, parse_item, classify_item,
}
use edge_weapon_detection_pl.Sync.Worker.{SyncState, SyncConfig, World, drain_once}
use edge_weapon_detection_pl.Sync.Worker.Settled.{Ended, drain_once-Ended}
use edge_weapon_detection_pl.Tests.Floats.{thousandths}

abbrev at_time : ℕ → DateTime
at_time n = record { is_aware = true; instant = n }

abbrev event : DetectionEvent ℕ
event = record {
  event_id = 1;
  device_id = "d";
  camera_id = "c";
  source_id = pos 0;
  class_id = pos 0;
  class_name = "gun";
  confidence = 900;
  frame_number = pos 30;
  detected_at_utc = at_time 50;
  frame_width = pos 640;
  frame_height = pos 480;
  bbox_left = 10;
  bbox_top = 10;
  bbox_width = 40;
  bbox_height = 50;
  created_at_utc = none;
}

abbrev state : SyncState ℕ
state = record { events = new_row event (at_time 60) ∷ []; outbox = []; files = [] }

abbrev identity : DeviceIdentity
identity = record {
  device_id = "d";
  shared_secret = some "s";
  activated_at = at_time 1;
  last_activated_at = at_time 2;
  operational_state = operational;
}

abbrev body : Value ℕ
body = Value.obj (
    Fields.field "success" (Value.bool true) (
      Fields.field "data"
        (Value.obj (
          Fields.field "results"
            (Value.arr (
              Items.cons
                (Value.obj (
                  Fields.field "eventId" (Value.str "one")
                    (Fields.field "outcome" (Value.str "accepted") Fields.end)))
                Items.nil))
            Fields.end))
        Fields.end))

abbrev world : World ℕ
world = record {
  uuid_of = λ s. if s == "one" then some 1 else none;
  answer = λ batch. response 200 (some body);
  delivered_at = record { time = at_time 70; fails = false };
  finalized_at = record { time = at_time 71; fails = true };
  list_fails = false;
}

abbrev config : SyncConfig
config = record { batch_size = 50; has_sinks = true }

drain_once-Ended_example :
    Ended thousandths world state 50
      (some (some identity))
      (drain_once thousandths config world state (some (some identity)))
drain_once-Ended_example = drain_once-Ended thousandths config world state (some (some identity))

-- The detection was delivered before its snapshot arrived.
abbrev delivered_state : SyncState ℕ
delivered_state = record {
  events = set_delivered (at_time 70) (new_row event (at_time 60)) ∷ [];
  outbox = [];
  files = [];
}

delivered-IsForgotten : IsForgotten 1 delivered_state
delivered-IsForgotten = record { quiet = refl; no_alert = refl }

abbrev alerts_of : SyncOutcome → Dict ℕ String
alerts_of (answered r) = r.alert_ids
alerts_of (failure reason status) = []

-- The answer of this Backend names no alert.
world-AnswersItsBatch : AnswersItsBatch world
unfolding batch_outcome parse_results parse_item classify_item get put contains add
world-AnswersItsBatch = record {
  own_alerts = λ batch r i answer absent. ap (λ o. has (alerts_of o) i) (sym answer);
}

late_capture_never_ready_example :
    count_rows
      (ready_of 1)
      (run_later thousandths config delivered_state (
        capture 1 "1.jpg" 11 "hash" (at_time 80) false
        ∷ iteration world world-AnswersItsBatch (some (some identity))
        ∷ [])).outbox
    ≡ 0
late_capture_never_ready_example =
    late_capture_never_ready thousandths config 1 delivered_state
      (capture 1 "1.jpg" 11 "hash" (at_time 80) false
        ∷ iteration world world-AnswersItsBatch (some (some identity))
        ∷ [])
      delivered-IsForgotten
