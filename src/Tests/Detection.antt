-- ===== src/Tests/Detection.antt =====
-- Duplicate suppression and validation at concrete inputs.
use edge_weapon_detection_pl.Base.{
  ℕ, ◌≡◌, ◌+◌, refl, arith, true, false, some, none, List, [], ◌∷◌, String,
}
use edge_weapon_detection_pl.Base.Int.{pos, int_eq}
use edge_weapon_detection_pl.Base.Eq.{string_eq}
use edge_weapon_detection_pl.Base.Dict.{get, put}
use edge_weapon_detection_pl.Base.Text.{is_blank, is_space}
use edge_weapon_detection_pl.Cooldown.{accept, suppress, start_tracker, evaluate, identity_key}
use edge_weapon_detection_pl.Cooldown.Window.{Visit, Windowed, evaluate_all, evaluate_all-Windowed}
use edge_weapon_detection_pl.Time.{DateTime}
use edge_weapon_detection_pl.Json.{Value, Fields, Payload, dict_of}
use edge_weapon_detection_pl.Event.{DetectionEvent, is_consistent}
use edge_weapon_detection_pl.Validation.{
  Context, RawFacts, normalize_v2_payload, check_facts, clamp_event, validate_detection, read_facts,
  required_float, derive_size, construct, min_float, required_int, optional_int,
}
use edge_weapon_detection_pl.Validation.Outcome.{pass}
use edge_weapon_detection_pl.Validation.Clamp.{clamp_event_total}
use edge_weapon_detection_pl.Validation.Accepted.{IsFaithful, validate_detection-IsFaithful}
use edge_weapon_detection_pl.Tests.Floats.{thousandths, thousandths_laws, int_below}

abbrev visit : String → ℕ → Visit
visit class_name at = record {
  device_id = "d";
  camera_id = "c";
  class_name = class_name;
  decided_at = at;
  committed_at = at;
}

-- Two guns within a cooldown of ten, a knife between them, and a gun behind it.
abbrev visits : List Visit
visits = visit "gun" 100 ∷ visit "knife" 104 ∷ visit "gun" 109 ∷ visit "gun" 110 ∷ []

evaluate_all-Windowed_example :
    Windowed 10 ("d", "c", "gun") none visits (accept ∷ accept ∷ suppress ∷ accept ∷ [])
unfolding evaluate_all evaluate identity_key is_blank is_space get put
evaluate_all-Windowed_example =
    evaluate_all-Windowed (start_tracker 10) ("d", "c", "gun") visits
      (accept ∷ accept ∷ suppress ∷ accept ∷ []) refl

abbrev noon : DateTime
noon = record { is_aware = true; instant = 1000 }

abbrev context : Context thousandths
context = record {
  device_id = "d";
  camera_id = "c";
  class_names = (pos 0, "gun") ∷ [];
  min_confidence = 400;
  now = noon;
  event_id = 7;
}

-- A v2 message, whose box hangs over the right edge of its frame.
abbrev message : Payload ℕ
message = dict_of (
    Fields.field "classId" (Value.int (pos 0)) (
      Fields.field "sourceId" (Value.int (pos 2)) (
        Fields.field "frameNumber" (Value.int (pos 30)) (
          Fields.field "frame_width" (Value.int (pos 640)) (
            Fields.field "frame_height" (Value.int (pos 480)) (
              Fields.field "confidence" (Value.float 900) (
                Fields.field "boundingBox"
                  (Value.obj (
                    Fields.field "left" (Value.int (pos 600)) (
                      Fields.field "top" (Value.int (pos 10)) (
                        Fields.field "width" (Value.int (pos 100))
                          (Fields.field "height" (Value.int (pos 50)) Fields.end)))))
                  Fields.end)))))))

abbrev accepted : DetectionEvent ℕ
accepted = record {
  event_id = 7;
  device_id = "d";
  camera_id = "c";
  source_id = pos 2;
  class_id = pos 0;
  class_name = "gun";
  confidence = 900;
  frame_number = pos 30;
  detected_at_utc = noon;
  frame_width = pos 640;
  frame_height = pos 480;
  bbox_left = 600000;
  bbox_top = 10000;
  bbox_width = 40000;
  bbox_height = 50000;
  created_at_utc = none;
}

validate_detection-IsFaithful_example :
    IsFaithful thousandths (normalize_v2_payload message) context accepted
unfolding validate_detection normalize_v2_payload required_int optional_int get put read_facts
    required_float check_facts derive_size clamp_event construct is_consistent min_float
validate_detection-IsFaithful_example =
    validate_detection-IsFaithful thousandths (normalize_v2_payload message) context {e = accepted}
      refl

abbrev facts : RawFacts thousandths
facts = record {
  class_id = pos 0;
  source_id = pos 2;
  frame_number = pos 30;
  frame_width = some (pos 640);
  frame_height = some (pos 480);
  confidence = 900;
  bbox_left = 600000;
  bbox_top = 10000;
  bbox_width = 100000;
  bbox_height = 50000;
}

clamp_event_total_example :
    (e : DetectionEvent ℕ) × (clamp_event thousandths context facts "gun" (pos 640) (pos 480)
      ≡ pass e)
    × (int_below (pos 640) (e.bbox_left + e.bbox_width) ≡ false)
    × (int_below (pos 480) (e.bbox_top + e.bbox_height) ≡ false)
unfolding check_facts
clamp_event_total_example =
    clamp_event_total thousandths thousandths_laws context facts "gun" 639 479 640000 480000 refl
      refl (omega arith) refl (omega arith) refl
