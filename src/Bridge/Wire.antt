-- ===== src/Bridge/Wire.antt =====
-- What the Bridge reads from the pipeline's metadata and puts on the wire: deployment/jetson/
-- deepstream/bridge/app/deepstream_bridge/probe.py and `build_detection_message` of protocol.py. The
-- linked lists of pyds are lists here; `text` is the formatting of a confidence, `ids` the generator
-- of message identifiers at its successive calls.
pub mod Agreement
use edge_weapon_detection_pl.Base.{
  ℕ, suc, ◌+◌, String, Option, none, some, List, [], ◌∷◌, ◌++◌, map, length,
}
use edge_weapon_detection_pl.Base.Int.{ℤ, pos}
use edge_weapon_detection_pl.Json.{Value, Payload, Fields}

abbrev pub schema_version : ℕ
schema_version = 2

-- NvDsObjectMeta, with its rect_params
pub record ObjectMeta (F : Type 0) : Type 0 where
  pub class_id : ℤ
  pub confidence : F
  pub left : F
  pub top : F
  pub width : F
  pub height : F
  pub obj_label : String
  pub display_text : String

-- NvDsFrameMeta
pub record FrameMeta (F : Type 0) : Type 0 where
  pub source_id : ℤ
  pub frame_num : ℤ
  pub source_frame_width : ℤ
  pub source_frame_height : ℤ
  pub obj_meta_list : List (ObjectMeta F)

pub record RawDetection (F : Type 0) : Type 0 where
  pub schema_version : ℤ
  pub message_id : String
  pub class_id : ℤ
  pub confidence : F
  pub source_id : ℤ
  pub frame_number : ℤ
  pub frame_width : ℤ
  pub frame_height : ℤ
  pub bbox_left : F
  pub bbox_top : F
  pub bbox_width : F
  pub bbox_height : F

-- The calls that `handle_buffer` makes, in their order.
pub data ProbeCall (F : Type 0) : Type 0 where
  on_candidate : ℤ → String → ℤ → ProbeCall F
  enqueue : Payload F → ProbeCall F

module _ {F : Type 0} where
  -- the flat fields, which the Agent read before version 2
  unfoldable pub to_payload : RawDetection F → Payload F
  to_payload r =
      ("schema_version", Value.int r.schema_version)
      ∷ ("message_id", Value.str r.message_id)
      ∷ ("class_id", Value.int r.class_id)
      ∷ ("confidence", Value.float r.confidence)
      ∷ ("source_id", Value.int r.source_id)
      ∷ ("frame_number", Value.int r.frame_number)
      ∷ ("frame_width", Value.int r.frame_width)
      ∷ ("frame_height", Value.int r.frame_height)
      ∷ ("bbox_left", Value.float r.bbox_left)
      ∷ ("bbox_top", Value.float r.bbox_top)
      ∷ ("bbox_width", Value.float r.bbox_width)
      ∷ ("bbox_height", Value.float r.bbox_height)
      ∷ []

  abbrev pub bounding_box : F → F → F → F → Fields F
  bounding_box left top width height = Fields.field "left" (Value.float left) (
      Fields.field "top" (Value.float top) (
        Fields.field "width" (Value.float width)
          (Fields.field "height" (Value.float height) Fields.end)))

  unfoldable pub build_detection_message : String → ℤ → ℤ → ℤ → F → F → F → F → F → Payload F
  build_detection_message message_id source_id frame_number class_id confidence left top width
        height =
      ("schemaVersion", Value.int (pos schema_version))
      ∷ ("messageId", Value.str message_id)
      ∷ ("sourceId", Value.int source_id)
      ∷ ("frameNumber", Value.int frame_number)
      ∷ ("classId", Value.int class_id)
      ∷ ("confidence", Value.float confidence)
      ∷ ("boundingBox", Value.obj (bounding_box left top width height))
      ∷ []

  unfoldable pub to_wire_message : RawDetection F → Payload F
  unfolding build_detection_message
  to_wire_message r =
      build_detection_message r.message_id r.source_id r.frame_number r.class_id r.confidence
        r.bbox_left r.bbox_top r.bbox_width r.bbox_height

  abbrev pub raw_detection : String → FrameMeta F → ObjectMeta F → RawDetection F
  raw_detection message_id frame object = record {
    schema_version = pos schema_version;
    message_id = message_id;
    class_id = object.class_id;
    confidence = object.confidence;
    source_id = frame.source_id;
    frame_number = frame.frame_num;
    frame_width = frame.source_frame_width;
    frame_height = frame.source_frame_height;
    bbox_left = object.left;
    bbox_top = object.top;
    bbox_width = object.width;
    bbox_height = object.height;
  }

  -- The inner loop: `n` identifiers were generated before.
  unfoldable pub extract_frame :
      (ℕ → String) → ℕ → FrameMeta F → List (ObjectMeta F) → List (RawDetection F)
  extract_frame ids n frame [] = []
  extract_frame ids n frame (object ∷ objects) =
      raw_detection (ids n) frame object ∷ extract_frame ids (suc n) frame objects

  -- The outer loop.
  unfoldable pub extract_from : (ℕ → String) → ℕ → List (FrameMeta F) → List (RawDetection F)
  unfolding extract_frame
  extract_from ids n [] = []
  extract_from ids n (frame ∷ frames) =
      extract_frame ids n frame frame.obj_meta_list
      ++ extract_from ids (n + length frame.obj_meta_list) frames

  abbrev pub extract_detections : (ℕ → String) → List (FrameMeta F) → List (RawDetection F)
  extract_detections ids batch = extract_from ids 0 batch

  unfoldable pub report : List (RawDetection F) → List (ProbeCall F)
  unfolding to_wire_message
  report [] = []
  report (r ∷ rs) =
      on_candidate r.source_id r.message_id r.frame_number ∷ enqueue (to_wire_message r) ∷ report rs

  -- `none` is a buffer that is missing, or that has no batch metadata.
  unfoldable pub handle_buffer : (ℕ → String) → Option (List (FrameMeta F)) → List (ProbeCall F)
  unfolding extract_from report
  handle_buffer ids none = []
  handle_buffer ids (some batch) = report (extract_detections ids batch)

  -- `text label confidence` is the formatted text.
  abbrev pub label_object : (String → F → String) → ObjectMeta F → ObjectMeta F
  label_object text object = record object {
    display_text = text object.obj_label object.confidence;
  }

  abbrev pub label_frame : (String → F → String) → FrameMeta F → FrameMeta F
  label_frame text frame = record frame {
    obj_meta_list = map (label_object text) frame.obj_meta_list;
  }

  unfoldable pub apply_display_text :
      (String → F → String) → Option (List (FrameMeta F)) → Option (List (FrameMeta F))
  apply_display_text text none = none
  apply_display_text text (some batch) = some (map (label_frame text) batch)

  unfoldable pub frame_number_from_buffer : Option (List (FrameMeta F)) → Option ℤ
  frame_number_from_buffer none = none
  frame_number_from_buffer (some []) = none
  frame_number_from_buffer (some (frame ∷ frames)) = some frame.frame_num
