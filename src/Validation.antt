-- ===== src/Validation.antt =====
-- Validation of a raw payload: agent/src/weapon_detection_agent/detection/validation.py.
pub mod Outcome
pub mod Normalize
pub mod Clamp
pub mod Accepted
use edge_weapon_detection_pl.Base.{
  ℕ, String, Bool, true, false, Option, none, some, List, [], ◌∷◌, ◌≡◌, if◌then◌else◌, ◌&&◌, not,
}
use edge_weapon_detection_pl.Base.Eq.{string_eq}
use edge_weapon_detection_pl.Base.Int.{ℤ, pos, negsuc, is_negative, is_positive, int_eq}
use edge_weapon_detection_pl.Base.Dict.{Dict, get, put}
use edge_weapon_detection_pl.Float.{Float}
use edge_weapon_detection_pl.Json.{Value, Payload, dict_of}
use edge_weapon_detection_pl.Time.{DateTime}
use edge_weapon_detection_pl.Event.{DetectionEvent, is_consistent}
use Outcome.{
  Check, pass, reject, raise, malformed_field, non_finite_value, negative_value, unknown_class,
  confidence_out_of_range, confidence_below_threshold, value_error, overflow_error, reject_if,
  from_option, ◌>>=◌, ◌>>◌,
}

abbrev pub null_to_none : {F : Type 0} → Value F → Option (Value F)
null_to_none Value.null = none
null_to_none v = some v

-- payload.get(key), with JSON's null as None
abbrev pub get_value : {F : Type 0} → Payload F → String → Option (Value F)
get_value payload key = elim (get payload key) [ none ↦ none | some v ↦ null_to_none v ]

-- bbox if isinstance(bbox, dict) else {}
abbrev pub box_dict : {F : Type 0} → Option (Value F) → Payload F
box_dict (some (Value.obj fields)) = dict_of fields
box_dict v = []

-- if value is not None: normalized[snake] = value
abbrev pub set_value : {F : Type 0} → Option (Value F) → String → Payload F → Payload F
set_value none snake normalized = normalized
set_value (some v) snake normalized = put normalized snake v

-- if camel in payload: normalized[snake] = payload[camel]
abbrev pub copy_key : {F : Type 0} → Payload F → String → String → Payload F → Payload F
copy_key payload camel snake normalized = set_value (get payload camel) snake normalized

unfoldable pub normalize_v2_payload : {F : Type 0} → Payload F → Payload F
normalize_v2_payload payload =
    let bbox = box_dict (get payload "boundingBox") in
    let p1 = copy_key payload "classId" "class_id" payload in
    let p2 = copy_key payload "sourceId" "source_id" p1 in
    let p3 = copy_key payload "frameNumber" "frame_number" p2 in
    let p4 = set_value (get_value bbox "left") "bbox_left" p3 in
    let p5 = set_value (get_value bbox "top") "bbox_top" p4 in
    let p6 = set_value (get_value bbox "width") "bbox_width" p5 in
    set_value (get_value bbox "height") "bbox_height" p6

-- `bool` is a subclass of `int` in Python; here it is a constructor of its own.
abbrev pub as_int : {F : Type 0} → String → Option (Value F) → Check ℤ
as_int name (some (Value.int n)) = pass n
as_int name v = reject malformed_field name

unfoldable pub required_int : {F : Type 0} → Payload F → String → Check ℤ
required_int payload name = as_int name (get payload name)

abbrev pub as_optional_int : {F : Type 0} → String → Option (Value F) → Check (Option ℤ)
as_optional_int name none = pass none
as_optional_int name (some (Value.int n)) = pass (some n)
as_optional_int name (some v) = reject malformed_field name

unfoldable pub optional_int : {F : Type 0} → Payload F → String → Check (Option ℤ)
optional_int payload name = as_optional_int name (get payload name)

abbrev pub reject_size : Option ℤ → String → Check (Unit {0})
reject_size none name = pass tt
reject_size (some n) name = reject_if (not (is_positive n)) negative_value name

-- max(1, n)
abbrev pub at_least_one : ℤ → ℤ
at_least_one n = if is_positive n then n else pos 1

abbrev pub lookup_class : Dict ℤ String → ℤ → Check String
lookup_class class_names class_id = elim (get class_names class_id) [
  | none ↦ reject unknown_class "class_id"
  | some name ↦ pass name
]

module _ (float : Float) where
  open float use {F, lt, le, add, sub, of_int, is_finite, ceil, zero_float, one_float}

  -- float(value), for a value that is an int or a float and no bool
  abbrev pub as_float : String → Option (Value F) → Check F
  as_float name (some (Value.int n)) = from_option overflow_error (of_int n)
  as_float name (some (Value.float x)) = pass x
  as_float name v = reject malformed_field name

  unfoldable pub required_float : Payload F → String → Check F
  required_float payload name = do
    x ← as_float name (get payload name)
    reject_if (not (is_finite x)) non_finite_value name
    pass x

  -- A size that is absent is the smallest that holds the box.
  unfoldable pub derive_size : Option ℤ → F → F → Check ℤ
  derive_size (some n) start extent = pass n
  derive_size none start extent = do
    n ← from_option overflow_error (ceil (add start extent))
    pass (at_least_one n)

  -- Python's min(a, b)
  unfoldable pub min_float : F → F → F
  min_float a b = if lt b a then b else a

  -- the constructor, with its `__post_init__`
  unfoldable pub construct : DetectionEvent F → Check (DetectionEvent F)
  construct e = if is_consistent float e then pass e else raise value_error

  -- The fields that are read from the payload, in the order of the reads.
  pub record RawFacts : Type 0 where
    pub class_id : ℤ
    pub source_id : ℤ
    pub frame_number : ℤ
    pub frame_width : Option ℤ
    pub frame_height : Option ℤ
    pub confidence : F
    pub bbox_left : F
    pub bbox_top : F
    pub bbox_width : F
    pub bbox_height : F

  unfoldable pub read_facts : Payload F → Check RawFacts
  read_facts payload = do
    class_id ← required_int payload "class_id"
    source_id ← required_int payload "source_id"
    frame_number ← required_int payload "frame_number"
    frame_width ← optional_int payload "frame_width"
    frame_height ← optional_int payload "frame_height"
    confidence ← required_float payload "confidence"
    bbox_left ← required_float payload "bbox_left"
    bbox_top ← required_float payload "bbox_top"
    bbox_width ← required_float payload "bbox_width"
    bbox_height ← required_float payload "bbox_height"
    pass (record {
      class_id = class_id;
      source_id = source_id;
      frame_number = frame_number;
      frame_width = frame_width;
      frame_height = frame_height;
      confidence = confidence;
      bbox_left = bbox_left;
      bbox_top = bbox_top;
      bbox_width = bbox_width;
      bbox_height = bbox_height;
    })

  -- The rules on the values, in the order of the code.
  unfoldable pub check_facts : F → RawFacts → Check (Unit {0})
  check_facts min_confidence facts = do
    reject_if (is_negative facts.source_id) negative_value "source_id"
    reject_if (is_negative facts.frame_number) negative_value "frame_number"
    reject_size facts.frame_width "frame_width"
    reject_size facts.frame_height "frame_height"
    reject_if (not (le zero_float facts.confidence && le facts.confidence one_float))
        confidence_out_of_range "confidence"
    reject_if (lt facts.confidence min_confidence) confidence_below_threshold "confidence"
    reject_if (lt facts.bbox_left zero_float) negative_value "bbox_left"
    reject_if (lt facts.bbox_top zero_float) negative_value "bbox_top"
    reject_if (lt facts.bbox_width zero_float) negative_value "bbox_width"
    reject_if (lt facts.bbox_height zero_float) negative_value "bbox_height"

  -- What the caller supplies: none of it is read from the payload.
  pub record Context : Type 0 where
    pub device_id : String
    pub camera_id : String
    pub class_names : Dict ℤ String
    pub min_confidence : F
    pub now : DateTime
    pub event_id : ℕ

  -- The frame and the box, clamped to it.
  unfoldable pub clamp_event : Context → RawFacts → String → ℤ → ℤ → Check (DetectionEvent F)
  clamp_event ctx facts class_name frame_width frame_height = do
    width ← from_option overflow_error (of_int frame_width)
    let left = min_float facts.bbox_left width
    height ← from_option overflow_error (of_int frame_height)
    let top = min_float facts.bbox_top height
    construct (record {
      event_id = ctx.event_id;
      device_id = ctx.device_id;
      camera_id = ctx.camera_id;
      source_id = facts.source_id;
      class_id = facts.class_id;
      class_name = class_name;
      confidence = facts.confidence;
      frame_number = facts.frame_number;
      detected_at_utc = ctx.now;
      frame_width = frame_width;
      frame_height = frame_height;
      bbox_left = left;
      bbox_top = top;
      bbox_width = min_float facts.bbox_width (sub width left);
      bbox_height = min_float facts.bbox_height (sub height top);
      created_at_utc = none;
    })

  unfoldable pub validate_detection : Payload F → Context → Check (DetectionEvent F)
  validate_detection payload ctx = do
    if ctx.now.is_aware then pass tt else raise value_error
    facts ← read_facts payload
    check_facts ctx.min_confidence facts
    class_name ← lookup_class ctx.class_names facts.class_id
    frame_width ← derive_size facts.frame_width facts.bbox_left facts.bbox_width
    frame_height ← derive_size facts.frame_height facts.bbox_top facts.bbox_height
    clamp_event ctx facts class_name frame_width frame_height
