-- ===== src/Validation/Accepted.antt =====
-- What an accepted detection says of the payload and of its caller.
use edge_weapon_detection_pl.Base.{String, true, false, some, ◌≡◌, arith}
use edge_weapon_detection_pl.Base.Eq.{string_eq}
use edge_weapon_detection_pl.Base.Int.{ℤ, int_eq}
use edge_weapon_detection_pl.Base.Dict.{get}
use edge_weapon_detection_pl.Float.{Float}
use edge_weapon_detection_pl.Json.{Value, Payload}
use edge_weapon_detection_pl.Event.{DetectionEvent, is_consistent}
use edge_weapon_detection_pl.Validation.{
  RawFacts, Context, required_int, read_facts, check_facts, lookup_class, derive_size, clamp_event,
  construct, validate_detection,
}
use edge_weapon_detection_pl.Validation.Outcome.{pass, view, passed, rejected, raised}

module _ (float : Float) where
  open float use {F, lt}

  required_int-eq-pass :
      (payload : Payload F) (name : String) (n : ℤ)
      → required_int payload name ≡ pass n
      → get payload name ≡ some (Value.int n)
  unfolding required_int
  required_int-eq-pass payload name n h = ground arith

  -- Every part of an accepted event: from the caller, from its label map, or from the payload.
  pub record IsFaithful (payload : Payload F) (ctx : Context float) (e : DetectionEvent F)
      : Type 0 where
    pub event_id : e.event_id ≡ ctx.event_id
    pub device_id : e.device_id ≡ ctx.device_id
    pub camera_id : e.camera_id ≡ ctx.camera_id
    pub detected_at : e.detected_at_utc ≡ ctx.now
    pub class_name : get ctx.class_names e.class_id ≡ some e.class_name
    pub class_id : get payload "class_id" ≡ some (Value.int e.class_id)
    pub source_id : get payload "source_id" ≡ some (Value.int e.source_id)
    pub frame_number : get payload "frame_number" ≡ some (Value.int e.frame_number)
    pub threshold : lt e.confidence ctx.min_confidence ≡ false
    pub consistent : is_consistent float e ≡ true

  record ReadFaithful (payload : Payload F) (facts : RawFacts float) : Type 0 where
    class_id : get payload "class_id" ≡ some (Value.int facts.class_id)
    source_id : get payload "source_id" ≡ some (Value.int facts.source_id)
    frame_number : get payload "frame_number" ≡ some (Value.int facts.frame_number)

  read_facts-ReadFaithful :
      (payload : Payload F) {facts : RawFacts float}
      → read_facts float payload ≡ pass facts
      → ReadFaithful payload facts
  unfolding read_facts
  read_facts-ReadFaithful payload {facts} h = ground (
    arith,
    required_int-eq-pass payload "class_id" facts.class_id,
    required_int-eq-pass payload "source_id" facts.source_id,
    required_int-eq-pass payload "frame_number" facts.frame_number,
  )

  threshold_of_check :
      (min_confidence : F) (facts : RawFacts float)
      → check_facts float min_confidence facts ≡ pass tt
      → lt facts.confidence min_confidence ≡ false
  unfolding check_facts
  threshold_of_check min_confidence facts h = ground arith

  -- The steps behind an accepted payload.
  record Steps (payload : Payload F) (ctx : Context float) (e : DetectionEvent F) : Type 0 where
    facts : RawFacts float
    class_name : String
    width : ℤ
    height : ℤ
    read : read_facts float payload ≡ pass facts
    kept : check_facts float ctx.min_confidence facts ≡ pass tt
    label : lookup_class ctx.class_names facts.class_id ≡ pass class_name
    built : clamp_event float ctx facts class_name width height ≡ pass e

  validate_detection-Steps :
      (payload : Payload F) (ctx : Context float) {e : DetectionEvent F}
      → validate_detection float payload ctx ≡ pass e
      → Steps payload ctx e
  unfolding validate_detection
  validate_detection-Steps payload ctx h = elim (view (read_facts float payload)) [
    | passed facts read ↦ elim (view (lookup_class ctx.class_names facts.class_id)) [
      | passed class_name label ↦
          elim (view (derive_size float facts.frame_width facts.bbox_left facts.bbox_width)) [
            | passed width w ↦
                elim (view
                  (derive_size float facts.frame_height facts.bbox_top facts.bbox_height)) [
                    | passed height t ↦ record {
                      facts = facts;
                      class_name = class_name;
                      width = width;
                      height = height;
                      read = read;
                      kept = ground arith;
                      label = label;
                      built = ground arith;
                    }
                    | rejected _ _ stop ↦ absurd (ground arith)
                    | raised _ stop ↦ absurd (ground arith)
                  ]
            | rejected _ _ stop ↦ absurd (ground arith)
            | raised _ stop ↦ absurd (ground arith)
          ]
      | rejected _ _ stop ↦ absurd (ground arith)
      | raised _ stop ↦ absurd (ground arith)
    ]
    | rejected _ _ stop ↦ absurd (ground arith)
    | raised _ stop ↦ absurd (ground arith)
  ]

  clamp_event-keeps :
      (ctx : Context float) (facts : RawFacts float) (class_name : String) (width height : ℤ)
      {e : DetectionEvent F}
      → clamp_event float ctx facts class_name width height ≡ pass e
      → (e.event_id ≡ ctx.event_id)
        × (e.device_id ≡ ctx.device_id)
        × (e.camera_id ≡ ctx.camera_id)
        × (e.detected_at_utc ≡ ctx.now)
        × (e.class_id ≡ facts.class_id)
        × (e.source_id ≡ facts.source_id)
        × (e.frame_number ≡ facts.frame_number)
        × (e.confidence ≡ facts.confidence)
        × (e.class_name ≡ class_name)
        × (is_consistent float e ≡ true)
  unfolding clamp_event construct
  clamp_event-keeps ctx facts class_name width height h = ground arith

  -- A payload that is accepted gives an event whose identity and time are the caller's, whose class
  -- name is the label of the class id on the wire, whose confidence reaches the threshold, and which
  -- keeps the constructor's invariants.
  pub validate_detection-IsFaithful :
      (payload : Payload F) (ctx : Context float) {e : DetectionEvent F}
      → validate_detection float payload ctx ≡ pass e
      → IsFaithful payload ctx e
  validate_detection-IsFaithful payload ctx {e} h =
      let steps = validate_detection-Steps payload ctx {e = e} h in
      let from_wire = read_facts-ReadFaithful payload {facts = steps.facts} steps.read in
      let threshold = threshold_of_check ctx.min_confidence steps.facts steps.kept in
      let kept =
        clamp_event-keeps ctx steps.facts steps.class_name steps.width steps.height {e = e}
          steps.built in
      let label = steps.label in ground arith
