-- ===== src/Validation/Clamp.antt =====
-- Clamping the box to the frame establishes what the constructor of the event demands.
use edge_weapon_detection_pl.Base.{
  ℕ, ◌^◌, ◌<◌, suc, String, true, false, none, some, ◌≡◌, arith, ◌&&◌, ◌∙◌,
}
use edge_weapon_detection_pl.Base.Int.{ℤ, pos, is_negative}
use edge_weapon_detection_pl.Float.{Float, FloatLaws}
use edge_weapon_detection_pl.Event.{DetectionEvent, is_consistent}
use edge_weapon_detection_pl.Validation.{
  RawFacts, Context, min_float, check_facts, clamp_event, construct,
}
use edge_weapon_detection_pl.Validation.Outcome.{pass}

module _ (float : Float) (laws : FloatLaws float) where
  open float use {F, lt, le, int_lt, add, sub, of_int, zero_float, one_float}

  min_float_nonneg :
      (a b : F)
      → lt a zero_float ≡ false
      → lt b zero_float ≡ false
      → lt (min_float float a b) zero_float ≡ false
  unfolding min_float
  min_float_nonneg a b ha hb = ground arith

  min_float-le-right : (a b : F) → lt b (min_float float a b) ≡ false
  unfolding min_float
  min_float-le-right a b = ground (arith, laws.lt_irrefl b)

  -- One axis of the box: its start, and its extent from there, clamped to the size of the frame.
  abbrev start : F → F → F
  start size x = min_float float x size

  abbrev extent : F → F → F → F
  extent size x w = min_float float w (sub size (start size x))

  module _ (n : ℕ) (size x w : F) (exact : n < 2 ^ 52) (is_size : of_int (pos n) ≡ some size)
      (x_nonneg : lt x zero_float ≡ false) (w_nonneg : lt w zero_float ≡ false) where
    start_nonneg : lt (start size x) zero_float ≡ false
    start_nonneg = min_float_nonneg x size x_nonneg (laws.size_nonneg n size is_size)

    extent_nonneg : lt (extent size x w) zero_float ≡ false
    extent_nonneg =
        min_float_nonneg w (sub size (start size x)) w_nonneg
          (laws.room_nonneg n size (start size x) exact is_size (min_float-le-right x size))

    box_fits : int_lt (pos n) (add (start size x) (extent size x w)) ≡ false
    box_fits =
        laws.room_fits n size (start size x) (extent size x w) exact is_size start_nonneg
          (min_float-le-right x size) (min_float-le-right w (sub size (start size x)))

  construct_consistent :
      (e : DetectionEvent F) → is_consistent float e ≡ true → construct float e ≡ pass e
  unfolding construct
  construct_consistent e h = rw h

  abbrev clamped : Context float → RawFacts float → String → ℤ → ℤ → F → F → DetectionEvent F
  clamped ctx facts class_name width height w h = record {
    event_id = ctx.event_id;
    device_id = ctx.device_id;
    camera_id = ctx.camera_id;
    source_id = facts.source_id;
    class_id = facts.class_id;
    class_name = class_name;
    confidence = facts.confidence;
    frame_number = facts.frame_number;
    detected_at_utc = ctx.now;
    frame_width = width;
    frame_height = height;
    bbox_left = start w facts.bbox_left;
    bbox_top = start h facts.bbox_top;
    bbox_width = extent w facts.bbox_left facts.bbox_width;
    bbox_height = extent h facts.bbox_top facts.bbox_height;
    created_at_utc = none;
  }

  clamp_event-eq :
      (ctx : Context float) (facts : RawFacts float) (class_name : String) (width height : ℤ)
      (w h : F)
      → of_int width ≡ some w
      → of_int height ≡ some h
      → clamp_event float ctx facts class_name width height
        ≡ construct float (clamped ctx facts class_name width height w h)
  unfolding clamp_event
  clamp_event-eq ctx facts class_name width height w h is_w is_h = ground arith

  -- The rules that `check_facts` has kept.
  pub record Kept (min_confidence : F) (facts : RawFacts float) : Type 0 where
    pub source_id : is_negative facts.source_id ≡ false
    pub frame_number : is_negative facts.frame_number ≡ false
    pub in_range : (le zero_float facts.confidence && le facts.confidence one_float) ≡ true
    pub threshold : lt facts.confidence min_confidence ≡ false
    pub left : lt facts.bbox_left zero_float ≡ false
    pub top : lt facts.bbox_top zero_float ≡ false
    pub width : lt facts.bbox_width zero_float ≡ false
    pub height : lt facts.bbox_height zero_float ≡ false

  pub check_facts-Kept :
      (min_confidence : F) (facts : RawFacts float)
      → check_facts float min_confidence facts ≡ pass tt
      → Kept min_confidence facts
  unfolding check_facts
  check_facts-Kept min_confidence facts kept = ground arith

  -- A payload that keeps the rules, seen at an aware time, in a frame whose sizes are exact: the
  -- clamped box is accepted by the constructor, so validation does not raise, and the box lies in the frame.
  pub clamp_event_total :
      (ctx : Context float) (facts : RawFacts float) (class_name : String) (width height : ℕ)
      (w h : F)
      → check_facts float ctx.min_confidence facts ≡ pass tt
      → ctx.now.is_aware ≡ true
      → suc width < 2 ^ 52
      → of_int (pos (suc width)) ≡ some w
      → suc height < 2 ^ 52
      → of_int (pos (suc height)) ≡ some h
      → (e : DetectionEvent F) × (clamp_event float ctx facts class_name
            (pos (suc width))
            (pos (suc height))
          ≡ pass e)
        × (int_lt (pos (suc width)) (add e.bbox_left e.bbox_width) ≡ false)
        × (int_lt (pos (suc height)) (add e.bbox_top e.bbox_height) ≡ false)
  clamp_event_total ctx facts class_name width height w h kept aware exact_w is_w exact_h is_h =
      let k = check_facts-Kept ctx.min_confidence facts kept in
      let fits_w =
        box_fits (suc width) w facts.bbox_left facts.bbox_width exact_w is_w k.left k.width in
      let fits_h =
        box_fits (suc height) h facts.bbox_top facts.bbox_height exact_h is_h k.top k.height in
      let e = clamped ctx facts class_name (pos (suc width)) (pos (suc height)) w h in
      (
        e,
        clamp_event-eq ctx facts class_name (pos (suc width)) (pos (suc height)) w h is_w is_h
            ∙ construct_consistent e (
                unfold is_consistent in
                ground (
                  arith,
                  start_nonneg (suc width) w facts.bbox_left facts.bbox_width exact_w is_w k.left
                      k.width,
                  extent_nonneg (suc width) w facts.bbox_left facts.bbox_width exact_w is_w k.left
                      k.width,
                  start_nonneg (suc height) h facts.bbox_top facts.bbox_height exact_h is_h k.top
                      k.height,
                  extent_nonneg (suc height) h facts.bbox_top facts.bbox_height exact_h is_h k.top
                      k.height,
                )),
        fits_w,
        fits_h,
      )
