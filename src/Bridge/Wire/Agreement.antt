-- ===== src/Bridge/Wire/Agreement.antt =====
-- The Agent reads from a wire message of the Bridge what the Bridge read from the pipeline.
use edge_weapon_detection_pl.Base.{◌≡◌, refl, true, none}
use edge_weapon_detection_pl.Base.Eq.{string_eq}
use edge_weapon_detection_pl.Base.Dict.{get, put}
use edge_weapon_detection_pl.Float.{Float}
use edge_weapon_detection_pl.Validation.{
  RawFacts, required_int, optional_int, required_float, read_facts, normalize_v2_payload,
}
use edge_weapon_detection_pl.Validation.Outcome.{pass}
use edge_weapon_detection_pl.Bridge.Wire.{RawDetection, to_wire_message}

module _ (float : Float) where
  open float use {F, is_finite}

  abbrev pub facts_of : RawDetection F → RawFacts float
  facts_of r = record {
    class_id = r.class_id;
    source_id = r.source_id;
    frame_number = r.frame_number;
    frame_width = none;
    frame_height = none;
    confidence = r.confidence;
    bbox_left = r.bbox_left;
    bbox_top = r.bbox_top;
    bbox_width = r.bbox_width;
    bbox_height = r.bbox_height;
  }

  pub record IsFiniteDetection (r : RawDetection F) : Type 0 where
    pub confidence : is_finite r.confidence ≡ true
    pub left : is_finite r.bbox_left ≡ true
    pub top : is_finite r.bbox_top ≡ true
    pub width : is_finite r.bbox_width ≡ true
    pub height : is_finite r.bbox_height ≡ true

  -- From the normalized wire message of a detection with finite numbers, the Agent reads exactly the
  -- facts that the Bridge read, but for the frame's size, which the message does not carry.
  pub read_facts-to_wire_message :
      (r : RawDetection F)
      → IsFiniteDetection r
      → read_facts float (normalize_v2_payload (to_wire_message r)) ≡ pass (facts_of r)
  unfolding read_facts required_int optional_int required_float to_wire_message normalize_v2_payload
      get put
  read_facts-to_wire_message r finite =
      simp (finite.confidence, finite.left, finite.top, finite.width, finite.height) refl
