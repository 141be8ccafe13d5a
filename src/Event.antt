-- ===== src/Event.antt =====
-- A validated detection: agent/src/weapon_detection_agent/detection/models.py.
use edge_weapon_detection_pl.Base.{ℕ, String, Bool, false, Option, none, some, ◌&&◌, not}
use edge_weapon_detection_pl.Base.Int.{ℤ, is_negative, is_positive}
use edge_weapon_detection_pl.Float.{Float}
use edge_weapon_detection_pl.Time.{DateTime}

-- A UUID is the 128-bit number that it stands for; `F` is the type of floats.
pub record DetectionEvent (F : Type 0) : Type 0 where
  pub event_id : ℕ
  pub device_id : String
  pub camera_id : String
  pub source_id : ℤ
  pub class_id : ℤ
  pub class_name : String
  pub confidence : F
  pub frame_number : ℤ
  pub detected_at_utc : DateTime
  pub frame_width : ℤ
  pub frame_height : ℤ
  pub bbox_left : F
  pub bbox_top : F
  pub bbox_width : F
  pub bbox_height : F
  pub created_at_utc : Option DateTime

abbrev pub is_naive : Option DateTime → Bool
is_naive none = false
is_naive (some t) = not t.is_aware

module _ (float : Float) where
  open float use {F, lt, le, int_lt, add, zero_float, one_float}

  -- `__post_init__` passes; otherwise it raises a ValueError.
  unfoldable pub is_consistent : DetectionEvent F → Bool
  is_consistent e =
      e.detected_at_utc.is_aware
      && not (is_naive e.created_at_utc)
      && (le zero_float e.confidence && le e.confidence one_float)
      && not (is_negative e.source_id)
      && not (is_negative e.frame_number)
      && (is_positive e.frame_width && is_positive e.frame_height)
      && not (lt e.bbox_left zero_float)
      && not (lt e.bbox_top zero_float)
      && not (lt e.bbox_width zero_float)
      && not (lt e.bbox_height zero_float)
      && not (int_lt e.frame_width (add e.bbox_left e.bbox_width))
      && not (int_lt e.frame_height (add e.bbox_top e.bbox_height))
