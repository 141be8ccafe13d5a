-- ===== src/Validation/Normalize.antt =====
-- What each key of a normalized v2 message holds.
use mathlib.Core.Path.{subst}
use edge_weapon_detection_pl.Base.{
  String, Option, none, some, ◌≡◌, arith, if◌then◌else◌, false, Bool-cases, inl, inr,
}
use edge_weapon_detection_pl.Base.Eq.{◌==◌, string_eq, eq_of_beq}
use edge_weapon_detection_pl.Base.Dict.{get, get-put}
use edge_weapon_detection_pl.Json.{Value, Payload}
use edge_weapon_detection_pl.Validation.{get_value, box_dict, set_value, normalize_v2_payload}

module _ {F : Type 0} where
  abbrev or_else : Option (Value F) → Option (Value F) → Option (Value F)
  or_else none other = other
  or_else (some v) other = some v

  get-set_value :
      (v : Option (Value F)) (snake : String) (d : Payload F) (j : String)
      → get (set_value v snake d) j ≡ (if snake == j then or_else v (get d j) else get d j)
  get-set_value none snake d j = ground arith
  get-set_value (some v) snake d j = ground (arith, get-put d snake v j)

  -- Where a v2 message carries the value of a flat key: its camel-case key, or a part of its box
  -- that is not null.
  abbrev pub wire_value : Payload F → String → Option (Value F)
  wire_value payload j =
      let bbox = box_dict (get payload "boundingBox") in
      if "class_id" == j
      then get payload "classId"
      else if "source_id" == j
      then get payload "sourceId"
      else if "frame_number" == j
      then get payload "frameNumber"
      else if "bbox_left" == j
      then get_value bbox "left"
      else if "bbox_top" == j
      then get_value bbox "top"
      else if "bbox_width" == j
      then get_value bbox "width"
      else if "bbox_height" == j
      then get_value bbox "height"
      else none

  abbrev Law : Payload F → String → Type 0
  Law payload j =
      get (normalize_v2_payload payload) j ≡ or_else (wire_value payload j) (get payload j)

  -- A test on keys decides the law: at the key itself, or with the test out of the way.
  Law-split :
      (payload : Payload F) (key j : String)
      → Law payload key
      → ((key == j) ≡ false → Law payload j)
      → Law payload j
  Law-split payload key j here there = elim (Bool-cases (key == j)) [
    | inl same ↦ subst (Law payload) (eq_of_beq key j same) here
    | inr other ↦ there other
  ]

  -- Every key of a normalized message holds what the v2 message carries for it, and what the
  -- message held under that key itself where it carries nothing.
  pub get-normalize_v2_payload :
      (payload : Payload F) (j : String)
      → get (normalize_v2_payload payload) j ≡ or_else (wire_value payload j) (get payload j)
  unfolding normalize_v2_payload
  get-normalize_v2_payload payload j = Law-split payload "class_id" j (simp get-set_value) λ n0.
      Law-split payload "source_id" j (simp get-set_value) λ n1.
        Law-split payload "frame_number" j (simp get-set_value) λ n2.
          Law-split payload "bbox_left" j (simp get-set_value) λ n3.
            Law-split payload "bbox_top" j (simp get-set_value) λ n4.
              Law-split payload "bbox_width" j (simp get-set_value) λ n5.
                Law-split payload "bbox_height" j (simp get-set_value)
                  λ n6. simp (get-set_value, n0, n1, n2, n3, n4, n5, n6)
