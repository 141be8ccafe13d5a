-- ===== src/Configuration/Mapping.antt =====
-- What the mapping of a configuration gives each of its cameras.
use edge_weapon_detection_pl.Base.{
  ℕ, String, true, false, Option, none, some, List, [], ◌∷◌, ◌≡◌, refl, sym, ◌∙◌, arith, inl, inr,
  Bool-cases, if◌then◌else◌, subst,
}
use mathlib.Core.List.{Memᴰ}
use edge_weapon_detection_pl.Base.Eq.{nat_eq, string_eq}
use edge_weapon_detection_pl.Base.Int.{ℤ, int_eq, int_beq, int_beq_iff}
use edge_weapon_detection_pl.Base.Dict.{Dict, get, put, get-put}
use edge_weapon_detection_pl.Base.Sets.{contains, add, contains-add}
use edge_weapon_detection_pl.Configuration.{
  DeviceCameraConfig, DeviceConfiguration, SourceGenerationTracker, map_sources, install,
  resolve_camera_id,
}
use edge_weapon_detection_pl.Configuration.Validation.{
  Rejection, or_else, Seen, nothing_seen, note, check_camera, check_cameras, validate_configuration,
}

abbrev put_enabled : DeviceCameraConfig → Dict ℤ ℕ → Dict ℤ ℕ
put_enabled c m = if c.enabled then put m c.source_order c.camera_id else m

get-put_other :
    (c : DeviceCameraConfig) (m : Dict ℤ ℕ) (k : ℤ)
    → int_beq c.source_order k ≡ false
    → get (put_enabled c m) k ≡ get m k
get-put_other c m k other = elim (Bool-cases c.enabled) [
  | inl on ↦ simp on (get-put m c.source_order c.camera_id k ∙ simp other refl)
  | inr off ↦ simp off refl
]

get-put_same :
    (c : DeviceCameraConfig) (m : Dict ℤ ℕ)
    → c.enabled ≡ true
    → get (put_enabled c m) c.source_order ≡ some c.camera_id
get-put_same c m on =
    let same = (int_beq_iff c.source_order c.source_order).1 refl in
    simp on (get-put m c.source_order c.camera_id c.source_order ∙ simp same refl)

module _ (urlparse : String → Option (String × String)) where
  -- A camera that passes has a source number that no camera before it has.
  check_camera-new :
      (seen : Seen) (c : DeviceCameraConfig) (rest : Option Rejection)
      → or_else (check_camera urlparse seen c) rest ≡ none
      → (contains seen.source_orders c.source_order ≡ false) × (rest ≡ none)
  check_camera-new seen c rest h = ground arith

  distinct :
      (seen : List ℤ) (k n : ℤ)
      → contains seen k ≡ true
      → contains seen n ≡ false
      → int_beq n k ≡ false
  distinct seen k n there absent = elim (Bool-cases (int_beq n k)) [
    | inr other ↦ other
    | inl same ↦
        let e = (int_beq_iff n k).0 same in
        absurd (let f = subst (λ j. contains seen j ≡ false) e absent in ground arith)
  ]

  kept :
      (seen : Seen) (cameras : List DeviceCameraConfig) (m : Dict ℤ ℕ) (k : ℤ)
      → check_cameras urlparse seen cameras ≡ none
      → contains seen.source_orders k ≡ true
      → get (map_sources cameras m) k ≡ get m k
  unfolding check_cameras
  kept seen [] m k h there = refl
  kept seen (c ∷ cameras) m k h there =
      let (new, after) = check_camera-new seen c (check_cameras urlparse (note seen c) cameras) h in
      let other = distinct seen.source_orders k c.source_order there new in
      let noted : contains (add seen.source_orders c.source_order) k ≡ true =
        contains-add seen.source_orders c.source_order k ∙ simp (other, there) refl in
      kept (note seen c) cameras (put_enabled c m) k after noted ∙ get-put_other c m k other

  mapped_first :
      (seen : Seen) (cameras : List DeviceCameraConfig) (m : Dict ℤ ℕ) (c : DeviceCameraConfig)
      → check_cameras urlparse seen (c ∷ cameras) ≡ none
      → c.enabled ≡ true
      → get (map_sources (c ∷ cameras) m) c.source_order ≡ some c.camera_id
  unfolding check_cameras
  mapped_first seen cameras m c h on =
      let (new, after) = check_camera-new seen c (check_cameras urlparse (note seen c) cameras) h in
      let same = (int_beq_iff c.source_order c.source_order).1 refl in
      let noted : contains (add seen.source_orders c.source_order) c.source_order ≡ true =
        contains-add seen.source_orders c.source_order c.source_order ∙ simp same refl in
      kept (note seen c) cameras (put_enabled c m) c.source_order after noted ∙ get-put_same c m on

  mapped :
      (seen : Seen) (cameras : List DeviceCameraConfig) (m : Dict ℤ ℕ) (camera : DeviceCameraConfig)
      → check_cameras urlparse seen cameras ≡ none
      → Memᴰ camera cameras
      → camera.enabled ≡ true
      → get (map_sources cameras m) camera.source_order ≡ some camera.camera_id
  unfolding check_cameras
  mapped seen [] m camera h there on = elim there [ ]
  mapped seen (c ∷ cameras) m camera h (Memᴰ.head e) on =
      subst (λ d. get (map_sources (c ∷ cameras) m) d.source_order ≡ some d.camera_id) (sym e)
        (mapped_first seen cameras m c h (subst (λ d. d.enabled ≡ true) e on))
  mapped seen (c ∷ cameras) m camera h (Memᴰ.tail there) on =
      let (new, after) = check_camera-new seen c (check_cameras urlparse (note seen c) cameras) h in
      mapped (note seen c) cameras (put_enabled c m) camera after there on

  pub validated_cameras :
      (configuration : DeviceConfiguration) (expected max_cameras : ℕ)
      → validate_configuration urlparse configuration expected max_cameras ≡ none
      → check_cameras urlparse nothing_seen configuration.cameras ≡ none
  unfolding validate_configuration
  validated_cameras configuration expected max_cameras h = ground arith

  -- A configuration that passes the rules is installed such that the source number of each of its
  -- enabled cameras resolves to that camera.
  pub resolve_camera_id-install :
      (t : SourceGenerationTracker) (configuration : DeviceConfiguration) (expected max_cameras : ℕ)
      (camera : DeviceCameraConfig)
      → validate_configuration urlparse configuration expected max_cameras ≡ none
      → Memᴰ camera configuration.cameras
      → camera.enabled ≡ true
      → resolve_camera_id (install t configuration) camera.source_order ≡ some camera.camera_id
  unfolding install resolve_camera_id
  resolve_camera_id-install t configuration expected max_cameras camera valid there on =
      mapped nothing_seen configuration.cameras [] camera
        (validated_cameras configuration expected max_cameras valid) there on
