-- ===== src/Configuration/Serialization/Restored.antt =====
-- What is read back from the cache is what was written.
use edge_weapon_detection_pl.Base.{
  ℕ, String, true, false, Option, some, List, [], ◌∷◌, map, ◌≡◌, refl, All,
}
use edge_weapon_detection_pl.Base.Eq.{◌==◌, string_eq}
use edge_weapon_detection_pl.Base.Dict.{get}
use edge_weapon_detection_pl.Time.{DateTime}
use edge_weapon_detection_pl.Json.{Value, list_of}
use edge_weapon_detection_pl.Configuration.{DeviceCameraConfig, DeviceConfiguration}
use edge_weapon_detection_pl.Configuration.Client.{value}
use edge_weapon_detection_pl.Configuration.Serialization.{
  CachedCamera, CachedDevice, parse_camera_key, cached_camera, cached_cameras,
  deserialize_configuration, serialize_camera, serialize_cameras, serialize_configuration,
}

-- The dataclasses with the field values that they were made with.
abbrev pub camera_fields : {F : Type 0} → DeviceCameraConfig → CachedCamera F
camera_fields c = record {
  camera_id = c.camera_id;
  camera_key = c.camera_key;
  name = Value.str c.name;
  stream_url = Value.str c.stream_url;
  enabled = Value.bool c.enabled;
  source_order = Value.int c.source_order;
  output_path = Value.str c.output_path;
}

abbrev pub device_fields : {F : Type 0} → DeviceConfiguration → CachedDevice F
device_fields c = record {
  schema_version = Value.int c.schema_version;
  configuration_version = Value.str c.configuration_version;
  device_id = c.device_id;
  branch_id = c.branch_id;
  generated_at_utc = c.generated_at_utc;
  cameras = map (λ camera. camera_fields camera) c.cameras;
}

module _ (uuid_of : String → Option ℕ) (utc_of : String → Option DateTime) (uuid_text : ℕ → String)
    (iso_of : DateTime → String) (reads_uuid : (n : ℕ) → uuid_of (uuid_text n) ≡ some n)
    (reads_utc : (t : DateTime) → t.is_aware ≡ true → utc_of (iso_of t) ≡ some t) {F : Type 0} where
  cached_camera-serialize_camera :
      (c : DeviceCameraConfig)
      → (c.camera_key == "") ≡ false
      → cached_camera uuid_of utc_of {F = F} (serialize_camera uuid_text iso_of c)
        ≡ value (camera_fields c)
  unfolding cached_camera parse_camera_key serialize_camera get
  cached_camera-serialize_camera c named = let id = reads_uuid c.camera_id in simp (id, named) refl

  cached_cameras-serialize_cameras :
      (cameras : List DeviceCameraConfig)
      → All (λ c. (c.camera_key == "") ≡ false) cameras
      → cached_cameras uuid_of utc_of {F = F} (list_of (serialize_cameras uuid_text iso_of cameras))
        ≡ value (map (λ c. camera_fields c) cameras)
  unfolding cached_cameras serialize_cameras
  cached_cameras-serialize_cameras [] h = refl
  cached_cameras-serialize_cameras (c ∷ cameras) h =
      let first = cached_camera-serialize_camera c h.0 in
      let rest = cached_cameras-serialize_cameras cameras h.1 in rw (first, rest) refl

  -- Where the texts of UUIDs and of times with a zone are read back as themselves: a configuration that
  -- was generated at a time with a zone and whose cameras have keys is restored from the value that the
  -- cache holds, with every field.
  pub deserialize-serialize_configuration :
      (c : DeviceConfiguration)
      → c.generated_at_utc.is_aware ≡ true
      → All (λ camera. (camera.camera_key == "") ≡ false) c.cameras
      → deserialize_configuration uuid_of utc_of {F = F}
          (serialize_configuration uuid_text iso_of c)
        ≡ value (device_fields c)
  unfolding deserialize_configuration serialize_configuration get
  deserialize-serialize_configuration c aware named =
      let device = reads_uuid c.device_id in
      let branch = reads_uuid c.branch_id in
      let at = reads_utc c.generated_at_utc aware in
      let cameras = cached_cameras-serialize_cameras c.cameras named in
      simp (device, branch, at, cameras) refl
