-- ===== src/Configuration/Validation.antt =====
-- The rules that a configuration passes before it is applied: agent/src/weapon_detection_agent/
-- configuration/validation.py. `urlparse` gives the scheme and the netloc of a URL, `none` its
-- ValueError.
use edge_weapon_detection_pl.Base.{
  ℕ, String, Bool, true, false, ◌&&◌, ◌||◌, not, Option, none, some, List, [], ◌∷◌, ◌++◌, ltb, leb,
  nat_beq, length, any, if◌then◌else◌,
}
use edge_weapon_detection_pl.Base.Eq.{◌==◌, nat_eq, string_eq}
use edge_weapon_detection_pl.Base.Int.{ℤ, pos, int_eq, is_negative}
use edge_weapon_detection_pl.Base.Sets.{contains, add}
use edge_weapon_detection_pl.Base.Text.{codes}
use edge_weapon_detection_pl.Configuration.{DeviceCameraConfig, DeviceConfiguration}

-- What `validate_configuration` raises: a ConfigurationValidationError with its reason, or the
-- ValueError of a URL that cannot be parsed.
pub data Rejection : Type 0 where
  reason : String → Rejection
  unparsable_url : Rejection

-- if test: raise ConfigurationValidationError(text), and what follows
abbrev pub reject_if : Bool → String → Option Rejection → Option Rejection
reject_if true text rest = some (reason text)
reject_if false text rest = rest

abbrev pub or_else : Option Rejection → Option Rejection → Option Rejection
or_else none rest = rest
or_else (some r) rest = some r

abbrev pub is_alphanumeric : ℕ → Bool
is_alphanumeric c = leb 97 c && leb c 122 || leb 48 c && leb c 57

-- `[a-z0-9-]*` up to a last `[a-z0-9]`
abbrev pub key_tail : List ℕ → Bool
key_tail [] = false
key_tail (c ∷ []) = is_alphanumeric c
key_tail (c ∷ d ∷ cs) = (is_alphanumeric c || nat_beq c 45) && key_tail (d ∷ cs)

abbrev pub is_key : List ℕ → Bool
is_key [] = false
is_key (c ∷ cs) = is_alphanumeric c && (leb 2 (length cs) && (leb (length cs) 63 && key_tail cs))

-- The text without one newline at its end, before which `$` matches too.
abbrev pub without_newline : List ℕ → List ℕ
without_newline [] = []
without_newline (c ∷ []) = if nat_beq c 10 then [] else c ∷ []
without_newline (c ∷ d ∷ cs) = c ∷ without_newline (d ∷ cs)

unfoldable pub matches_key : String → Bool
matches_key key = is_key (codes key) || is_key (without_newline (codes key))

unfoldable pub validate_camera_key : DeviceCameraConfig → Option Rejection
validate_camera_key camera =
    reject_if (camera.camera_key == "") "empty_camera_key"
      (reject_if (not (matches_key camera.camera_key)) "invalid_camera_key" none)

abbrev pub starts_with : List ℕ → List ℕ → Bool
starts_with [] cs = true
starts_with (p ∷ ps) [] = false
starts_with (p ∷ ps) (c ∷ cs) = nat_beq p c && starts_with ps cs

-- token in text
abbrev pub occurs_in : List ℕ → List ℕ → Bool
occurs_in token [] = starts_with token []
occurs_in token (c ∷ cs) = starts_with token (c ∷ cs) || occurs_in token cs

abbrev pub forbidden_substrings : List String
forbidden_substrings = ".." ∷ "://" ∷ "\\" ∷ "?" ∷ "#" ∷ "//" ∷ []

abbrev pub is_control : ℕ → Bool
is_control c = ltb c 32 || nat_beq c 127

-- Two texts are equal when their code points are.
abbrev pub same_codes : List ℕ → List ℕ → Bool
same_codes [] [] = true
same_codes [] (d ∷ ds) = false
same_codes (c ∷ cs) [] = false
same_codes (c ∷ cs) (d ∷ ds) = nat_beq c d && same_codes cs ds

unfoldable pub validate_output_path : DeviceCameraConfig → Option Rejection
validate_output_path camera =
    let path = codes camera.output_path in
    reject_if (camera.output_path == "") "empty_output_path" (
      reject_if (ltb 512 (length path)) "output_path_too_long" (
        reject_if (starts_with (codes "/") path) "output_path_not_relative" (
          reject_if (any (λ token. occurs_in (codes token) path) forbidden_substrings)
            "unsafe_output_path"
            (reject_if (any is_control path) "unsafe_output_path" (
              reject_if (not (same_codes path (codes "cameras/" ++ codes camera.camera_key)))
                "output_path_camera_key_mismatch" none)))))

abbrev pub validate_parsed : Option (String × String) → Option Rejection
validate_parsed none = some unparsable_url
validate_parsed (some (scheme, netloc)) =
    reject_if (not (scheme == "rtsp" || scheme == "rtsps")) "unapproved_url_scheme"
      (reject_if (netloc == "") "stream_url_not_absolute" none)

-- The local variables of `validate_configuration`.
pub record Seen : Type 0 where
  pub camera_ids : List ℕ
  pub camera_keys : List String
  pub source_orders : List ℤ
  pub output_paths : List String

abbrev pub nothing_seen : Seen
nothing_seen = record { camera_ids = []; camera_keys = []; source_orders = []; output_paths = [] }

abbrev pub note : Seen → DeviceCameraConfig → Seen
note seen camera = record {
  camera_ids = add seen.camera_ids camera.camera_id;
  camera_keys = add seen.camera_keys camera.camera_key;
  source_orders = add seen.source_orders camera.source_order;
  output_paths = add seen.output_paths camera.output_path;
}

module _ (urlparse : String → Option (String × String)) where
  unfoldable pub validate_stream_url : DeviceCameraConfig → Option Rejection
  validate_stream_url camera =
      reject_if (camera.stream_url == "") "empty_stream_url"
        (validate_parsed (urlparse camera.stream_url))

  -- The body of the loop.
  abbrev pub check_camera : Seen → DeviceCameraConfig → Option Rejection
  check_camera seen camera =
      reject_if (contains seen.camera_ids camera.camera_id) "duplicate_camera_id" (
        or_else (validate_camera_key camera) (
          reject_if (contains seen.camera_keys camera.camera_key) "duplicate_camera_key" (
            reject_if (is_negative camera.source_order) "negative_source_order" (
              reject_if (contains seen.source_orders camera.source_order) "duplicate_source_order" (
                or_else (validate_stream_url camera) (
                  or_else (validate_output_path camera) (
                    reject_if (contains seen.output_paths camera.output_path)
                      "duplicate_output_path" none)))))))

  unfoldable pub check_cameras : Seen → List DeviceCameraConfig → Option Rejection
  check_cameras seen [] = none
  check_cameras seen (camera ∷ cameras) =
      or_else (check_camera seen camera) (check_cameras (note seen camera) cameras)

  unfoldable pub validate_configuration : DeviceConfiguration → ℕ → ℕ → Option Rejection
  validate_configuration configuration expected_device_id max_cameras =
      reject_if (not (configuration.schema_version == pos 1)) "unsupported_schema_version" (
        reject_if (not (configuration.device_id == expected_device_id)) "device_id_mismatch" (
          reject_if (configuration.branch_id == 0) "missing_branch_id" (
            reject_if (configuration.configuration_version == "") "missing_configuration_version" (
              reject_if (ltb max_cameras (length configuration.cameras)) "too_many_cameras"
                (check_cameras nothing_seen configuration.cameras)))))
