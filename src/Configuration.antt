-- ===== src/Configuration.antt =====
-- The configuration of a device: agent/src/weapon_detection_agent/configuration/models.py, and the
-- mapping of the Bridge's source numbers in configuration/source_mapping.py.
pub mod Client
pub mod Validation
pub mod Mapping
pub mod Coordinator
pub mod Serialization
use edge_weapon_detection_pl.Base.{
  ℕ, suc, String, Bool, true, false, Option, none, some, List, [], ◌∷◌, if◌then◌else◌,
}
use edge_weapon_detection_pl.Base.Int.{ℤ, int_eq}
use edge_weapon_detection_pl.Base.Dict.{Dict, get, put}
use edge_weapon_detection_pl.Time.{DateTime}

pub record DeviceCameraConfig : Type 0 where
  pub camera_id : ℕ
  pub camera_key : String
  pub name : String
  pub stream_url : String
  pub enabled : Bool
  pub source_order : ℤ
  pub output_path : String

pub record DeviceConfiguration : Type 0 where
  pub schema_version : ℤ
  pub configuration_version : String
  pub device_id : ℕ
  pub branch_id : ℕ
  pub generated_at_utc : DateTime
  pub cameras : List DeviceCameraConfig

pub record SourceGeneration : Type 0 where
  pub generation : ℕ
  pub source_to_camera_id : Dict ℤ ℕ

pub record SourceGenerationTracker : Type 0 where
  pub next_generation : ℕ
  pub current : Option SourceGeneration

abbrev pub no_generation : SourceGenerationTracker
no_generation = record { next_generation = 1; current = none }

-- The dictionary comprehension, which writes one camera after the other.
abbrev pub map_sources : List DeviceCameraConfig → Dict ℤ ℕ → Dict ℤ ℕ
map_sources [] mapping = mapping
map_sources (c ∷ cameras) mapping =
    map_sources cameras (if c.enabled then put mapping c.source_order c.camera_id else mapping)

unfoldable pub install : SourceGenerationTracker → DeviceConfiguration → SourceGenerationTracker
install t configuration = record {
  next_generation = suc t.next_generation;
  current = some (record {
    generation = t.next_generation;
    source_to_camera_id = map_sources configuration.cameras [];
  });
}

abbrev pub resolve_in : Option SourceGeneration → ℤ → Option ℕ
resolve_in none source_id = none
resolve_in (some generation) source_id = get generation.source_to_camera_id source_id

-- `resolve_camera_id` of the coordinator, in the tracker's current generation
unfoldable pub resolve_camera_id : SourceGenerationTracker → ℤ → Option ℕ
resolve_camera_id t source_id = resolve_in t.current source_id
