-- ===== src/Tests/Capture.antt =====
-- Images and the spool at concrete inputs.
use edge_weapon_detection_pl.Base.{
  ℕ, ◌≡◌, ◌≢◌, ◌≤◌, refl, arith, String, true, false, some, none, [], ◌∷◌, ◌++◌, if◌then◌else◌,
}
use edge_weapon_detection_pl.Base.Eq.{◌==◌, nat_eq, string_eq}
use edge_weapon_detection_pl.Base.Dict.{keys}
use edge_weapon_detection_pl.Base.Sets.{contains}
use edge_weapon_detection_pl.Time.{DateTime}
use edge_weapon_detection_pl.SnapshotOutbox.{
  SnapshotOutboxRecord, captured_row, get_record, set_capture_failed, list_all_event_ids,
}
use edge_weapon_detection_pl.Capture.Jpeg.{
  dimensions, running, parse_jpeg_dimensions, is_sof, is_bare,
}
use edge_weapon_detection_pl.Capture.Jpeg.Dimensions.{
  Segment, IsHeader, image_bytes, header_bytes, parse_jpeg_dimensions-image,
  parse_jpeg_dimensions-returns,
}
use edge_weapon_detection_pl.Capture.Spool.{
  Spool, CaptureConfig, Platform, CaptureState, SnapshotItem, ReconcileFaults,
  reconcile_snapshot_spool, spool_usage_bytes,
}
use edge_weapon_detection_pl.Capture.Spool.Quota.{process_snapshots, process_snapshots-KeepsQuota}
use edge_weapon_detection_pl.Capture.Spool.Reconcile.{reconcile_snapshot_spool_lem}

-- An APP0 segment of three bytes.
abbrev app0 : Segment
unfolding is_sof is_bare
app0 = record {
  marker = 0xe0;
  content = 1 ∷ 2 ∷ 3 ∷ [];
  plain = refl;
  long = refl;
  no_fill = refl;
  fits = omega arith;
}

IsHeader-of_vga : IsHeader 0xc0 17 640 480
unfolding is_sof
IsHeader-of_vga = record {
  is_frame = refl;
  size_fits = omega arith;
  size_holds = omega arith;
  width_fits = omega arith;
  height_fits = omega arith;
}

parse_jpeg_dimensions-image_example :
    parse_jpeg_dimensions
      (0xff ∷ 0xd8 ∷ image_bytes (app0 ∷ []) (header_bytes 0xc0 17 8 640 480 ++ 3 ∷ 1 ∷ []))
    ≡ dimensions 640 480
parse_jpeg_dimensions-image_example =
    parse_jpeg_dimensions-image (app0 ∷ []) 0xc0 17 8 640 480 (3 ∷ 1 ∷ []) IsHeader-of_vga

parse_jpeg_dimensions-returns_example :
    parse_jpeg_dimensions (0xff ∷ 0xd8 ∷ 0xff ∷ 0xff ∷ 0xff ∷ []) ≢ running
parse_jpeg_dimensions-returns_example =
    parse_jpeg_dimensions-returns (0xff ∷ 0xd8 ∷ 0xff ∷ 0xff ∷ 0xff ∷ [])

abbrev noon : DateTime
noon = record { is_aware = true; instant = 1000 }

abbrev path_of : ℕ → String
path_of i = if i == 1 then "1" else "2"

abbrev platform : Platform
platform = record {
  uuid_of = λ s. if s == "one" then some 1 else none;
  path_of = path_of;
  sha256 = λ bytes. "hash";
}

abbrev capture_config : CaptureConfig
capture_config = record {
  snapshot_capture_enabled = true;
  snapshot_max_file_bytes = 1000;
  snapshot_max_spool_bytes = 40;
}

abbrev empty_spool : CaptureState
empty_spool = record { spool = []; outbox = []; spool_quota_skip_count = 0 }

abbrev item : String → SnapshotItem
item event_id = record {
  event_id = event_id;
  bytes = 0xff ∷ 0xd8 ∷ 0xff ∷ 0xc0 ∷ 0 ∷ 17 ∷ 8 ∷ 1 ∷ 224 ∷ 2 ∷ 128 ∷ [];
  captured_at = noon;
  write_fails = false;
  insert_fails = false;
}

process_snapshots-KeepsQuota_example :
    spool_usage_bytes
      (process_snapshots capture_config platform empty_spool
        (item "one" ∷ item "two" ∷ item "one" ∷ [])).spool
    ≤ 40
unfolding spool_usage_bytes
process_snapshots-KeepsQuota_example =
    process_snapshots-KeepsQuota capture_config platform empty_spool
      (item "one" ∷ item "two" ∷ item "one" ∷ []) (omega arith)

abbrev no_faults : ReconcileFaults
no_faults = record { on_list = false; on_row = λ i. false; on_unlink = λ path. false }

-- The file of the first row is lost; the second file belongs to no row.
abbrev lost_row : SnapshotOutboxRecord
lost_row = captured_row 1 "1" "image/jpeg" 11 "hash" noon

abbrev orphaned : Spool
orphaned = ("2", 11) ∷ []

reconcile_snapshot_spool_lem_example :
    (get_record
        (reconcile_snapshot_spool no_faults (λ path. path) path_of (lost_row ∷ []) orphaned).0
        1
      ≡ some (set_capture_failed lost_row))
    × (contains
          (keys
            (reconcile_snapshot_spool no_faults (λ path. path) path_of (lost_row ∷ []) orphaned).1)
          "2"
        ≡ false)
unfolding get_record contains list_all_event_ids
reconcile_snapshot_spool_lem_example =
    reconcile_snapshot_spool_lem no_faults (λ path. path) path_of (lost_row ∷ []) orphaned 1 "2"
