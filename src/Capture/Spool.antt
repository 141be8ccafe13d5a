-- ===== src/Capture/Spool.antt =====
-- The files of the spool and the rows that name them: `_process_snapshot` of detection/
-- ingest_handler.py, and `spool_usage_bytes` and `reconcile_snapshot_spool` of
-- detection/snapshot_capture.py. A spool is a dictionary from paths to sizes.
pub mod Quota
pub mod Reconcile
use edge_weapon_detection_pl.Base.{
  ℕ, suc, ◌+◌, String, Bool, true, false, ◌&&◌, ◌||◌, not, Option, none, some, List, [], ◌∷◌,
  length, ltb, map, if◌then◌else◌,
}
use edge_weapon_detection_pl.Base.Eq.{◌==◌, string_eq, nat_eq}
use edge_weapon_detection_pl.Base.Dict.{Dict, get, put, keys}
use edge_weapon_detection_pl.Base.Sets.{contains}
use edge_weapon_detection_pl.Time.{DateTime}
use edge_weapon_detection_pl.SnapshotOutbox.{
  SnapshotOutboxRecord, Outbox, is_captured, get_record, captured_row, create_captured,
  mark_capture_failed, list_all_event_ids,
}
use edge_weapon_detection_pl.Capture.Jpeg.{SnapshotRejection, validate_snapshot_bytes}

abbrev pub Spool : Type 0
Spool = Dict String ℕ

-- The sum of the sizes; a file that vanishes while it is measured counts for nothing.
unfoldable pub spool_usage_bytes : Spool → ℕ
spool_usage_bytes [] = 0
spool_usage_bytes ((path, size) ∷ spool) = size + spool_usage_bytes spool

pub record CaptureConfig : Type 0 where
  pub snapshot_capture_enabled : Bool
  pub snapshot_max_file_bytes : ℕ
  pub snapshot_max_spool_bytes : ℕ

-- What is not the program's: `UUID` on a text, the path of an id in the spool, and the hash.
pub record Platform : Type 0 where
  pub uuid_of : String → Option ℕ
  pub path_of : ℕ → String
  pub sha256 : List ℕ → String

pub record CaptureState : Type 0 where
  pub spool : Spool
  pub outbox : Outbox
  pub spool_quota_skip_count : ℕ

-- One frame with a snapshot, the clock's reading, and where the disk and the database fail.
pub record SnapshotItem : Type 0 where
  pub event_id : String
  pub bytes : List ℕ
  pub captured_at : DateTime
  pub write_fails : Bool
  pub insert_fails : Bool

-- The write, which is atomic, and then the row; what the insert raises is logged.
abbrev pub write_and_insert : Platform → SnapshotItem → ℕ → CaptureState → CaptureState
write_and_insert platform item event_id s = if item.write_fails then s else record s {
  spool = put s.spool (platform.path_of event_id) (length item.bytes);
  outbox =
      (create_captured s.outbox
        (captured_row event_id (platform.path_of event_id) "image/jpeg" (length item.bytes)
          (platform.sha256 item.bytes) item.captured_at)
        item.insert_fails).0;
}

abbrev pub after_validation :
    Platform → SnapshotItem → ℕ → Option SnapshotRejection → CaptureState → CaptureState
after_validation platform item event_id (some reason) s = s
after_validation platform item event_id none s = write_and_insert platform item event_id s

abbrev pub capture_for :
    CaptureConfig → Platform → SnapshotItem → Option ℕ → CaptureState → CaptureState
capture_for cfg platform item none s = s
capture_for cfg platform item (some event_id) s =
    if ltb cfg.snapshot_max_spool_bytes (spool_usage_bytes s.spool + length item.bytes)
    then record s { spool_quota_skip_count = s.spool_quota_skip_count + 1 }
    else after_validation platform item event_id
        (validate_snapshot_bytes item.bytes cfg.snapshot_max_file_bytes) s

unfoldable pub process_snapshot :
    CaptureConfig → Platform → SnapshotItem → CaptureState → CaptureState
process_snapshot cfg platform item s =
    if cfg.snapshot_capture_enabled
    then capture_for cfg platform item (platform.uuid_of item.event_id) s
    else s

-- Where the reconciliation meets failures: at the listing, at an id's row, and at a file's removal.
pub record ReconcileFaults : Type 0 where
  pub on_list : Bool
  pub on_row : ℕ → Bool
  pub on_unlink : String → Bool

abbrev pub reconcile_found :
    ReconcileFaults → List String → Outbox → ℕ → Option SnapshotOutboxRecord → Outbox
reconcile_found faults files table i none = table
reconcile_found faults files table i (some r) =
    if not (is_captured r) || contains files r.local_path || faults.on_row i
    then table
    else (mark_capture_failed table i).0

unfoldable pub reconcile_row : ReconcileFaults → List String → Outbox → ℕ → Outbox
reconcile_row faults files table i = reconcile_found faults files table i (get_record table i)

unfoldable pub reconcile_rows : ReconcileFaults → List String → Outbox → List ℕ → Outbox
unfolding reconcile_row
reconcile_rows faults files table [] = table
reconcile_rows faults files table (i ∷ is) =
    reconcile_rows faults files (reconcile_row faults files table i) is

-- `stem_of` is `Path.stem`, and `name_of` is `str` of an id.
unfoldable pub remove_orphans : ReconcileFaults → (String → String) → List String → Spool → Spool
remove_orphans faults stem_of known_stems [] = []
remove_orphans faults stem_of known_stems ((path, size) ∷ spool) =
    let rest = remove_orphans faults stem_of known_stems spool in
    if contains known_stems (stem_of path) || faults.on_unlink path
    then (path, size) ∷ rest
    else rest

unfoldable pub reconcile_snapshot_spool :
    ReconcileFaults → (String → String) → (ℕ → String) → Outbox → Spool → Outbox × Spool
unfolding reconcile_rows remove_orphans
reconcile_snapshot_spool faults stem_of name_of table spool =
    if faults.on_list then (table, spool) else (
      reconcile_rows faults (keys spool) table (list_all_event_ids table),
      remove_orphans faults stem_of (map name_of (list_all_event_ids table)) spool,
    )
