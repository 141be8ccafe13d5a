-- ===== src/SnapshotOutbox.antt =====
-- The snapshots that wait for their upload: agent/src/weapon_detection_agent/persistence/
-- snapshot_outbox_repository.py and snapshot_models.py. A table is the list of its rows; each method
-- is one transaction, so a method that raises leaves the table as it was.
pub mod Lifecycle
pub mod Ready
use edge_weapon_detection_pl.Base.{
  ℕ, zero, suc, ◌+◌, ◌≡◌, String, Bool, true, false, ◌&&◌, not, Option, none, some, List, [], ◌∷◌,
  ◌++◌, map, ltb, leb, nat_beq, any, if◌then◌else◌,
}
use edge_weapon_detection_pl.Base.Eq.{◌==◌, nat_eq, string_eq}
use edge_weapon_detection_pl.Base.Rows.{update_rows, count_rows, first}
use edge_weapon_detection_pl.Base.Sort.{select_rows}
use edge_weapon_detection_pl.Time.{DateTime}

pub data CaptureStatus : Type 0 where
  captured capture_failed : CaptureStatus

pub data UploadStatus : Type 0 where
  pending uploaded suppressed_by_quota : UploadStatus

pub record SnapshotOutboxRecord : Type 0 where
  pub event_id : ℕ
  pub local_path : String
  pub capture_status : CaptureStatus
  pub upload_status : UploadStatus
  pub backend_alert_id : Option String
  pub content_type : String
  pub size_bytes : ℕ
  pub sha256 : String
  pub captured_at_utc : DateTime
  pub uploaded_at_utc : Option DateTime
  pub attempt_count : ℕ
  pub last_attempt_at_utc : Option DateTime
  pub last_error_category : Option String

abbrev pub Outbox : Type 0
Outbox = List SnapshotOutboxRecord

abbrev pub is_captured : SnapshotOutboxRecord → Bool
is_captured row = elim row.capture_status [ captured ↦ true | capture_failed ↦ false ]

abbrev pub is_upload_pending : SnapshotOutboxRecord → Bool
is_upload_pending row = elim row.upload_status [
  | pending ↦ true
  | uploaded ↦ false
  | suppressed_by_quota ↦ false
]

abbrev pub has_alert : SnapshotOutboxRecord → Bool
has_alert row = elim row.backend_alert_id [ none ↦ false | some a ↦ true ]

abbrev pub has_event : ℕ → SnapshotOutboxRecord → Bool
has_event i row = row.event_id == i

-- get(event_id)
unfoldable pub get_record : Outbox → ℕ → Option SnapshotOutboxRecord
get_record table i = first (has_event i) table

-- What a method raises.
pub data OutboxError : Type 0 where
  naive_time already_exists alert_conflict storage_failed : OutboxError

-- What a method returns, or raises.
pub data Outcome (A : Type 0) : Type 0 where
  returned : A → Outcome A
  raised : OutboxError → Outcome A

abbrev pub captured_row : ℕ → String → String → ℕ → String → DateTime → SnapshotOutboxRecord
captured_row event_id local_path content_type size_bytes sha256 at = record {
  event_id = event_id;
  local_path = local_path;
  capture_status = captured;
  upload_status = pending;
  backend_alert_id = none;
  content_type = content_type;
  size_bytes = size_bytes;
  sha256 = sha256;
  captured_at_utc = at;
  uploaded_at_utc = none;
  attempt_count = 0;
  last_attempt_at_utc = none;
  last_error_category = none;
}

-- `fault` says that the database fails during the call. The record that the method reads back is
-- the row that it inserted.
unfoldable pub create_captured :
    Outbox → SnapshotOutboxRecord → Bool → Outbox × Outcome SnapshotOutboxRecord
create_captured table row fault =
    if not row.captured_at_utc.is_aware
    then (table, raised naive_time)
    else if any (has_event row.event_id) table
    then (table, raised already_exists)
    else if fault
    then (table, raised storage_failed)
    else (table ++ row ∷ [], returned row)

abbrev pub set_alert : String → SnapshotOutboxRecord → SnapshotOutboxRecord
set_alert alert_id row = record row { backend_alert_id = some alert_id }

abbrev pub associate_row : Outbox → ℕ → String → Option SnapshotOutboxRecord → Outbox × Outcome Bool
associate_row table event_id alert_id none = (table, returned false)
associate_row table event_id alert_id (some row) = elim row.backend_alert_id [
  | none ↦ (update_rows (has_event event_id) (set_alert alert_id) table, returned true)
  | some existing ↦
      if existing == alert_id then (table, returned true) else (table, raised alert_conflict)
]

unfoldable pub associate_alert_id : Outbox → ℕ → String → Outbox × Outcome Bool
unfolding get_record
associate_alert_id table event_id alert_id =
    associate_row table event_id alert_id (get_record table event_id)

-- bool(cursor.rowcount)
abbrev pub changed_any : (SnapshotOutboxRecord → Bool) → Outbox → Bool
changed_any test table = ltb 0 (count_rows test table)

abbrev pub pending_upload_of : ℕ → SnapshotOutboxRecord → Bool
pending_upload_of event_id row = has_event event_id row && is_upload_pending row

abbrev pub set_uploaded : DateTime → SnapshotOutboxRecord → SnapshotOutboxRecord
set_uploaded at row = record row { upload_status = uploaded; uploaded_at_utc = some at }

unfoldable pub mark_uploaded : Outbox → ℕ → DateTime → Outbox × Outcome Bool
mark_uploaded table event_id at = if not at.is_aware then (table, raised naive_time) else (
  update_rows (pending_upload_of event_id) (set_uploaded at) table,
  returned (changed_any (pending_upload_of event_id) table),
)

abbrev pub add_failure : DateTime → String → SnapshotOutboxRecord → SnapshotOutboxRecord
add_failure at category row = record row {
  attempt_count = row.attempt_count + 1;
  last_attempt_at_utc = some at;
  last_error_category = some category;
}

unfoldable pub record_attempt_failure : Outbox → ℕ → DateTime → String → Outbox × Outcome (Unit {0})
record_attempt_failure table event_id at category =
    if not at.is_aware
    then (table, raised naive_time)
    else (update_rows (has_event event_id) (add_failure at category) table, returned tt)

abbrev pub captured_of : ℕ → SnapshotOutboxRecord → Bool
captured_of event_id row = has_event event_id row && is_captured row

abbrev pub set_capture_failed : SnapshotOutboxRecord → SnapshotOutboxRecord
set_capture_failed row = record row { capture_status = capture_failed }

unfoldable pub mark_capture_failed : Outbox → ℕ → Outbox × Outcome Bool
mark_capture_failed table event_id = (
  update_rows (captured_of event_id) set_capture_failed table,
  returned (changed_any (captured_of event_id) table),
)

abbrev pub set_suppressed : SnapshotOutboxRecord → SnapshotOutboxRecord
set_suppressed row = record row { upload_status = suppressed_by_quota }

unfoldable pub cancel_for_quota : Outbox → ℕ → Outbox × Outcome Bool
cancel_for_quota table event_id = (
  update_rows (pending_upload_of event_id) set_suppressed table,
  returned (changed_any (pending_upload_of event_id) table),
)

-- CaptureStatus = 'captured' AND UploadStatus = 'pending' AND BackendAlertId IS NOT NULL
abbrev pub is_upload_ready : SnapshotOutboxRecord → Bool
is_upload_ready row = is_captured row && (is_upload_pending row && has_alert row)

-- ORDER BY CapturedAtUtc ASC, EventId ASC
abbrev pub captured_leb : SnapshotOutboxRecord → SnapshotOutboxRecord → Bool
captured_leb a b =
    if nat_beq a.captured_at_utc.instant b.captured_at_utc.instant
    then leb a.event_id b.event_id
    else ltb a.captured_at_utc.instant b.captured_at_utc.instant

-- `none` is the ValueError for a limit that is not positive.
unfoldable pub list_upload_ready : Outbox → ℕ → Option (List SnapshotOutboxRecord)
unfolding select_rows
list_upload_ready table zero = none
list_upload_ready table (suc limit) =
    some (select_rows captured_leb is_upload_ready table (suc limit))

unfoldable pub list_all_event_ids : Outbox → List ℕ
list_all_event_ids table = map (λ row. row.event_id) table
