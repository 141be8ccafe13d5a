-- ===== src/Upload/Worker.antt =====
-- One iteration of the upload of snapshots: `_drain_once` and `_upload_one` of agent/src/
-- weapon_detection_agent/snapshot/worker.py. A file of the spool is its hash and its size.
pub mod Deleted
pub mod Starved
use edge_weapon_detection_pl.Base.{
  ℕ, String, Bool, true, false, ◌&&◌, Option, none, some, List, [], ◌∷◌, length, ltb, nat_beq,
  if◌then◌else◌,
}
use edge_weapon_detection_pl.Base.Eq.{◌==◌, string_eq}
use edge_weapon_detection_pl.Base.Dict.{Dict, get, pop}
use edge_weapon_detection_pl.Time.{DateTime}
use edge_weapon_detection_pl.SnapshotOutbox.{
  Outbox, SnapshotOutboxRecord, Outcome, returned, raised, list_upload_ready, mark_uploaded,
  record_attempt_failure,
}
use edge_weapon_detection_pl.Identity.{DeviceIdentity, is_operational, has_secret}
use edge_weapon_detection_pl.Backoff.{Drained, idle, sent, failed, broken}
use edge_weapon_detection_pl.Sync.Client.{Response}
use edge_weapon_detection_pl.Upload.Client.{
  UploadOutcome, stored, failure, SnapshotUploadFailureReason, reason_value, upload_outcome,
}

-- `files` has the hash and the size of each file at its path.
pub record UploadState : Type 0 where
  pub outbox : Outbox
  pub files : Dict String (String × ℕ)

-- The Backend's answer to the upload of a row, and the clock's reading at the end of its turn.
pub record UploadWorld (F : Type 0) : Type 0 where
  pub answer : SnapshotOutboxRecord → Response F
  pub finished_at : SnapshotOutboxRecord → DateTime

-- What `_upload_one` returns, or that it raises.
pub data Uploading : Type 0 where
  go_on back_off crashed : Uploading

pub record UploadIteration : Type 0 where
  pub state : UploadState
  pub drained : Drained
  pub idle_sleep : Bool

-- A call of the repository: what it wrote, and `next` unless it raised.
abbrev pub after_write :
    {A : Type 0} → Uploading → UploadState → Outbox × Outcome A → UploadState × Uploading
after_write next s (outbox, returned a) = (record s { outbox = outbox }, next)
after_write next s (outbox, raised e) = (record s { outbox = outbox }, crashed)

abbrev pub unlink : String → UploadState × Uploading → UploadState × Uploading
unlink path (s, go_on) = (record s { files = pop s.files path }, go_on)
unlink path (s, back_off) = (s, back_off)
unlink path (s, crashed) = (s, crashed)

abbrev pub is_unmodified : SnapshotOutboxRecord → String × ℕ → Bool
is_unmodified row file = file.0 == row.sha256 && nat_beq file.1 row.size_bytes

-- The loop over the rows, which the first failed upload ends.
abbrev pub continue_with :
    (UploadState → UploadState × Uploading) → UploadState × Uploading → UploadState × Uploading
continue_with rest (s, go_on) = rest s
continue_with rest (s, back_off) = (s, back_off)
continue_with rest (s, crashed) = (s, crashed)

abbrev pub resting : UploadState → UploadIteration
resting s = record { state = s; drained = idle; idle_sleep = true }

abbrev pub collapsing : UploadState → UploadIteration
collapsing s = record { state = s; drained = broken; idle_sleep = false }

abbrev pub finish_upload : Bool → UploadState × Uploading → UploadIteration
finish_upload idle_sleep (s, go_on) = record { state = s; drained = sent; idle_sleep = idle_sleep }
finish_upload idle_sleep (s, back_off) = record { state = s; drained = failed; idle_sleep = false }
finish_upload idle_sleep (s, crashed) = collapsing s

module _ {F : Type 0} (w : UploadWorld F) where
  unfoldable pub fail_row :
      SnapshotOutboxRecord
      → SnapshotUploadFailureReason
      → Uploading
      → UploadState
      → UploadState × Uploading
  fail_row row reason next s =
      after_write next s
        (record_attempt_failure s.outbox row.event_id (w.finished_at row) (reason_value reason))

  abbrev pub apply_upload :
      SnapshotOutboxRecord → UploadOutcome → UploadState → UploadState × Uploading
  apply_upload row (failure reason status) s = fail_row row reason back_off s
  apply_upload row (stored outcome) s =
      unlink row.local_path
        (after_write go_on s (mark_uploaded s.outbox row.event_id (w.finished_at row)))

  -- the assertion on the alert, and the request
  abbrev pub request_upload :
      SnapshotOutboxRecord → Option String → UploadState → UploadState × Uploading
  request_upload row none s = (s, crashed)
  request_upload row (some alert_id) s = apply_upload row (upload_outcome (w.answer row)) s

  abbrev pub check_file :
      SnapshotOutboxRecord → Option (String × ℕ) → UploadState → UploadState × Uploading
  check_file row none s = fail_row row SnapshotUploadFailureReason.local_file_missing go_on s
  check_file row (some file) s =
      if is_unmodified row file
      then request_upload row row.backend_alert_id s
      else fail_row row SnapshotUploadFailureReason.local_file_modified go_on s

  unfoldable pub upload_one : SnapshotOutboxRecord → UploadState → UploadState × Uploading
  unfolding fail_row
  upload_one row s = check_file row (get s.files row.local_path) s

  unfoldable pub upload_rows : List SnapshotOutboxRecord → UploadState → UploadState × Uploading
  upload_rows [] s = (s, go_on)
  upload_rows (row ∷ rows) s = continue_with (λ s'. upload_rows rows s') (upload_one row s)

  abbrev pub upload_pending :
      ℕ → DeviceIdentity → Option (List SnapshotOutboxRecord) → UploadState → UploadIteration
  upload_pending batch_size identity none s = collapsing s
  upload_pending batch_size identity (some []) s = resting s
  upload_pending batch_size identity (some (row ∷ rows)) s =
      if has_secret identity
      then finish_upload (ltb (length (row ∷ rows)) batch_size) (upload_rows (row ∷ rows) s)
      else collapsing s

  abbrev pub upload_for : ℕ → Option DeviceIdentity → UploadState → UploadIteration
  upload_for batch_size none s = resting s
  upload_for batch_size (some identity) s =
      if is_operational identity.operational_state
      then upload_pending batch_size identity (list_upload_ready s.outbox batch_size) s
      else resting s

  -- `loaded` is what the identity repository gives, `none` where it raises.
  unfoldable pub drain_uploads : ℕ → Option (Option DeviceIdentity) → UploadState → UploadIteration
  drain_uploads batch_size none s = collapsing s
  drain_uploads batch_size (some identity) s = upload_for batch_size identity s
