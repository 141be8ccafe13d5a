-- ===== src/Tests/Spool.antt =====
-- The upload of snapshots at concrete inputs.
use edge_weapon_detection_pl.Base.{ℕ, refl, true, some, [], ◌∷◌, All}
use edge_weapon_detection_pl.Base.Eq.{string_eq}
use edge_weapon_detection_pl.Base.Dict.{get}
use edge_weapon_detection_pl.Base.Sort.{select_rows}
use edge_weapon_detection_pl.Time.{DateTime}
use edge_weapon_detection_pl.Identity.{DeviceIdentity, operational}
use edge_weapon_detection_pl.SnapshotOutbox.{
  SnapshotOutboxRecord, captured_row, set_alert, list_upload_ready,
}
use edge_weapon_detection_pl.Sync.Client.{timed_out}
use edge_weapon_detection_pl.Upload.Worker.{UploadState, UploadWorld, drain_uploads}
use edge_weapon_detection_pl.Upload.Worker.Deleted.{KeptOrStored, drain_uploads-files}
use edge_weapon_detection_pl.Upload.Worker.Starved.{
  IsStarved, Holds, drain_times, drain_times-IsStarved,
}

abbrev noon : DateTime
noon = record { is_aware = true; instant = 1000 }

abbrev device : DeviceIdentity
device = record {
  device_id = "d";
  shared_secret = some "s";
  activated_at = noon;
  last_activated_at = noon;
  operational_state = operational;
}

-- every request times out
abbrev outage : UploadWorld ℕ
outage = record { answer = λ row. timed_out; finished_at = λ row. noon }

abbrev ready_row : SnapshotOutboxRecord
ready_row = set_alert "a1" (captured_row 1 "/spool/1.jpg" "image/jpeg" 3 "h1" noon)

abbrev later_row : SnapshotOutboxRecord
later_row =
    set_alert "a2" (
      captured_row 2 "/spool/2.jpg" "image/jpeg" 3 "h2"
        (record { is_aware = true; instant = 2000 }))

-- The file of the first row is missing, that of the second is there.
abbrev half_missing : UploadState
half_missing = record {
  outbox = ready_row ∷ later_row ∷ [];
  files = ("/spool/2.jpg", ("h2", 3)) ∷ [];
}

drain_uploads-files_example :
    KeptOrStored outage "/spool/2.jpg"
      ("h2", 3)
      (list_upload_ready half_missing.outbox 2)
      (drain_uploads outage 2 (some (some device)) half_missing).state
unfolding get
drain_uploads-files_example =
    drain_uploads-files outage 2 (some (some device)) half_missing "/spool/2.jpg" ("h2", 3) refl

first_listed : Holds 1 half_missing.files (1 ∷ []) ("/spool/1.jpg" ∷ []) half_missing
unfolding list_upload_ready select_rows
first_listed = record {
  same_files = refl;
  lists = record { rows = ready_row ∷ []; listed = refl; same_events = refl; same_paths = refl };
}

drain_times-IsStarved_example :
    All
      (IsStarved 1 half_missing.files (1 ∷ []) ("/spool/1.jpg" ∷ []))
      (drain_times 1 device (outage ∷ outage ∷ []) half_missing)
unfolding get
drain_times-IsStarved_example =
    drain_times-IsStarved (outage ∷ outage ∷ []) 0 device (1 ∷ []) ("/spool/1.jpg" ∷ [])
      half_missing.files half_missing ((λ row. refl), ((λ row. refl), tt)) refl refl refl (refl, tt)
      first_listed
