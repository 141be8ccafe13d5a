-- ===== src/Upload/Worker/Deleted.antt =====
-- A file is deleted only for a row that the Backend has stored.
use edge_weapon_detection_pl.Base.{
  ℕ, String, Bool, true, false, Option, none, some, List, [], ◌∷◌, ◌≡◌, refl, arith, ◌⊎◌, inl, inr,
  Bool-cases, sym, subst, ltb, length,
}
use mathlib.Core.List.{Memᴰ}
use edge_weapon_detection_pl.Base.Eq.{◌==◌, string_eq, eq_of_beq}
use edge_weapon_detection_pl.Base.Dict.{get, get-pop}
use edge_weapon_detection_pl.SnapshotOutbox.{
  Outbox, SnapshotOutboxRecord, Outcome, returned, raised, mark_uploaded, list_upload_ready,
}
use edge_weapon_detection_pl.Identity.{DeviceIdentity, is_operational, has_secret}
use edge_weapon_detection_pl.Upload.Client.{
  SnapshotUploadOutcome, UploadOutcome, stored, failure, SnapshotUploadFailureReason,
  upload_outcome,
}
use edge_weapon_detection_pl.Upload.Worker.{
  UploadState, UploadWorld, Uploading, go_on, back_off, crashed, after_write, unlink, fail_row,
  apply_upload, request_upload, is_unmodified, check_file, upload_one, continue_with, upload_rows,
  finish_upload, upload_pending, upload_for, drain_uploads,
}

module _ {F : Type 0} (w : UploadWorld F) (path : String) (file : String × ℕ) where
  -- A row that explains why the file is gone: its file, unmodified, and the Backend's answer that
  -- it has the snapshot.
  pub record Explains (row : SnapshotOutboxRecord) : Type 0 where
    pub own : row.local_path ≡ path
    pub unmodified : is_unmodified row file ≡ true
    pub outcome : SnapshotUploadOutcome
    pub stored_there : upload_outcome (w.answer row) ≡ stored outcome

  -- The file is still there, or a row of the batch explains it.
  abbrev pub Accounted : List SnapshotOutboxRecord → UploadState → Type 0
  Accounted rows s =
      (get s.files path ≡ some file) ⊎ ((row : SnapshotOutboxRecord) × Memᴰ row rows × Explains row)

  after_write-files :
      {A : Type 0} (next : Uploading) (s : UploadState) (r : Outbox × Outcome A)
      → (after_write next s r).0.files ≡ s.files
  after_write-files next s (outbox, returned a) = refl
  after_write-files next s (outbox, raised e) = refl

  unlink-other :
      (p : String) (r : UploadState × Uploading)
      → (p == path) ≡ false
      → get r.0.files path ≡ some file
      → get (unlink p r).0.files path ≡ some file
  unlink-other p (s, go_on) other there = ground (arith, get-pop s.files p path)
  unlink-other p (s, back_off) other there = there
  unlink-other p (s, crashed) other there = there

  fail_row-files :
      (row : SnapshotOutboxRecord) (reason : SnapshotUploadFailureReason) (next : Uploading)
      (s : UploadState)
      → (fail_row w row reason next s).0.files ≡ s.files
  unfolding fail_row
  fail_row-files row reason next s = after_write-files next s _

  -- One row: the file stays, or the row explains it.
  abbrev Kept : SnapshotOutboxRecord → UploadState × Uploading → Type 0
  Kept row r = (get r.0.files path ≡ some file) ⊎ Explains row

  apply_upload-Kept :
      (row : SnapshotOutboxRecord) (outcome : UploadOutcome) (s : UploadState)
      → upload_outcome (w.answer row) ≡ outcome
      → get s.files path ≡ some file
      → (row.local_path ≡ path → is_unmodified row file ≡ true)
      → Kept row (apply_upload w row outcome s)
  apply_upload-Kept row (failure reason status) s e there same =
      inl (subst (λ d. get d path ≡ some file) (sym (fail_row-files row reason back_off s)) there)
  apply_upload-Kept row (stored outcome) s e there same =
      elim (Bool-cases (row.local_path == path)) [
        | inl own ↦
            let at_path = eq_of_beq row.local_path path own in
            inr (record {
              own = at_path;
              unmodified = same at_path;
              outcome = outcome;
              stored_there = e;
            })
        | inr other ↦
            let marked = mark_uploaded s.outbox row.event_id (w.finished_at row) in
            inl (
              unlink-other row.local_path (after_write go_on s marked) other (
                subst (λ d. get d path ≡ some file) (sym (after_write-files go_on s marked)) there))
      ]

  request_upload-Kept :
      (row : SnapshotOutboxRecord) (alert : Option String) (s : UploadState)
      → get s.files path ≡ some file
      → (row.local_path ≡ path → is_unmodified row file ≡ true)
      → Kept row (request_upload w row alert s)
  request_upload-Kept row none s there same = inl there
  request_upload-Kept row (some alert) s there same = apply_upload-Kept row _ s refl there same

  check_file-Kept :
      (row : SnapshotOutboxRecord) (found : Option (String × ℕ)) (s : UploadState)
      → get s.files row.local_path ≡ found
      → get s.files path ≡ some file
      → Kept row (check_file w row found s)
  check_file-Kept row none s e there =
      inl (subst (λ d. get d path ≡ some file) (sym (fail_row-files row _ go_on s)) there)
  check_file-Kept row (some f) s e there = elim (Bool-cases (is_unmodified row f)) [
    | inl good ↦ simp good (
        request_upload-Kept row row.backend_alert_id s there (λ own.
          let at_path = subst (λ p. get s.files p ≡ some f) own e in
          let same : f ≡ file = ground arith in subst (λ g. is_unmodified row g ≡ true) same good))
    | inr bad ↦
        simp bad
          (inl (subst (λ d. get d path ≡ some file) (sym (fail_row-files row _ go_on s)) there))
  ]

  upload_one-Kept :
      (row : SnapshotOutboxRecord) (s : UploadState)
      → get s.files path ≡ some file
      → Kept row (upload_one w row s)
  unfolding upload_one
  upload_one-Kept row s there = check_file-Kept row (get s.files row.local_path) s refl there

  Accounted-later :
      (row : SnapshotOutboxRecord) (rows : List SnapshotOutboxRecord) (s : UploadState)
      → Accounted rows s
      → Accounted (row ∷ rows) s
  Accounted-later row rows s (inl there) = inl there
  Accounted-later row rows s (inr (r, m, why)) = inr (r, Memᴰ.tail m, why)

  -- Nothing writes a file: what was deleted stays deleted, so that a row explains it for good.
  continue-Accounted :
      (row : SnapshotOutboxRecord) (rows : List SnapshotOutboxRecord)
      (rest : UploadState → UploadState × Uploading) (r : UploadState × Uploading)
      → ((s : UploadState) → get s.files path ≡ some file → Accounted rows (rest s).0)
      → Kept row r
      → Accounted (row ∷ rows) (continue_with rest r).0
  continue-Accounted row rows rest r later (inr why) = inr (row, Memᴰ.head refl, why)
  continue-Accounted row rows rest (s, go_on) later (inl there) =
      Accounted-later row rows (rest s).0 (later s there)
  continue-Accounted row rows rest (s, back_off) later (inl there) = inl there
  continue-Accounted row rows rest (s, crashed) later (inl there) = inl there

  upload_rows-Accounted :
      (rows : List SnapshotOutboxRecord) (s : UploadState)
      → get s.files path ≡ some file
      → Accounted rows (upload_rows w rows s).0
  unfolding upload_rows
  upload_rows-Accounted [] s there = inl there
  upload_rows-Accounted (row ∷ rows) s there =
      continue-Accounted row rows (λ s'. upload_rows w rows s') (upload_one w row s)
        (λ s' there'. upload_rows-Accounted rows s' there') (upload_one-Kept row s there)

  -- The outcome of an iteration for the file.
  abbrev pub KeptOrStored : Option (List SnapshotOutboxRecord) → UploadState → Type 0
  KeptOrStored listed s =
      (get s.files path ≡ some file)
      ⊎ ((rows : List SnapshotOutboxRecord) × (listed ≡ some rows)
          × ((row : SnapshotOutboxRecord) × Memᴰ row rows × Explains row))

  finish_upload-state :
      (idle_sleep : Bool) (r : UploadState × Uploading) → (finish_upload idle_sleep r).state ≡ r.0
  finish_upload-state idle_sleep (s, go_on) = refl
  finish_upload-state idle_sleep (s, back_off) = refl
  finish_upload-state idle_sleep (s, crashed) = refl

  listed_rows :
      (rows : List SnapshotOutboxRecord) (s : UploadState)
      → Accounted rows s
      → KeptOrStored (some rows) s
  listed_rows rows s (inl there) = inl there
  listed_rows rows s (inr why) = inr (rows, refl, why)

  upload_pending-Kept :
      (batch_size : ℕ) (identity : DeviceIdentity) (listed : Option (List SnapshotOutboxRecord))
      (s : UploadState)
      → get s.files path ≡ some file
      → KeptOrStored listed (upload_pending w batch_size identity listed s).state
  upload_pending-Kept batch_size identity none s there = inl there
  upload_pending-Kept batch_size identity (some []) s there = inl there
  upload_pending-Kept batch_size identity (some (row ∷ rows)) s there =
      elim (Bool-cases (has_secret identity)) [
        | inl secret ↦ simp secret (
            subst (λ s'. KeptOrStored (some (row ∷ rows)) s')
              (sym (
                finish_upload-state (ltb (length (row ∷ rows)) batch_size)
                  (upload_rows w (row ∷ rows) s)))
              (listed_rows (row ∷ rows) (upload_rows w (row ∷ rows) s).0
                (upload_rows-Accounted (row ∷ rows) s there)))
        | inr bare ↦ simp bare (inl there)
      ]

  upload_for-Kept :
      (batch_size : ℕ) (identity : Option DeviceIdentity) (s : UploadState)
      → get s.files path ≡ some file
      → KeptOrStored
          (list_upload_ready s.outbox batch_size)
          (upload_for w batch_size identity s).state
  upload_for-Kept batch_size none s there = inl there
  upload_for-Kept batch_size (some identity) s there =
      elim (Bool-cases (is_operational identity.operational_state)) [
        | inl up ↦ simp up (upload_pending-Kept batch_size identity _ s there)
        | inr locked ↦ simp locked (inl there)
      ]

-- An iteration of the upload worker leaves every file of the spool as it is, unless the file is the
-- one of a row that was listed as ready, has that row's hash and size, and the Backend answered that
-- it stores the snapshot.
pub drain_uploads-files :
    {F : Type 0} (w : UploadWorld F) (batch_size : ℕ) (loaded : Option (Option DeviceIdentity))
    (s : UploadState) (path : String) (file : String × ℕ)
    → get s.files path ≡ some file
    → KeptOrStored w path file
        (list_upload_ready s.outbox batch_size)
        (drain_uploads w batch_size loaded s).state
unfolding drain_uploads
drain_uploads-files w batch_size none s path file there = inl there
drain_uploads-files w batch_size (some identity) s path file there =
    upload_for-Kept w path file batch_size identity s there
