-- ===== src/Upload/Worker/Starved.antt =====
-- A full batch of rows whose files are missing holds up every later row.
use edge_weapon_detection_pl.Base.{
  ℕ, suc, String, Bool, true, false, Option, none, some, List, [], ◌∷◌, ◌≡◌, refl, sym, ap, ◌∙◌,
  subst, arith, map, length, ltb, All,
}
use edge_weapon_detection_pl.Base.Eq.{string_eq}
use edge_weapon_detection_pl.Base.Dict.{Dict, get}
use edge_weapon_detection_pl.Base.Rows.{update_rows}
use edge_weapon_detection_pl.Base.Sort.{select_rows-update_rows}
use edge_weapon_detection_pl.SnapshotOutbox.{
  Outbox, SnapshotOutboxRecord, list_upload_ready, record_attempt_failure, add_failure, has_event,
  is_upload_ready, captured_leb,
}
use edge_weapon_detection_pl.Time.{DateTime}
use edge_weapon_detection_pl.Identity.{DeviceIdentity, is_operational, has_secret}
use edge_weapon_detection_pl.Backoff.{sent}
use edge_weapon_detection_pl.Upload.Worker.{
  UploadState, UploadWorld, go_on, UploadIteration, fail_row, upload_one, continue_with,
  upload_rows, upload_pending, drain_uploads,
}

map-update_rows :
    {A B : Type 0} (f : A → B) (test : A → Bool) (change : A → A) (rows : List A)
    → ((a : A) → f (change a) ≡ f a)
    → map f (update_rows test change rows) ≡ map f rows
map-update_rows f test change [] keeps = refl
map-update_rows f test change (r ∷ rs) keeps =
    ground (arith, keeps r, map-update_rows f test change rs keeps)

abbrev pub event_ids : List SnapshotOutboxRecord → List ℕ
event_ids rows = map (λ r. r.event_id) rows

abbrev pub local_paths : List SnapshotOutboxRecord → List String
local_paths rows = map (λ r. r.local_path) rows

-- The listing has rows of these events and files, in this order.
pub record Lists (limit : ℕ) (outbox : Outbox) (ids : List ℕ) (paths : List String) : Type 0 where
  pub rows : List SnapshotOutboxRecord
  pub listed : list_upload_ready outbox limit ≡ some rows
  pub same_events : event_ids rows ≡ ids
  pub same_paths : local_paths rows ≡ paths

abbrev pub AllMissing : Dict String (String × ℕ) → List String → Type 0
AllMissing files paths = All (λ p. get files p ≡ none) paths

abbrev map_option : {A B : Type 0} → (A → B) → Option A → Option B
map_option f none = none
map_option f (some a) = some (f a)

update-Lists :
    (n : ℕ) (outbox : Outbox) (ids : List ℕ) (paths : List String) (i : ℕ) (at : DateTime)
    (category : String)
    → Lists (suc n) outbox ids paths
    → Lists (suc n) (update_rows (has_event i) (add_failure at category) outbox) ids paths
unfolding list_upload_ready
update-Lists n outbox ids paths i at category l =
    let change = add_failure at category in
    let moved =
      select_rows-update_rows captured_leb is_upload_ready change (λ a. refl) (λ a b. refl)
        (λ a b. refl) (has_event i) outbox (suc n) in
    record {
      rows = update_rows (has_event i) change l.rows;
      listed = ap some moved ∙ ap (map_option (update_rows (has_event i) change)) l.listed;
      same_events =
          map-update_rows (λ r. r.event_id) (has_event i) change l.rows (λ a. refl) ∙ l.same_events;
      same_paths =
          map-update_rows (λ r. r.local_path) (has_event i) change l.rows (λ a. refl)
          ∙ l.same_paths;
    }

-- What one turn of a starved loop leaves: the files, and a listing of the same rows.
pub record Holds (limit : ℕ) (files : Dict String (String × ℕ)) (ids : List ℕ) (paths : List String)
    (s : UploadState) : Type 0 where
  pub same_files : s.files ≡ files
  pub lists : Lists limit s.outbox ids paths

-- An iteration that uploads nothing, does not wait, and leaves the same rows for the next one.
pub record IsStarved (limit : ℕ) (files : Dict String (String × ℕ)) (ids : List ℕ)
    (paths : List String) (i : UploadIteration) : Type 0 where
  pub not_failed : i.drained ≡ sent
  pub no_wait : i.idle_sleep ≡ false
  pub holds : Holds limit files ids paths i.state

length-map : {A B : Type 0} (f : A → B) (xs : List A) → length (map f xs) ≡ length xs
length-map f [] = refl
length-map f (x ∷ xs) = ap suc (length-map f xs)

module _ {F : Type 0} where
  -- Every reading of the clock is a time with a zone, as `_utc_now` gives it.
  abbrev pub IsAware : UploadWorld F → Type 0
  IsAware w = (row : SnapshotOutboxRecord) → (w.finished_at row).is_aware ≡ true

  missing_row :
      (w : UploadWorld F) (row : SnapshotOutboxRecord) (s : UploadState)
      → IsAware w
      → get s.files row.local_path ≡ none
      → upload_one w row s ≡ (
        record s {
          outbox =
              update_rows
                (has_event row.event_id)
                (add_failure (w.finished_at row) "local_file_missing")
                s.outbox;
        },
        go_on,
      )
  unfolding upload_one fail_row record_attempt_failure
  missing_row w row s aware gone = simp (gone, aware row) refl

  upload_rows-missing :
      (w : UploadWorld F) (n : ℕ) (todo : List SnapshotOutboxRecord) (ids : List ℕ)
      (paths : List String) (s : UploadState)
      → IsAware w
      → AllMissing s.files (local_paths todo)
      → Lists (suc n) s.outbox ids paths
      → (s' : UploadState) × (upload_rows w todo s ≡ (s', go_on))
        × Holds (suc n) s.files ids paths s'
  unfolding upload_rows
  upload_rows-missing w n [] ids paths s aware gone l =
      (s, refl, record { same_files = refl; lists = l })
  upload_rows-missing w n (row ∷ todo) ids paths s aware gone l =
      let next = record s {
        outbox =
            update_rows (has_event row.event_id)
              (add_failure (w.finished_at row) "local_file_missing") s.outbox;
      } in
      let (s', runs, holds) = upload_rows-missing w n todo ids paths next aware gone.1 (
        update-Lists n s.outbox ids paths row.event_id (w.finished_at row) "local_file_missing"
          l) in
      (
        s',
        ap (continue_with (λ u. upload_rows w todo u)) (missing_row w row s aware gone.0) ∙ runs,
        holds,
      )

  -- The iterations of the worker, each in its world.
  unfoldable pub drain_times :
      ℕ → DeviceIdentity → List (UploadWorld F) → UploadState → List UploadIteration
  unfolding drain_uploads
  drain_times batch_size identity [] s = []
  drain_times batch_size identity (w ∷ ws) s =
      let i = drain_uploads w batch_size (some (some identity)) s in
      i ∷ drain_times batch_size identity ws i.state

  upload_pending-IsStarved :
      (w : UploadWorld F) (n : ℕ) (identity : DeviceIdentity) (rows : List SnapshotOutboxRecord)
      (ids : List ℕ) (paths : List String) (s : UploadState)
      → IsAware w
      → has_secret identity ≡ true
      → length rows ≡ suc n
      → AllMissing s.files (local_paths rows)
      → Lists (suc n) s.outbox ids paths
      → IsStarved (suc n) s.files ids paths (upload_pending w (suc n) identity (some rows) s)
  upload_pending-IsStarved w n identity [] ids paths s aware secret full gone l =
      absurd (omega arith)
  upload_pending-IsStarved w n identity (row ∷ rows) ids paths s aware secret full gone l =
      let (s', runs, holds) = upload_rows-missing w n (row ∷ rows) ids paths s aware gone l in
      let no_rest : ltb (length (row ∷ rows)) (suc n) ≡ false = ground arith in
      let ends : upload_pending w (suc n) identity (some (row ∷ rows)) s
          ≡ record { state = s'; drained = sent; idle_sleep = false } =
        simp (secret, no_rest, runs) refl in
      subst (λ i. IsStarved (suc n) s.files ids paths i) (sym ends)
        (record { not_failed = refl; no_wait = refl; holds = holds })

  drain_uploads-IsStarved :
      (w : UploadWorld F) (n : ℕ) (identity : DeviceIdentity) (ids : List ℕ) (paths : List String)
      (s : UploadState)
      → IsAware w
      → is_operational identity.operational_state ≡ true
      → has_secret identity ≡ true
      → length ids ≡ suc n
      → AllMissing s.files paths
      → Lists (suc n) s.outbox ids paths
      → IsStarved (suc n) s.files ids paths (drain_uploads w (suc n) (some (some identity)) s)
  unfolding drain_uploads
  drain_uploads-IsStarved w n identity ids paths s aware up secret full gone l =
      let full_rows : length l.rows ≡ suc n =
        sym (length-map (λ r. r.event_id) l.rows) ∙ ap length l.same_events ∙ full in
      let none_there = subst (λ ps. AllMissing s.files ps) (sym l.same_paths) gone in
      simp up (
        subst (λ q. IsStarved (suc n) s.files ids paths (upload_pending w (suc n) identity q s))
          (sym l.listed)
          (upload_pending-IsStarved w n identity l.rows ids paths s aware secret full_rows
            none_there l))

-- If the batch that is listed is full and all its files are missing, then every later iteration of
-- an operational device uploads nothing, ends without a wait and without a backoff, and leaves a
-- listing of the same events for the next one: no later row is ever reached.
pub drain_times-IsStarved :
    {F : Type 0} (ws : List (UploadWorld F)) (n : ℕ) (identity : DeviceIdentity) (ids : List ℕ)
    (paths : List String) (files : Dict String (String × ℕ)) (s : UploadState)
    → All IsAware ws
    → is_operational identity.operational_state ≡ true
    → has_secret identity ≡ true
    → length ids ≡ suc n
    → AllMissing files paths
    → Holds (suc n) files ids paths s
    → All (IsStarved (suc n) files ids paths) (drain_times (suc n) identity ws s)
unfolding drain_times
drain_times-IsStarved [] n identity ids paths files s aware up secret full gone holds = tt
drain_times-IsStarved (w ∷ ws) n identity ids paths files s aware up secret full gone holds =
    let none_there = subst (λ f. AllMissing f paths) (sym holds.same_files) gone in
    let here =
      drain_uploads-IsStarved w n identity ids paths s aware.0 up secret full none_there
        holds.lists in
    let starved =
      subst (λ f. IsStarved (suc n) f ids paths (drain_uploads w (suc n) (some (some identity)) s))
        holds.same_files here in
    (
      starved,
      drain_times-IsStarved ws n identity ids paths files _ aware.1 up secret full gone
          starved.holds,
    )
