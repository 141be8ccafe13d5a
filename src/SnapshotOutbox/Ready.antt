-- ===== src/SnapshotOutbox/Ready.antt =====
-- Which snapshots are handed to the upload worker, and how the calls move them in and out.
use edge_weapon_detection_pl.Base.{
  ℕ, suc, ◌≡◌, refl, arith, Bool, true, false, ◌&&◌, some, List, [], ◌∷◌, ◌++◌, length, ◌⊎◌,
}
use edge_weapon_detection_pl.Base.Rows.{count_rows}
use edge_weapon_detection_pl.Base.Sort.{IsSorted, select_rows_lem}
use edge_weapon_detection_pl.SnapshotOutbox.{
  SnapshotOutboxRecord, Outbox, is_upload_ready, has_event, captured_leb, list_upload_ready,
  cancel_for_quota, mark_uploaded, mark_capture_failed,
}
use edge_weapon_detection_pl.Time.{DateTime}

captured_leb_trans :
    (a b c : SnapshotOutboxRecord)
    → captured_leb a b ≡ true
    → captured_leb b c ≡ true
    → captured_leb a c ≡ true
captured_leb_trans a b c p q = ground arith

captured_leb_total :
    (a b : SnapshotOutboxRecord) → captured_leb a b ≡ false → captured_leb b a ≡ true
captured_leb_total a b h = ground arith

-- For a positive limit the listing succeeds; it and the rest that is left for later are the rows
-- that are captured, not uploaded and have an alert, each as often as it is stored, the oldest
-- capture first; a rest is left only if the limit is reached.
pub list_upload_ready_lem :
    (table : Outbox) (limit : ℕ)
    → (listed : List SnapshotOutboxRecord) × (rest : List SnapshotOutboxRecord) × (list_upload_ready
          table
          (suc limit)
        ≡ some listed)
      × IsSorted captured_leb (listed ++ rest)
      × ((test : SnapshotOutboxRecord → Bool)
          → count_rows test (listed ++ rest) ≡ count_rows (λ r. is_upload_ready r && test r) table)
      × ((rest ≡ []) ⊎ (length listed ≡ suc limit))
unfolding list_upload_ready
list_upload_ready_lem table limit =
    let (rest, sorted, counts, full) =
      select_rows_lem captured_leb captured_leb_trans captured_leb_total is_upload_ready table
        (suc limit) in
    (_, rest, refl, sorted, counts, full)

-- The ready rows of one event.
abbrev pub ready_of : ℕ → SnapshotOutboxRecord → Bool
ready_of i r = is_upload_ready r && has_event i r

-- Once an event's snapshot was suppressed by the quota, was uploaded, or lost its file, no row of
-- that event is ready for upload.
pub finished_not_ready :
    (table : Outbox) (i : ℕ) (at : DateTime)
    → at.is_aware ≡ true
    → (count_rows (ready_of i) (cancel_for_quota table i).0 ≡ 0)
      × (count_rows (ready_of i) (mark_uploaded table i at).0 ≡ 0)
      × (count_rows (ready_of i) (mark_capture_failed table i).0 ≡ 0)
unfolding cancel_for_quota mark_uploaded mark_capture_failed
finished_not_ready [] i at aware = ground arith
finished_not_ready (r ∷ table) i at aware = ground (arith, finished_not_ready table i at aware)
