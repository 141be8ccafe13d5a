-- ===== src/Capture/Spool/Reconcile.antt =====
-- What the reconciliation at startup does to every row and every file.
use edge_weapon_detection_pl.Base.{
  ℕ, ◌≡◌, refl, arith, ◌∙◌, String, false, ◌&&◌, ◌||◌, not, Option, none, some, List, [], ◌∷◌, map,
  if◌then◌else◌, Bool-cases, inl, inr,
}
use edge_weapon_detection_pl.Base.Eq.{◌==◌, nat_eq, string_eq}
use edge_weapon_detection_pl.Base.Dict.{keys}
use edge_weapon_detection_pl.Base.Sets.{contains}
use edge_weapon_detection_pl.Base.Rows.{first, first-update_rows, test-first}
use edge_weapon_detection_pl.SnapshotOutbox.{
  SnapshotOutboxRecord, Outbox, is_captured, has_event, get_record, mark_capture_failed,
  set_capture_failed, captured_of, list_all_event_ids,
}
use edge_weapon_detection_pl.Capture.Spool.{
  Spool, ReconcileFaults, reconcile_found, reconcile_row, reconcile_rows, remove_orphans,
  reconcile_snapshot_spool,
}

-- A captured row whose file is missing becomes a failed capture.
abbrev pub reconciled : ReconcileFaults → List String → SnapshotOutboxRecord → SnapshotOutboxRecord
reconciled faults files r =
    if is_captured r && not (contains files r.local_path) && not (faults.on_row r.event_id)
    then set_capture_failed r
    else r

abbrev pub map_record :
    (SnapshotOutboxRecord → SnapshotOutboxRecord)
    → Option SnapshotOutboxRecord
    → Option SnapshotOutboxRecord
map_record change none = none
map_record change (some r) = some (change r)

map_record-eq :
    (change : SnapshotOutboxRecord → SnapshotOutboxRecord) (o : Option SnapshotOutboxRecord)
    → (elim o [ none ↦ none | some r ↦ some (change r) ]) ≡ map_record change o
map_record-eq change none = refl
map_record-eq change (some r) = refl

get-mark_capture_failed :
    (table : Outbox) (j i : ℕ)
    → get_record (mark_capture_failed table j).0 i
      ≡ map_record (λ r. if captured_of j r then set_capture_failed r else r) (get_record table i)
unfolding mark_capture_failed get_record
get-mark_capture_failed table j i =
    first-update_rows (has_event i) (captured_of j) set_capture_failed table (λ row. refl)
    ∙ map_record-eq (λ r. if captured_of j r then set_capture_failed r else r)
        (first (has_event i) table)

get_record-id :
    (table : Outbox) (i : ℕ) (r : SnapshotOutboxRecord)
    → get_record table i ≡ some r
    → r.event_id ≡ i
unfolding get_record
get_record-id table i r found = ground (arith, test-first (has_event i) table {r = r} found)

found_same :
    (faults : ReconcileFaults) (files : List String) (table : Outbox) (i : ℕ)
    (o : Option SnapshotOutboxRecord)
    → get_record table i ≡ o
    → get_record (reconcile_found faults files table i o) i ≡ map_record (reconciled faults files) o
found_same faults files table i none e = e
found_same faults files table i (some r) e =
    ground (arith, get-mark_capture_failed table i i, get_record-id table i r e)

untouched :
    (j i : ℕ) (o : Option SnapshotOutboxRecord)
    → (j == i) ≡ false
    → ((r : SnapshotOutboxRecord) → o ≡ some r → r.event_id ≡ i)
    → map_record (λ r. if captured_of j r then set_capture_failed r else r) o ≡ o
untouched j i none differ named = refl
untouched j i (some r) differ named = let e = named r refl in ground arith

found_other :
    (faults : ReconcileFaults) (files : List String) (table : Outbox) (j i : ℕ)
    (o : Option SnapshotOutboxRecord)
    → (j == i) ≡ false
    → get_record (reconcile_found faults files table j o) i ≡ get_record table i
found_other faults files table j i none differ = refl
found_other faults files table j i (some r) differ = ground (
  arith,
  get-mark_capture_failed table j i,
  untouched j i (get_record table i) differ (λ r' found. get_record-id table i r' found),
)

reconcile_row-get :
    (faults : ReconcileFaults) (files : List String) (table : Outbox) (j i : ℕ)
    → get_record (reconcile_row faults files table j) i ≡ (
        if j == i
        then map_record (reconciled faults files) (get_record table i)
        else get_record table i)
unfolding reconcile_row
reconcile_row-get faults files table j i = elim (Bool-cases (j == i)) [
  | inl same ↦
      let e : j ≡ i = ground arith in
      rw same (rw e (found_same faults files table i (get_record table i) refl))
  | inr differ ↦ rw differ (found_other faults files table j i (get_record table j) differ)
]

again :
    (faults : ReconcileFaults) (files : List String) (o : Option SnapshotOutboxRecord)
    → map_record (reconciled faults files) (map_record (reconciled faults files) o)
      ≡ map_record (reconciled faults files) o
again faults files none = refl
again faults files (some r) = ground arith

reconcile_rows-get :
    (faults : ReconcileFaults) (files : List String) (is : List ℕ) (table : Outbox) (i : ℕ)
    → get_record (reconcile_rows faults files table is) i ≡ (
        if contains is i
        then map_record (reconciled faults files) (get_record table i)
        else get_record table i)
unfolding reconcile_rows contains
reconcile_rows-get faults files [] table i = refl
reconcile_rows-get faults files (j ∷ is) table i =
    reconcile_rows-get faults files is (reconcile_row faults files table j) i
    ∙ ground
        (arith, reconcile_row-get faults files table j i, again faults files (get_record table i))

unlisted :
    (table : Outbox) (i : ℕ)
    → contains (list_all_event_ids table) i ≡ false
    → get_record table i ≡ none
unfolding contains list_all_event_ids get_record
unlisted [] i h = refl
unlisted (r ∷ table) i h = ground (arith, unlisted table i)

listed-get :
    (faults : ReconcileFaults) (files : List String) (table : Outbox) (i : ℕ)
    → get_record (reconcile_rows faults files table (list_all_event_ids table)) i
      ≡ map_record (reconciled faults files) (get_record table i)
listed-get faults files table i = elim (Bool-cases (contains (list_all_event_ids table) i)) [
  | inl listed ↦ ground (arith, reconcile_rows-get faults files (list_all_event_ids table) table i)
  | inr absent ↦ ground (
    arith,
    reconcile_rows-get faults files (list_all_event_ids table) table i,
    unlisted table i absent,
  )
]

contains-remove_orphans :
    (faults : ReconcileFaults) (stem_of : String → String) (known : List String) (spool : Spool)
    (path : String)
    → contains (keys (remove_orphans faults stem_of known spool)) path
      ≡ (contains (keys spool) path && (contains known (stem_of path) || faults.on_unlink path))
unfolding remove_orphans contains
contains-remove_orphans faults stem_of known [] path = refl
contains-remove_orphans faults stem_of known ((p, n) ∷ spool) path =
    ground
      (arith, string_eq.same_iff p path, contains-remove_orphans faults stem_of known spool path)

pub reconcile_snapshot_spool_lem :
    (faults : ReconcileFaults) (stem_of : String → String) (name_of : ℕ → String) (table : Outbox)
    (spool : Spool) (i : ℕ) (path : String)
    → (get_record (reconcile_snapshot_spool faults stem_of name_of table spool).0 i ≡ (
        if faults.on_list
        then get_record table i
        else map_record (reconciled faults (keys spool)) (get_record table i)))
      × (contains (keys (reconcile_snapshot_spool faults stem_of name_of table spool).1) path ≡ (
          contains (keys spool) path
          && (faults.on_list
              || (contains (map name_of (list_all_event_ids table)) (stem_of path)
                  || faults.on_unlink path))))
unfolding reconcile_snapshot_spool
reconcile_snapshot_spool_lem faults stem_of name_of table spool i path =
    let known = map name_of (list_all_event_ids table) in
    elim (Bool-cases faults.on_list) [
      | inl failed ↦ rw failed (refl, ground arith)
      | inr works ↦ rw works (
        listed-get faults (keys spool) table i,
        contains-remove_orphans faults stem_of known spool path,
      )
    ]
