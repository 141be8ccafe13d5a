-- ===== src/SnapshotOutbox/Lifecycle.antt =====
-- What any calls of the repository keep of a stored snapshot.
use edge_weapon_detection_pl.Base.{
  ℕ, ◌≤◌, ◌≡◌, refl, arith, String, Bool, true, false, Option, none, some, List, [], ◌∷◌,
  if◌then◌else◌, Bool-cases, Option-cases, inl, inr, ◌⊎◌, ◌∙◌, ap, not,
}
use edge_weapon_detection_pl.Base.Eq.{◌==◌, nat_eq, string_eq}
use edge_weapon_detection_pl.Base.Rows.{
  update_rows, first, first-append, first-update_rows, first-any, test-first,
}
use edge_weapon_detection_pl.Time.{DateTime}
use edge_weapon_detection_pl.SnapshotOutbox.{
  SnapshotOutboxRecord, Outbox, is_captured, is_upload_pending, has_alert, has_event, get_record,
  create_captured, associate_alert_id, mark_uploaded, record_attempt_failure, mark_capture_failed,
  cancel_for_quota, associate_row, set_alert, set_uploaded, set_suppressed, set_capture_failed,
  add_failure, pending_upload_of, captured_of, Outcome,
}

-- A call of the repository, with what the clock and the database contribute.
pub data Call : Type 0 where
  create : SnapshotOutboxRecord → Bool → Call
  associate : ℕ → String → Call
  upload : ℕ → DateTime → Call
  failure : ℕ → DateTime → String → Call
  lost : ℕ → Call
  cancel : ℕ → Call

unfoldable pub call : Outbox → Call → Outbox
call table (create row fault) = (create_captured table row fault).0
call table (associate event_id alert_id) = (associate_alert_id table event_id alert_id).0
call table (upload event_id at) = (mark_uploaded table event_id at).0
call table (failure event_id at category) = (record_attempt_failure table event_id at category).0
call table (lost event_id) = (mark_capture_failed table event_id).0
call table (cancel event_id) = (cancel_for_quota table event_id).0

unfoldable pub call_all : Outbox → List Call → Outbox
call_all table [] = table
call_all table (c ∷ cs) = call_all (call table c) cs

-- How a stored snapshot may change: its file never does, an alert is set once, a finished upload
-- and a failed capture are final, and attempts are only counted up.
pub record Evolves (r r' : SnapshotOutboxRecord) : Type 0 where
  pub event_id : r'.event_id ≡ r.event_id
  pub local_path : r'.local_path ≡ r.local_path
  pub sha256 : r'.sha256 ≡ r.sha256
  pub size_bytes : r'.size_bytes ≡ r.size_bytes
  pub alert_kept : has_alert r ≡ true → r'.backend_alert_id ≡ r.backend_alert_id
  pub upload_settled :
      is_upload_pending r ≡ false
      → (r'.upload_status ≡ r.upload_status) × (r'.uploaded_at_utc ≡ r.uploaded_at_utc)
  pub capture_settled : is_captured r ≡ false → r'.capture_status ≡ r.capture_status
  pub attempts : r.attempt_count ≤ r'.attempt_count

Evolves-refl : (r : SnapshotOutboxRecord) → Evolves r r
Evolves-refl r = ground arith

Evolves-trans : (r s t : SnapshotOutboxRecord) → Evolves r s → Evolves s t → Evolves r t
Evolves-trans r s t p q = ground arith

Evolves-if :
    (test : SnapshotOutboxRecord → Bool) (change : SnapshotOutboxRecord → SnapshotOutboxRecord)
    (r : SnapshotOutboxRecord)
    → (test r ≡ true) ⊎ (test r ≡ false)
    → (test r ≡ true → Evolves r (change r))
    → Evolves r (if test r then change r else r)
Evolves-if test change r (inl found) allowed = simp found (allowed found)
Evolves-if test change r (inr other) allowed = simp other (Evolves-refl r)

-- An update of the rows that a test finds, if each change is allowed where the test holds.
update-Evolves :
    (test : SnapshotOutboxRecord → Bool) (change : SnapshotOutboxRecord → SnapshotOutboxRecord)
    (table : Outbox) (i : ℕ) {r : SnapshotOutboxRecord}
    → ((row : SnapshotOutboxRecord) → has_event i (change row) ≡ has_event i row)
    → (test r ≡ true → Evolves r (change r))
    → get_record table i ≡ some r
    → (r' : SnapshotOutboxRecord) × (get_record (update_rows test change table) i ≡ some r')
      × Evolves r r'
unfolding get_record
update-Evolves test change table i {r} keeps allowed found = (
  if test r then change r else r,
  first-update_rows (has_event i) test change table keeps ∙ rw found,
  Evolves-if test change r (Bool-cases (test r)) allowed,
)

abbrev Kept : Outbox → ℕ → SnapshotOutboxRecord → Type 0
Kept table i r = (r' : SnapshotOutboxRecord) × (get_record table i ≡ some r') × Evolves r r'

if-Kept :
    {A : Type 0} (b : Bool) (yes_case no_case : Outbox × Outcome A) (i : ℕ)
    (r : SnapshotOutboxRecord)
    → Kept yes_case.0 i r
    → Kept no_case.0 i r
    → Kept (if b then yes_case else no_case).0 i r
if-Kept true yes_case no_case i r h k = h
if-Kept false yes_case no_case i r h k = k

create-Kept :
    (table : Outbox) (row : SnapshotOutboxRecord) (fault : Bool) (i : ℕ) (r : SnapshotOutboxRecord)
    → get_record table i ≡ some r
    → Kept (create_captured table row fault).0 i r
unfolding create_captured get_record
create-Kept table row fault i r found = (
  r,
  ground (arith, first-append (has_event i) table row, first-any (has_event row.event_id) table),
  Evolves-refl r,
)

same_row :
    (table : Outbox) (event_id i : ℕ) (r row : SnapshotOutboxRecord)
    → get_record table event_id ≡ some row
    → get_record table i ≡ some r
    → has_event event_id r ≡ true
    → row ≡ r
unfolding get_record
same_row table event_id i r row e found h =
    let at_i = test-first (has_event i) table {r = r} found in
    let same : event_id ≡ i = ground arith in cc (ap (get_record table) same)

set_alert-Evolves :
    (alert_id : String) (r : SnapshotOutboxRecord)
    → r.backend_alert_id ≡ none
    → Evolves r (set_alert alert_id r)
set_alert-Evolves alert_id r free = ground arith

associate-Kept :
    (table : Outbox) (event_id : ℕ) (alert_id : String) (i : ℕ) (r : SnapshotOutboxRecord)
    (found : Option SnapshotOutboxRecord)
    → get_record table event_id ≡ found
    → get_record table i ≡ some r
    → Kept (associate_row table event_id alert_id found).0 i r
associate-Kept table event_id alert_id i r none e found = (r, found, Evolves-refl r)
associate-Kept table event_id alert_id i r (some row) e found =
    elim (Option-cases row.backend_alert_id) [
      | inl free ↦ rw free (
          update-Evolves (has_event event_id) (set_alert alert_id) table i (λ row. refl)
            (λ h.
              set_alert-Evolves alert_id r (rw (← same_row table event_id i r row e found h) free))
            found)
      | inr (existing, taken) ↦ rw taken (
          if-Kept (existing == alert_id) _ _ i r (r, found, Evolves-refl r)
            (r, found, Evolves-refl r))
    ]

call-Kept :
    (table : Outbox) (c : Call) (i : ℕ) (r : SnapshotOutboxRecord)
    → get_record table i ≡ some r
    → Kept (call table c) i r
unfolding call associate_alert_id mark_uploaded record_attempt_failure mark_capture_failed
    cancel_for_quota
call-Kept table (create row fault) i r found = create-Kept table row fault i r found
call-Kept table (associate event_id alert_id) i r found =
    associate-Kept table event_id alert_id i r (get_record table event_id) refl found
call-Kept table (upload event_id at) i r found =
    if-Kept (not at.is_aware) _ _ i r (r, found, Evolves-refl r)
      (update-Evolves (pending_upload_of event_id) (set_uploaded at) table i (λ row. refl)
        (λ h. ground arith) found)
call-Kept table (failure event_id at category) i r found =
    if-Kept (not at.is_aware) _ _ i r (r, found, Evolves-refl r)
      (update-Evolves (has_event event_id) (add_failure at category) table i (λ row. refl)
        (λ h. ground arith) found)
call-Kept table (lost event_id) i r found =
    update-Evolves (captured_of event_id) set_capture_failed table i (λ row. refl)
      (λ h. ground arith) found
call-Kept table (cancel event_id) i r found =
    update-Evolves (pending_upload_of event_id) set_suppressed table i (λ row. refl)
      (λ h. ground arith) found

-- Through any calls, failing or not, a stored snapshot keeps its row, its file and its hash; its
-- alert is never replaced, a finished upload and a failed capture are final, and the attempts are
-- never counted down.
pub call_all-Evolves :
    (table : Outbox) (cs : List Call) (i : ℕ) (r : SnapshotOutboxRecord)
    → get_record table i ≡ some r
    → (r' : SnapshotOutboxRecord) × (get_record (call_all table cs) i ≡ some r') × Evolves r r'
unfolding call_all
call_all-Evolves table [] i r found = (r, found, Evolves-refl r)
call_all-Evolves table (c ∷ cs) i r found =
    let (s, next, first) = call-Kept table c i r found in
    let (t, last, rest) = call_all-Evolves (call table c) cs i s next in
    (t, last, Evolves-trans r s t first rest)
