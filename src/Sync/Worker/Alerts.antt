-- ===== src/Sync/Worker/Alerts.antt =====
-- Which calls of the two sinks of sync/worker.py leave a snapshot without an alert.
use edge_weapon_detection_pl.Base.{
  ℕ, ◌≡◌, arith, String, Bool, true, false, ◌&&◌, Option, none, some, List, [], ◌∷◌, if◌then◌else◌,
}
use edge_weapon_detection_pl.Base.Eq.{◌==◌, nat_eq, string_eq}
use edge_weapon_detection_pl.Base.Dict.{Dict, get}
use edge_weapon_detection_pl.Base.Rows.{update_rows, count_rows}
use edge_weapon_detection_pl.SnapshotOutbox.{
  SnapshotOutboxRecord, Outbox, has_event, has_alert, set_alert, get_record, associate_row,
  associate_alert_id, cancel_for_quota,
}
use edge_weapon_detection_pl.Sync.Client.Verdict.{has}
use edge_weapon_detection_pl.Sync.Worker.{associate_alert_ids, suppress_snapshot, cancel_snapshots}

abbrev pub alerted : ℕ → SnapshotOutboxRecord → Bool
alerted i r = has_event i r && has_alert r

abbrev pub HasNoAlert : ℕ → Outbox → Type 0
HasNoAlert i outbox = count_rows (alerted i) outbox ≡ 0

set_alert-HasNoAlert :
    (i j : ℕ) (alert_id : String) (outbox : Outbox)
    → (j == i) ≡ false
    → HasNoAlert i outbox
    → HasNoAlert i (update_rows (has_event j) (set_alert alert_id) outbox)
set_alert-HasNoAlert i j alert_id [] differ h = h
set_alert-HasNoAlert i j alert_id (r ∷ outbox) differ h = ground (
  arith,
  nat_eq.same_iff r.event_id j,
  nat_eq.same_iff r.event_id i,
  nat_eq.same_iff j i,
  set_alert-HasNoAlert i j alert_id outbox differ,
)

associate_row-HasNoAlert :
    (i j : ℕ) (alert_id : String) (outbox : Outbox) (o : Option SnapshotOutboxRecord)
    → (j == i) ≡ false
    → HasNoAlert i outbox
    → HasNoAlert i (associate_row outbox j alert_id o).0
associate_row-HasNoAlert i j alert_id outbox none differ h = h
associate_row-HasNoAlert i j alert_id outbox (some row) differ h =
    ground (arith, set_alert-HasNoAlert i j alert_id outbox differ h)

associate-HasNoAlert :
    (i j : ℕ) (alert_id : String) (outbox : Outbox)
    → (j == i) ≡ false
    → HasNoAlert i outbox
    → HasNoAlert i (associate_alert_id outbox j alert_id).0
unfolding associate_alert_id
associate-HasNoAlert i j alert_id outbox differ h =
    associate_row-HasNoAlert i j alert_id outbox (get_record outbox j) differ h

pub associate_all-HasNoAlert :
    (i : ℕ) (alerts : Dict ℕ String) (outbox : Outbox)
    → has alerts i ≡ false
    → HasNoAlert i outbox
    → HasNoAlert i (associate_alert_ids alerts outbox)
unfolding associate_alert_ids get
associate_all-HasNoAlert i [] outbox absent h = h
associate_all-HasNoAlert i ((j, a) ∷ alerts) outbox absent h =
    associate_all-HasNoAlert i alerts (associate_alert_id outbox j a).0 (ground arith)
      (associate-HasNoAlert i j a outbox (ground arith) h)

cancel-HasNoAlert :
    (i j : ℕ) (outbox : Outbox) → HasNoAlert i outbox → HasNoAlert i (cancel_for_quota outbox j).0
unfolding cancel_for_quota
cancel-HasNoAlert i j [] h = h
cancel-HasNoAlert i j (r ∷ outbox) h = ground (arith, cancel-HasNoAlert i j outbox)

pub cancel_all-HasNoAlert :
    (i : ℕ) (is : List ℕ) (s : Outbox × List String)
    → HasNoAlert i s.0
    → HasNoAlert i (cancel_snapshots is s).0
unfolding cancel_snapshots suppress_snapshot
cancel_all-HasNoAlert i [] s h = h
cancel_all-HasNoAlert i (j ∷ js) s h =
    cancel_all-HasNoAlert i js (suppress_snapshot j s) (cancel-HasNoAlert i j s.0 h)

pub if_kept :
    (b : Bool) (i : ℕ) (x y : Outbox)
    → HasNoAlert i x
    → HasNoAlert i y
    → HasNoAlert i (if b then x else y)
if_kept true i x y h k = h
if_kept false i x y h k = k
