-- ===== src/Tests/Stores.antt =====
-- The two tables at concrete inputs.
use edge_weapon_detection_pl.Base.{
  ℕ, ◌≡◌, ◌⊎◌, refl, arith, Bool, true, false, ◌&&◌, some, none, List, [], ◌∷◌, ◌++◌, map, length,
}
use edge_weapon_detection_pl.Base.Int.{pos}
use edge_weapon_detection_pl.Base.Rows.{count_rows}
use edge_weapon_detection_pl.Time.{DateTime}
use edge_weapon_detection_pl.Event.{DetectionEvent, is_consistent}
use edge_weapon_detection_pl.EventStore.{
  Row, delivered, no_faults, new_row, select_pending, pending_row, stored_event, rows_to_events,
  list_pending,
}
use edge_weapon_detection_pl.Tests.Floats.{thousandths}
use edge_weapon_detection_pl.EventStore.Lookup.{find}
use edge_weapon_detection_pl.EventStore.Lifecycle.{
  Write, insertion, delivery, suppression, apply_all, Evolves, apply_all-Evolves,
}
use edge_weapon_detection_pl.EventStore.Unique.{HasUniqueIds, apply_all-HasUniqueIds}
use edge_weapon_detection_pl.EventStore.Pending.{IsOldestFirst, list_pending-IsOldestFirst}

abbrev at_time : ℕ → DateTime
at_time n = record { is_aware = true; instant = n }

abbrev event : ℕ → ℕ → DetectionEvent ℕ
event id at = record {
  event_id = id;
  device_id = "d";
  camera_id = "c";
  source_id = pos 0;
  class_id = pos 0;
  class_name = "gun";
  confidence = 900;
  frame_number = pos 30;
  detected_at_utc = at_time at;
  frame_width = pos 640;
  frame_height = pos 480;
  bbox_left = 10;
  bbox_top = 10;
  bbox_width = 40;
  bbox_height = 50;
  created_at_utc = none;
}

-- The newer event was stored first.
abbrev table : List (Row ℕ)
table = new_row (event 2 60) (at_time 61) ∷ new_row (event 1 50) (at_time 62) ∷ []

abbrev delivered_row : Row ℕ
delivered_row = record (new_row (event 1 50) (at_time 62)) {
  status = delivered;
  delivered_at = some (at_time 70);
}

abbrev marked : List (Row ℕ)
marked = new_row (event 2 60) (at_time 61) ∷ delivered_row ∷ []

abbrev writes : List (Write ℕ)
writes =
    delivery (1 ∷ 9 ∷ []) (at_time 70) false
    ∷ insertion (event 1 80) (at_time 81) no_faults
    ∷ suppression (1 ∷ 2 ∷ []) (at_time 90) true
    ∷ []

apply_all-Evolves_example :
    (r' : Row ℕ) × (find (apply_all marked writes) 1 ≡ some r') × Evolves delivered_row r'
apply_all-Evolves_example = apply_all-Evolves marked writes 1 {r = delivered_row} refl

table-HasUniqueIds : HasUniqueIds table
table-HasUniqueIds i = ground arith

apply_all-HasUniqueIds_example : HasUniqueIds (apply_all table writes)
apply_all-HasUniqueIds_example = apply_all-HasUniqueIds table writes table-HasUniqueIds

abbrev oldest : List (DetectionEvent ℕ)
oldest = stored_event thousandths (new_row (event 1 50) (at_time 62)) ∷ []

oldest_read : list_pending thousandths table 1 ≡ some oldest
unfolding list_pending select_pending rows_to_events is_consistent
oldest_read = refl

list_pending-IsOldestFirst_example :
    (selected : List (Row ℕ)) × (rest : List (Row ℕ)) × (oldest
      ≡ map (stored_event thousandths) selected)
    × IsOldestFirst (selected ++ rest)
    × ((test : Row ℕ → Bool)
        → count_rows test (selected ++ rest) ≡ count_rows (λ r. pending_row r && test r) table)
    × ((rest ≡ []) ⊎ (length oldest ≡ 1))
list_pending-IsOldestFirst_example = list_pending-IsOldestFirst thousandths table 0 oldest_read
