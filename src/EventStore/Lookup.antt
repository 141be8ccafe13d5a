-- ===== src/EventStore/Lookup.antt =====
-- The row of an id, before and after each write: ids are never stored twice.
use edge_weapon_detection_pl.Base.{ℕ, ◌≡◌, arith, Option, none, some, List, if◌then◌else◌}
use edge_weapon_detection_pl.Base.Eq.{◌==◌, nat_eq}
use edge_weapon_detection_pl.Base.Rows.{first, first-any, first-append}
use edge_weapon_detection_pl.Time.{DateTime}
use edge_weapon_detection_pl.Event.{DetectionEvent}
use edge_weapon_detection_pl.EventStore.{Row, Faults, has_id, new_row, insert}

module _ {F : Type 0} where
  -- SELECT … WHERE EventId = i
  abbrev pub find : List (Row F) → ℕ → Option (Row F)
  find table i = first (has_id i) table

  -- An insert that succeeds adds the event as pending, under an id that was free, and touches no
  -- other id; one that fails changes nothing.
  pub find-insert :
      (table : List (Row F)) (e : DetectionEvent F) (created_at : DateTime) (faults : Faults)
      (i : ℕ)
      → find (insert table e created_at faults).0 i ≡ (elim (insert table e created_at faults).1 [
        | none ↦ if e.event_id == i then some (new_row e created_at) else find table i
        | some error ↦ find table i
      ])
  unfolding insert
  find-insert table e created_at faults i = ground (
    arith,
    first-any (has_id e.event_id) table,
    first-append (has_id i) table (new_row e created_at),
  )
