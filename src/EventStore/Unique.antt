-- ===== src/EventStore/Unique.antt =====
-- The primary key: no id is stored twice, whatever is written.
use edge_weapon_detection_pl.Base.{ℕ, Bool, ◌≤◌, ◌≡◌, refl, arith, List, [], ◌∷◌, ap}
use edge_weapon_detection_pl.Base.Eq.{◌==◌, nat_eq}
use edge_weapon_detection_pl.Base.Rows.{count_rows, count-append, count-any, count-update_rows}
use edge_weapon_detection_pl.Time.{DateTime}
use edge_weapon_detection_pl.Event.{DetectionEvent}
use edge_weapon_detection_pl.EventStore.{
  Row, Faults, id_of, has_id, new_row, insert, is_marked, mark_many, mark_delivered_many,
  mark_suppressed_by_quota_many, set_delivered, set_suppressed,
}
use edge_weapon_detection_pl.EventStore.Lifecycle.{
  Write, insertion, delivery, suppression, table_or, apply, apply_all,
}

module _ {F : Type 0} where
  -- Each id stands in at most one row.
  abbrev pub HasUniqueIds : List (Row F) → Type 0
  HasUniqueIds table = (i : ℕ) → count_rows (has_id i) table ≤ 1

  insert-HasUniqueIds :
      (table : List (Row F)) (e : DetectionEvent F) (created_at : DateTime) (faults : Faults)
      → HasUniqueIds table
      → HasUniqueIds (insert table e created_at faults).0
  unfolding insert
  insert-HasUniqueIds table e created_at faults unique i = ground (
    arith,
    unique i,
    count-append (has_id i) table (new_row e created_at),
    count-any (has_id e.event_id) table,
  )

  mark-HasUniqueIds :
      (change : DateTime → Row F → Row F) (table : List (Row F)) (ids : List ℕ) (at : DateTime)
      (fails : Bool)
      → ((row : Row F) → id_of (change at row) ≡ id_of row)
      → HasUniqueIds table
      → HasUniqueIds (table_or table (mark_many change table ids at fails))
  unfolding mark_many
  mark-HasUniqueIds change table ids at fails keeps unique i = ground (
    arith,
    unique i,
    count-update_rows (has_id i) (is_marked ids) (change at) table
        (λ row. ap (λ (n : ℕ). n == i) (keeps row)),
  )

  apply-HasUniqueIds :
      (table : List (Row F)) (w : Write F) → HasUniqueIds table → HasUniqueIds (apply table w)
  unfolding apply mark_delivered_many mark_suppressed_by_quota_many
  apply-HasUniqueIds table (insertion e created_at faults) =
      insert-HasUniqueIds table e created_at faults
  apply-HasUniqueIds table (delivery ids at fails) =
      mark-HasUniqueIds set_delivered table ids at fails (λ row. refl)
  apply-HasUniqueIds table (suppression ids at fails) =
      mark-HasUniqueIds set_suppressed table ids at fails (λ row. refl)

  -- From a table with unique ids, any writes lead to one.
  pub apply_all-HasUniqueIds :
      (table : List (Row F)) (ws : List (Write F))
      → HasUniqueIds table
      → HasUniqueIds (apply_all table ws)
  unfolding apply_all
  apply_all-HasUniqueIds table [] unique = unique
  apply_all-HasUniqueIds table (w ∷ ws) unique =
      apply_all-HasUniqueIds (apply table w) ws (apply-HasUniqueIds table w unique)
