-- ===== src/EventStore.antt =====
-- The stored detections: agent/src/weapon_detection_agent/persistence/detection_event_repository.py,
-- over the DetectionEvent table of persistence/schema.py. A table is the list of its rows; each
-- method is one transaction, so a method that raises leaves the table as it was.
pub mod Lookup
pub mod Lifecycle
pub mod Unique
pub mod Marks
pub mod Pending
use edge_weapon_detection_pl.Base.{
  ℕ, zero, suc, ◌+◌, ◌^◌, ◌≡◌, Bool, true, false, ◌&&◌, ◌||◌, not, Option, none, some, List, [],
  ◌∷◌, ◌++◌, map, ltb, leb, nat_beq, take, any, keep, if◌then◌else◌, ◌>>=◌,
}
use edge_weapon_detection_pl.Base.Eq.{◌==◌, nat_eq}
use edge_weapon_detection_pl.Base.Int.{ℤ, pos, negsuc}
use edge_weapon_detection_pl.Base.Sets.{contains}
use edge_weapon_detection_pl.Base.Rows.{update_rows, count_rows}
use edge_weapon_detection_pl.Base.Sort.{select_rows}
use edge_weapon_detection_pl.Time.{DateTime}
use edge_weapon_detection_pl.Float.{Float}
use edge_weapon_detection_pl.Event.{DetectionEvent, is_consistent}

pub data DeliveryStatus : Type 0 where
  pending delivered suppressed_by_quota : DeliveryStatus

abbrev pub is_pending : DeliveryStatus → Bool
is_pending pending = true
is_pending delivered = false
is_pending suppressed_by_quota = false

pub record Row (F : Type 0) : Type 0 where
  pub event : DetectionEvent F
  pub created_at : DateTime
  pub status : DeliveryStatus
  pub delivered_at : Option DateTime
  pub finalized_at : Option DateTime

-- What `insert` raises.
pub data InsertError : Type 0 where
  naive_clock already_exists storage_failed : InsertError

-- Where the database itself fails during a call: before the row is looked for, or at the write.
pub record Faults : Type 0 where
  pub on_read : Bool
  pub on_write : Bool

abbrev pub no_faults : Faults
no_faults = record { on_read = false; on_write = false }

-- sqlite3 raises an OverflowError for an integer of more than 64 bits.
unfoldable pub fits_sqlite : ℤ → Bool
fits_sqlite (pos n) = ltb n (2 ^ 63)
fits_sqlite (negsuc n) = ltb n (2 ^ 63)

module _ {F : Type 0} where
  abbrev pub id_of : Row F → ℕ
  id_of row = row.event.event_id

  abbrev pub has_id : ℕ → Row F → Bool
  has_id i row = id_of row == i

  -- The INSERT statement accepts the event.
  unfoldable pub is_storable : DetectionEvent F → Bool
  is_storable e =
      fits_sqlite e.source_id
      && fits_sqlite e.class_id
      && fits_sqlite e.frame_number
      && fits_sqlite e.frame_width
      && fits_sqlite e.frame_height
      && e.detected_at_utc.is_aware

  abbrev pub new_row : DetectionEvent F → DateTime → Row F
  new_row e created_at = record {
    event = e;
    created_at = created_at;
    status = pending;
    delivered_at = none;
    finalized_at = none;
  }

  -- `created_at` is the reading of the repository's clock.
  unfoldable pub insert :
      List (Row F) → DetectionEvent F → DateTime → Faults → List (Row F) × Option InsertError
  insert table e created_at faults =
      if not created_at.is_aware
      then (table, some naive_clock)
      else if faults.on_read
      then (table, some storage_failed)
      else if any (has_id e.event_id) table
      then (table, some already_exists)
      else if faults.on_write || not (is_storable e)
      then (table, some storage_failed)
      else (table ++ new_row e created_at ∷ [], none)

  -- WHERE EventId IN (ids) AND DeliveryStatus = 'pending'
  abbrev pub is_marked : List ℕ → Row F → Bool
  is_marked ids row = contains ids (id_of row) && is_pending row.status

  abbrev pub set_delivered : DateTime → Row F → Row F
  set_delivered at row = record row { status = delivered; delivered_at = some at }

  abbrev pub set_suppressed : DateTime → Row F → Row F
  set_suppressed at row = record row { status = suppressed_by_quota; finalized_at = some at }

  -- `none` is the ValueError for a naive time, or the error of a database that fails; the transaction
  -- leaves the table then. With no ids nothing is opened.
  unfoldable pub mark_many :
      (DateTime → Row F → Row F)
      → List (Row F)
      → List ℕ
      → DateTime
      → Bool
      → Option (List (Row F) × ℕ)
  mark_many change table ids at fails = if not at.is_aware then none else elim ids [
    | [] ↦ some (table, 0)
    | i ∷ is ↦
        if fails
        then none
        else some (
          update_rows (is_marked (i ∷ is)) (change at) table,
          count_rows (is_marked (i ∷ is)) table,
        )
  ]

  unfoldable pub mark_delivered_many :
      List (Row F) → List ℕ → DateTime → Bool → Option (List (Row F) × ℕ)
  unfolding mark_many
  mark_delivered_many table ids delivered_at fails =
      mark_many set_delivered table ids delivered_at fails

  unfoldable pub mark_suppressed_by_quota_many :
      List (Row F) → List ℕ → DateTime → Bool → Option (List (Row F) × ℕ)
  unfolding mark_many
  mark_suppressed_by_quota_many table ids finalized_at fails =
      mark_many set_suppressed table ids finalized_at fails

  -- ORDER BY DetectedAtUtc ASC, EventId ASC
  abbrev pub row_leb : Row F → Row F → Bool
  row_leb a b =
      let s = a.event.detected_at_utc.instant in
      let t = b.event.detected_at_utc.instant in
      if nat_beq s t then leb (id_of a) (id_of b) else ltb s t

  abbrev pub pending_row : Row F → Bool
  pending_row row = is_pending row.status

  -- the rows of _SELECT_PENDING
  unfoldable pub select_pending : List (Row F) → ℕ → List (Row F)
  unfolding select_rows
  select_pending table limit = select_rows row_leb pending_row table limit

module _ (float : Float) where
  open float use {F}

  abbrev pub stored_event : Row F → DetectionEvent F
  stored_event row = record row.event { created_at_utc = some row.created_at }

  -- `none` is the InvalidDetectionEventStateError of a row that the constructor refuses.
  unfoldable pub row_to_event : Row F → Option (DetectionEvent F)
  row_to_event row =
      if is_consistent float (stored_event row) then some (stored_event row) else none

  unfoldable pub rows_to_events : List (Row F) → Option (List (DetectionEvent F))
  unfolding row_to_event
  rows_to_events [] = some []
  rows_to_events (row ∷ rows) = do e ← row_to_event row; es ← rows_to_events rows; some (e ∷ es)

  -- `none` is the ValueError for a limit that is not positive, or an unreadable row.
  unfoldable pub list_pending : List (Row F) → ℕ → Option (List (DetectionEvent F))
  list_pending table zero = none
  list_pending table (suc limit) = rows_to_events (select_pending table (suc limit))
