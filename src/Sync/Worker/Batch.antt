-- ===== src/Sync/Worker/Batch.antt =====
-- What `_drain_once` of sync/worker.py sends: `list_pending`, and the split by the device.
use mathlib.Core.List.{Memᴰ}
use mathlib.Core.Path.{subst}
use edge_weapon_detection_pl.Base.{
  ℕ, zero, suc, ◌≡◌, ◌≤◌, refl, arith, true, some, List, [], ◌∷◌, All, length, length-take, ap,
  keep, ◌<◌, >>=-eq-some,
}
use edge_weapon_detection_pl.Base.Eq.{eq_of_beq, string_eq}
use edge_weapon_detection_pl.Base.Members.{
  All-map, All-keep, All-Memᴰ, All-select_rows, length-keep,
}
use edge_weapon_detection_pl.Base.Sort.{select_rows, sort_rows}
use edge_weapon_detection_pl.Float.{Float}
use edge_weapon_detection_pl.Event.{DetectionEvent, is_consistent}
use edge_weapon_detection_pl.EventStore.Pending.{row_to_event-eq-some}
use edge_weapon_detection_pl.EventStore.{
  Row, pending_row, row_leb, select_pending, stored_event, row_to_event, rows_to_events,
  list_pending,
}
use edge_weapon_detection_pl.Identity.{DeviceIdentity}
use edge_weapon_detection_pl.Sync.Worker.{own_event, sendable_events}

module _ (float : Float) where
  open float use {F}

  -- The event stands in a row of the table that is still pending, and keeps its invariants.
  abbrev pub IsListed : List (Row F) → DetectionEvent F → Type 0
  IsListed table e =
      (row : Row F) × (Memᴰ row table × (pending_row row ≡ true))
      × (e ≡ stored_event float row)
      × (is_consistent float e ≡ true)

  rows_to_events-IsListed :
      (table rows : List (Row F)) (es : List (DetectionEvent F))
      → All (λ row. Memᴰ row table × (pending_row row ≡ true)) rows
      → rows_to_events float rows ≡ some es
      → All (IsListed table) es × (length es ≡ length rows)
  unfolding rows_to_events
  rows_to_events-IsListed table [] [] found h = (tt, refl)
  rows_to_events-IsListed table [] (e ∷ es) found h = cc
  rows_to_events-IsListed table (row ∷ rows) es found h =
      let (e, first, rest) = >>=-eq-some (row_to_event float row) _ h in
      let (later, read, whole) = >>=-eq-some (rows_to_events float rows) _ rest in
      let (eq, consistent) = row_to_event-eq-some float row first in
      let (listed, size) = rows_to_events-IsListed table rows later found.1 read in
      let e_list : e ∷ later ≡ es = cc in
      subst (λ out. All (IsListed table) out × (length out ≡ suc (length rows))) e_list
        (((row, found.0, eq, consistent), listed), ap suc size)

  list_pending-IsListed :
      (table : List (Row F)) (limit : ℕ) (es : List (DetectionEvent F))
      → list_pending float table limit ≡ some es
      → All (IsListed table) es × (length es ≤ limit)
  unfolding list_pending select_pending select_rows
  list_pending-IsListed table zero es h = cc
  list_pending-IsListed table (suc limit) es h =
      let rows = select_pending table (suc limit) in
      let found =
        All-select_rows (λ row. Memᴰ row table) row_leb pending_row table (suc limit)
          (All-Memᴰ table) in
      let (listed, size) = rows_to_events-IsListed table rows es found h in
      (
        listed,
        rw size (
            rw (length-take (suc limit) (sort_rows row_leb (keep pending_row table)))
              (omega arith)),
      )

  -- A batch may be sent for an identity: it is not empty, no larger than asked for, and holds pending
  -- events of this device only.
  pub record IsBatch (identity : DeviceIdentity) (table : List (Row F)) (limit : ℕ)
      (batch : List (DetectionEvent F)) : Type 0 where
    pub not_empty : 0 < length batch
    pub bounded : length batch ≤ limit
    pub listed : All (λ e. IsListed table e × (e.device_id ≡ identity.device_id)) batch

  pub sendable_events-IsBatch :
      (identity : DeviceIdentity) (table : List (Row F)) (limit : ℕ) (es : List (DetectionEvent F))
      → list_pending float table limit ≡ some es
      → 0 < length (sendable_events identity es)
      → IsBatch identity table limit (sendable_events identity es)
  unfolding sendable_events
  sendable_events-IsBatch identity table limit es h positive =
      let (listed, size) = list_pending-IsListed table limit es h in
      record {
        not_empty = positive;
        bounded = omega (arith, length-keep (own_event identity) es);
        listed =
            All-map _ (λ e. IsListed table e × (e.device_id ≡ identity.device_id)) _
              (λ e kept. (kept.0, eq_of_beq e.device_id identity.device_id kept.1))
              (All-keep (IsListed table) (own_event identity) es listed);
      }
