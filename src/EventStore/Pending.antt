-- ===== src/EventStore/Pending.antt =====
-- `list_pending` drains the oldest detections first.
use edge_weapon_detection_pl.Base.{
  ℕ, suc, ◌<◌, ◌≤◌, ◌≡◌, refl, arith, Bool, true, false, ◌&&◌, some, List, [], ◌∷◌, ◌++◌, length,
  map, All, ◌⊎◌, ap, sym, >>=-eq-some,
}
use edge_weapon_detection_pl.Base.Rows.{count_rows}
use edge_weapon_detection_pl.Base.Sort.{AllAfter, IsSorted, select_rows_lem}
use edge_weapon_detection_pl.Float.{Float}
use edge_weapon_detection_pl.Event.{DetectionEvent, is_consistent}
use edge_weapon_detection_pl.EventStore.{
  Row, id_of, pending_row, row_leb, select_pending, stored_event, row_to_event, rows_to_events,
  list_pending,
}

module _ {F : Type 0} where
  -- `a` was detected before `b`, or at the same instant and has the smaller id.
  abbrev pub Older : Row F → Row F → Type 0
  Older a b =
      (a.event.detected_at_utc.instant < b.event.detected_at_utc.instant)
      ⊎ ((a.event.detected_at_utc.instant ≡ b.event.detected_at_utc.instant) × (id_of a ≤ id_of b))

  abbrev pub IsOldestFirst : List (Row F) → Type 0
  IsOldestFirst [] = Unit {0}
  IsOldestFirst (r ∷ rs) = All (Older r) rs × IsOldestFirst rs

  row_leb_trans : (a b c : Row F) → row_leb a b ≡ true → row_leb b c ≡ true → row_leb a c ≡ true
  row_leb_trans a b c p q = ground arith

  row_leb_total : (a b : Row F) → row_leb a b ≡ false → row_leb b a ≡ true
  row_leb_total a b h = ground arith

  row_leb-Older : (a b : Row F) → row_leb a b ≡ true → Older a b
  row_leb-Older a b h = ground arith

  AllAfter-Older : (r : Row F) (rs : List (Row F)) → AllAfter row_leb r rs → All (Older r) rs
  AllAfter-Older r [] after = tt
  AllAfter-Older r (s ∷ rs) (first, later) = (row_leb-Older r s first, AllAfter-Older r rs later)

  IsSorted-IsOldestFirst : (rs : List (Row F)) → IsSorted row_leb rs → IsOldestFirst rs
  IsSorted-IsOldestFirst [] sorted = tt
  IsSorted-IsOldestFirst (r ∷ rs) (after, sorted) =
      (AllAfter-Older r rs after, IsSorted-IsOldestFirst rs sorted)

  select_pending_lem :
      (table : List (Row F)) (limit : ℕ)
      → (rest : List (Row F)) × IsSorted row_leb (select_pending table limit ++ rest)
        × ((test : Row F → Bool)
            → count_rows test (select_pending table limit ++ rest)
              ≡ count_rows (λ r. pending_row r && test r) table)
        × ((rest ≡ []) ⊎ (length (select_pending table limit) ≡ limit))
  select_pending_lem =
      unfold select_pending in select_rows_lem row_leb row_leb_trans row_leb_total pending_row

module _ (float : Float) where
  open float use {F}

  pub row_to_event-eq-some :
      (row : Row F) {e : DetectionEvent F}
      → row_to_event float row ≡ some e
      → (e ≡ stored_event float row) × (is_consistent float e ≡ true)
  unfolding row_to_event
  row_to_event-eq-some row h = ground arith

  rows_to_events-eq-some :
      (rows : List (Row F)) (es : List (DetectionEvent F))
      → rows_to_events float rows ≡ some es
      → (es ≡ map (stored_event float) rows) × (length es ≡ length rows)
  unfolding rows_to_events
  rows_to_events-eq-some [] [] h = (refl, refl)
  rows_to_events-eq-some [] (e ∷ es) h = cc
  rows_to_events-eq-some (row ∷ rows) es h =
      let (e, first, rest) = >>=-eq-some (row_to_event float row) _ h in
      let (later, read, whole) = >>=-eq-some (rows_to_events float rows) _ rest in
      let (head, consistent) = row_to_event-eq-some row first in
      let (tail, size) = rows_to_events-eq-some rows later read in
      let joined : e ∷ later ≡ es = cc in
      let here : length (e ∷ later) ≡ suc (length rows) = ap suc size in (cc, rw (sym joined) here)

  -- A drain that succeeds gives the events of the first rows, oldest detection first, of an order of
  -- all the pending rows by the instant of their detection and then by their id: `rest` are the pending
  -- rows that are left for later, none of them unless the limit is reached. Every pending row stands
  -- in one of the two parts, as often as it is stored.
  pub list_pending-IsOldestFirst :
      (table : List (Row F)) (limit : ℕ) {es : List (DetectionEvent F)}
      → list_pending float table (suc limit) ≡ some es
      → (selected : List (Row F)) × (rest : List (Row F)) × (es ≡ map (stored_event float) selected)
        × IsOldestFirst (selected ++ rest)
        × ((test : Row F → Bool)
            → count_rows test (selected ++ rest) ≡ count_rows (λ r. pending_row r && test r) table)
        × ((rest ≡ []) ⊎ (length es ≡ suc limit))
  unfolding list_pending
  list_pending-IsOldestFirst table limit {es} read =
      let selected = select_pending table (suc limit) in
      let (rest, sorted, counted, full) = select_pending_lem table (suc limit) in
      let (events, size) = rows_to_events-eq-some selected es read in
      (
        selected,
        rest,
        events,
        IsSorted-IsOldestFirst (selected ++ rest) sorted,
        counted,
        rw size full,
      )
