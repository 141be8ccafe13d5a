-- ===== src/EventStore/Lifecycle.antt =====
-- What any sequence of writes keeps: no detection is lost or stored twice, and a row that has left
-- `pending` never changes again.
use edge_weapon_detection_pl.Base.{
  ℕ, ◌≡◌, refl, arith, Bool, false, Option, none, some, List, [], ◌∷◌, if◌then◌else◌, Bool-cases,
  inl, inr, ◌∙◌, ap,
}
use edge_weapon_detection_pl.Base.Eq.{◌==◌, nat_eq}
use edge_weapon_detection_pl.Base.Rows.{update_rows, first-any, first-update_rows}
use edge_weapon_detection_pl.Time.{DateTime}
use edge_weapon_detection_pl.Event.{DetectionEvent}
use edge_weapon_detection_pl.EventStore.{
  Row, is_pending, Faults, id_of, has_id, insert, is_marked, mark_many, mark_delivered_many,
  mark_suppressed_by_quota_many, set_delivered, set_suppressed,
}
use edge_weapon_detection_pl.EventStore.Lookup.{find, find-insert}

-- The writes of the program, with what the clock and the database contribute.
pub data Write (F : Type 0) : Type 0 where
  insertion : DetectionEvent F → DateTime → Faults → Write F
  delivery : List ℕ → DateTime → Bool → Write F
  suppression : List ℕ → DateTime → Bool → Write F

module _ {F : Type 0} where
  abbrev pub table_or : List (Row F) → Option (List (Row F) × ℕ) → List (Row F)
  table_or table none = table
  table_or table (some (t, n)) = t

  -- A write that raises leaves the table as it was.
  unfoldable pub apply : List (Row F) → Write F → List (Row F)
  apply table (insertion e created_at faults) = (insert table e created_at faults).0
  apply table (delivery ids at fails) = table_or table (mark_delivered_many table ids at fails)
  apply table (suppression ids at fails) =
      table_or table (mark_suppressed_by_quota_many table ids at fails)

  unfoldable pub apply_all : List (Row F) → List (Write F) → List (Row F)
  apply_all table [] = table
  apply_all table (w ∷ ws) = apply_all (apply table w) ws

  -- How a stored row may change: its facts stay, and only a pending row changes at all.
  pub record Evolves (r r' : Row F) : Type 0 where
    pub event : r'.event ≡ r.event
    pub created_at : r'.created_at ≡ r.created_at
    pub settled : is_pending r.status ≡ false → r' ≡ r

  Evolves-refl : (r : Row F) → Evolves r r
  Evolves-refl r = record { event = refl; created_at = refl; settled = λ _. refl }

  Evolves-trans : {r s t : Row F} → Evolves r s → Evolves s t → Evolves r t
  Evolves-trans {r} {s} {t} p q = record {
    event = q.event ∙ p.event;
    created_at = q.created_at ∙ p.created_at;
    settled = λ h. let e = p.settled h in q.settled (rw e h) ∙ e;
  }

  -- Marking rows of a table, if the mark only moves pending rows on.
  update-Evolves :
      (ids : List ℕ) (change : Row F → Row F) (table : List (Row F)) (i : ℕ) {r : Row F}
      → ((row : Row F)
          → (id_of (change row) ≡ id_of row)
            × ((change row).event ≡ row.event)
            × ((change row).created_at ≡ row.created_at))
      → find table i ≡ some r
      → (r' : Row F) × (find (update_rows (is_marked ids) change table) i ≡ some r') × Evolves r r'
  update-Evolves ids change table i {r} keeps found = (
    if is_marked ids r then change r else r,
    first-update_rows (has_id i) (is_marked ids) change table
          (λ row. ap (λ (n : ℕ). n == i) (keeps row).0)
        ∙ rw found,
    record {
      event = ground (arith, keeps r);
      created_at = ground (arith, keeps r);
      settled = λ h. ground arith;
    },
  )

  mark-Evolves :
      (change : DateTime → Row F → Row F) (table : List (Row F)) (ids : List ℕ) (at : DateTime)
      (fails : Bool) (i : ℕ) {r : Row F}
      → ((row : Row F)
          → (id_of (change at row) ≡ id_of row)
            × ((change at row).event ≡ row.event)
            × ((change at row).created_at ≡ row.created_at))
      → find table i ≡ some r
      → (r' : Row F) × (find (table_or table (mark_many change table ids at fails)) i ≡ some r')
        × Evolves r r'
  unfolding mark_many
  mark-Evolves change table [] at fails i {r} keeps found = (r, ground arith, Evolves-refl r)
  mark-Evolves change table (j ∷ js) at fails i {r} keeps found = elim (Bool-cases at.is_aware) [
    | inr naive ↦ simp naive (r, found, Evolves-refl r)
    | inl aware ↦ elim (Bool-cases fails) [
      | inl failing ↦ simp (aware, failing) (r, found, Evolves-refl r)
      | inr works ↦ simp (aware, works) (update-Evolves (j ∷ js) (change at) table i keeps found)
    ]
  ]

  insert_free :
      (table : List (Row F)) (e : DetectionEvent F) (created_at : DateTime) (faults : Faults)
      → (insert table e created_at faults).1 ≡ none
      → find table e.event_id ≡ none
  unfolding insert
  insert_free table e created_at faults h = ground (arith, first-any (has_id e.event_id) table)

  insert-Evolves :
      (table : List (Row F)) (e : DetectionEvent F) (created_at : DateTime) (faults : Faults)
      (i : ℕ) {r : Row F}
      → find table i ≡ some r
      → find (insert table e created_at faults).0 i ≡ some r
  insert-Evolves table e created_at faults i {r} found =
      ground (arith, find-insert table e created_at faults i, insert_free table e created_at faults)

  apply-Evolves :
      (table : List (Row F)) (w : Write F) (i : ℕ) {r : Row F}
      → find table i ≡ some r
      → (r' : Row F) × (find (apply table w) i ≡ some r') × Evolves r r'
  unfolding apply mark_delivered_many mark_suppressed_by_quota_many
  apply-Evolves table (insertion e created_at faults) i {r} found =
      (r, insert-Evolves table e created_at faults i found, Evolves-refl r)
  apply-Evolves table (delivery ids at fails) i found =
      mark-Evolves set_delivered table ids at fails i (λ row. (refl, refl, refl)) found
  apply-Evolves table (suppression ids at fails) i found =
      mark-Evolves set_suppressed table ids at fails i (λ row. (refl, refl, refl)) found

  -- Through any writes, failing or not, a stored detection keeps its row: its facts never change,
  -- and once it is delivered or suppressed nothing of the row does.
  pub apply_all-Evolves :
      (table : List (Row F)) (ws : List (Write F)) (i : ℕ) {r : Row F}
      → find table i ≡ some r
      → (r' : Row F) × (find (apply_all table ws) i ≡ some r') × Evolves r r'
  unfolding apply_all
  apply_all-Evolves table [] i {r} found = (r, found, Evolves-refl r)
  apply_all-Evolves table (w ∷ ws) i {r} found =
      let (s, next, first) = apply-Evolves table w i {r = r} found in
      let (t, last, rest) = apply_all-Evolves (apply table w) ws i {r = s} next in
      (t, last, Evolves-trans first rest)
