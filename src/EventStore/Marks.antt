-- ===== src/EventStore/Marks.antt =====
-- A repeated mark does nothing: the worker may mark a batch again after a crash.
use edge_weapon_detection_pl.Base.{
  ℕ, ◌≡◌, refl, arith, Bool, true, false, some, List, [], ◌∷◌, inl, inr, ◌⊎◌,
}
use edge_weapon_detection_pl.Time.{DateTime}
use edge_weapon_detection_pl.Base.Rows.{update_rows, count_rows}
use edge_weapon_detection_pl.EventStore.{
  Row, is_pending, is_marked, mark_many, mark_delivered_many, mark_suppressed_by_quota_many,
  set_delivered, set_suppressed,
}

module _ {F : Type 0} where
  -- Rows that were marked are no longer found by the mark of the same ids.
  settled :
      (ids : List ℕ) (first again : Row F → Row F) (table : List (Row F))
      → ((row : Row F) → is_pending (first row).status ≡ false)
      → (update_rows (is_marked ids) again (update_rows (is_marked ids) first table)
          ≡ update_rows (is_marked ids) first table)
        × (count_rows (is_marked ids) (update_rows (is_marked ids) first table) ≡ 0)
  settled ids first again [] moves = (refl, refl)
  settled ids first again (r ∷ table) moves =
      ground (arith, moves r, settled ids first again table moves)

  mark_again :
      (first again : DateTime → Row F → Row F) (table : List (Row F)) (ids : List ℕ)
      (at at' : DateTime) (fails : Bool) {t : List (Row F)} {n : ℕ}
      → ((row : Row F) → is_pending (first at row).status ≡ false)
      → at'.is_aware ≡ true
      → mark_many first table ids at fails ≡ some (t, n)
      → mark_many again t ids at' false ≡ some (t, 0)
  unfolding mark_many
  mark_again first again table [] at at' fails moves aware done = ground arith
  mark_again first again table (i ∷ is) at at' fails moves aware done =
      ground (arith, settled (i ∷ is) (first at) (again at') table moves)

  -- Once ids were marked delivered, marking them again in either way updates no row and changes
  -- nothing, and likewise once they were marked suppressed.
  pub mark_idempotent :
      (table : List (Row F)) (ids : List ℕ) (at at' : DateTime) (fails : Bool) {t : List (Row F)}
      {n : ℕ}
      → at'.is_aware ≡ true
      → (mark_delivered_many table ids at fails ≡ some (t, n))
        ⊎ (mark_suppressed_by_quota_many table ids at fails ≡ some (t, n))
      → (mark_delivered_many t ids at' false ≡ some (t, 0))
        × (mark_suppressed_by_quota_many t ids at' false ≡ some (t, 0))
  unfolding mark_delivered_many mark_suppressed_by_quota_many
  mark_idempotent table ids at at' fails aware (inl done) = (
    mark_again set_delivered set_delivered table ids at at' fails (λ row. refl) aware done,
    mark_again set_delivered set_suppressed table ids at at' fails (λ row. refl) aware done,
  )
  mark_idempotent table ids at at' fails aware (inr done) = (
    mark_again set_suppressed set_delivered table ids at at' fails (λ row. refl) aware done,
    mark_again set_suppressed set_suppressed table ids at at' fails (λ row. refl) aware done,
  )
