-- ===== src/Sync/Worker/Marks.antt =====
-- What `_mark_delivered` and `_mark_suppressed_by_quota` of sync/worker.py do to a stored row.
use edge_weapon_detection_pl.Base.{
  ℕ, ◌≡◌, refl, String, arith, Bool, true, false, ◌&&◌, ◌||◌, ◌⊎◌, inl, inr, Bool-cases, sym, subst,
  Option, none, some, List, [], ◌∷◌, if◌then◌else◌, ap, ◌∙◌, not,
}
use edge_weapon_detection_pl.Base.Eq.{◌==◌, nat_eq}
use edge_weapon_detection_pl.Base.Dict.{Dict, get, keys}
use edge_weapon_detection_pl.Base.Sets.{contains, add, contains-add}
use edge_weapon_detection_pl.Base.Rows.{update_rows, first-update_rows, test-first}
use edge_weapon_detection_pl.Time.{DateTime}
use edge_weapon_detection_pl.EventStore.{
  Row, id_of, has_id, is_pending, is_marked, set_delivered, set_suppressed, mark_many,
  mark_delivered_many, mark_suppressed_by_quota_many,
}
use edge_weapon_detection_pl.EventStore.Lookup.{find}
use edge_weapon_detection_pl.Sync.Client.{SyncBatchResult, answered}
use edge_weapon_detection_pl.Sync.Client.Verdict.{Standing, standing, has}
use edge_weapon_detection_pl.Sync.Worker.{
  SyncState, SyncConfig, Stamp, Iteration, union, associate_alert_ids, cancel_snapshots, mark_rest,
  finish_marks, mark_delivered_ids, mark_delivered, mark_suppressed_ids, mark_suppressed_by_quota,
  apply_outcome,
}
use edge_weapon_detection_pl.Backoff.{sent, broken}

contains-union :
    (a b : List ℕ) (i : ℕ) → contains (union a b) i ≡ (if contains a i then true else contains b i)
unfolding union contains
contains-union a [] i = ground arith
contains-union a (j ∷ js) i = ground (arith, contains-union (add a j) js i, contains-add a j i)

contains-keys : {V : Type 0} (d : Dict ℕ V) (i : ℕ) → contains (keys d) i ≡ has d i
unfolding contains get
contains-keys [] i = refl
contains-keys ((j, v) ∷ d) i = ground (arith, contains-keys d i)

-- The mark raises, as its time is naive or the database fails.
abbrev pub Refused : Stamp → Type 0
Refused at = (at.time.is_aware ≡ false) ⊎ (at.fails ≡ true)

module _ {F : Type 0} where
  abbrev pub map_row : (Row F → Row F) → Option (Row F) → Option (Row F)
  map_row change none = none
  map_row change (some r) = some (change r)

  abbrev marked_row : Bool → (Row F → Row F) → Row F → Row F
  marked_row marked change r = if marked && is_pending r.status then change r else r

  marked-eq :
      (change : Row F → Row F) (ids : List ℕ) (i : ℕ) (o : Option (Row F))
      → ((r : Row F) → o ≡ some r → id_of r ≡ i)
      → (elim o [ none ↦ none | some r ↦ some (if is_marked ids r then change r else r) ])
        ≡ map_row (marked_row (contains ids i) change) o
  marked-eq change ids i none named = refl
  marked-eq change ids i (some r) named =
      ap (λ (j : ℕ). some (marked_row (contains ids j) change r)) (named r refl)

  -- An update of the ids changes the row of each of them, if it is pending.
  find-marked :
      (change : Row F → Row F) (table : List (Row F)) (ids : List ℕ) (i : ℕ)
      → ((row : Row F) → id_of (change row) ≡ id_of row)
      → find (update_rows (is_marked ids) change table) i
        ≡ map_row (marked_row (contains ids i) change) (find table i)
  find-marked change table ids i keeps =
      first-update_rows (has_id i) (is_marked ids) change table
        (λ row. ap (λ (j : ℕ). j == i) (keeps row))
      ∙ marked-eq change ids i (find table i)
          (λ r found. ground (arith, test-first (has_id i) table {r = r} found))

  nothing_marked :
      (change : Row F → Row F) (i : ℕ) (o : Option (Row F))
      → o ≡ map_row (marked_row (contains {A = ℕ} [] i) change) o
  unfolding contains
  nothing_marked change i none = refl
  nothing_marked change i (some r) = refl

  -- The mark of delivered ids is refused, or changes the rows of the ids.
  delivered_ids-find :
      (cfg : SyncConfig) (ids : List ℕ) (alerts : Dict ℕ String) (at : Stamp) (s : SyncState F)
      → ((mark_delivered_ids cfg ids alerts at s ≡ none) × Refused at)
        ⊎ ((s' : SyncState F) × (mark_delivered_ids cfg ids alerts at s ≡ some s')
            × ((i : ℕ)
                → find s'.events i
                  ≡ map_row
                      (marked_row (contains ids i) (set_delivered at.time))
                      (find s.events i)))
  unfolding mark_delivered_many mark_many
  delivered_ids-find cfg [] alerts at s =
      inr (s, refl, λ i. nothing_marked (set_delivered at.time) i (find s.events i))
  delivered_ids-find cfg (j ∷ js) alerts at s = elim (Bool-cases at.time.is_aware) [
    | inr naive ↦ inl (ground arith, inl naive)
    | inl aware ↦ elim (Bool-cases at.fails) [
      | inl failing ↦ inl (ground arith, inr failing)
      | inr works ↦ inr (
        record s {
          events = update_rows (is_marked (j ∷ js)) (set_delivered at.time) s.events;
          outbox = if cfg.has_sinks then associate_alert_ids alerts s.outbox else s.outbox;
        },
        ground arith,
        λ i. find-marked (set_delivered at.time) s.events (j ∷ js) i (λ row. refl),
      )
    ]
  ]

  suppressed_ids-find :
      (cfg : SyncConfig) (ids : List ℕ) (at : Stamp) (s : SyncState F)
      → ((mark_suppressed_ids cfg ids at s ≡ none) × Refused at)
        ⊎ ((s' : SyncState F) × (mark_suppressed_ids cfg ids at s ≡ some s')
            × ((i : ℕ)
                → find s'.events i
                  ≡ map_row
                      (marked_row (contains ids i) (set_suppressed at.time))
                      (find s.events i)))
  unfolding mark_suppressed_by_quota_many mark_many
  suppressed_ids-find cfg [] at s =
      inr (s, refl, λ i. nothing_marked (set_suppressed at.time) i (find s.events i))
  suppressed_ids-find cfg (j ∷ js) at s = elim (Bool-cases at.time.is_aware) [
    | inr naive ↦ inl (ground arith, inl naive)
    | inl aware ↦ elim (Bool-cases at.fails) [
      | inl failing ↦ inl (ground arith, inr failing)
      | inr works ↦
          let cancelled = cancel_snapshots (j ∷ js) (s.outbox, s.files) in
          inr (
            record {
              events = update_rows (is_marked (j ∷ js)) (set_suppressed at.time) s.events;
              outbox = if cfg.has_sinks then cancelled.0 else s.outbox;
              files = if cfg.has_sinks then cancelled.1 else s.files;
            },
            ground arith,
            λ i. find-marked (set_suppressed at.time) s.events (j ∷ js) i (λ row. refl),
          )
    ]
  ]

  -- What an answer settles for a row: a delivery, a suppression, or nothing.
  abbrev pub settle : DateTime → DateTime → Standing → Row F → Row F
  settle delivered_at finalized_at standing row =
      if not (is_pending row.status)
      then row
      else if standing.accepted || standing.duplicate
      then set_delivered delivered_at row
      else if standing.quota_exceeded
      then set_suppressed finalized_at row
      else row

  settle-eq :
      (d f : DateTime) (st : Standing) (marked quota : Bool) (o : Option (Row F))
      → marked ≡ (if st.accepted then true else st.duplicate)
      → quota ≡ st.quota_exceeded
      → map_row
          (marked_row quota (set_suppressed f))
          (map_row (marked_row marked (set_delivered d)) o)
        ≡ map_row (settle d f st) o
  settle-eq d f st marked quota none h k = refl
  settle-eq d f st marked quota (some r) h k = ground (arith, h, k)

  -- What the first of the two marks settles.
  abbrev pub settle_delivered : DateTime → Standing → Row F → Row F
  settle_delivered delivered_at standing row =
      if not (is_pending row.status)
      then row
      else if standing.accepted || standing.duplicate
      then set_delivered delivered_at row
      else row

  settle_delivered-eq :
      (d : DateTime) (st : Standing) (marked : Bool) (o : Option (Row F))
      → marked ≡ (if st.accepted then true else st.duplicate)
      → map_row (marked_row marked (set_delivered d)) o ≡ map_row (settle_delivered d st) o
  settle_delivered-eq d st marked none h = refl
  settle_delivered-eq d st marked (some r) h = ground (arith, h)

  -- How the marks of an answered batch end: both are made; or the second is refused behind the first,
  -- whose rows stay delivered; or the first is refused, and nothing is changed.
  pub data Marked (r : SyncBatchResult) (d f : Stamp) (s : SyncState F) (it : Iteration F)
      : Type 0 where
    none_marked : it.state ≡ s → it.drained ≡ broken → Refused d → Marked r d f s it
    half_marked :
        it.drained ≡ broken
        → Refused f
        → ((i : ℕ)
            → find it.state.events i
              ≡ map_row (settle_delivered d.time (standing r i)) (find s.events i))
        → Marked r d f s it
    all_marked :
        it.drained ≡ sent
        → ((i : ℕ)
            → find it.state.events i
              ≡ map_row (settle d.time f.time (standing r i)) (find s.events i))
        → Marked r d f s it

  finish_marks-Marked :
      (cfg : SyncConfig) (r : SyncBatchResult) (d f : Stamp) (idle_sleep : Bool)
      (s s' : SyncState F)
      → ((i : ℕ)
          → find s'.events i
            ≡ map_row
                (marked_row (contains (union r.accepted r.duplicate) i) (set_delivered d.time))
                (find s.events i))
      → Marked r d f s (finish_marks idle_sleep s' (mark_suppressed_by_quota cfg r f s'))
  unfolding mark_suppressed_by_quota
  finish_marks-Marked cfg r d f idle_sleep s s' first_law =
      elim (suppressed_ids-find cfg (keys r.quota_exceeded) f s') [
        | inl (refused, why) ↦
            subst (λ m. Marked r d f s (finish_marks idle_sleep s' m)) (sym refused)
              (half_marked refl why (λ i.
                first_law i
                ∙ settle_delivered-eq d.time (standing r i) _ (find s.events i)
                    (contains-union r.accepted r.duplicate i)))
        | inr (s'', suppressed, second_law) ↦
            subst (λ m. Marked r d f s (finish_marks idle_sleep s' m)) (sym suppressed)
              (all_marked refl (λ i.
                second_law i
                ∙ ap
                    (map_row
                      (marked_row (contains (keys r.quota_exceeded) i) (set_suppressed f.time)))
                    (first_law i)
                ∙ settle-eq d.time f.time (standing r i) _ _ (find s.events i)
                    (contains-union r.accepted r.duplicate i) (contains-keys r.quota_exceeded i)))
      ]

  pub apply_outcome-Marked :
      (cfg : SyncConfig) (r : SyncBatchResult) (d f : Stamp) (idle_sleep : Bool) (s : SyncState F)
      → Marked r d f s (apply_outcome cfg (answered r) d f idle_sleep s)
  unfolding apply_outcome mark_delivered
  apply_outcome-Marked cfg r d f idle_sleep s =
      elim (delivered_ids-find cfg (union r.accepted r.duplicate) r.alert_ids d s) [
        | inl (refused, why) ↦
            subst (λ m. Marked r d f s (mark_rest cfg r f idle_sleep s m)) (sym refused)
              (none_marked refl refl why)
        | inr (s', delivered, first_law) ↦
            subst (λ m. Marked r d f s (mark_rest cfg r f idle_sleep s m)) (sym delivered)
              (finish_marks-Marked cfg r d f idle_sleep s s' first_law)
      ]
