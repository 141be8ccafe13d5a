-- ===== src/Sync/Worker/Forgotten.antt =====
-- What the marks of sync/worker.py leave of a detection that is settled already.
use mathlib.Core.Path.{subst}
use mathlib.Core.List.{Memᴰ}
use edge_weapon_detection_pl.Base.{
  ℕ, ◌≡◌, refl, ap, sym, arith, ◌∙◌, String, Bool, false, ◌&&◌, not, Option, none, some, List, [],
  ◌∷◌, any, if◌then◌else◌, Bool-cases, inl, inr,
}
use edge_weapon_detection_pl.Base.Eq.{◌==◌, nat_eq, string_eq}
use edge_weapon_detection_pl.Base.Dict.{Dict, keys}
use edge_weapon_detection_pl.Base.Rows.{update_rows}
use edge_weapon_detection_pl.Event.{DetectionEvent}
use edge_weapon_detection_pl.EventStore.{
  Row, has_id, pending_row, is_marked, mark_many, mark_delivered_many,
  mark_suppressed_by_quota_many, set_delivered, set_suppressed,
}
use edge_weapon_detection_pl.Sync.Client.{
  SyncBatchResult, SyncOutcome, answered, failure, batch_outcome,
}
use edge_weapon_detection_pl.Sync.Client.Verdict.{has}
use edge_weapon_detection_pl.Sync.Worker.{
  SyncState, SyncConfig, Stamp, World, union, associate_alert_ids, cancel_snapshots,
  mark_delivered_ids, mark_delivered, mark_suppressed_ids, mark_suppressed_by_quota, finish_marks,
  mark_rest, apply_outcome,
}
use edge_weapon_detection_pl.Sync.Worker.Alerts.{
  HasNoAlert, associate_all-HasNoAlert, cancel_all-HasNoAlert, if_kept,
}

module _ {F : Type 0} where
  abbrev pub pending_of : ℕ → Row F → Bool
  pending_of i r = has_id i r && pending_row r

  abbrev pub IsQuiet : ℕ → List (Row F) → Type 0
  IsQuiet i events = any (pending_of i) events ≡ false

  update-IsQuiet :
      (i : ℕ) (test : Row F → Bool) (change : Row F → Row F) (events : List (Row F))
      → ((r : Row F) → pending_row (change r) ≡ false)
      → IsQuiet i events
      → IsQuiet i (update_rows test change events)
  update-IsQuiet i test change [] moves h = h
  update-IsQuiet i test change (r ∷ events) moves h =
      ground (arith, moves r, update-IsQuiet i test change events moves)

  -- The detection is no longer pending, and its snapshot, if there is one, has no alert.
  pub record IsForgotten (i : ℕ) (s : SyncState F) : Type 0 where
    pub quiet : IsQuiet i s.events
    pub no_alert : HasNoAlert i s.outbox

  abbrev ForgottenIf : ℕ → Option (SyncState F) → Type 0
  ForgottenIf i none = Unit
  ForgottenIf i (some s) = IsForgotten i s

  delivered-IsForgotten :
      (cfg : SyncConfig) (i : ℕ) (ids : List ℕ) (alerts : Dict ℕ String) (at : Stamp)
      (s : SyncState F)
      → has alerts i ≡ false
      → IsForgotten i s
      → ForgottenIf i (mark_delivered_ids cfg ids alerts at s)
  unfolding mark_delivered_many mark_many
  delivered-IsForgotten cfg i [] alerts at s absent h = h
  delivered-IsForgotten cfg i (j ∷ js) alerts at s absent h =
      elim (Bool-cases (at.time.is_aware && not at.fails)) [
        | inl aware ↦
            let done : mark_delivered_ids cfg (j ∷ js) alerts at s
                ≡ some (record s {
                  events = update_rows (is_marked (j ∷ js)) (set_delivered at.time) s.events;
                  outbox = if cfg.has_sinks then associate_alert_ids alerts s.outbox else s.outbox;
                }) =
              ground arith in
            subst (ForgottenIf i) (sym done) (record {
              quiet =
                  update-IsQuiet i (is_marked (j ∷ js)) (set_delivered at.time) s.events (λ r. refl)
                    h.quiet;
              no_alert =
                  if_kept cfg.has_sinks i _ _
                    (associate_all-HasNoAlert i alerts s.outbox absent h.no_alert) h.no_alert;
            })
        | inr naive ↦
            let refused : mark_delivered_ids cfg (j ∷ js) alerts at s ≡ none = ground arith in
            subst (ForgottenIf i) (sym refused) tt
      ]

  suppressed-IsForgotten :
      (cfg : SyncConfig) (i : ℕ) (ids : List ℕ) (at : Stamp) (s : SyncState F)
      → IsForgotten i s
      → ForgottenIf i (mark_suppressed_ids cfg ids at s)
  unfolding mark_suppressed_by_quota_many mark_many
  suppressed-IsForgotten cfg i [] at s h = h
  suppressed-IsForgotten cfg i (j ∷ js) at s h =
      elim (Bool-cases (at.time.is_aware && not at.fails)) [
        | inl aware ↦
            let cancelled = cancel_snapshots (j ∷ js) (s.outbox, s.files) in
            let done : mark_suppressed_ids cfg (j ∷ js) at s
                ≡ some (record {
                  events = update_rows (is_marked (j ∷ js)) (set_suppressed at.time) s.events;
                  outbox = if cfg.has_sinks then cancelled.0 else s.outbox;
                  files = if cfg.has_sinks then cancelled.1 else s.files;
                }) =
              ground arith in
            subst (ForgottenIf i) (sym done) (record {
              quiet =
                  update-IsQuiet i (is_marked (j ∷ js)) (set_suppressed at.time) s.events
                    (λ r. refl) h.quiet;
              no_alert =
                  if_kept cfg.has_sinks i _ _
                    (cancel_all-HasNoAlert i (j ∷ js) (s.outbox, s.files) h.no_alert) h.no_alert;
            })
        | inr naive ↦
            let refused : mark_suppressed_ids cfg (j ∷ js) at s ≡ none = ground arith in
            subst (ForgottenIf i) (sym refused) tt
      ]

  finish-IsForgotten :
      (i : ℕ) (idle_sleep : Bool) (before : SyncState F) (o : Option (SyncState F))
      → IsForgotten i before
      → ForgottenIf i o
      → IsForgotten i (finish_marks idle_sleep before o).state
  finish-IsForgotten i idle_sleep before none h k = h
  finish-IsForgotten i idle_sleep before (some s) h k = k

  rest-IsForgotten :
      (cfg : SyncConfig) (i : ℕ) (r : SyncBatchResult) (at : Stamp) (idle_sleep : Bool)
      (before : SyncState F) (o : Option (SyncState F))
      → IsForgotten i before
      → ForgottenIf i o
      → IsForgotten i (mark_rest cfg r at idle_sleep before o).state
  unfolding mark_suppressed_by_quota
  rest-IsForgotten cfg i r at idle_sleep before none h k = h
  rest-IsForgotten cfg i r at idle_sleep before (some s) h k =
      finish-IsForgotten i idle_sleep s _ k
        (suppressed-IsForgotten cfg i (keys r.quota_exceeded) at s k)

  pub outcome-IsForgotten :
      (cfg : SyncConfig) (i : ℕ) (o : SyncOutcome) (d f : Stamp) (idle_sleep : Bool)
      (s : SyncState F)
      → ((r : SyncBatchResult) → o ≡ answered r → has r.alert_ids i ≡ false)
      → IsForgotten i s
      → IsForgotten i (apply_outcome cfg o d f idle_sleep s).state
  unfolding apply_outcome mark_delivered
  outcome-IsForgotten cfg i (failure reason status) d f idle_sleep s absent h = h
  outcome-IsForgotten cfg i (answered r) d f idle_sleep s absent h =
      rest-IsForgotten cfg i r f idle_sleep s _ h (
        delivered-IsForgotten cfg i (union r.accepted r.duplicate) r.alert_ids d s (absent r refl)
          h)

  pub quiet-member :
      (i : ℕ) (row : Row F) (events : List (Row F))
      → IsQuiet i events
      → Memᴰ row events
      → pending_of i row ≡ false
  quiet-member i row [] h m = elim m [ ]
  quiet-member i row (r ∷ events) h (Memᴰ.head e) = ap (pending_of i) e ∙ ground arith
  quiet-member i row (r ∷ events) h (Memᴰ.tail m) = quiet-member i row events (ground arith) m

  abbrev pub holds : List (DetectionEvent F) → ℕ → Bool
  holds batch i = any (λ e. e.event_id == i) batch

  -- As the Backend's contract says, an answer gives alerts only to the events of its request.
  pub record AnswersItsBatch (w : World F) : Type 0 where
    pub own_alerts :
        (batch : List (DetectionEvent F)) (r : SyncBatchResult) (i : ℕ)
        → batch_outcome w.uuid_of (w.answer batch) ≡ answered r
        → holds batch i ≡ false
        → has r.alert_ids i ≡ false
