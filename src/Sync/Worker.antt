-- ===== src/Sync/Worker.antt =====
-- One iteration of the upload of detections: `_drain_once` and the marks that it makes, of
-- agent/src/weapon_detection_agent/sync/worker.py, with the two sinks that its factory builds.
pub mod Marks
pub mod Batch
pub mod Settled
pub mod Alerts
pub mod Forgotten
pub mod LateCapture
use edge_weapon_detection_pl.Base.{
  ℕ, String, Bool, true, false, Option, none, some, List, [], ◌∷◌, ltb, length, keep, if◌then◌else◌,
}
use edge_weapon_detection_pl.Base.Eq.{◌==◌, nat_eq, string_eq}
use edge_weapon_detection_pl.Base.Dict.{Dict, keys}
use edge_weapon_detection_pl.Base.Sets.{add, discard}
use edge_weapon_detection_pl.Time.{DateTime}
use edge_weapon_detection_pl.Float.{Float}
use edge_weapon_detection_pl.Event.{DetectionEvent}
use edge_weapon_detection_pl.EventStore.{
  Row, list_pending, mark_delivered_many, mark_suppressed_by_quota_many,
}
use edge_weapon_detection_pl.SnapshotOutbox.{
  Outbox, SnapshotOutboxRecord, Outcome, returned, raised, get_record, associate_alert_id,
  cancel_for_quota,
}
use edge_weapon_detection_pl.Identity.{DeviceIdentity, is_operational}
use edge_weapon_detection_pl.Backoff.{Drained, idle, sent, failed, broken}
use edge_weapon_detection_pl.Sync.Client.{
  SyncBatchResult, SyncOutcome, answered, failure, Response, batch_outcome,
}

-- What the worker's iterations read and write; `files` are the paths of the files in the spool.
pub record SyncState (F : Type 0) : Type 0 where
  pub events : List (Row F)
  pub outbox : Outbox
  pub files : List String

-- How an iteration ends: the state, what it means for the backoff, and whether the idle interval
-- is slept.
pub record Iteration (F : Type 0) : Type 0 where
  pub state : SyncState F
  pub drained : Drained
  pub idle_sleep : Bool

-- The reading of the clock that a mark is stamped with, and whether the database fails in the mark.
pub record Stamp : Type 0 where
  pub time : DateTime
  pub fails : Bool

-- `has_sinks` says that snapshot capture is enabled, for which the factory builds the sinks.
pub record SyncConfig : Type 0 where
  pub batch_size : ℕ
  pub has_sinks : Bool

-- a | b
unfoldable pub union : List ℕ → List ℕ → List ℕ
union a [] = a
union a (i ∷ is) = union (add a i) is

-- `_associate_alert_ids`: what the sink raises is swallowed.
unfoldable pub associate_alert_ids : Dict ℕ String → Outbox → Outbox
associate_alert_ids [] outbox = outbox
associate_alert_ids ((i, alert_id) ∷ alerts) outbox =
    associate_alert_ids alerts (associate_alert_id outbox i alert_id).0

abbrev pub is_updated : Outcome Bool → Bool
is_updated (returned updated) = updated
is_updated (raised e) = false

-- `quota_suppression_sink`: the file goes once the row is cancelled.
abbrev pub unlink_if : Bool → Option SnapshotOutboxRecord → List String → List String
unlink_if true (some record') files = discard files record'.local_path
unlink_if b r files = files

unfoldable pub suppress_snapshot : ℕ → Outbox × List String → Outbox × List String
suppress_snapshot i s =
    let cancelled = cancel_for_quota s.0 i in
    (cancelled.0, unlink_if (is_updated cancelled.1) (get_record s.0 i) s.1)

-- `_cancel_snapshots_for_quota`
unfoldable pub cancel_snapshots : List ℕ → Outbox × List String → Outbox × List String
cancel_snapshots [] s = s
cancel_snapshots (i ∷ is) s = cancel_snapshots is (suppress_snapshot i s)

module _ {F : Type 0} where
  -- `_mark_delivered`; `none` where the clock's reading is refused or the database fails
  abbrev pub mark_delivered_ids :
      SyncConfig → List ℕ → Dict ℕ String → Stamp → SyncState F → Option (SyncState F)
  mark_delivered_ids cfg [] alerts at s = some s
  mark_delivered_ids cfg (i ∷ is) alerts at s =
      elim (mark_delivered_many s.events (i ∷ is) at.time at.fails) [
        | none ↦ none
        | some (events, n) ↦ some (record s {
          events = events;
          outbox = if cfg.has_sinks then associate_alert_ids alerts s.outbox else s.outbox;
        })
      ]

  unfoldable pub mark_delivered :
      SyncConfig → SyncBatchResult → Stamp → SyncState F → Option (SyncState F)
  unfolding union
  mark_delivered cfg r at s = mark_delivered_ids cfg (union r.accepted r.duplicate) r.alert_ids at s

  abbrev pub mark_suppressed_ids : SyncConfig → List ℕ → Stamp → SyncState F → Option (SyncState F)
  mark_suppressed_ids cfg [] at s = some s
  mark_suppressed_ids cfg (i ∷ is) at s =
      elim (mark_suppressed_by_quota_many s.events (i ∷ is) at.time at.fails) [
        | none ↦ none
        | some (events, n) ↦
            let cancelled = cancel_snapshots (i ∷ is) (s.outbox, s.files) in
            some (record {
              events = events;
              outbox = if cfg.has_sinks then cancelled.0 else s.outbox;
              files = if cfg.has_sinks then cancelled.1 else s.files;
            })
      ]

  unfoldable pub mark_suppressed_by_quota :
      SyncConfig → SyncBatchResult → Stamp → SyncState F → Option (SyncState F)
  mark_suppressed_by_quota cfg r at s = mark_suppressed_ids cfg (keys r.quota_exceeded) at s

  abbrev pub own_event : DeviceIdentity → DetectionEvent F → Bool
  own_event identity e = e.device_id == identity.device_id

  -- The loop that splits the pending events by the device that they belong to.
  unfoldable pub sendable_events :
      DeviceIdentity → List (DetectionEvent F) → List (DetectionEvent F)
  sendable_events identity events = keep (own_event identity) events

  -- The end of an iteration whose batch was answered; where a mark raises, what was written before
  -- it stays written.
  abbrev pub finish_marks : Bool → SyncState F → Option (SyncState F) → Iteration F
  finish_marks idle_sleep before none = record {
    state = before;
    drained = broken;
    idle_sleep = false;
  }
  finish_marks idle_sleep before (some s) = record {
    state = s;
    drained = sent;
    idle_sleep = idle_sleep;
  }

  abbrev pub mark_rest :
      SyncConfig → SyncBatchResult → Stamp → Bool → SyncState F → Option (SyncState F) → Iteration F
  mark_rest cfg r at idle_sleep before none = record {
    state = before;
    drained = broken;
    idle_sleep = false;
  }
  mark_rest cfg r at idle_sleep before (some s) =
      finish_marks idle_sleep s (mark_suppressed_by_quota cfg r at s)

  -- `delivered_at` and `finalized_at` are the stamps of the two marks, each a transaction of its own.
  unfoldable pub apply_outcome :
      SyncConfig → SyncOutcome → Stamp → Stamp → Bool → SyncState F → Iteration F
  apply_outcome cfg (failure reason status) delivered_at finalized_at idle_sleep s = record {
    state = s;
    drained = failed;
    idle_sleep = false;
  }
  apply_outcome cfg (answered r) delivered_at finalized_at idle_sleep s =
      mark_rest cfg r finalized_at idle_sleep s (mark_delivered cfg r delivered_at s)

  abbrev pub at_rest : SyncState F → Iteration F
  at_rest s = record { state = s; drained = idle; idle_sleep = true }

  abbrev pub collapsed : SyncState F → Iteration F
  collapsed s = record { state = s; drained = broken; idle_sleep = false }

-- What the world contributes to an iteration: the clock, the failures of the database, and the HTTP
-- client's answer to a batch.
pub record World (F : Type 0) : Type 0 where
  pub uuid_of : String → Option ℕ
  pub answer : List (DetectionEvent F) → Response F
  pub delivered_at : Stamp
  pub finalized_at : Stamp
  pub list_fails : Bool

module _ (float : Float) where
  open float use {F}

  abbrev pub send_events :
      SyncConfig → World F → SyncState F → ℕ → List (DetectionEvent F) → Bool → Iteration F
  send_events cfg w s total [] mismatched = at_rest s
  send_events cfg w s total (e ∷ es) mismatched =
      apply_outcome cfg (batch_outcome w.uuid_of (w.answer (e ∷ es))) w.delivered_at w.finalized_at
        (if mismatched then true else ltb total cfg.batch_size) s

  abbrev pub drain_pending :
      SyncConfig
      → World F
      → SyncState F
      → DeviceIdentity
      → Option (List (DetectionEvent F))
      → Iteration F
  drain_pending cfg w s identity none = collapsed s
  drain_pending cfg w s identity (some []) = at_rest s
  drain_pending cfg w s identity (some (p ∷ ps)) =
      let own = sendable_events identity (p ∷ ps) in
      send_events cfg w s (length (p ∷ ps)) own (ltb (length own) (length (p ∷ ps)))

  -- `list_pending`, which raises where the database fails too
  abbrev pub read_pending : SyncConfig → World F → SyncState F → Option (List (DetectionEvent F))
  read_pending cfg w s = if w.list_fails then none else list_pending float s.events cfg.batch_size

  abbrev pub drain_for : SyncConfig → World F → SyncState F → Option DeviceIdentity → Iteration F
  drain_for cfg w s none = at_rest s
  drain_for cfg w s (some identity) =
      if is_operational identity.operational_state
      then drain_pending cfg w s identity (read_pending cfg w s)
      else at_rest s

  -- `loaded` is what the identity repository gives, `none` where it raises.
  unfoldable pub drain_once :
      SyncConfig → World F → SyncState F → Option (Option DeviceIdentity) → Iteration F
  drain_once cfg w s none = collapsed s
  drain_once cfg w s (some identity) = drain_for cfg w s identity
