-- ===== src/Sync/Worker/Settled.antt =====
-- How an iteration of sync/worker.py ends: `_drain_once` from the identity to the marks.
use edge_weapon_detection_pl.Base.{
  ℕ, ◌≡◌, ◌<◌, refl, arith, Bool, true, false, Option, none, some, List, [], ◌∷◌, length,
  Bool-cases, inl, inr, ◌⊎◌, ap,
}
use edge_weapon_detection_pl.Float.{Float}
use edge_weapon_detection_pl.Event.{DetectionEvent}
use edge_weapon_detection_pl.EventStore.{list_pending}
use edge_weapon_detection_pl.EventStore.Lookup.{find}
use edge_weapon_detection_pl.Identity.{DeviceIdentity, is_operational}
use edge_weapon_detection_pl.Backoff.{Drained, idle, sent, failed, broken}
use edge_weapon_detection_pl.Sync.Client.{
  SyncBatchResult, SyncOutcome, answered, failure, batch_outcome,
}
use edge_weapon_detection_pl.Sync.Client.Verdict.{standing}
use edge_weapon_detection_pl.Sync.Worker.{
  SyncState, SyncConfig, Iteration, World, sendable_events, apply_outcome, send_events,
  read_pending, drain_pending, drain_once,
}
use edge_weapon_detection_pl.Sync.Worker.Marks.{
  map_row, settle, settle_delivered, Marked, none_marked, half_marked, all_marked,
  apply_outcome-Marked,
}
use edge_weapon_detection_pl.Sync.Worker.Batch.{IsBatch, sendable_events-IsBatch}

abbrev pub is_sent : Drained → Bool
is_sent d = elim d [ sent ↦ true | idle ↦ false | failed ↦ false | broken ↦ false ]

module _ (float : Float) where
  open float use {F}

  -- The iteration sent the batch for the device, and was answered with the result.
  pub record Answered (w : World F) (s : SyncState F) (limit : ℕ)
      (loaded : Option (Option DeviceIdentity)) (r : SyncBatchResult) : Type 0 where
    pub identity : DeviceIdentity
    pub batch : List (DetectionEvent F)
    pub is_loaded : loaded ≡ some (some identity)
    pub operates : is_operational identity.operational_state ≡ true
    pub is_batch : IsBatch float identity s.events limit batch
    pub is_answer : batch_outcome w.uuid_of (w.answer batch) ≡ answered r

  -- An iteration either leaves everything as it was and does not report a success, or it was answered:
  -- then it settled each row by the answer, or the second mark was refused, behind the first.
  pub data Ended (w : World F) (s : SyncState F) (limit : ℕ)
      (loaded : Option (Option DeviceIdentity)) (it : Iteration F) : Type 0 where
    left_alone : it.state ≡ s → is_sent it.drained ≡ false → Ended w s limit loaded it
    half_settled :
        (r : SyncBatchResult)
        → Answered w s limit loaded r
        → it.drained ≡ broken
        → (w.finalized_at.time.is_aware ≡ false) ⊎ (w.finalized_at.fails ≡ true)
        → ((i : ℕ)
            → find it.state.events i
              ≡ map_row (settle_delivered w.delivered_at.time (standing r i)) (find s.events i))
        → Ended w s limit loaded it
    settled :
        (r : SyncBatchResult)
        → Answered w s limit loaded r
        → it.drained ≡ sent
        → ((i : ℕ)
            → find it.state.events i
              ≡ map_row
                  (settle w.delivered_at.time w.finalized_at.time (standing r i))
                  (find s.events i))
        → Ended w s limit loaded it

  by_marks :
      (w : World F) (s : SyncState F) (limit : ℕ) (loaded : Option (Option DeviceIdentity))
      (r : SyncBatchResult) (it : Iteration F)
      → Answered w s limit loaded r
      → Marked r w.delivered_at w.finalized_at s it
      → Ended w s limit loaded it
  by_marks w s limit loaded r it a (none_marked same drained why) =
      left_alone same (ap is_sent drained)
  by_marks w s limit loaded r it a (half_marked drained why law) = half_settled r a drained why law
  by_marks w s limit loaded r it a (all_marked drained law) = settled r a drained law

  module _ (cfg : SyncConfig) (w : World F) (s : SyncState F) where
    module _ (identity : DeviceIdentity)
        (works : is_operational identity.operational_state ≡ true) where
      outcome-Ended :
          (batch : List (DetectionEvent F)) (o : SyncOutcome) (idle_sleep : Bool)
          → IsBatch float identity s.events cfg.batch_size batch
          → batch_outcome w.uuid_of (w.answer batch) ≡ o
          → Ended w s cfg.batch_size
              (some (some identity))
              (apply_outcome cfg o w.delivered_at w.finalized_at idle_sleep s)
      outcome-Ended batch (failure reason status) idle_sleep h e =
          unfold apply_outcome in left_alone refl refl
      outcome-Ended batch (answered r) idle_sleep h e =
          by_marks w s cfg.batch_size (some (some identity)) r _
            (record {
              identity = identity;
              batch = batch;
              is_loaded = refl;
              operates = works;
              is_batch = h;
              is_answer = e;
            })
            (apply_outcome-Marked cfg r w.delivered_at w.finalized_at idle_sleep s)

      send_events-Ended :
          (total : ℕ) (es : List (DetectionEvent F)) (mismatched : Bool)
          → (0 < length es → IsBatch float identity s.events cfg.batch_size es)
          → Ended w s cfg.batch_size
              (some (some identity))
              (send_events float cfg w s total es mismatched)
      send_events-Ended total [] mismatched h = left_alone refl refl
      send_events-Ended total (e ∷ es) mismatched h =
          outcome-Ended (e ∷ es) (batch_outcome w.uuid_of (w.answer (e ∷ es))) _ (h (omega arith))
            refl

      drain_pending-Ended :
          (pending : Option (List (DetectionEvent F)))
          → list_pending float s.events cfg.batch_size ≡ pending
          → Ended w s cfg.batch_size
              (some (some identity))
              (drain_pending float cfg w s identity pending)
      drain_pending-Ended none e = left_alone refl refl
      drain_pending-Ended (some []) e = left_alone refl refl
      drain_pending-Ended (some (p ∷ ps)) e =
          send_events-Ended (length (p ∷ ps)) (sendable_events identity (p ∷ ps)) _
            (sendable_events-IsBatch float identity s.events cfg.batch_size (p ∷ ps) e)

      read_pending-Ended :
          Ended w s cfg.batch_size
            (some (some identity))
            (drain_pending float cfg w s identity (read_pending float cfg w s))
      read_pending-Ended = elim (Bool-cases w.list_fails) [
        | inl failing ↦ simp failing (left_alone refl refl)
        | inr works ↦
            simp works (drain_pending-Ended (list_pending float s.events cfg.batch_size) refl)
      ]

    -- Whatever the clock reads and wherever the database fails, an iteration either changes nothing, and
    -- then reports no success, or it sent a batch of pending events of this device for an operational
    -- identity and was answered. Then every stored row is delivered, suppressed or kept exactly as the
    -- answer says of its id; or, where the mark of the suppressed ones is refused, every row is delivered
    -- or kept as the answer says, none is suppressed, and the iteration ends with the exception.
    pub drain_once-Ended :
        (loaded : Option (Option DeviceIdentity))
        → Ended w s cfg.batch_size loaded (drain_once float cfg w s loaded)
    unfolding drain_once
    drain_once-Ended none = left_alone refl refl
    drain_once-Ended (some none) = left_alone refl refl
    drain_once-Ended (some (some identity)) =
        elim (Bool-cases (is_operational identity.operational_state)) [
          | inl works ↦ rw works (read_pending-Ended identity works)
          | inr locked ↦ rw locked (left_alone refl refl)
        ]
