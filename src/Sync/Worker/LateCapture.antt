-- ===== src/Sync/Worker/LateCapture.antt =====
-- A snapshot that is captured only after its detection was delivered, through sync/worker.py and
-- `create_captured` of persistence/snapshot_outbox_repository.py.
use edge_weapon_detection_pl.Base.{
  ℕ, ◌≡◌, ◌<◌, refl, ap, arith, String, Bool, false, Option, none, some, List, [], ◌∷◌, All, length,
  Bool-cases, inl, inr,
}
use edge_weapon_detection_pl.Base.Eq.{nat_eq, string_eq}
use edge_weapon_detection_pl.Base.Rows.{count_rows, count-append}
use edge_weapon_detection_pl.Time.{DateTime}
use edge_weapon_detection_pl.Float.{Float}
use edge_weapon_detection_pl.Event.{DetectionEvent}
use edge_weapon_detection_pl.EventStore.{Row, list_pending}
use edge_weapon_detection_pl.SnapshotOutbox.{Outbox, captured_row, create_captured}
use edge_weapon_detection_pl.SnapshotOutbox.Ready.{ready_of}
use edge_weapon_detection_pl.Identity.{DeviceIdentity, is_operational}
use edge_weapon_detection_pl.Sync.Client.{batch_outcome}
use edge_weapon_detection_pl.Sync.Worker.{
  SyncState, SyncConfig, World, sendable_events, send_events, read_pending, drain_pending,
  drain_once,
}
use edge_weapon_detection_pl.Sync.Worker.Batch.{IsBatch, IsListed, sendable_events-IsBatch}
use edge_weapon_detection_pl.Sync.Worker.Alerts.{HasNoAlert, alerted}
use edge_weapon_detection_pl.Sync.Worker.Forgotten.{
  IsQuiet, IsForgotten, AnswersItsBatch, holds, outcome-IsForgotten, quiet-member,
}

module _ (float : Float) where
  open float use {F}

  listed-holds :
      (i : ℕ) (device_id : String) (events : List (Row F)) (batch : List (DetectionEvent F))
      → IsQuiet i events
      → All (λ e. IsListed float events e × (e.device_id ≡ device_id)) batch
      → holds batch i ≡ false
  listed-holds i device_id events [] quiet h = refl
  listed-holds i device_id events (e ∷ batch) quiet
        (((row, (member, pending), same, consistent), own), rest) =
      let away = quiet-member i row events quiet member in
      let id : e.event_id ≡ row.event.event_id = ap (λ (x : DetectionEvent F). x.event_id) same in
      ground (arith, listed-holds i device_id events batch quiet rest)

  module _ (cfg : SyncConfig) (i : ℕ) (w : World F) (s : SyncState F) (contract : AnswersItsBatch w)
      (h : IsForgotten i s) where
    send-IsForgotten :
        (identity : DeviceIdentity) (total : ℕ) (es : List (DetectionEvent F)) (mismatched : Bool)
        → (0 < length es → IsBatch float identity s.events cfg.batch_size es)
        → IsForgotten i (send_events float cfg w s total es mismatched).state
    send-IsForgotten identity total [] mismatched b = h
    send-IsForgotten identity total (e ∷ es) mismatched b =
        outcome-IsForgotten cfg i (batch_outcome w.uuid_of (w.answer (e ∷ es))) w.delivered_at
          w.finalized_at _ s
          (λ r answer.
            contract.own_alerts (e ∷ es) r i answer (
              listed-holds i identity.device_id s.events (e ∷ es) h.quiet (b (omega arith)).listed))
          h

    pending-IsForgotten :
        (identity : DeviceIdentity) (pending : Option (List (DetectionEvent F)))
        → list_pending float s.events cfg.batch_size ≡ pending
        → IsForgotten i (drain_pending float cfg w s identity pending).state
    pending-IsForgotten identity none e = h
    pending-IsForgotten identity (some []) e = h
    pending-IsForgotten identity (some (p ∷ ps)) e =
        send-IsForgotten identity (length (p ∷ ps)) (sendable_events identity (p ∷ ps)) _
          (sendable_events-IsBatch float identity s.events cfg.batch_size (p ∷ ps) e)

    read-IsForgotten :
        (identity : DeviceIdentity)
        → IsForgotten i (drain_pending float cfg w s identity (read_pending float cfg w s)).state
    read-IsForgotten identity = elim (Bool-cases w.list_fails) [
      | inl failing ↦ simp failing h
      | inr works ↦
          simp works
            (pending-IsForgotten identity (list_pending float s.events cfg.batch_size) refl)
    ]

    drain-IsForgotten :
        (loaded : Option (Option DeviceIdentity))
        → IsForgotten i (drain_once float cfg w s loaded).state
    unfolding drain_once
    drain-IsForgotten none = h
    drain-IsForgotten (some none) = h
    drain-IsForgotten (some (some identity)) =
        elim (Bool-cases (is_operational identity.operational_state)) [
          | inl works ↦ rw works (read-IsForgotten identity)
          | inr locked ↦ rw locked h
        ]

  -- What happens after the delivery: iterations of the worker, and captures of snapshots.
  pub data Later : Type 0 where
    iteration : (w : World F) → AnswersItsBatch w → Option (Option DeviceIdentity) → Later
    capture : ℕ → String → ℕ → String → DateTime → Bool → Later

  unfoldable pub run_later : SyncConfig → SyncState F → List Later → SyncState F
  run_later cfg s [] = s
  run_later cfg s (iteration w contract loaded ∷ later) =
      run_later cfg (drain_once float cfg w s loaded).state later
  run_later cfg s (capture event_id path size hash at fault ∷ later) =
      run_later cfg
        (record s {
          outbox =
              (create_captured s.outbox (captured_row event_id path "image/jpeg" size hash at)
                fault).0;
        })
        later

  capture-HasNoAlert :
      (i : ℕ) (outbox : Outbox) (event_id : ℕ) (path : String) (size : ℕ) (hash : String)
      (at : DateTime) (fault : Bool)
      → HasNoAlert i outbox
      → HasNoAlert i
          (create_captured outbox (captured_row event_id path "image/jpeg" size hash at) fault).0
  unfolding create_captured
  capture-HasNoAlert i outbox event_id path size hash at fault h = ground (
    arith,
    count-append (alerted i) outbox (captured_row event_id path "image/jpeg" size hash at),
  )

  later-IsForgotten :
      (cfg : SyncConfig) (i : ℕ) (s : SyncState F) (later : List Later)
      → IsForgotten i s
      → IsForgotten i (run_later cfg s later)
  unfolding run_later
  later-IsForgotten cfg i s [] h = h
  later-IsForgotten cfg i s (iteration w contract loaded ∷ later) h =
      later-IsForgotten cfg i (drain_once float cfg w s loaded).state later
        (drain-IsForgotten cfg i w s contract h loaded)
  later-IsForgotten cfg i s (capture event_id path size hash at fault ∷ later) h =
      later-IsForgotten cfg i _ later (record {
        quiet = h.quiet;
        no_alert = capture-HasNoAlert i s.outbox event_id path size hash at fault h.no_alert;
      })

  no_alert-ready :
      (i : ℕ) (outbox : Outbox) → HasNoAlert i outbox → count_rows (ready_of i) outbox ≡ 0
  no_alert-ready i [] h = refl
  no_alert-ready i (r ∷ outbox) h = ground (arith, no_alert-ready i outbox)

  -- Once a detection is no longer pending while no snapshot of it has an alert, none ever becomes
  -- ready for upload: not by a capture that comes later, and not by any iteration of the worker
  -- whose answers give alerts to the events of their request only.
  pub late_capture_never_ready :
      (cfg : SyncConfig) (i : ℕ) (s : SyncState F) (later : List Later)
      → IsForgotten i s
      → count_rows (ready_of i) (run_later cfg s later).outbox ≡ 0
  late_capture_never_ready cfg i s later h =
      no_alert-ready i (run_later cfg s later).outbox (later-IsForgotten cfg i s later h).no_alert
