-- ===== src/Ingest/Acknowledged.antt =====
-- What `_process` of detection/ingest_handler.py acknowledges is stored, and only what is stored
-- starts a cooldown.
use edge_weapon_detection_pl.Base.{
  ℕ, ◌≡◌, ◌⊎◌, refl, arith, String, Bool, true, false, ◌||◌, ◌&&◌, Option, none, some, List, [],
  ◌∷◌, ◌++◌, any, if◌then◌else◌, Bool-cases, Option-cases, inl, inr,
}
use edge_weapon_detection_pl.Base.Eq.{◌==◌, nat_eq, string_eq}
use edge_weapon_detection_pl.Base.Dict.{get, put, get-put}
use edge_weapon_detection_pl.Base.Rows.{first-append}
use edge_weapon_detection_pl.Base.Text.{is_blank}
use edge_weapon_detection_pl.Time.{DateTime}
use edge_weapon_detection_pl.Float.{Float}
use edge_weapon_detection_pl.Json.{Payload}
use edge_weapon_detection_pl.Event.{DetectionEvent}
use edge_weapon_detection_pl.Validation.Outcome.{
  Check, pass, reject, raise, unresolved_camera_source,
}
use edge_weapon_detection_pl.Cooldown.{
  CooldownKey, key_eq, CooldownDecision, accept, suppress, DetectionCooldownTracker, identity_key,
  commit,
}
use edge_weapon_detection_pl.EventStore.{Row, has_id, new_row, InsertError, insert}
use edge_weapon_detection_pl.EventStore.Lookup.{find}
use edge_weapon_detection_pl.Ingest.{
  Ack, AckOutcome, accepted, suppressed, rejected, Writer, send_ack, ack_if, IngestState,
  IngestConfig, Moment, after_commit, after_insert, after_decide, after_validation, process_for,
  process_from, process, ack_target, normalized,
}

abbrev pub has_window : DetectionCooldownTracker → CooldownKey → Bool
has_window t key = elim (get t.last_accepted_at key) [ none ↦ false | some at ↦ true ]

module _ {F : Type 0} where
  abbrev pub row_key : Row F → CooldownKey
  row_key row = (row.event.device_id, row.event.camera_id, row.event.class_name)

  abbrev pub is_found : Option (Row F) → Bool
  is_found none = false
  is_found (some row) = true

  -- An acknowledgement keeps its promise: what it calls accepted is stored.
  abbrev pub is_kept : List (Row F) → AckOutcome → Bool
  is_kept events (accepted i) = is_found (find events i)
  is_kept events suppressed = true
  is_kept events (rejected reason) = true

  abbrev pub all_kept : List (Row F) → List Ack → Bool
  all_kept events [] = true
  all_kept events (a ∷ acks) = is_kept events a.outcome && all_kept events acks

  -- Every acknowledged detection is stored, and a window is only held by the key of a stored one.
  pub record IsHonest (s : IngestState F) : Type 0 where
    pub promises : all_kept s.events s.acks ≡ true
    pub windows :
        (key : CooldownKey)
        → (if has_window s.cooldown key then any (λ r. row_key r == key) s.events else true) ≡ true

  all_kept-snoc :
      (events : List (Row F)) (acks : List Ack) (a : Ack)
      → all_kept events (acks ++ a ∷ []) ≡ (all_kept events acks && is_kept events a.outcome)
  all_kept-snoc events [] a = ground arith
  all_kept-snoc events (b ∷ acks) a = ground (arith, all_kept-snoc events acks a)

  all_kept-ack_if :
      (events : List (Row F)) (target : Option (Writer × String)) (o : AckOutcome) (b : Bool)
      (acks : List Ack)
      → all_kept events acks ≡ true
      → is_kept events o ≡ true
      → all_kept events (ack_if target o b acks) ≡ true
  unfolding send_ack
  all_kept-ack_if events none o b acks h k = h
  all_kept-ack_if events (some (writer, message_id)) o b acks h k = ground (
    arith,
    all_kept-snoc events acks
        (record { message_id = message_id; outcome = o; snapshot_required = b }),
  )

  is_kept-more :
      (before after : List (Row F)) (o : AckOutcome)
      → ((i : ℕ) → is_found (find before i) ≡ true → is_found (find after i) ≡ true)
      → is_kept before o ≡ true
      → is_kept after o ≡ true
  is_kept-more before after (accepted i) more h = more i h
  is_kept-more before after suppressed more h = refl
  is_kept-more before after (rejected reason) more h = refl

  all_kept-more :
      (before after : List (Row F)) (acks : List Ack)
      → ((i : ℕ) → is_found (find before i) ≡ true → is_found (find after i) ≡ true)
      → all_kept before acks ≡ true
      → all_kept after acks ≡ true
  all_kept-more before after [] more h = refl
  all_kept-more before after (a ∷ acks) more h =
      ground (arith, is_kept-more before after a.outcome more, all_kept-more before after acks more)

  any-append :
      (test : Row F → Bool) (events : List (Row F)) (row : Row F)
      → any test (events ++ row ∷ []) ≡ (any test events || test row)
  any-append test [] row = ground arith
  any-append test (r ∷ events) row = ground (arith, any-append test events row)

  find-append :
      (events : List (Row F)) (row : Row F) (i : ℕ)
      → is_found (find (events ++ row ∷ []) i) ≡ (is_found (find events i) || has_id i row)
  find-append events row i = ground (arith, first-append (has_id i) events row)

commit-cases :
    (t : DetectionCooldownTracker) (device_id camera_id class_name : String) (at : ℕ)
    → (commit t device_id camera_id class_name at ≡ none)
      ⊎ (commit t device_id camera_id class_name at
          ≡ some (record t {
            last_accepted_at = put t.last_accepted_at (device_id, camera_id, class_name) at;
          }))
unfolding commit identity_key
commit-cases t device_id camera_id class_name at =
    elim (Bool-cases (is_blank device_id || is_blank camera_id || is_blank class_name)) [
      | inl blank ↦ inl (ground arith)
      | inr fine ↦ inr (ground arith)
    ]

module _ (float : Float) where
  open float use {F}

  -- The row that `_process` adds, with the window that it opens, keeps the state honest.
  commit-IsHonest :
      (cfg : IngestConfig F) (target : Option (Writer × String)) (e : DetectionEvent F)
      (created_at : DateTime) (at : ℕ) (s : IngestState F)
      → IsHonest s
      → IsHonest (
          after_commit float cfg target e
            (s.events ++ new_row e created_at ∷ [])
            s
            (commit s.cooldown e.device_id e.camera_id e.class_name at))
  commit-IsHonest cfg target e created_at at s h =
      let row = new_row e created_at in
      let events = s.events ++ row ∷ [] in
      let kept =
        all_kept-more s.events events s.acks (λ i found. ground (arith, find-append s.events row i))
          h.promises in
      elim (commit-cases s.cooldown e.device_id e.camera_id e.class_name at) [
        | inl blank ↦ simp blank (record {
          promises = kept;
          windows =
              λ key. ground (arith, h.windows key, any-append (λ r. row_key r == key) s.events row);
        })
        | inr opened ↦ simp opened (record {
          promises =
              all_kept-ack_if events target (accepted e.event_id) cfg.snapshot_capture_enabled
                s.acks kept (ground (arith, find-append s.events row e.event_id));
          windows = λ key. ground (
            arith,
            h.windows key,
            any-append (λ r. row_key r == key) s.events row,
            get-put s.cooldown.last_accepted_at (e.device_id, e.camera_id, e.class_name) at key,
          );
        })
      ]

  insert-cases :
      (events : List (Row F)) (e : DetectionEvent F) (m : Moment)
      → ((error : InsertError) × (insert events e m.created_at m.faults ≡ (events, some error)))
        ⊎ (insert events e m.created_at m.faults ≡ (events ++ new_row e m.created_at ∷ [], none))
  unfolding insert
  insert-cases events e m = elim (Option-cases (insert events e m.created_at m.faults).1) [
    | inl stored ↦ inr (ground arith)
    | inr (error, refused) ↦ inl (error, ground arith)
  ]

  after_insert-IsHonest :
      (cfg : IngestConfig F) (m : Moment) (target : Option (Writer × String)) (e : DetectionEvent F)
      (s : IngestState F)
      → IsHonest s
      → IsHonest (after_insert float cfg m target e (insert s.events e m.created_at m.faults) s)
  after_insert-IsHonest cfg m target e s h = elim (insert-cases s.events e m) [
    | inl (error, refused) ↦ rw refused h
    | inr stored ↦ rw stored (commit-IsHonest cfg target e m.created_at m.committed_at s h)
  ]

  acked-IsHonest :
      (target : Option (Writer × String)) (o : AckOutcome) (s : IngestState F)
      → is_kept s.events o ≡ true
      → IsHonest s
      → IsHonest (record s { acks = ack_if target o false s.acks })
  acked-IsHonest target o s k h = record {
    promises = all_kept-ack_if s.events target o false s.acks h.promises k;
    windows = h.windows;
  }

  after_decide-IsHonest :
      (cfg : IngestConfig F) (m : Moment) (target : Option (Writer × String)) (e : DetectionEvent F)
      (d : Option CooldownDecision) (s : IngestState F)
      → IsHonest s
      → IsHonest (after_decide float cfg m target e d s)
  after_decide-IsHonest cfg m target e none s h = h
  after_decide-IsHonest cfg m target e (some suppress) s h =
      acked-IsHonest target suppressed s refl h
  after_decide-IsHonest cfg m target e (some accept) s h = after_insert-IsHonest cfg m target e s h

  after_validation-IsHonest :
      (cfg : IngestConfig F) (m : Moment) (target : Option (Writer × String))
      (c : Check (DetectionEvent F)) (s : IngestState F)
      → IsHonest s
      → IsHonest (after_validation float cfg m target c s)
  after_validation-IsHonest cfg m target (raise e) s h = h
  after_validation-IsHonest cfg m target (reject reason field) s h =
      acked-IsHonest target (rejected reason) s refl h
  after_validation-IsHonest cfg m target (pass e) s h = after_decide-IsHonest cfg m target e _ s h

  process_for-IsHonest :
      (cfg : IngestConfig F) (m : Moment) (target : Option (Writer × String)) (payload : Payload F)
      (camera_id : String) (device_id : Option String) (s : IngestState F)
      → IsHonest s
      → IsHonest (process_for float cfg m target payload camera_id device_id s)
  process_for-IsHonest cfg m target payload camera_id none s h = h
  process_for-IsHonest cfg m target payload camera_id (some device_id) s h =
      after_validation-IsHonest cfg m target _ (record s { device_id = some device_id })
        (record { promises = h.promises; windows = h.windows })

  process_from-IsHonest :
      (cfg : IngestConfig F) (m : Moment) (target : Option (Writer × String)) (payload : Payload F)
      (camera_id : Option String) (s : IngestState F)
      → IsHonest s
      → IsHonest (process_from float cfg m target payload camera_id s)
  process_from-IsHonest cfg m target payload none s h =
      acked-IsHonest target (rejected unresolved_camera_source) s refl h
  process_from-IsHonest cfg m target payload (some camera_id) s h =
      process_for-IsHonest cfg m target payload camera_id _ s h

  process-IsHonest :
      (cfg : IngestConfig F) (m : Moment) (writer : Option Writer) (payload : Payload F)
      (s : IngestState F)
      → IsHonest s
      → IsHonest (process float cfg m writer payload s)
  unfolding process
  process-IsHonest cfg m writer payload s h =
      process_from-IsHonest cfg m (ack_target float writer payload) (normalized float payload) _ s h

  -- The calls of `_process` in their order.
  unfoldable pub process_all :
      IngestConfig F → IngestState F → List (Moment × Option Writer × Payload F) → IngestState F
  process_all cfg s [] = s
  process_all cfg s ((m, writer, payload) ∷ calls) =
      process_all cfg (process float cfg m writer payload s) calls

  -- Through any payloads, on any connections, with any faults of the clock and the database: every
  -- detection that was acknowledged as accepted is stored, and a cooldown only runs for an identity
  -- of which a detection is stored.
  pub process_all-IsHonest :
      (cfg : IngestConfig F) (s : IngestState F) (calls : List (Moment × Option Writer × Payload F))
      → IsHonest s
      → IsHonest (process_all cfg s calls)
  unfolding process_all
  process_all-IsHonest cfg s [] h = h
  process_all-IsHonest cfg s ((m, writer, payload) ∷ calls) h =
      process_all-IsHonest cfg (process float cfg m writer payload s) calls
        (process-IsHonest cfg m writer payload s h)
