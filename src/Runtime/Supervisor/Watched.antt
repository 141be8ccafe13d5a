-- ===== src/Runtime/Supervisor/Watched.antt =====
-- The agent is fail-closed from its startup on.
use edge_weapon_detection_pl.Base.{
  Bool, true, false, Option, none, some, List, [], ◌∷◌, ◌≡◌, refl, arith, inl, inr, ◌⊎◌, Bool-cases,
}
use edge_weapon_detection_pl.Identity.{DeviceIdentity, is_operational, can_authenticate}
use edge_weapon_detection_pl.Identity.Repository.{
  Stored, IdentityError, load, mark_reactivation_required,
}
use edge_weapon_detection_pl.Credentials.Client.{
  CredentialValidationResult, valid, confirmed_rejected, indeterminate, validate,
}
use edge_weapon_detection_pl.Credentials.Monitor.{Attempt}
use edge_weapon_detection_pl.Credentials.Activation.{
  Resolution, no_key, key_file_error, decode_error, resolved,
}
use edge_weapon_detection_pl.Credentials.Service.{ActivationEnd, ActivationState, activate}
use edge_weapon_detection_pl.Runtime.Coordinator.{Ending, Behaviour, proves_reactivation}
use edge_weapon_detection_pl.Runtime.Supervisor.{
  Supervisor, new_supervisor, Surroundings, StartupEnd, is_up, is_activated, after_start,
  monitor_step, shutdown, enter_operational, enter_activated, after_activation, after_lock,
  after_startup_validation, startup_known, startup_for, startup_loaded, startup, or_shutdown,
  start_runtime,
}
use edge_weapon_detection_pl.Runtime.Supervisor.Closed.{
  locked, IsWatched, monitor_step-IsWatched, shutdown-IsWatched,
}

-- A startup that returns is watched; one that raises comes before the shutdown.
abbrev Started : Supervisor × StartupEnd → Type 0
Started (s, end) =
    ((is_up end ≡ true) × IsWatched s) ⊎ ((is_up end ≡ false) × (s.shutdown_done ≡ false))

after_start-Started :
    (s : Supervisor) (ending : Ending)
    → s.shutdown_done ≡ false
    → proves_reactivation (load s.durable.stored) ≡ true
    → Started (after_start s ending)
after_start-Started s Ending.returns alive proved = inl (refl, inr (refl, proved))
after_start-Started s Ending.components_locked alive proved = inr (refl, alive)
after_start-Started s Ending.unknown_result alive proved = inr (refl, alive)
after_start-Started s Ending.not_persisted alive proved = inr (refl, alive)
after_start-Started s (Ending.start_failed c) alive proved = inr (refl, alive)
after_start-Started s (Ending.shutdown_failed cs) alive proved = inr (refl, alive)

proves_loaded :
    (loaded : Option (Option DeviceIdentity)) (identity : DeviceIdentity)
    → loaded ≡ some (some identity)
    → can_authenticate identity ≡ true
    → proves_reactivation loaded ≡ true
unfolding can_authenticate
proves_loaded none identity e able = cc
proves_loaded (some none) identity e able = absurd (ground arith)
proves_loaded (some (some found)) identity e able = ground arith

module _ {F : Type 0} (w : Surroundings F) where
  enter_operational-Started :
      (identity : DeviceIdentity) (s : Supervisor)
      → s.shutdown_done ≡ false
      → load s.durable.stored ≡ some (some identity)
      → can_authenticate identity ≡ true
      → Started (enter_operational w identity s)
  unfolding enter_operational
  enter_operational-Started identity s alive loads able =
      after_start-Started _ _ alive (proves_loaded (load s.durable.stored) identity loads able)

  enter_activated-Started :
      (s : Supervisor) (loaded : Option (Option DeviceIdentity))
      → load s.durable.stored ≡ loaded
      → s.shutdown_done ≡ false
      → Started (enter_activated w s loaded)
  enter_activated-Started s none e alive = inr (refl, alive)
  enter_activated-Started s (some none) e alive = inr (refl, alive)
  enter_activated-Started s (some (some identity)) e alive =
      elim (Bool-cases (can_authenticate identity)) [
        | inl able ↦ simp able (enter_operational-Started identity s alive e able)
        | inr unable ↦ simp unable (inr (refl, alive))
      ]

  after_activation-Started :
      (before : Option DeviceIdentity) (s : Supervisor) (r : ActivationState × ActivationEnd)
      → s.shutdown_done ≡ false
      → Started (after_activation w before s r)
  after_activation-Started before s (durable, end) alive = elim (Bool-cases (is_activated end)) [
    | inl good ↦ simp good (enter_activated-Started _ (load durable.stored) refl alive)
    | inr bad ↦ simp bad (inr (refl, alive))
  ]

  after_lock-Started :
      (s : Supervisor) (r : Stored × Option IdentityError)
      → s.shutdown_done ≡ false
      → Started (after_lock w s r)
  after_lock-Started s (stored, none) alive = inl (refl, inl (locked _ refl))
  after_lock-Started s (stored, some e) alive = inr (refl, alive)

  validation-Started :
      (identity : DeviceIdentity) (s : Supervisor) (v : CredentialValidationResult)
      → s.shutdown_done ≡ false
      → load s.durable.stored ≡ some (some identity)
      → can_authenticate identity ≡ true
      → Started (after_startup_validation w identity s v)
  validation-Started identity s (confirmed_rejected status) alive loads able =
      after_lock-Started s (mark_reactivation_required s.durable.stored w.lock_fails) alive
  validation-Started identity s (valid status) alive loads able =
      enter_operational-Started identity _ alive loads able
  validation-Started identity s (indeterminate reason status) alive loads able =
      enter_operational-Started identity _ alive loads able

  startup_known-Started :
      (identity : DeviceIdentity) (s : Supervisor)
      → s.shutdown_done ≡ false
      → load s.durable.stored ≡ some (some identity)
      → Started (startup_known w identity s)
  startup_known-Started identity s alive loads =
      elim (Bool-cases (is_operational identity.operational_state)) [
        | inr down ↦ simp down (inl (refl, inl (locked _ refl)))
        | inl operates ↦ elim (Bool-cases (can_authenticate identity)) [
          | inl able ↦
              simp (operates, able)
                (validation-Started identity s (validate w.answer) alive loads able)
          | inr unable ↦ simp (operates, unable) (inr (refl, alive))
        ]
      ]

  startup_for-Started :
      (identity : Option DeviceIdentity) (s : Supervisor) (q : Resolution)
      → s.shutdown_done ≡ false
      → load s.durable.stored ≡ some identity
      → Started (startup_for w identity s q)
  startup_for-Started identity s key_file_error alive loads = inr (refl, alive)
  startup_for-Started identity s decode_error alive loads = inr (refl, alive)
  startup_for-Started identity s (resolved key source) alive loads =
      after_activation-Started identity s (activate w.activation s.durable) alive
  startup_for-Started none s no_key alive loads = inr (refl, alive)
  startup_for-Started (some identity) s no_key alive loads =
      startup_known-Started identity s alive loads

  startup_loaded-Started :
      (s : Supervisor) (loaded : Option (Option DeviceIdentity))
      → s.shutdown_done ≡ false
      → load s.durable.stored ≡ loaded
      → Started (startup_loaded w s loaded)
  startup_loaded-Started s none alive loads = inr (refl, alive)
  startup_loaded-Started s (some identity) alive loads =
      startup_for-Started identity s _ alive loads

  or_shutdown-IsWatched : (r : Supervisor × StartupEnd) → Started r → IsWatched (or_shutdown w r)
  or_shutdown-IsWatched (s, end) (inl (good, watched)) = simp good watched
  or_shutdown-IsWatched (s, end) (inr (bad, alive)) =
      simp bad (shutdown-IsWatched w.behaviour w.owns_client s (inl alive))

  start_runtime-IsWatched :
      (durable : ActivationState) → IsWatched (start_runtime w (new_supervisor durable))
  unfolding start_runtime startup
  start_runtime-IsWatched durable =
      or_shutdown-IsWatched _ (startup_loaded-Started _ (load durable.stored) refl refl)

-- What happens after the startup.
pub data Event (F : Type 0) : Type 0 where
  monitoring : Behaviour → List (Attempt F) → Event F
  shutting_down : Behaviour → Bool → Event F

unfoldable pub run_events : {F : Type 0} → Supervisor → List (Event F) → Supervisor
run_events s [] = s
run_events s (monitoring b attempts ∷ events) = run_events (monitor_step b attempts s) events
run_events s (shutting_down b owns ∷ events) = run_events (shutdown b owns s) events

run_events-IsWatched :
    {F : Type 0} (s : Supervisor) (events : List (Event F))
    → IsWatched s
    → IsWatched (run_events s events)
unfolding run_events
run_events-IsWatched s [] h = h
run_events-IsWatched s (monitoring b attempts ∷ events) h =
    run_events-IsWatched (monitor_step b attempts s) events (monitor_step-IsWatched b attempts s h)
run_events-IsWatched s (shutting_down b owns ∷ events) h =
    run_events-IsWatched (shutdown b owns s) events (shutdown-IsWatched b owns s (inr h))

-- From the startup on, whatever is stored, whatever the Backend answers to the activation, to the
-- validation and to the monitor, and whatever fails: there is no coordinator, or it is locked, or the
-- monitor watches and the stored identity is operational with a secret.
pub run_events-start_runtime-IsWatched :
    {F : Type 0} (w : Surroundings F) (durable : ActivationState) (events : List (Event F))
    → IsWatched (run_events (start_runtime w (new_supervisor durable)) events)
run_events-start_runtime-IsWatched w durable events =
    run_events-IsWatched _ events (start_runtime-IsWatched w durable)
