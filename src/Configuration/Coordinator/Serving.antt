-- ===== src/Configuration/Coordinator/Serving.antt =====
-- What the process runs with, through the application of a configuration and the polls.
use edge_weapon_detection_pl.Base.{
  ℕ, Bool, true, false, Option, none, some, List, ◌≡◌, refl, ◌∙◌, arith, inl, inr, ◌⊎◌, Bool-cases,
}
use edge_weapon_detection_pl.Identity.{DeviceIdentity, is_operational}
use edge_weapon_detection_pl.Deepstream.{ProcessManager, start, stop, stop_process, start_process}
use edge_weapon_detection_pl.Configuration.{
  DeviceCameraConfig, DeviceConfiguration, SourceGenerationTracker, install,
}
use edge_weapon_detection_pl.Configuration.Validation.{Rejection, validate_configuration}
use edge_weapon_detection_pl.Configuration.Client.{Fetched, fetched, failure, uncaught}
use edge_weapon_detection_pl.Configuration.Coordinator.{
  Setting, CoordinatorState, Surroundings, CallEnd, finished, generates, is_empty, started,
  install_configuration, apply_configuration, stop_bridge, has_version, save_and_apply,
  after_validation, validate_fetched, after_fetch, poll_loaded,
}

stop-process :
    (m : ProcessManager (List DeviceCameraConfig)) (p : Option (List DeviceCameraConfig))
    → m.process ≡ p
    → (stop_process m p).process ≡ none
stop-process m none e = e
stop-process m (some running) e = refl

module _ (setting : Setting) where
  -- The process runs a configuration that has passed the rules and whose mapping is installed.
  pub record Serves (process : Option (List DeviceCameraConfig)) (tracker : SourceGenerationTracker)
      (bridge_running : Bool) : Type 0 where
    pub device : ℕ
    pub configuration : DeviceConfiguration
    pub valid :
        validate_configuration setting.urlparse configuration device setting.max_cameras ≡ none
    pub runs : process ≡ some configuration.cameras
    pub before : SourceGenerationTracker
    pub tracked : tracker ≡ install before configuration
    pub flagged : bridge_running ≡ true

  abbrev pub IsServing : CoordinatorState → Type 0
  IsServing s = (s.manager.process ≡ none) ⊎ Serves s.manager.process s.tracker s.bridge_running

  -- A process runs only while the loop has its task.
  abbrev pub IsOwned : CoordinatorState → Type 0
  IsOwned s = IsServing s × ((s.manager.process ≡ none) ⊎ (s.has_task ≡ true))

  pub stop_bridge-idle :
      (s : CoordinatorState) → IsServing s → (stop_bridge s).manager.process ≡ none
  unfolding stop_bridge stop
  stop_bridge-idle s h = elim (Bool-cases s.bridge_running) [
    | inl up ↦ simp up (stop-process s.manager s.manager.process refl)
    | inr down ↦ elim h [
      | inl idle ↦ simp down idle
      | inr serves ↦ absurd (let up = serves.flagged in ground arith)
    ]
  ]

  stop_bridge-task : (s : CoordinatorState) → (stop_bridge s).has_task ≡ s.has_task
  unfolding stop_bridge
  stop_bridge-task s = elim (Bool-cases s.bridge_running) [
    | inl up ↦ simp up refl
    | inr down ↦ simp down refl
  ]

  -- A call on a state with this task: it leaves no process where it raises.
  abbrev pub Applied : Bool → CoordinatorState × CallEnd → Type 0
  Applied task r =
      ((r.0.manager.process ≡ none)
        ⊎ (Serves r.0.manager.process r.0.tracker r.0.bridge_running × (r.1 ≡ finished)))
      × (r.0.has_task ≡ task)

  started-Applied :
      (c : DeviceConfiguration) (device : ℕ) (spawn_fails : Bool) (s : CoordinatorState)
      (before : SourceGenerationTracker) (p : Option (List DeviceCameraConfig))
      → validate_configuration setting.urlparse c device setting.max_cameras ≡ none
      → s.manager.process ≡ none
      → p ≡ none
      → s.tracker ≡ install before c
      → Applied s.has_task (started s (start_process c.cameras spawn_fails s.manager p))
  started-Applied c device spawn_fails s before (some p) valid idle e tracked = cc
  started-Applied c device true s before none valid idle e tracked = (inl idle, refl)
  started-Applied c device false s before none valid idle e tracked = (
    inr (
      record {
        device = device;
        configuration = c;
        valid = valid;
        runs = refl;
        before = before;
        tracked = tracked;
        flagged = refl;
      },
      refl,
    ),
    refl,
  )

  pub apply-Applied :
      (w : Surroundings) (c : DeviceConfiguration) (device : ℕ) (s : CoordinatorState)
      → validate_configuration setting.urlparse c device setting.max_cameras ≡ none
      → s.manager.process ≡ none
      → Applied s.has_task (apply_configuration w c s)
  unfolding apply_configuration start
  apply-Applied w c device s valid idle = elim (Bool-cases (generates w c.cameras)) [
    | inr fails ↦ simp fails (inl idle, refl)
    | inl written ↦ elim (Bool-cases (is_empty c.cameras)) [
      | inl empty ↦ simp (written, empty) (inl idle, refl)
      | inr filled ↦
          simp (written, filled)
            (started-Applied c device w.spawn_fails (install_configuration c s) s.tracker
              s.manager.process valid idle idle refl)
    ]
  ]

  abbrev pub Polled : CoordinatorState → Type 0
  Polled s = IsServing s × (s.has_task ≡ true)

  polled :
      (task : Bool) (r : CoordinatorState × CallEnd) → task ≡ true → Applied task r → Polled r.0
  polled task r on (inl idle, same) = (inl idle, same ∙ on)
  polled task r on (inr serves, same) = (inr serves.0, same ∙ on)

  save_and_apply-Polled :
      (w : Surroundings) (c : DeviceConfiguration) (device : ℕ) (s : CoordinatorState)
      → validate_configuration setting.urlparse c device setting.max_cameras ≡ none
      → Polled s
      → Polled (save_and_apply setting w c s).0
  save_and_apply-Polled w c device s valid h = elim (Bool-cases w.cache_fails) [
    | inl fails ↦ simp fails h
    | inr works ↦
        let saved = record s { cached = some (setting.serialize c, c.generated_at_utc) } in
        simp works (
          polled (stop_bridge saved).has_task (apply_configuration w c (stop_bridge saved))
            (stop_bridge-task saved ∙ h.1)
            (apply-Applied w c device (stop_bridge saved) valid (stop_bridge-idle saved h.0)))
  ]

  after_validation-Polled :
      (w : Surroundings) (c : DeviceConfiguration) (device : ℕ) (s : CoordinatorState)
      (v : Option Rejection)
      → validate_configuration setting.urlparse c device setting.max_cameras ≡ v
      → Polled s
      → Polled (after_validation setting w c s v).0
  after_validation-Polled w c device s (some (Rejection.reason text)) e h = h
  after_validation-Polled w c device s (some Rejection.unparsable_url) e h = h
  after_validation-Polled w c device s none e h = elim (Bool-cases (has_version s.applied c)) [
    | inl same ↦ simp same h
    | inr other ↦ simp other (save_and_apply-Polled w c device s e h)
  ]

  after_fetch-Polled :
      (w : Surroundings) (c : DeviceConfiguration) (s : CoordinatorState) (expected : Option ℕ)
      → Polled s
      → Polled (validate_fetched setting w c s expected).0
  after_fetch-Polled w c s none h = h
  after_fetch-Polled w c s (some expected) h = after_validation-Polled w c expected s _ refl h

  answer-Polled :
      (w : Surroundings) (identity : DeviceIdentity) (s : CoordinatorState) (answer : Fetched)
      → Polled s
      → Polled (after_fetch setting w identity s answer).0
  answer-Polled w identity s (fetched c) h =
      after_fetch-Polled w c s (setting.uuid_of identity.device_id) h
  answer-Polled w identity s (failure reason status) h = h
  answer-Polled w identity s uncaught h = h

  pub poll_loaded-Polled :
      (w : Surroundings) (s : CoordinatorState) (loaded : Option (Option DeviceIdentity))
      → Polled s
      → Polled (poll_loaded setting w s loaded).0
  poll_loaded-Polled w s none h = h
  poll_loaded-Polled w s (some none) h = h
  poll_loaded-Polled w s (some (some identity)) h =
      elim (Bool-cases (is_operational identity.operational_state)) [
        | inl up ↦ simp up (answer-Polled w identity s w.answer h)
        | inr down ↦ simp down h
      ]
