-- ===== src/Configuration/Coordinator/Mapped.antt =====
-- What the process runs with, through every call of the coordinator and every exit of the process.
use edge_weapon_detection_pl.Base.{
  ℕ, String, Bool, true, false, Option, none, some, List, [], ◌∷◌, ◌≡◌, refl, sym, arith, inl, inr,
  Bool-cases, if◌then◌else◌, subst,
}
use mathlib.Core.List.{Memᴰ}
use edge_weapon_detection_pl.Time.{DateTime}
use edge_weapon_detection_pl.Identity.{DeviceIdentity, is_operational}
use edge_weapon_detection_pl.Identity.Repository.{load}
use edge_weapon_detection_pl.Deepstream.{watch}
use edge_weapon_detection_pl.Configuration.{
  DeviceCameraConfig, DeviceConfiguration, resolve_camera_id,
}
use edge_weapon_detection_pl.Configuration.Validation.{Rejection, validate_configuration}
use edge_weapon_detection_pl.Configuration.Client.{Read, value, malformed, attribute_error}
use edge_weapon_detection_pl.Configuration.Mapping.{resolve_camera_id-install}
use edge_weapon_detection_pl.Configuration.Coordinator.{
  Setting, CoordinatorState, constructed, Surroundings, CallEnd, finished, refused, raised,
  poll_once, apply_cached, read_cached, load_cached, load_and_apply_cache, cache_for, start_loaded,
  with_task, start_coordinator, stop_coordinator, Event, starting, polling, stopping, exiting,
  after_event, after_events,
}
use edge_weapon_detection_pl.Configuration.Coordinator.Serving.{
  IsServing, IsOwned, Applied, stop_bridge-idle, apply-Applied, poll_loaded-Polled,
}

module _ (setting : Setting) where
  cached-Applied :
      (w : Surroundings) (c : DeviceConfiguration) (expected : ℕ) (s : CoordinatorState)
      (v : Option Rejection)
      → validate_configuration setting.urlparse c expected setting.max_cameras ≡ v
      → s.manager.process ≡ none
      → Applied setting s.has_task (apply_cached setting w c s v)
  cached-Applied w c expected s none e idle = apply-Applied setting w c expected s e idle
  cached-Applied w c expected s (some rejection) e idle = (inl idle, refl)

  read_cached-Applied :
      (w : Surroundings) (expected : ℕ) (s : CoordinatorState) (c : Read DeviceConfiguration)
      → s.manager.process ≡ none
      → Applied setting s.has_task (read_cached setting w expected s c)
  read_cached-Applied w expected s malformed idle = (inl idle, refl)
  read_cached-Applied w expected s attribute_error idle = (inl idle, refl)
  read_cached-Applied w expected s (value c) idle = cached-Applied w c expected s _ refl idle

  load_cached-Applied :
      (w : Surroundings) (expected : ℕ) (s : CoordinatorState) (row : Option (String × DateTime))
      → s.manager.process ≡ none
      → Applied setting s.has_task (load_cached setting w expected s row)
  load_cached-Applied w expected s none idle = (inl idle, refl)
  load_cached-Applied w expected s (some (text, at)) idle =
      read_cached-Applied w expected s (setting.deserialize text) idle

  cache_for-Applied :
      (w : Surroundings) (s : CoordinatorState) (expected : Option ℕ)
      → s.manager.process ≡ none
      → Applied setting s.has_task (cache_for setting w s expected)
  unfolding load_and_apply_cache
  cache_for-Applied w s none idle = (inl idle, refl)
  cache_for-Applied w s (some expected) idle = elim (Bool-cases w.cache_fails) [
    | inl fails ↦ simp fails (inl idle, refl)
    | inr works ↦ simp works (load_cached-Applied w expected s s.cached idle)
  ]

  start_loaded-Applied :
      (w : Surroundings) (s : CoordinatorState) (loaded : Option (Option DeviceIdentity))
      → s.manager.process ≡ none
      → Applied setting s.has_task (start_loaded setting w s loaded)
  start_loaded-Applied w s none idle = (inl idle, refl)
  start_loaded-Applied w s (some none) idle = (inl idle, refl)
  start_loaded-Applied w s (some (some identity)) idle =
      elim (Bool-cases (is_operational identity.operational_state)) [
        | inl up ↦ simp up (cache_for-Applied w s (setting.uuid_of identity.device_id) idle)
        | inr down ↦ simp down (inl idle, refl)
      ]

  with_task-IsOwned :
      (task : Bool) (r : CoordinatorState × CallEnd)
      → Applied setting task r
      → IsOwned setting (with_task setting r).0
  with_task-IsOwned task (s, raised) (inl idle, same) = (inl idle, inl idle)
  with_task-IsOwned task (s, raised) (inr serves, same) = absurd (let e = serves.1 in ground arith)
  with_task-IsOwned task (s, finished) (inl idle, same) = (inl idle, inr refl)
  with_task-IsOwned task (s, finished) (inr serves, same) = (inr serves.0, inr refl)
  with_task-IsOwned task (s, refused) (inl idle, same) = (inl idle, inr refl)
  with_task-IsOwned task (s, refused) (inr serves, same) = absurd (let e = serves.1 in ground arith)

  idle_without_task :
      (s : CoordinatorState) → IsOwned setting s → s.has_task ≡ false → s.manager.process ≡ none
  idle_without_task s (serving, inl idle) off = idle
  idle_without_task s (serving, inr on) off = absurd (ground arith)

  start_coordinator-IsOwned :
      (w : Surroundings) (s : CoordinatorState) (task : Bool)
      → s.has_task ≡ task
      → IsOwned setting s
      → IsOwned setting
          (if task
            then (s, finished)
            else with_task setting (start_loaded setting w s (load w.stored))).0
  start_coordinator-IsOwned w s true e h = h
  start_coordinator-IsOwned w s false e h =
      with_task-IsOwned s.has_task _
        (start_loaded-Applied w s (load w.stored) (idle_without_task s h e))

  poll_once-IsOwned :
      (w : Surroundings) (s : CoordinatorState) (task : Bool)
      → s.has_task ≡ task
      → IsOwned setting s
      → IsOwned setting (if task then (poll_once setting w s).0 else s)
  unfolding poll_once
  poll_once-IsOwned w s true e h =
      let after = poll_loaded-Polled setting w s (load w.stored) (h.0, e) in (after.0, inr after.1)
  poll_once-IsOwned w s false e h = h

  after_event-IsOwned :
      (s : CoordinatorState) (e : Event setting)
      → IsOwned setting s
      → IsOwned setting (after_event setting s e)
  unfolding start_coordinator stop_coordinator watch
  after_event-IsOwned s (starting w) h = start_coordinator-IsOwned w s s.has_task refl h
  after_event-IsOwned s (polling w) h = poll_once-IsOwned w s s.has_task refl h
  after_event-IsOwned s stopping h =
      let idle = stop_bridge-idle setting (record s { has_task = false }) h.0 in
      (inl idle, inl idle)
  after_event-IsOwned s exiting h = elim (Bool-cases s.manager.stopping) [
    | inl on ↦ simp on h
    | inr off ↦ simp off (inl refl, inl refl)
  ]

  after_events-IsOwned :
      (s : CoordinatorState) (events : List (Event setting))
      → IsOwned setting s
      → IsOwned setting (after_events setting s events)
  unfolding after_events
  after_events-IsOwned s [] h = h
  after_events-IsOwned s (e ∷ events) h =
      after_events-IsOwned (after_event setting s e) events (after_event-IsOwned s e h)

  served :
      (s : CoordinatorState) (cameras : List DeviceCameraConfig) (camera : DeviceCameraConfig)
      → IsServing setting s
      → s.manager.process ≡ some cameras
      → Memᴰ camera cameras
      → camera.enabled ≡ true
      → resolve_camera_id s.tracker camera.source_order ≡ some camera.camera_id
  served s cameras camera (inl idle) running there on = absurd (ground arith)
  served s cameras camera (inr v) running there on =
      let r = v.runs in
      let same : cameras ≡ v.configuration.cameras = ground arith in
      subst (λ t. resolve_camera_id t camera.source_order ≡ some camera.camera_id) (sym v.tracked)
        (resolve_camera_id-install setting.urlparse v.before v.configuration v.device
          setting.max_cameras camera v.valid (subst (λ cs. Memᴰ camera cs) same there) on)

  -- After any events of a new coordinator (its start and stop, its polls with whatever answers and
  -- failures, and exits of the process): while a process runs, the source number of each enabled camera
  -- of the configuration that it was started with resolves to this camera.
  pub after_events-resolve_camera_id :
      (events : List (Event setting)) (cameras : List DeviceCameraConfig)
      (camera : DeviceCameraConfig)
      → (after_events setting constructed events).manager.process ≡ some cameras
      → Memᴰ camera cameras
      → camera.enabled ≡ true
      → resolve_camera_id (after_events setting constructed events).tracker camera.source_order
        ≡ some camera.camera_id
  after_events-resolve_camera_id events cameras camera running there on =
      served (after_events setting constructed events) cameras camera
        (after_events-IsOwned constructed events (inl refl, inl refl)).0 running there on
