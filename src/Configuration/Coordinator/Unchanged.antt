-- ===== src/Configuration/Coordinator/Unchanged.antt =====
-- Polls that bring nothing new.
use edge_weapon_detection_pl.Base.{
  ℕ, true, Option, none, some, List, [], ◌∷◌, map, ◌≡◌, refl, sym, arith, Bool-cases, All, inl, inr,
  subst,
}
use edge_weapon_detection_pl.Base.Eq.{string_eq}
use edge_weapon_detection_pl.Identity.{DeviceIdentity, is_operational}
use edge_weapon_detection_pl.Identity.Repository.{load}
use edge_weapon_detection_pl.Configuration.{DeviceConfiguration}
use edge_weapon_detection_pl.Configuration.Validation.{Rejection}
use edge_weapon_detection_pl.Configuration.Client.{
  Fetched, fetched, failure, uncaught, ConfigurationFailureReason,
}
use edge_weapon_detection_pl.Configuration.Coordinator.{
  Setting, CoordinatorState, Surroundings, has_version, after_validation, validate_fetched,
  after_fetch, poll_loaded, poll_once, polling, after_event, after_events,
}

-- An answer with no configuration, or with the version that is applied already.
pub data BringsNothing (applied : DeviceConfiguration) : Fetched → Type 0 where
  no_answer :
      (reason : ConfigurationFailureReason) (status : Option ℕ)
      → BringsNothing applied (failure reason status)
  no_text : BringsNothing applied uncaught
  same_version :
      (c : DeviceConfiguration)
      → applied.configuration_version ≡ c.configuration_version
      → BringsNothing applied (fetched c)

has_version-same :
    (o : Option DeviceConfiguration) (applied c : DeviceConfiguration)
    → o ≡ some applied
    → applied.configuration_version ≡ c.configuration_version
    → has_version o c ≡ true
has_version-same none applied c e same = cc
has_version-same (some a) applied c e same =
    (string_eq.same_iff a.configuration_version c.configuration_version).1
      (let q : a ≡ applied = ground arith in ground arith)

module _ (setting : Setting) (applied : DeviceConfiguration) where
  after_validation-same :
      (w : Surroundings) (c : DeviceConfiguration) (s : CoordinatorState) (v : Option Rejection)
      → s.applied ≡ some applied
      → applied.configuration_version ≡ c.configuration_version
      → (after_validation setting w c s v).0 ≡ s
  after_validation-same w c s (some (Rejection.reason text)) e same = refl
  after_validation-same w c s (some Rejection.unparsable_url) e same = refl
  after_validation-same w c s none e same =
      let known = has_version-same s.applied applied c e same in simp known refl

  validate_fetched-same :
      (w : Surroundings) (c : DeviceConfiguration) (s : CoordinatorState) (expected : Option ℕ)
      → s.applied ≡ some applied
      → applied.configuration_version ≡ c.configuration_version
      → (validate_fetched setting w c s expected).0 ≡ s
  validate_fetched-same w c s none e same = refl
  validate_fetched-same w c s (some expected) e same = after_validation-same w c s _ e same

  after_fetch-same :
      (w : Surroundings) (identity : DeviceIdentity) (s : CoordinatorState) (answer : Fetched)
      → s.applied ≡ some applied
      → BringsNothing applied answer
      → (after_fetch setting w identity s answer).0 ≡ s
  after_fetch-same w identity s (fetched c) e (same_version c' same) =
      validate_fetched-same w c s _ e same
  after_fetch-same w identity s (failure reason status) e (no_answer r t) = refl
  after_fetch-same w identity s uncaught e no_text = refl

  poll_loaded-same :
      (w : Surroundings) (s : CoordinatorState) (loaded : Option (Option DeviceIdentity))
      → s.applied ≡ some applied
      → BringsNothing applied w.answer
      → (poll_loaded setting w s loaded).0 ≡ s
  poll_loaded-same w s none e h = refl
  poll_loaded-same w s (some none) e h = refl
  poll_loaded-same w s (some (some identity)) e h =
      elim (Bool-cases (is_operational identity.operational_state)) [
        | inl up ↦ simp up (after_fetch-same w identity s w.answer e h)
        | inr down ↦ simp down refl
      ]

  polling-same :
      (w : Surroundings) (s : CoordinatorState)
      → s.applied ≡ some applied
      → BringsNothing applied w.answer
      → after_event setting s (polling w) ≡ s
  unfolding poll_once
  polling-same w s e h = elim (Bool-cases s.has_task) [
    | inl on ↦ simp on (poll_loaded-same w s (load w.stored) e h)
    | inr off ↦ simp off refl
  ]

  -- Once a configuration is applied, polls whose answers have the same version, or no configuration,
  -- change nothing: whether the process runs or not, whatever its launch would do, it is neither stopped
  -- nor started by them.
  pub after_events-same :
      (polls : List Surroundings) (s : CoordinatorState)
      → s.applied ≡ some applied
      → All (λ w. BringsNothing applied w.answer) polls
      → after_events setting s (map (λ w. polling w) polls) ≡ s
  unfolding after_events
  after_events-same [] s e h = refl
  after_events-same (w ∷ polls) s e h =
      subst (λ s'. after_events setting s' (map (λ v. polling v) polls) ≡ s)
        (sym (polling-same w s e h.0)) (after_events-same polls s e h.1)
