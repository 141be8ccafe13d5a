-- ===== src/Credentials/Service.antt =====
-- The activation of the device: agent/src/weapon_detection_agent/activation/service.py.
pub mod Activated
use edge_weapon_detection_pl.Base.{
  ℕ, String, Bool, true, false, not, Option, none, some, if◌then◌else◌,
}
use edge_weapon_detection_pl.Base.Eq.{◌==◌, string_eq}
use edge_weapon_detection_pl.Time.{DateTime}
use edge_weapon_detection_pl.Identity.{DeviceIdentity, operational}
use edge_weapon_detection_pl.Identity.Repository.{
  Stored, IdentityError, load, store, replace_shared_secret,
}
use edge_weapon_detection_pl.Credentials.Activation.{
  KeySource, environment, file, KeyFile, missing, Resolution, no_key, key_file_error, decode_error,
  resolved, resolve, ActivationResult, ActivationResponse, Activating, activated,
  activation_timeout, transport_failed, invalid_response, uncaught, rejected, server_error,
  backend_activate,
}

-- How `activate` ends: an outcome, or what it raises.
pub data ActivationEnd : Type 0 where
  first_activation reactivation already_activated : ActivationEnd
  key_missing key_unreadable key_undecodable identity_unreadable outcome_ambiguous backend_failed :
      ActivationEnd
  identity_mismatch not_persisted cleanup_failed naive_clock : ActivationEnd

pub record ActivationState : Type 0 where
  pub stored : Stored
  pub key_file : KeyFile

-- The environment's key, the Backend's answer to each key, the clock, and what fails.
pub record ActivationWorld (F : Type 0) : Type 0 where
  pub environment_key : Option String
  pub answer : String → ActivationResponse F
  pub now : DateTime
  pub store_fails : Bool
  pub unlink_fails : Bool

-- `_delete_file_key_if_needed`, and the end that follows it
abbrev pub delete_key :
    Bool → KeySource → ActivationEnd → ActivationState → ActivationState × ActivationEnd
delete_key unlink_fails environment end s = (s, end)
delete_key true file end s = (s, cleanup_failed)
delete_key false file end s = (record s { key_file = missing }, end)

abbrev pub persisted :
    Bool
    → KeySource
    → ActivationEnd
    → ActivationState
    → Stored × Option IdentityError
    → ActivationState × ActivationEnd
persisted unlink_fails source end s (stored, none) =
    delete_key unlink_fails source end (record s { stored = stored })
persisted unlink_fails source end s (stored, some e) = (record s { stored = stored }, not_persisted)

abbrev pub new_identity : ActivationResult → DateTime → DeviceIdentity
new_identity result now = record {
  device_id = result.device_id;
  shared_secret = some result.shared_secret;
  activated_at = now;
  last_activated_at = now;
  operational_state = operational;
}

module _ {F : Type 0} (w : ActivationWorld F) where
  abbrev pub store_first :
      KeySource → ActivationResult → ActivationState → ActivationState × ActivationEnd
  store_first source result s =
      if w.now.is_aware
      then persisted w.unlink_fails source first_activation s
          (store s.stored (new_identity result w.now) w.store_fails)
      else (s, naive_clock)

  abbrev pub store_again :
      DeviceIdentity
      → KeySource
      → ActivationResult
      → ActivationState
      → ActivationState × ActivationEnd
  store_again existing source result s =
      if not (result.device_id == existing.device_id)
      then (s, identity_mismatch)
      else if w.now.is_aware
      then persisted w.unlink_fails source reactivation s
          (replace_shared_secret s.stored result.shared_secret w.now w.store_fails)
      else (s, naive_clock)

  -- `_call_backend`, and what follows where it returns
  abbrev pub after_backend :
      (ActivationResult → ActivationState → ActivationState × ActivationEnd)
      → Activating
      → ActivationState
      → ActivationState × ActivationEnd
  after_backend next (activated result) s = next result s
  after_backend next activation_timeout s = (s, outcome_ambiguous)
  after_backend next transport_failed s = (s, backend_failed)
  after_backend next invalid_response s = (s, backend_failed)
  after_backend next uncaught s = (s, backend_failed)
  after_backend next (rejected code) s = (s, backend_failed)
  after_backend next (server_error status) s = (s, backend_failed)

  abbrev pub activate_for :
      Option DeviceIdentity → Resolution → ActivationState → ActivationState × ActivationEnd
  activate_for existing key_file_error s = (s, key_unreadable)
  activate_for existing decode_error s = (s, key_undecodable)
  activate_for none no_key s = (s, key_missing)
  activate_for (some existing) no_key s = (s, already_activated)
  activate_for none (resolved key source) s =
      after_backend (store_first source) (backend_activate (w.answer key)) s
  activate_for (some existing) (resolved key source) s =
      after_backend (store_again existing source) (backend_activate (w.answer key)) s

  abbrev pub activate_loaded :
      Option (Option DeviceIdentity) → ActivationState → ActivationState × ActivationEnd
  activate_loaded none s = (s, identity_unreadable)
  activate_loaded (some existing) s = activate_for existing (resolve w.environment_key s.key_file) s

  unfoldable pub activate : ActivationState → ActivationState × ActivationEnd
  activate s = activate_loaded (load s.stored) s
