-- ===== src/Credentials/Service/Activated.antt =====
-- What an activation leaves in the database and of the key file.
use edge_weapon_detection_pl.Credentials.Activation.Secret.{backend_activate-secret}
use edge_weapon_detection_pl.Base.{
  String, Bool, true, false, Option, none, some, ◌≡◌, refl, sym, arith, ◌⊎◌, inl, inr, Bool-cases,
  subst,
}
use edge_weapon_detection_pl.Base.Eq.{◌==◌, string_eq, eq_of_beq}
use edge_weapon_detection_pl.Base.Text.{is_blank}
use edge_weapon_detection_pl.Identity.{
  DeviceIdentity, operational, is_well_formed, can_authenticate,
}
use edge_weapon_detection_pl.Identity.Repository.{
  Stored, IdentityError, load, store, replace_shared_secret, secret_or_null, storage_failed,
}
use edge_weapon_detection_pl.Runtime.Coordinator.{proves_reactivation}
use edge_weapon_detection_pl.Credentials.Activation.{
  KeySource, environment, file, KeyFile, missing, Resolution, no_key, key_file_error, decode_error,
  resolved, resolve, ActivationResult, Activating, activated, activation_timeout, transport_failed,
  invalid_response, uncaught, rejected, server_error, backend_activate,
}
use edge_weapon_detection_pl.Credentials.Service.{
  ActivationEnd, ActivationState, ActivationWorld, delete_key, persisted, new_identity, store_first,
  store_again, after_backend, activate_for, activate,
}

-- What was stored before is the identity of the same device, activated at the same time.
pub data Continues (row : DeviceIdentity) : Stored → Type 0 where
  from_none : Continues row none
  from_old :
      (old : DeviceIdentity)
      → row.device_id ≡ old.device_id
      → row.activated_at ≡ old.activated_at
      → Continues row (some old)

module _ {F : Type 0} (w : ActivationWorld F) where
  -- The Backend has answered with a result; its identity and its secret are stored, and prove an
  -- activation to the coordinator. Only the key file that gave the key is removed.
  pub record IsActivated (s s' : ActivationState) : Type 0 where
    pub key : String
    pub source : KeySource
    pub used : resolve w.environment_key s.key_file ≡ resolved key source
    pub result : ActivationResult
    pub answered : backend_activate (w.answer key) ≡ activated result
    pub row : DeviceIdentity
    pub is_stored : s'.stored ≡ some row
    pub same_device : row.device_id ≡ result.device_id
    pub secret : row.shared_secret ≡ some result.shared_secret
    pub continues : Continues row s.stored
    pub proved : proves_reactivation (load s'.stored) ≡ true
    pub key_kept : (s'.key_file ≡ s.key_file) ⊎ ((s'.key_file ≡ missing) × (source ≡ file))

  abbrev pub Outcome : ActivationState → ActivationState → Type 0
  Outcome s s' = (s' ≡ s) ⊎ IsActivated s s'

  delete_key-cases :
      (unlink_fails : Bool) (source : KeySource) (end : ActivationEnd) (s : ActivationState)
      → ((delete_key unlink_fails source end s).0.stored ≡ s.stored)
        × (((delete_key unlink_fails source end s).0.key_file ≡ s.key_file)
            ⊎ (((delete_key unlink_fails source end s).0.key_file ≡ missing) × (source ≡ file)))
  delete_key-cases unlink_fails environment end s = (refl, inl refl)
  delete_key-cases true file end s = (refl, inl refl)
  delete_key-cases false file end s = (refl, inr (refl, refl))

  -- A write that succeeded, or failed and left the table as it was.
  persisted-Outcome :
      (source : KeySource) (end : ActivationEnd) (s : ActivationState) (key : String)
      (result : ActivationResult) (row : DeviceIdentity) (written : Stored × Option IdentityError)
      → resolve w.environment_key s.key_file ≡ resolved key source
      → backend_activate (w.answer key) ≡ activated result
      → row.device_id ≡ result.device_id
      → row.shared_secret ≡ some result.shared_secret
      → Continues row s.stored
      → proves_reactivation (load (some row)) ≡ true
      → (written ≡ (some row, none)) ⊎ ((e : IdentityError) × (written ≡ (s.stored, some e)))
      → Outcome s (persisted w.unlink_fails source end s written).0
  persisted-Outcome source end s key result row written used answered device secret continues proved
        (inl e) =
      let (same, key_file) =
        delete_key-cases w.unlink_fails source end (record s { stored = some row }) in
      subst (λ r. Outcome s (persisted w.unlink_fails source end s r).0) (sym e)
        (inr (record {
          key = key;
          source = source;
          used = used;
          result = result;
          answered = answered;
          row = row;
          is_stored = same;
          same_device = device;
          secret = secret;
          continues = continues;
          proved = subst (λ t. proves_reactivation (load t) ≡ true) (sym same) proved;
          key_kept = key_file;
        }))
  persisted-Outcome source end s key result row written used answered device secret continues proved
        (inr (err, e)) =
      subst (λ r. Outcome s (persisted w.unlink_fails source end s r).0) (sym e) (inl refl)

  kept_secret :
      (secret : String) → is_blank secret ≡ false → secret_or_null (some secret) ≡ some secret
  unfolding is_blank
  kept_secret secret filled = elim (Bool-cases (secret == "")) [
    | inl empty ↦
        let same = eq_of_beq secret "" empty in
        let never = subst (λ s. is_blank s ≡ false) same filled in absurd (ground arith)
    | inr other ↦ simp other refl
  ]

  store-cases :
      (result : ActivationResult)
      → w.now.is_aware ≡ true
      → is_blank result.shared_secret ≡ false
      → (store none (new_identity result w.now) w.store_fails
          ≡ (some (new_identity result w.now), none))
        ⊎ ((e : IdentityError) × (store none (new_identity result w.now) w.store_fails
              ≡ (none, some e)))
  unfolding store is_well_formed
  store-cases result aware filled =
      let kept = kept_secret result.shared_secret filled in
      elim (Bool-cases w.store_fails) [
        | inl fails ↦ inr (storage_failed, simp (aware, fails) refl)
        | inr works ↦ inl (simp (aware, works, kept) refl)
      ]

  abbrev renewed : DeviceIdentity → String → DeviceIdentity
  renewed old secret = record old {
    shared_secret = some secret;
    last_activated_at = w.now;
    operational_state = operational;
  }

  replace-cases :
      (old : DeviceIdentity) (secret : String)
      → w.now.is_aware ≡ true
      → (replace_shared_secret (some old) secret w.now w.store_fails
          ≡ (some (renewed old secret), none))
        ⊎ ((e : IdentityError) × (replace_shared_secret (some old) secret w.now w.store_fails
              ≡ (some old, some e)))
  unfolding replace_shared_secret
  replace-cases old secret aware = elim (Bool-cases w.store_fails) [
    | inl fails ↦ inr (storage_failed, simp (aware, fails) refl)
    | inr works ↦ inl (simp (aware, works) refl)
  ]

  proves_renewed :
      (old : DeviceIdentity) (secret : String)
      → proves_reactivation (load (some (renewed old secret))) ≡ true
  unfolding load is_well_formed can_authenticate
  proves_renewed old secret = refl

  store_first-Outcome :
      (source : KeySource) (key_file : KeyFile) (key : String) (v : Activating)
      → resolve w.environment_key key_file ≡ resolved key source
      → backend_activate (w.answer key) ≡ v
      → Outcome
          (record { stored = none; key_file = key_file })
          (after_backend w
            (store_first w source)
            v
            (record { stored = none; key_file = key_file })).0
  unfolding load is_well_formed can_authenticate
  store_first-Outcome source key_file key activation_timeout used answered = inl refl
  store_first-Outcome source key_file key transport_failed used answered = inl refl
  store_first-Outcome source key_file key invalid_response used answered = inl refl
  store_first-Outcome source key_file key uncaught used answered = inl refl
  store_first-Outcome source key_file key (rejected code) used answered = inl refl
  store_first-Outcome source key_file key (server_error status) used answered = inl refl
  store_first-Outcome source key_file key (activated result) used answered =
      elim (Bool-cases w.now.is_aware) [
        | inl aware ↦ simp aware (
            persisted-Outcome source _ (record { stored = none; key_file = key_file }) key result
              (new_identity result w.now) _ used answered refl refl from_none refl
              (store-cases result aware (backend_activate-secret (w.answer key) result answered)))
        | inr naive ↦ simp naive (inl refl)
      ]

  store_again-Outcome :
      (old : DeviceIdentity) (source : KeySource) (key_file : KeyFile) (key : String)
      (v : Activating)
      → resolve w.environment_key key_file ≡ resolved key source
      → backend_activate (w.answer key) ≡ v
      → Outcome
          (record { stored = some old; key_file = key_file })
          (after_backend w
            (store_again w old source)
            v
            (record { stored = some old; key_file = key_file })).0
  store_again-Outcome old source key_file key activation_timeout used answered = inl refl
  store_again-Outcome old source key_file key transport_failed used answered = inl refl
  store_again-Outcome old source key_file key invalid_response used answered = inl refl
  store_again-Outcome old source key_file key uncaught used answered = inl refl
  store_again-Outcome old source key_file key (rejected code) used answered = inl refl
  store_again-Outcome old source key_file key (server_error status) used answered = inl refl
  store_again-Outcome old source key_file key (activated result) used answered =
      elim (Bool-cases (result.device_id == old.device_id)) [
        | inr other ↦ simp other (inl refl)
        | inl same ↦ elim (Bool-cases w.now.is_aware) [
          | inr naive ↦ simp (same, naive) (inl refl)
          | inl aware ↦
              let device = eq_of_beq result.device_id old.device_id same in
              simp (same, aware)
                (persisted-Outcome source _ (record { stored = some old; key_file = key_file }) key
                  result (renewed old result.shared_secret) _ used answered (sym device) refl
                  (from_old old refl refl) (proves_renewed old result.shared_secret)
                  (replace-cases old result.shared_secret aware))
        ]
      ]

  with_resolution :
      (existing : Option DeviceIdentity) (stored : Stored) (key_file : KeyFile) (q : Resolution)
      → existing ≡ stored
      → resolve w.environment_key key_file ≡ q
      → Outcome
          (record { stored = stored; key_file = key_file })
          (activate_for w existing q (record { stored = stored; key_file = key_file })).0
  with_resolution existing stored key_file key_file_error e r = inl refl
  with_resolution existing stored key_file decode_error e r = inl refl
  with_resolution none stored key_file no_key e r = inl refl
  with_resolution (some old) stored key_file no_key e r = inl refl
  with_resolution none stored key_file (resolved key source) e r =
      subst
        (λ t.
          Outcome (record { stored = t; key_file = key_file })
            (activate_for w none (resolved key source)
              (record { stored = t; key_file = key_file })).0)
        e (store_first-Outcome source key_file key (backend_activate (w.answer key)) r refl)
  with_resolution (some old) stored key_file (resolved key source) e r =
      subst
        (λ t.
          Outcome (record { stored = t; key_file = key_file })
            (activate_for w (some old) (resolved key source)
              (record { stored = t; key_file = key_file })).0)
        e (store_again-Outcome old source key_file key (backend_activate (w.answer key)) r refl)

  by_stored :
      (stored : Stored) (key_file : KeyFile)
      → Outcome
          (record { stored = stored; key_file = key_file })
          (activate w (record { stored = stored; key_file = key_file })).0
  unfolding activate load
  by_stored none key_file = with_resolution none none key_file _ refl refl
  by_stored (some row) key_file = elim (Bool-cases (is_well_formed row)) [
    | inl formed ↦ simp formed (with_resolution (some row) (some row) key_file _ refl refl)
    | inr bad ↦ simp bad (inl refl)
  ]

  -- Whatever the Backend answers and whatever fails, an activation leaves the stored identity and the key
  -- file as they were, or the Backend has answered with a result for the key, whose device and secret
  -- are stored and let the coordinator unlock, for the same device as before; and then only a key file
  -- that gave the key may be removed.
  pub activate-Outcome : (s : ActivationState) → Outcome s (activate w s).0
  unfolding activate load
  activate-Outcome s = by_stored s.stored s.key_file
