-- ===== src/Credentials/Monitor.antt =====
-- The validation of the stored credentials in a loop: agent/src/weapon_detection_agent/validation/
-- monitor.py with the endings of loop.py. The wait between two attempts is left out.
use edge_weapon_detection_pl.Base.{
  ℕ, Bool, true, false, Option, none, some, List, [], ◌∷◌, ◌≡◌, refl, ◌∙◌, arith, ◌⊎◌, ◌≢◌, inl,
  inr, Bool-cases, if◌then◌else◌,
}
use mathlib.Core.List.{Memᴰ}
use edge_weapon_detection_pl.Identity.{
  DeviceIdentity, is_operational, is_well_formed, can_authenticate,
}
use edge_weapon_detection_pl.Identity.Repository.{
  Stored, IdentityError, load, mark_reactivation_required,
}
use edge_weapon_detection_pl.Sync.Client.{Response}
use edge_weapon_detection_pl.Runtime.Coordinator.{proves_reactivation}
use edge_weapon_detection_pl.Credentials.Client.{
  CredentialValidationResult, valid, confirmed_rejected, indeterminate, validate,
}

-- What the Backend answers to an attempt, and whether the database fails in it.
pub record Attempt (F : Type 0) : Type 0 where
  pub answer : Response F
  pub lock_fails : Bool

-- How an attempt ends: with another one, with the terminal result, or with an exception.
pub data AttemptEnd : Type 0 where
  keep_polling reactivation_result : AttemptEnd
  identity_unavailable lock_not_persisted invalid_identity : AttemptEnd

abbrev pub after_lock : Stored × Option IdentityError → Stored × AttemptEnd
after_lock (stored, none) = (stored, reactivation_result)
after_lock (stored, some e) = (stored, lock_not_persisted)

abbrev pub handle_result : Bool → Stored → CredentialValidationResult → Stored × AttemptEnd
handle_result lock_fails stored (confirmed_rejected status) =
    after_lock (mark_reactivation_required stored lock_fails)
handle_result lock_fails stored (valid status) = (stored, keep_polling)
handle_result lock_fails stored (indeterminate reason status) = (stored, keep_polling)

abbrev pub poll_on : (Stored → Stored × AttemptEnd) → Stored × AttemptEnd → Stored × AttemptEnd
poll_on rest (stored, keep_polling) = rest stored
poll_on rest (stored, reactivation_result) = (stored, reactivation_result)
poll_on rest (stored, identity_unavailable) = (stored, identity_unavailable)
poll_on rest (stored, lock_not_persisted) = (stored, lock_not_persisted)
poll_on rest (stored, invalid_identity) = (stored, invalid_identity)

module _ {F : Type 0} where
  abbrev pub validate_identity : Attempt F → Stored → DeviceIdentity → Stored × AttemptEnd
  validate_identity a stored identity =
      if is_operational identity.operational_state
      then (if can_authenticate identity
          then handle_result a.lock_fails stored (validate a.answer)
          else (stored, identity_unavailable))
      else (stored, reactivation_result)

  abbrev pub attempt_loaded :
      Attempt F → Stored → Option (Option DeviceIdentity) → Stored × AttemptEnd
  attempt_loaded a stored none = (stored, invalid_identity)
  attempt_loaded a stored (some none) = (stored, identity_unavailable)
  attempt_loaded a stored (some (some identity)) = validate_identity a stored identity

  unfoldable pub attempt_once : Attempt F → Stored → Stored × AttemptEnd
  attempt_once a stored = attempt_loaded a stored (load stored)

  -- `run`, for the answers to its attempts.
  unfoldable pub run_monitor : List (Attempt F) → Stored → Stored × AttemptEnd
  run_monitor [] stored = (stored, keep_polling)
  run_monitor (a ∷ attempts) stored =
      poll_on (λ stored'. run_monitor attempts stored') (attempt_once a stored)

  -- The Backend has confirmed in one of the attempts that the credentials are rejected.
  pub record Confirms (a : Attempt F) : Type 0 where
    pub status : ℕ
    pub rejected : validate a.answer ≡ confirmed_rejected status

  -- Only a confirmed rejection has changed the stored identity, and where the result is the lock, what
  -- is stored does not prove a reactivation.
  abbrev pub IsGuarded : Attempt F → Stored → Stored × AttemptEnd → Type 0
  IsGuarded a stored r =
      ((r.0 ≡ stored) ⊎ Confirms a)
      × ((r.1 ≢ reactivation_result) ⊎ (proves_reactivation (load r.0) ≡ false))

  lock-IsGuarded :
      (a : Attempt F) (row : DeviceIdentity) (lock_fails : Bool)
      → Confirms a
      → IsGuarded a (some row) (after_lock (mark_reactivation_required (some row) lock_fails))
  unfolding mark_reactivation_required load is_well_formed
  lock-IsGuarded a row true why = (inr why, inl (λ e. ground arith))
  lock-IsGuarded a row false why = (inr why, inr refl)

  handle_result-IsGuarded :
      (a : Attempt F) (row : DeviceIdentity) (v : CredentialValidationResult)
      → validate a.answer ≡ v
      → IsGuarded a (some row) (handle_result a.lock_fails (some row) v)
  handle_result-IsGuarded a row (valid status) e = (inl refl, inl (λ h. ground arith))
  handle_result-IsGuarded a row (indeterminate reason status) e =
      (inl refl, inl (λ h. ground arith))
  handle_result-IsGuarded a row (confirmed_rejected status) e =
      lock-IsGuarded a row a.lock_fails (record { status = status; rejected = e })

  validate_identity-IsGuarded :
      (a : Attempt F) (row : DeviceIdentity)
      → load (some row) ≡ some (some row)
      → IsGuarded a (some row) (validate_identity a (some row) row)
  validate_identity-IsGuarded a row loads =
      elim (Bool-cases (is_operational row.operational_state)) [
        | inl up ↦ elim (Bool-cases (can_authenticate row)) [
          | inl able ↦ simp (up, able) (handle_result-IsGuarded a row (validate a.answer) refl)
          | inr unable ↦ simp (up, unable) (inl refl, inl (λ h. ground arith))
        ]
        | inr down ↦ simp (down, loads) (inl refl, inr refl)
      ]

  attempt_once-IsGuarded :
      (a : Attempt F) (stored : Stored) → IsGuarded a stored (attempt_once a stored)
  unfolding attempt_once load
  attempt_once-IsGuarded a none = (inl refl, inl (λ h. ground arith))
  attempt_once-IsGuarded a (some row) = elim (Bool-cases (is_well_formed row)) [
    | inl formed ↦
        let loads : load (some row) ≡ some (some row) = simp formed refl in
        simp formed (validate_identity-IsGuarded a row loads)
    | inr bad ↦ simp bad (inl refl, inl (λ h. ground arith))
  ]

  -- The same of a run, for one of its attempts.
  abbrev pub IsGuardedRun : List (Attempt F) → Stored → Stored × AttemptEnd → Type 0
  IsGuardedRun attempts stored r =
      ((r.0 ≡ stored) ⊎ ((a : Attempt F) × Memᴰ a attempts × Confirms a))
      × ((r.1 ≢ reactivation_result) ⊎ (proves_reactivation (load r.0) ≡ false))

  at_first :
      (a : Attempt F) (attempts : List (Attempt F)) (stored : Stored) (r : Stored × AttemptEnd)
      → IsGuarded a stored r
      → IsGuardedRun (a ∷ attempts) stored r
  at_first a attempts stored r (inl same, lock) = (inl same, lock)
  at_first a attempts stored r (inr why, lock) = (inr (a, Memᴰ.head refl, why), lock)

  after_first :
      (a : Attempt F) (attempts : List (Attempt F)) (stored between : Stored)
      (r : Stored × AttemptEnd)
      → (between ≡ stored) ⊎ Confirms a
      → IsGuardedRun attempts between r
      → IsGuardedRun (a ∷ attempts) stored r
  after_first a attempts stored between r (inr why) (changed, lock) =
      (inr (a, Memᴰ.head refl, why), lock)
  after_first a attempts stored between r (inl same) (inl same', lock) = (inl (same' ∙ same), lock)
  after_first a attempts stored between r (inl same) (inr (b, m, why), lock) =
      (inr (b, Memᴰ.tail m, why), lock)

  poll_on-IsGuardedRun :
      (a : Attempt F) (attempts : List (Attempt F)) (stored : Stored)
      (rest : Stored → Stored × AttemptEnd) (r : Stored × AttemptEnd)
      → ((s : Stored) → IsGuardedRun attempts s (rest s))
      → IsGuarded a stored r
      → IsGuardedRun (a ∷ attempts) stored (poll_on rest r)
  poll_on-IsGuardedRun a attempts stored rest (s, keep_polling) later here =
      after_first a attempts stored s (rest s) here.0 (later s)
  poll_on-IsGuardedRun a attempts stored rest (s, reactivation_result) later here =
      at_first a attempts stored _ here
  poll_on-IsGuardedRun a attempts stored rest (s, identity_unavailable) later here =
      at_first a attempts stored _ here
  poll_on-IsGuardedRun a attempts stored rest (s, lock_not_persisted) later here =
      at_first a attempts stored _ here
  poll_on-IsGuardedRun a attempts stored rest (s, invalid_identity) later here =
      at_first a attempts stored _ here

  -- Whatever the Backend answers to the attempts of the monitor: the stored identity stays as it is
  -- unless an answer confirms that the credentials are rejected; and where the monitor ends with the
  -- result that locks the coordinator, what is stored does not let the coordinator unlock.
  pub run_monitor-IsGuardedRun :
      (attempts : List (Attempt F)) (stored : Stored)
      → IsGuardedRun attempts stored (run_monitor attempts stored)
  unfolding run_monitor
  run_monitor-IsGuardedRun [] stored = (inl refl, inl (λ h. ground arith))
  run_monitor-IsGuardedRun (a ∷ attempts) stored =
      poll_on-IsGuardedRun a attempts stored (λ s. run_monitor attempts s) (attempt_once a stored)
        (λ s. run_monitor-IsGuardedRun attempts s) (attempt_once-IsGuarded a stored)
