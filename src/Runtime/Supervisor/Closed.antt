-- ===== src/Runtime/Supervisor/Closed.antt =====
-- What the monitor and the shutdown leave.
use edge_weapon_detection_pl.Base.{
  Bool, true, false, Option, none, some, List, [], ◌∷◌, ◌≡◌, refl, sym, ◌∙◌, arith, inl, inr, ◌⊎◌,
  Bool-cases, subst,
}
use edge_weapon_detection_pl.Identity.{reactivation_required, DeviceIdentity}
use edge_weapon_detection_pl.Identity.Repository.{
  Stored, IdentityError, load, mark_reactivation_required,
}
use edge_weapon_detection_pl.Credentials.Client.{
  CredentialValidationResult, valid, confirmed_rejected, indeterminate, validate,
}
use edge_weapon_detection_pl.Credentials.Monitor.{
  Attempt, AttemptEnd, keep_polling, reactivation_result, identity_unavailable, lock_not_persisted,
  invalid_identity, run_monitor, attempt_once, attempt_loaded, handle_result,
  after_lock as after_monitor_lock, poll_on,
}
use edge_weapon_detection_pl.Runtime.Coordinator.{
  OperationalStateCoordinator, Ending, Behaviour, enter_reactivation_required,
  handle_validation_loop_result, proves_reactivation,
}
use edge_weapon_detection_pl.Runtime.Supervisor.{
  MonitorTask, absent, watching, done, Supervisor, moved, lock_coordinator, on_monitor_fatal,
  after_handling, coordinator_handle, after_attempts, while_watching, monitor_step, shutdown,
}

-- There is no coordinator yet, or it is locked.
pub data Closed : Option OperationalStateCoordinator → Type 0 where
  no_coordinator : Closed none
  locked : (c : OperationalStateCoordinator) → c.state ≡ reactivation_required → Closed (some c)

-- The coordinator lets no component start, or the monitor watches, and what is stored is an
-- operational identity with its secret.
abbrev pub IsWatched : Supervisor → Type 0
IsWatched s =
    Closed s.coordinator
    ⊎ ((s.monitor_task ≡ watching) × (proves_reactivation (load s.durable.stored) ≡ true))

lock_coordinator-Closed :
    (b : Behaviour) (o : Option OperationalStateCoordinator) (s : Supervisor)
    → s.coordinator ≡ o
    → Closed (lock_coordinator b o s).coordinator
unfolding enter_reactivation_required
lock_coordinator-Closed b none s e = subst (λ o. Closed o) (sym e) no_coordinator
lock_coordinator-Closed b (some c) s e = locked _ refl

on_monitor_fatal-Closed :
    (b : Behaviour) (s : Supervisor) → Closed (on_monitor_fatal b s).coordinator
unfolding on_monitor_fatal
on_monitor_fatal-Closed b s =
    lock_coordinator-Closed b s.coordinator (record s { fatal_error = true }) refl

after_handling-Closed :
    (b : Behaviour) (s : Supervisor) (ending : Ending)
    → Closed s.coordinator
    → Closed (after_handling b s ending).coordinator
after_handling-Closed b s Ending.returns h = h
after_handling-Closed b s Ending.components_locked h = on_monitor_fatal-Closed b s
after_handling-Closed b s Ending.unknown_result h = on_monitor_fatal-Closed b s
after_handling-Closed b s Ending.not_persisted h = on_monitor_fatal-Closed b s
after_handling-Closed b s (Ending.start_failed c) h = on_monitor_fatal-Closed b s
after_handling-Closed b s (Ending.shutdown_failed cs) h = on_monitor_fatal-Closed b s

coordinator_handle-Closed :
    (b : Behaviour) (o : Option OperationalStateCoordinator) (s : Supervisor)
    → s.coordinator ≡ o
    → Closed (coordinator_handle b o s).coordinator
unfolding handle_validation_loop_result enter_reactivation_required
coordinator_handle-Closed b none s e = subst (λ o. Closed o) (sym e) no_coordinator
coordinator_handle-Closed b (some c) s e =
    after_handling-Closed b (moved s (enter_reactivation_required b c))
      (enter_reactivation_required b c).ending (locked _ refl)

-- An attempt after which the loop goes on has written nothing.
handle_result-keeps :
    (fails : Bool) (stored : Stored) (v : CredentialValidationResult)
    → (handle_result fails stored v).1 ≡ keep_polling
    → (handle_result fails stored v).0 ≡ stored
handle_result-keeps fails stored (valid status) h = refl
handle_result-keeps fails stored (indeterminate reason status) h = refl
handle_result-keeps fails stored (confirmed_rejected status) h =
    absurd (never (mark_reactivation_required stored fails) h)
  where
    never : (r : Stored × Option IdentityError) → (after_monitor_lock r).1 ≡ keep_polling → ⊥
    never (stored', none) e = ground arith
    never (stored', some err) e = ground arith

poll_on-keeps :
    (rest : Stored → Stored × AttemptEnd) (r : Stored × AttemptEnd) (stored : Stored)
    → (r.1 ≡ keep_polling → r.0 ≡ stored)
    → ((s : Stored) → (rest s).1 ≡ keep_polling → (rest s).0 ≡ s)
    → (poll_on rest r).1 ≡ keep_polling
    → (poll_on rest r).0 ≡ stored
poll_on-keeps rest (s, keep_polling) stored here later h = later s h ∙ here refl
poll_on-keeps rest (s, reactivation_result) stored here later h = absurd (ground arith)
poll_on-keeps rest (s, identity_unavailable) stored here later h = absurd (ground arith)
poll_on-keeps rest (s, lock_not_persisted) stored here later h = absurd (ground arith)
poll_on-keeps rest (s, invalid_identity) stored here later h = absurd (ground arith)

module _ {F : Type 0} where
  attempt_loaded-keeps :
      (a : Attempt F) (stored : Stored) (loaded : Option (Option DeviceIdentity))
      → (attempt_loaded a stored loaded).1 ≡ keep_polling
      → (attempt_loaded a stored loaded).0 ≡ stored
  attempt_loaded-keeps a stored none h = refl
  attempt_loaded-keeps a stored (some none) h = refl
  attempt_loaded-keeps a stored (some (some identity)) h =
      ground (arith, handle_result-keeps a.lock_fails stored (validate a.answer))

  run_monitor-keeps :
      (attempts : List (Attempt F)) (stored : Stored)
      → (run_monitor attempts stored).1 ≡ keep_polling
      → (run_monitor attempts stored).0 ≡ stored
  unfolding run_monitor attempt_once
  run_monitor-keeps [] stored h = refl
  run_monitor-keeps (a ∷ attempts) stored h =
      poll_on-keeps (λ s. run_monitor attempts s) (attempt_once a stored) stored
        (λ e. attempt_loaded-keeps a stored (load stored) e) (λ s e. run_monitor-keeps attempts s e)
        h

after_attempts-IsWatched :
    (b : Behaviour) (s : Supervisor) (r : Stored × AttemptEnd)
    → (r.1 ≡ keep_polling → r.0 ≡ s.durable.stored)
    → IsWatched s
    → IsWatched (after_attempts b s r)
after_attempts-IsWatched b s (stored, keep_polling) keeps (inl closed) = inl closed
after_attempts-IsWatched b s (stored, keep_polling) keeps (inr (task, proved)) =
    inr (task, subst (λ t. proves_reactivation (load t) ≡ true) (sym (keeps refl)) proved)
after_attempts-IsWatched b s (stored, reactivation_result) keeps h =
    inl (coordinator_handle-Closed b s.coordinator _ refl)
after_attempts-IsWatched b s (stored, identity_unavailable) keeps h =
    inl (on_monitor_fatal-Closed b _)
after_attempts-IsWatched b s (stored, lock_not_persisted) keeps h =
    inl (on_monitor_fatal-Closed b _)
after_attempts-IsWatched b s (stored, invalid_identity) keeps h = inl (on_monitor_fatal-Closed b _)

while_watching-IsWatched :
    (task : MonitorTask) (s s' : Supervisor)
    → IsWatched s
    → IsWatched s'
    → IsWatched (while_watching task s s')
while_watching-IsWatched absent s s' h k = h
while_watching-IsWatched done s s' h k = h
while_watching-IsWatched watching s s' h k = k

pub monitor_step-IsWatched :
    {F : Type 0} (b : Behaviour) (attempts : List (Attempt F)) (s : Supervisor)
    → IsWatched s
    → IsWatched (monitor_step b attempts s)
unfolding monitor_step
monitor_step-IsWatched b attempts s h =
    while_watching-IsWatched s.monitor_task s
      (after_attempts b s (run_monitor attempts s.durable.stored)) h
      (after_attempts-IsWatched b s (run_monitor attempts s.durable.stored)
        (λ e. run_monitor-keeps attempts s.durable.stored e) h)

pub shutdown-IsWatched :
    (b : Behaviour) (owns : Bool) (s : Supervisor)
    → (s.shutdown_done ≡ false) ⊎ IsWatched s
    → IsWatched (shutdown b owns s)
unfolding shutdown
shutdown-IsWatched b owns s h = elim (Bool-cases s.shutdown_done) [
  | inr first ↦ simp first (inl (lock_coordinator-Closed b s.coordinator _ refl))
  | inl again ↦ elim h [ inl first ↦ absurd (ground arith) | inr watched ↦ simp again watched ]
]
