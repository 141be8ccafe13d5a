-- ===== src/Runtime/Coordinator.antt =====
-- The enforcement of the credential lock: agent/src/weapon_detection_agent/runtime/
-- operational_state_coordinator.py with the component contract of operational_components.py. A lock
-- serialises the transitions, so that each is one step. A component is the number of its object; whether its
-- `start` and `stop` raise is given with each transition, and the calls that are made are recorded.
pub mod Rollback
pub mod Locked
use edge_weapon_detection_pl.Base.{
  ℕ, ◌≡◌, String, Bool, true, false, not, Option, none, some, List, [], ◌∷◌, ◌++◌, keep,
  if◌then◌else◌,
}
use edge_weapon_detection_pl.Base.Eq.{◌==◌, nat_eq}
use edge_weapon_detection_pl.Base.Sets.{contains}
use edge_weapon_detection_pl.Identity.{
  OperationalState, operational, reactivation_required, DeviceIdentity, is_operational,
  can_authenticate,
}

pub record OperationalStateCoordinator : Type 0 where
  pub components : List ℕ
  pub state : OperationalState
  pub running : List ℕ

-- `from_identity`; `none` is the ValueError for a missing identity.
unfoldable pub from_identity : List ℕ → Option DeviceIdentity → Option OperationalStateCoordinator
from_identity components none = none
from_identity components (some identity) =
    some (record { components = components; state = identity.operational_state; running = [] })

-- A call of a component's method.
pub data Called : Type 0 where
  start stop : ℕ → Called

-- How a transition ends: it returns, or raises one of the module's errors.
pub data Ending : Type 0 where
  returns components_locked unknown_result not_persisted : Ending
  start_failed : ℕ → Ending
  shutdown_failed : List ℕ → Ending

pub record Transition : Type 0 where
  pub after : OperationalStateCoordinator
  pub called : List Called
  pub ending : Ending

-- Which components raise.
pub record Behaviour : Type 0 where
  pub start_raises : ℕ → Bool
  pub stop_raises : ℕ → Bool

-- list.remove(c), where it is there
unfoldable pub remove_first : ℕ → List ℕ → List ℕ
remove_first c [] = []
remove_first c (x ∷ xs) = let rest = remove_first c xs in if x == c then xs else x ∷ rest

abbrev pub reversed : List ℕ → List ℕ
reversed [] = []
reversed (x ∷ xs) = reversed xs ++ x ∷ []

-- `_rollback_started`, on the reversed list: every stop is tried, and what it raises is logged.
unfoldable pub rollback : List ℕ → List ℕ → List ℕ
unfolding remove_first
rollback [] running = running
rollback (c ∷ cs) running = rollback cs (remove_first c running)

abbrev pub stops : List ℕ → List Called
stops [] = []
stops (c ∷ cs) = stop c ∷ stops cs

-- The loop over the pending components, with those that it has started.
unfoldable pub start_each :
    Behaviour → OperationalStateCoordinator → List ℕ → List ℕ → List Called → Transition
unfolding rollback
start_each b s [] started called = record { after = s; called = called; ending = returns }
start_each b s (c ∷ pending) started called =
    let rest =
      start_each b (record s { running = s.running ++ c ∷ [] }) pending (started ++ c ∷ [])
        (called ++ start c ∷ []) in
    if b.start_raises c
    then record {
      after = record s { running = rollback (reversed started) s.running };
      called = called ++ start c ∷ stops (reversed started);
      ending = start_failed c;
    }
    else rest

abbrev pub pending_components : OperationalStateCoordinator → List ℕ
pending_components s = keep (λ c. not (contains s.running c)) s.components

unfoldable pub start_operational_components : Behaviour → OperationalStateCoordinator → Transition
unfolding start_each
start_operational_components b s =
    if is_operational s.state
    then start_each b s (pending_components s) [] []
    else record { after = s; called = []; ending = components_locked }

-- The loop of `_stop_running_locked` on the reversed list: what is left running, and the failures.
unfoldable pub stop_each : Behaviour → List ℕ → List ℕ → List ℕ × List ℕ
unfolding remove_first
stop_each b [] running = (running, [])
stop_each b (c ∷ cs) running =
    let kept = stop_each b cs running in
    let dropped = stop_each b cs (remove_first c running) in
    if b.stop_raises c then (kept.0, c ∷ kept.1) else dropped

abbrev pub shutdown_ending : List ℕ → Ending
shutdown_ending [] = returns
shutdown_ending (c ∷ cs) = shutdown_failed (c ∷ cs)

unfoldable pub enter_reactivation_required : Behaviour → OperationalStateCoordinator → Transition
unfolding stop_each
enter_reactivation_required b s =
    let stopped = stop_each b (reversed s.running) s.running in
    record {
      after = record s { state = reactivation_required; running = stopped.0 };
      called = stops (reversed s.running);
      ending = shutdown_ending stopped.1;
    }

-- What the code reads of the repository: `none` where the load raises.
abbrev pub proves_reactivation : Option (Option DeviceIdentity) → Bool
proves_reactivation none = false
proves_reactivation (some none) = false
proves_reactivation (some (some identity)) =
    if is_operational identity.operational_state then can_authenticate identity else false

unfoldable pub mark_operational_after_reactivation :
    Option (Option DeviceIdentity) → OperationalStateCoordinator → Transition
mark_operational_after_reactivation loaded s =
    if proves_reactivation loaded
    then record { after = record s { state = operational }; called = []; ending = returns }
    else record { after = s; called = []; ending = not_persisted }

-- `is_lock` says that the exit reason of the loop is REACTIVATION_REQUIRED.
unfoldable pub handle_validation_loop_result :
    Behaviour → Bool → OperationalStateCoordinator → Transition
unfolding enter_reactivation_required
handle_validation_loop_result b is_lock s =
    if is_lock
    then enter_reactivation_required b s
    else record { after = s; called = []; ending = unknown_result }
