-- ===== src/Runtime/Coordinator/Locked.antt =====
-- No component is started while the device is locked.
use edge_weapon_detection_pl.Base.{
  ℕ, ◌≡◌, refl, Bool, true, false, Option, List, [], ◌∷◌, ◌++◌, All,
}
use edge_weapon_detection_pl.Identity.{reactivation_required, DeviceIdentity}
use edge_weapon_detection_pl.Runtime.Coordinator.{
  OperationalStateCoordinator, Called, start, stop, Transition, Behaviour, reversed, stops,
  start_operational_components, enter_reactivation_required, proves_reactivation,
  mark_operational_after_reactivation, handle_validation_loop_result,
}

-- A request to the coordinator, with what the components and the repository do.
pub data Request : Type 0 where
  start_components : Behaviour → Request
  lock : Behaviour → Request
  unlock : Option (Option DeviceIdentity) → Request
  validation_result : Behaviour → Bool → Request

unfoldable pub request : OperationalStateCoordinator → Request → Transition
request s (start_components b) = start_operational_components b s
request s (lock b) = enter_reactivation_required b s
request s (unlock loaded) = mark_operational_after_reactivation loaded s
request s (validation_result b is_lock) = handle_validation_loop_result b is_lock s

-- The calls of the requests in their order, and the last state.
unfoldable pub request_all :
    OperationalStateCoordinator → List Request → OperationalStateCoordinator × List Called
request_all s [] = (s, [])
request_all s (r ∷ rs) =
    let t = request s r in let rest = request_all t.after rs in (rest.0, t.called ++ rest.1)

-- The stored identity does not prove a reactivation.
abbrev pub CannotUnlock : Request → Type 0
CannotUnlock (unlock loaded) = proves_reactivation loaded ≡ false
CannotUnlock r = Unit {0}

abbrev pub IsStop : Called → Type 0
IsStop (start c) = ⊥
IsStop (stop c) = Unit {0}

All-append : (xs ys : List Called) → All IsStop xs → All IsStop ys → All IsStop (xs ++ ys)
All-append [] ys h k = k
All-append (x ∷ xs) ys h k = (h.0, All-append xs ys h.1 k)

stops-IsStop : (cs : List ℕ) → All IsStop (stops cs)
stops-IsStop [] = tt
stops-IsStop (c ∷ cs) = (tt, stops-IsStop cs)

record KeepsLock (t : Transition) : Type 0 where
  locked : t.after.state ≡ reactivation_required
  only_stops : All IsStop t.called

lock-KeepsLock :
    (b : Behaviour) (s : OperationalStateCoordinator) → KeepsLock (enter_reactivation_required b s)
unfolding enter_reactivation_required
lock-KeepsLock b s = record { locked = refl; only_stops = stops-IsStop (reversed s.running) }

request-KeepsLock :
    (s : OperationalStateCoordinator) (r : Request)
    → s.state ≡ reactivation_required
    → CannotUnlock r
    → KeepsLock (request s r)
unfolding request start_operational_components mark_operational_after_reactivation
    handle_validation_loop_result
request-KeepsLock s (start_components b) locked barred =
    simp locked (record { locked = locked; only_stops = tt })
request-KeepsLock s (lock b) locked barred = lock-KeepsLock b s
request-KeepsLock s (unlock loaded) locked barred =
    simp barred (record { locked = locked; only_stops = tt })
request-KeepsLock s (validation_result b true) locked barred = lock-KeepsLock b s
request-KeepsLock s (validation_result b false) locked barred = record {
  locked = locked;
  only_stops = tt;
}

request_all-locked :
    (s : OperationalStateCoordinator) (rs : List Request)
    → s.state ≡ reactivation_required
    → All CannotUnlock rs
    → ((request_all s rs).0.state ≡ reactivation_required) × All IsStop (request_all s rs).1
unfolding request_all
request_all-locked s [] locked barred = (locked, tt)
request_all-locked s (r ∷ rs) locked barred =
    let here = request-KeepsLock s r locked barred.0 in
    let (last, later) = request_all-locked (request s r).after rs here.locked barred.1 in
    (last, All-append (request s r).called _ here.only_stops later)

-- Once the lock is entered, whatever the components did, and as long as no stored identity proves a
-- reactivation, the coordinator stays locked through any requests and starts no component.
pub enter_reactivation_required-locked :
    (b : Behaviour) (s : OperationalStateCoordinator) (rs : List Request)
    → All CannotUnlock rs
    → let locked = (enter_reactivation_required b s).after in
      ((request_all locked rs).0.state ≡ reactivation_required)
      × All IsStop (request_all locked rs).1
enter_reactivation_required-locked b s rs barred =
    request_all-locked (enter_reactivation_required b s).after rs (lock-KeepsLock b s).locked barred
