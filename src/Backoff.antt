-- ===== src/Backoff.antt =====
-- The retry delay of the two upload workers: `_sleep_backoff`, `_reset_backoff` and the loop `_run`
-- of agent/src/weapon_detection_agent/sync/worker.py, which snapshot/worker.py repeats word for
-- word. Delays are in ticks of any unit: doubling a float is exact, and what is larger is capped.
pub mod Bounds
pub mod Outage
use edge_weapon_detection_pl.Base.{
  ℕ, zero, suc, ◌+◌, ◌*◌, ◌^◌, ◌<◌, ◌≤◌, Bool, true, false, Option, none, some, ltb, min,
  if◌then◌else◌, List, [], ◌∷◌,
}

-- The constructor's checks, which the settings repeat.
pub record BackoffConfig : Type 0 where
  pub initial_backoff : ℕ
  pub max_backoff : ℕ
  pub initial_positive : 0 < initial_backoff
  pub cap_large : initial_backoff ≤ max_backoff

-- float(2 ** 1024) is an OverflowError, so the product of a float with it is one too.
abbrev pub float_exponent_limit : ℕ
float_exponent_limit = 1024

unfoldable pub backoff_delay : BackoffConfig → ℕ → ℕ
backoff_delay cfg attempt = min (cfg.initial_backoff * 2 ^ attempt) cfg.max_backoff

-- What `_sleep_backoff` computes before it sleeps: the delay, and the attempt counter behind it.
-- `none` is the OverflowError, which leaves the counter as it was.
unfoldable pub sleep_backoff : BackoffConfig → ℕ → Option (ℕ × ℕ)
sleep_backoff cfg attempt =
    if ltb attempt float_exponent_limit then some (backoff_delay cfg attempt, attempt + 1) else none

-- The factor `0.5 + jitter * 0.5`, as it is rounded, is `(whole + part) / (2 * whole)`, which may be 1
-- since the largest jitter rounds up; what is slept is this number of ticks over `2 * whole`.
unfoldable pub jittered : ℕ → ℕ → ℕ → ℕ
jittered delay part whole = delay * (whole + part)

-- How `_drain_once` ends: with nothing to send, after a batch that worked and reset the counter,
-- after a batch that failed and slept by `_sleep_backoff`, or by an exception of its own.
pub data Drained : Type 0 where
  idle : Drained
  sent : Drained
  failed : Drained
  broken : Drained

-- A worker's background task between two iterations.
pub data Task : Type 0 where
  running : ℕ → Task
  dead : Task

abbrev pub after_sleep : Option (ℕ × ℕ) → Task
after_sleep none = dead
after_sleep (some (delay, attempt)) = running attempt

-- One iteration of `_run`. A failed batch makes `_drain_once` sleep; where that raises, the handler
-- sleeps once more, and what is raised there ends the task.
unfoldable pub run_iteration : BackoffConfig → Task → Drained → Task
run_iteration cfg dead drained = dead
run_iteration cfg (running attempt) idle = running attempt
run_iteration cfg (running attempt) sent = running 0
run_iteration cfg (running attempt) broken = after_sleep (sleep_backoff cfg attempt)
run_iteration cfg (running attempt) failed = elim (sleep_backoff cfg attempt) [
  | some (delay, next) ↦ running next
  | none ↦ after_sleep (sleep_backoff cfg attempt)
]

unfoldable pub run_iterations : BackoffConfig → Task → List Drained → Task
run_iterations cfg task [] = task
run_iterations cfg task (d ∷ ds) = run_iterations cfg (run_iteration cfg task d) ds
