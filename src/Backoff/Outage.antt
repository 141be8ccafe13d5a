-- ===== src/Backoff/Outage.antt =====
-- What an outage of the Backend does to a worker.
use native.Mathlib.Decide.{dec_lt}
use edge_weapon_detection_pl.Base.{
  ℕ, zero, suc, ◌+◌, ◌<◌, ◌≤◌, ◌≡◌, refl, arith, ap, ◌∙◌, leb, if◌then◌else◌, Bool-cases, inl, inr,
  List, [], ◌∷◌,
}
use edge_weapon_detection_pl.Backoff.{
  BackoffConfig, running, dead, Drained, failed, sleep_backoff, run_iteration, run_iterations,
  float_exponent_limit,
}

pub outage : ℕ → List Drained
outage zero = []
outage (suc n) = failed ∷ outage n

iteration_below :
    (cfg : BackoffConfig) (attempt : ℕ)
    → attempt < float_exponent_limit
    → run_iteration cfg (running attempt) failed ≡ running (attempt + 1)
unfolding run_iteration sleep_backoff
iteration_below cfg attempt h = ground arith

iteration_at :
    (cfg : BackoffConfig) → run_iteration cfg (running float_exponent_limit) failed ≡ dead
unfolding run_iteration sleep_backoff
iteration_at cfg = refl

dead_stays : (cfg : BackoffConfig) (ds : List Drained) → run_iterations cfg dead ds ≡ dead
unfolding run_iterations run_iteration
dead_stays cfg [] = refl
dead_stays cfg (d ∷ ds) = dead_stays cfg ds

pub survives :
    (cfg : BackoffConfig) (n attempt : ℕ)
    → attempt + n ≤ float_exponent_limit
    → run_iterations cfg (running attempt) (outage n) ≡ running (attempt + n)
unfolding run_iterations outage
survives cfg zero attempt h = ap running (omega arith)
survives cfg (suc n) attempt h =
    ap (λ t. run_iterations cfg t (outage n)) (iteration_below cfg attempt (omega arith))
    ∙ survives cfg n (attempt + 1) (omega arith)
    ∙ ap running (omega arith)

perishes :
    (cfg : BackoffConfig) (n attempt : ℕ)
    → attempt ≤ float_exponent_limit
    → float_exponent_limit < attempt + n
    → run_iterations cfg (running attempt) (outage n) ≡ dead
unfolding run_iterations outage
perishes cfg zero attempt h k = absurd (omega arith)
perishes cfg (suc n) attempt h k = elim (dec_lt attempt float_exponent_limit) [
  | yes below ↦
      ap (λ t. run_iterations cfg t (outage n)) (iteration_below cfg attempt below)
      ∙ perishes cfg n (attempt + 1) (omega arith) (omega arith)
  | no above ↦
      let e : attempt ≡ float_exponent_limit = omega arith in
      ap (λ k. run_iterations cfg (run_iteration cfg (running k) failed) (outage n)) e
      ∙ ap (λ t. run_iterations cfg t (outage n)) (iteration_at cfg)
      ∙ dead_stays cfg (outage n)
]

-- A worker survives 1024 failed batches in a row and counts them; one more ends its task, and a
-- task that has ended runs no further iteration.
pub outage_kills_worker :
    (cfg : BackoffConfig) (n : ℕ) (later : List Drained)
    → (run_iterations cfg (running 0) (outage n)
        ≡ (if leb n float_exponent_limit then running n else dead))
      × (run_iterations cfg dead later ≡ dead)
outage_kills_worker cfg n later = (
  elim (Bool-cases (leb n float_exponent_limit)) [
    | inl few ↦ rw few (survives cfg n 0 (ground arith) ∙ ap running (omega arith))
    | inr many ↦ rw many (perishes cfg n 0 (omega arith) (ground arith))
  ],
  dead_stays cfg later,
)
