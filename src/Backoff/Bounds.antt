-- ===== src/Backoff/Bounds.antt =====
-- The delays double from failure to failure up to the cap, and start again after a success.
use native.Mathlib.Nat.{pow-suc}
use edge_weapon_detection_pl.Base.{
  ℕ, zero, suc, ◌+◌, ◌*◌, ◌^◌, ◌<◌, ◌≤◌, ◌≡◌, ◌∙◌, ap, arith, some, min, ◌∷◌,
}
use edge_weapon_detection_pl.Backoff.{
  BackoffConfig, backoff_delay, sleep_backoff, jittered, run_iterations, run_iteration, running,
  sent, float_exponent_limit,
}
use edge_weapon_detection_pl.Backoff.Outage.{outage, survives}

-- The reference: the first delay, and twice the one before, up to the cap.
abbrev pub doubling : BackoffConfig → ℕ → ℕ
doubling cfg zero = cfg.initial_backoff
doubling cfg (suc n) = min (2 * doubling cfg n) cfg.max_backoff

doubled :
    (cfg : BackoffConfig) (attempt : ℕ)
    → cfg.initial_backoff * 2 ^ suc attempt ≡ 2 * (cfg.initial_backoff * 2 ^ attempt)
doubled cfg attempt = let h = pow-suc 2 attempt in rw h (omega arith)

backoff_delay-doubling : (cfg : BackoffConfig) (n : ℕ) → backoff_delay cfg n ≡ doubling cfg n
unfolding backoff_delay
backoff_delay-doubling cfg zero = let h = cfg.cap_large in omega arith
backoff_delay-doubling cfg (suc n) =
    let twice = doubled cfg n in let before = backoff_delay-doubling cfg n in omega arith

jittered_bounds :
    (delay part whole : ℕ)
    → part ≤ whole
    → (delay * whole ≤ jittered delay part whole)
      × (jittered delay part whole ≤ delay * (2 * whole))
unfolding jittered
jittered_bounds delay part whole h = grind arith

-- After a batch that worked and `n` failed ones behind it, the worker has counted the failures, and the
-- next failure has the delay that began with the first one and doubled `n` times up to the cap; what is
-- slept, over twice the jitter's unit, is at least half of it and at most all of it.
pub backoff_doubles :
    (cfg : BackoffConfig) (before n part whole : ℕ)
    → n < float_exponent_limit
    → part ≤ whole
    → (run_iterations cfg (running before) (sent ∷ outage n) ≡ running n)
      × (sleep_backoff cfg n ≡ some (doubling cfg n, n + 1))
      × (doubling cfg n * whole ≤ jittered (doubling cfg n) part whole)
      × (jittered (doubling cfg n) part whole ≤ doubling cfg n * (2 * whole))
unfolding run_iterations run_iteration sleep_backoff
backoff_doubles cfg before n part whole small fraction =
    let (half, full) = jittered_bounds (doubling cfg n) part whole fraction in
    (
      survives cfg n 0 (omega arith) ∙ ap (λ (k : ℕ). running k) (omega arith),
      ground (arith, backoff_delay-doubling cfg n),
      half,
      full,
    )
