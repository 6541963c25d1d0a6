-- ===== src/Limiter/Tests.antt =====
-- The limiters on small inputs.
use kodiak.Base.{◌+◌, ◌*◌, ◌^◌, ◌≤◌, ◌≡◌, refl, arith, [], ◌∷◌}
use kodiak.Limiter.{RateLimiterState, RateLimiterProps, run}
use kodiak.Limiter.Rate.{Fits, run_rate}
use kodiak.Limiter.Steady.{run-Spaced, total}

-- One unit in ten nanoseconds, with a burst of two.
abbrev props : RateLimiterProps
props = record { rate_limit = 10; burst = 2 }

abbrev fresh : RateLimiterState
fresh = record { until = 100; burst_used = 0 }

-- Of five calls at once three are granted: the first, and the burst.
granted_three :
    (run (2 ^ 63) fresh props ((101, 1) ∷ (101, 1) ∷ (101, 1) ∷ (101, 1) ∷ (101, 1) ∷ [])).1 ≡ 3
unfolding run
granted_three = refl

fits : Fits (2 ^ 63) props 1 105
fits = record {
  limited = omega arith;
  burst = omega arith;
  duration = omega arith;
  instant = omega arith;
}

run_rate_example :
    100 + 10 * (run (2 ^ 63) fresh props ((101, 1) ∷ (102, 1) ∷ (105, 1) ∷ [])).1
    ≤ 105 + 10 * (1 + 2)
run_rate_example =
    run_rate (2 ^ 63) props 1 105 fits fresh 100 ((101, 1) ∷ (102, 1) ∷ (105, 1) ∷ []) (omega arith)
      (omega arith)
      (
        omega arith,
        omega arith,
        (omega arith, omega arith, (omega arith, omega arith, omega arith)),
      )

run-Spaced_example :
    (run (2 ^ 63) fresh props ((111, 1) ∷ (122, 1) ∷ [])).1 ≡ total ((111, 1) ∷ (122, 1) ∷ [])
run-Spaced_example =
    run-Spaced (2 ^ 63) props 1 fresh 100 ((111, 1) ∷ (122, 1) ∷ []) (omega arith)
      (omega arith, refl, (omega arith, refl, tt))
