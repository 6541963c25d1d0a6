-- ===== src/Limiter/Steady.antt =====
-- Whom a limiter never limits.
use kodiak.Base.{
  ℕ, ◌+◌, ◌*◌, ◌≤◌, ◌<◌, ◌≡◌, refl, arith, min, Bool, false, if_cases, ltb, leb, lt→ltb, ◌==◌, List,
  [], ◌∷◌,
}
use kodiak.Limiter.{
  RateLimiterState, RateLimiterProps, max_duration, saturating_mul, extend, should_limit_rate, run,
}

-- Calls for `usage` each, whose times are more than `gap` after one another, from `t` on.
abbrev pub Spaced : (gap usage t : ℕ) → List (ℕ × ℕ) → Type 0
Spaced gap usage t [] = Unit
Spaced gap usage t ((now, u) ∷ calls) = (t + gap < now) × (u ≡ usage) × Spaced gap usage now calls

pub total : List (ℕ × ℕ) → ℕ
total [] = 0
total ((now, u) ∷ calls) = u + total calls

module _ (last_instant : ℕ) (props : RateLimiterProps) (usage : ℕ) where
  -- The call is granted, and the state is not ahead of it by more than its own charge.
  record Granted (now : ℕ) (r : RateLimiterState × Bool) : Type 0 where
    pub granted : r.1 ≡ false
    pub ahead : r.0.until ≤ now + props.rate_limit * usage

  extend-le :
      (s : RateLimiterState) (now : ℕ)
      → s.until ≤ now
      → (extend last_instant s props now usage).until ≤ now + props.rate_limit * usage
  unfolding extend saturating_mul
  extend-le s now h =
      if_cases (λ (s' : RateLimiterState). s'.until ≤ now + props.rate_limit * usage)
        (leb (s.until + min (props.rate_limit * usage) max_duration) last_instant)
        (λ _. omega arith) (λ _. omega arith)

  should_limit_rate-Granted :
      (s : RateLimiterState) (now : ℕ)
      → s.until < now
      → Granted now (should_limit_rate last_instant s props now usage)
  unfolding should_limit_rate
  should_limit_rate-Granted s now h =
      if_cases (Granted now) (props.rate_limit == 0)
        (λ _. record { granted = refl; ahead = omega arith })
        (λ _.
          if_cases (Granted now) (ltb s.until now)
            (λ _. record {
              granted = refl;
              ahead = extend-le (record s { burst_used = 0 }) now (omega arith);
            })
            (λ late. ground (arith, lt→ltb _ _ h)))

  -- Calls for one usage that are further apart than the time that it is charged are all granted,
  -- from a state that is ahead by no more than that time.
  pub run-Spaced :
      (s : RateLimiterState) (t : ℕ) (calls : List (ℕ × ℕ))
      → s.until ≤ t + props.rate_limit * usage
      → Spaced (props.rate_limit * usage) usage t calls
      → (run last_instant s props calls).1 ≡ total calls
  unfolding run total
  run-Spaced s t [] h apart = refl
  run-Spaced s t ((now, u) ∷ calls) h (apart, same, rest) =
      let g = should_limit_rate-Granted s now (omega arith) in
      let ih =
        run-Spaced (should_limit_rate last_instant s props now usage).0 now calls g.ahead rest in
      rw (same, g.granted, ih)
