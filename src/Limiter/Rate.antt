-- ===== src/Limiter/Rate.antt =====
-- How much a limiter grants over time, and whom it never limits.
use native.Mathlib.Nat.{mul-add, mul-le-mul_left}
use kodiak.Base.{
  ℕ, ◌+◌, ◌*◌, ◌≤◌, ◌<◌, ◌≡◌, sym, subst, arith, min, max, max_u32, Bool, true, false,
  if◌then◌else◌, if_cases, if_true, ltb, leb, ◌==◌, leb→le, ltb→lt, List, [], ◌∷◌,
  saturating_add_u32,
}
use kodiak.Limiter.{
  RateLimiterState, RateLimiterProps, max_duration, saturating_mul, extend, should_limit_rate, run,
}

-- Calls in the order of their times, from `t` to `last`, none for more than `most`.
abbrev pub Ordered : (most last t : ℕ) → List (ℕ × ℕ) → Type 0
Ordered most last t [] = t ≤ last
Ordered most last t ((now, usage) ∷ calls) =
    (t ≤ now) × (usage ≤ most) × Ordered most last now calls

Ordered-le : (most last t : ℕ) (calls : List (ℕ × ℕ)) → Ordered most last t calls → t ≤ last
Ordered-le most last t [] h = h
Ordered-le most last t ((now, usage) ∷ calls) (h, _, rest) =
    let le = Ordered-le most last now calls rest in omega arith

-- The numbers stay within the platform's: no `Duration` and no `Instant` of these calls saturates.
pub record Fits (last_instant : ℕ) (props : RateLimiterProps) (most last : ℕ) : Type 0 where
  pub limited : 0 < props.rate_limit
  pub burst : props.burst < max_u32
  pub duration : props.rate_limit * most ≤ max_duration
  pub instant :
      last + props.rate_limit * (most + props.burst) + props.rate_limit * most ≤ last_instant

-- The charges of one call and of the calls after it.
charge_more :
    (limited : Bool) (rate usage granted x y z : ℕ)
    → x + rate * (if limited then 0 else usage) ≤ y
    → y + rate * granted ≤ z
    → x + rate * (if limited then granted else usage + granted) ≤ z
charge_more true rate usage granted x y z h h' = omega arith
charge_more false rate usage granted x y z h h' = omega (arith, mul-add rate usage granted)

-- How far ahead of the clock the state is.
pub record Bounded (props : RateLimiterProps) (most : ℕ) (s : RateLimiterState) (t : ℕ)
    : Type 0 where
  pub ahead : s.until ≤ t + props.rate_limit * (most + s.burst_used)
  pub used : s.burst_used ≤ props.burst

module _ (last_instant : ℕ) (props : RateLimiterProps) (most last : ℕ)
    (fits : Fits last_instant props most last) where
  extend_lem :
      (s : RateLimiterState) (now usage : ℕ)
      → s.until ≤ last + props.rate_limit * (most + props.burst)
      → usage ≤ most
      → extend last_instant s props now usage
        ≡ record s { until = max (s.until + props.rate_limit * usage) now }
  unfolding extend saturating_mul
  extend_lem s now usage h le =
      let below = mul-le-mul_left props.rate_limit le in
      let e : min (props.rate_limit * usage) max_duration ≡ props.rate_limit * usage =
        omega (arith, fits.duration, below) in
      rw e (
        if_true {b = leb (s.until + props.rate_limit * usage) last_instant} _ _
          (ground (arith, fits.instant, below)))

  -- What one call does.
  record Stepped (s : RateLimiterState) (now usage : ℕ) (r : RateLimiterState × Bool) : Type 0 where
    pub bounded : Bounded props most r.0 now
    pub charged : s.until + props.rate_limit * (if r.1 then 0 else usage) ≤ r.0.until

  -- A usage that is granted, from a state that has used `used` of its burst.
  granted-Stepped :
      (s : RateLimiterState) (used now usage : ℕ)
      → s.until + props.rate_limit * usage ≤ now + props.rate_limit * (most + used)
      → used ≤ props.burst
      → now ≤ last
      → usage ≤ most
      → Stepped s now usage
          (extend last_instant (record s { burst_used = used }) props now usage, false)
  granted-Stepped s used now usage ahead room end le =
      let below = mul-le-mul_left props.rate_limit le in
      let burst = mul-le-mul_left props.rate_limit room in
      let a = mul-add props.rate_limit most used in
      let a' = mul-add props.rate_limit most props.burst in
      subst (λ s'. Stepped s now usage (s', false))
        (sym (extend_lem (record s { burst_used = used }) now usage (omega arith) le))
        (record { bounded = record { ahead = omega arith; used = room }; charged = omega arith })

  should_limit_rate-Stepped :
      (s : RateLimiterState) (t now usage : ℕ)
      → Bounded props most s t
      → t ≤ now
      → now ≤ last
      → usage ≤ most
      → Stepped s now usage (should_limit_rate last_instant s props now usage)
  unfolding should_limit_rate
  should_limit_rate-Stepped s t now usage b h end le =
      if_cases (Stepped s now usage) (props.rate_limit == 0) (λ e. ground (arith, fits.limited))
        (λ _.
          if_cases (Stepped s now usage) (ltb s.until now)
            (λ past.
              granted-Stepped s 0 now usage
                (omega (
                  arith,
                  ltb→lt _ _ past,
                  mul-add props.rate_limit most 0,
                  mul-le-mul_left props.rate_limit le,
                ))
                (omega arith) end le)
            (λ _.
              if_cases (Stepped s now usage)
                (leb (saturating_add_u32 s.burst_used usage) props.burst)
                (λ room.
                  let e : saturating_add_u32 s.burst_used usage ≡ s.burst_used + usage =
                    omega (arith, leb→le _ _ room, fits.burst) in
                  granted-Stepped s (saturating_add_u32 s.burst_used usage) now usage
                    (subst
                      (λ n.
                        s.until + props.rate_limit * usage ≤ now + props.rate_limit * (most + n))
                      (sym e)
                      (omega (
                        arith,
                        b.ahead,
                        mul-add props.rate_limit most s.burst_used,
                        mul-add props.rate_limit most (s.burst_used + usage),
                        mul-add props.rate_limit s.burst_used usage,
                      )))
                    (leb→le _ _ room) end le)
                (λ _. record {
                  bounded = record { ahead = omega (arith, b.ahead); used = b.used };
                  charged = omega arith;
                })))

  run-Bounded :
      (s : RateLimiterState) (t : ℕ) (calls : List (ℕ × ℕ))
      → Bounded props most s t
      → Ordered most last t calls
      → (s.until + props.rate_limit * (run last_instant s props calls).1
          ≤ (run last_instant s props calls).0.until)
        × Bounded props most (run last_instant s props calls).0 last
  unfolding run
  run-Bounded s t [] b h = (omega arith, record { ahead = omega (arith, b.ahead); used = b.used })
  run-Bounded s t ((now, usage) ∷ calls) b (h, le, rest) =
      let step =
        should_limit_rate-Stepped s t now usage b h (Ordered-le most last now calls rest) le in
      let (granted, bounded) =
        run-Bounded (should_limit_rate last_instant s props now usage).0 now calls step.bounded
          rest in
      (
        charge_more (should_limit_rate last_instant s props now usage).1 props.rate_limit usage _ _
            _ _ step.charged granted,
        bounded,
      )

  -- Over any calls in the order of their times up to the time `last`, none for more than `most`, a
  -- limiter that is not ahead of its first call, and has not used more than its burst, grants at
  -- most the burst, one call's usage, and one for each `rate_limit` of time that has passed since
  -- the state's `until`. The limit is not zero, and no duration or instant of the calls saturates.
  pub run_rate :
      (s : RateLimiterState) (t : ℕ) (calls : List (ℕ × ℕ))
      → s.until ≤ t
      → s.burst_used ≤ props.burst
      → Ordered most last t calls
      → s.until + props.rate_limit * (run last_instant s props calls).1
        ≤ last + props.rate_limit * (most + props.burst)
  run_rate s t calls fresh room h =
      let (granted, bounded) =
        run-Bounded s t calls (record { ahead = omega arith; used = room }) h in
      omega (
        arith,
        mul-le-mul_left props.rate_limit bounded.used,
        mul-add props.rate_limit most props.burst,
        mul-add props.rate_limit most (run last_instant s props calls).0.burst_used,
        bounded.ahead,
      )
