-- ===== src/Limiter.antt =====
-- server/src/rate_limiter.rs: how often an action may be done, with bursts. An `Instant` is its number
-- of nanoseconds; the platform's last instant is a parameter. A `Duration` is nanoseconds, too.
pub mod Rate
pub mod Steady
pub mod Ip
mod Tests
use kodiak.Base.{
  ℕ, ◌+◌, ◌*◌, ◌-◌, ◌^◌, min, max, Bool, true, false, if◌then◌else◌, ltb, leb, ◌==◌,
  saturating_add_u32, List, [], ◌∷◌,
}

pub record RateLimiterState : Type 0 where
  pub until : ℕ
  pub burst_used : ℕ

pub record RateLimiterProps : Type 0 where
  pub rate_limit : ℕ
  pub burst : ℕ

-- `Duration::MAX`: the seconds are a `u64`.
abbrev pub max_duration : ℕ
max_duration = 2 ^ 64 * 10 ^ 9 - 1

-- `Duration::saturating_mul`
pub saturating_mul : ℕ → ℕ → ℕ
saturating_mul duration n = min (duration * n) max_duration

pub no_limit : RateLimiterProps
no_limit = record { rate_limit = 0; burst = 0 }

module _ (last_instant : ℕ) where
  -- What a granted usage adds. A time past the platform's last instant is not taken over.
  pub extend : RateLimiterState → RateLimiterProps → ℕ → ℕ → RateLimiterState
  unfolding saturating_mul
  extend state props now usage =
      let instant = state.until + saturating_mul props.rate_limit usage in
      if leb instant last_instant then record state { until = max instant now } else state

  -- `should_limit_rate_with_now_and_usage`: the new state, and whether to prevent the action.
  pub should_limit_rate : RateLimiterState → RateLimiterProps → ℕ → ℕ → RateLimiterState × Bool
  unfolding extend
  should_limit_rate state props now usage =
      let burst_used = saturating_add_u32 state.burst_used usage in
      if props.rate_limit == 0
      then (state, false)
      else if ltb state.until now
      then (extend (record state { burst_used = 0 }) props now usage, false)
      else if leb burst_used props.burst
      then (extend (record state { burst_used = burst_used }) props now usage, false)
      else (state, true)

  -- A limiter over a sequence of calls, each at a time and for a usage: its last state, and how much
  -- usage it has granted.
  pub run : RateLimiterState → RateLimiterProps → List (ℕ × ℕ) → RateLimiterState × ℕ
  unfolding should_limit_rate
  run state props [] = (state, 0)
  run state props ((now, usage) ∷ calls) =
      let (state', limited) = should_limit_rate state props now usage in
      let (state'', granted) = run state' props calls in
      (state'', if limited then granted else usage + granted)
