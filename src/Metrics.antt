-- ===== src/Metrics.antt =====
-- plasma_protocol/src/metrics: accumulators of samples, and how two of them are merged.
mod Discrete
mod Ratios
mod Extrema
mod Tests
use kodiak.Base.{
  ℕ, suc, ◌+◌, ◌-◌, ◌%◌, ◌^◌, min, Bool, true, false, if◌then◌else◌, ◌==◌, ltb, max_u32, add_u32,
  saturating_add_u32,
}

-- discrete.rs
pub record DiscreteMetricAccumulator : Type 0 where
  pub total : ℕ

pub new_discrete : ℕ → DiscreteMetricAccumulator
new_discrete sample = record { total = sample }

pub add_multiple : DiscreteMetricAccumulator → ℕ → DiscreteMetricAccumulator
add_multiple m amount = record { total = saturating_add_u32 m.total amount }

pub increment : DiscreteMetricAccumulator → DiscreteMetricAccumulator
unfolding add_multiple
increment m = add_multiple m 1

-- The length is a `usize`, which is capped before it is narrowed.
pub add_length : DiscreteMetricAccumulator → ℕ → DiscreteMetricAccumulator
unfolding add_multiple
add_length m amount = add_multiple m (min amount max_u32)

pub add_discrete : DiscreteMetricAccumulator → DiscreteMetricAccumulator → DiscreteMetricAccumulator
add_discrete a b = record { total = saturating_add_u32 a.total b.total }

-- ratio.rs
pub record RatioMetricAccumulator : Type 0 where
  pub total : ℕ
  pub count : ℕ

pub new_ratio : Bool → RatioMetricAccumulator
new_ratio condition = record { total = 1; count = if condition then 1 else 0 }

pub push_ratio : RatioMetricAccumulator → Bool → RatioMetricAccumulator
push_ratio m condition =
    if ltb m.total max_u32
    then record { total = m.total + 1; count = if condition then m.count + 1 else m.count }
    else m

-- `+` wraps in a release build.
pub add_ratio : RatioMetricAccumulator → RatioMetricAccumulator → RatioMetricAccumulator
add_ratio a b =
    let room = max_u32 - b.total in
    record {
      total = add_u32 a.total (min b.total room);
      count = add_u32 a.count (min b.count room);
    }

-- discrete.rs: `DiscreteExtremaMetricAccumulator` and `ExtremaMetricAccumulator`, which are the same
-- over `u32` and over `f32`.
pub record ExtremaMetricAccumulator (A : Type 0) : Type 0 where
  pub count : ℕ
  pub min : A
  pub max : A

module _ {A : Type 0} (min_of max_of : A → A → A) where
  pub push_extrema : ExtremaMetricAccumulator A → A → ExtremaMetricAccumulator A
  push_extrema m sample =
      if m.count == 0
      then record m { min = sample; max = sample }
      else if ltb m.count max_u32
      then record { count = m.count + 1; min = min_of m.min sample; max = max_of m.max sample }
      else m

  pub add_extrema :
      ExtremaMetricAccumulator A → ExtremaMetricAccumulator A → ExtremaMetricAccumulator A
  add_extrema a b = if a.count == 0 then b else if b.count == 0 then a else record {
    count = saturating_add_u32 a.count b.count;
    min = min_of a.min b.min;
    max = max_of a.max b.max;
  }
