-- ===== src/Metrics/Ratios.antt =====
-- The share of samples that meet a condition, and two shares merged.
use kodiak.Base.{◌+◌, ◌≤◌, ◌<◌, ◌≡◌, arith, Bool, max_u32}
use kodiak.Metrics.{RatioMetricAccumulator, push_ratio, add_ratio}

-- No more samples meet the condition than there are.
pub record IsShare (m : RatioMetricAccumulator) : Type 0 where
  pub within : m.count ≤ m.total
  pub fits : m.total ≤ max_u32

pub push_ratio-IsShare :
    (m : RatioMetricAccumulator) (condition : Bool) → IsShare m → IsShare (push_ratio m condition)
unfolding push_ratio
push_ratio-IsShare m condition h = ground arith

-- Where the merged total fits the counter, the merged counts are the sums, and the share is one.
pub add_ratio-sums :
    (a b : RatioMetricAccumulator)
    → IsShare a
    → IsShare b
    → a.total + b.total ≤ max_u32
    → b.total + b.total ≤ max_u32
    → ((add_ratio a b).total ≡ a.total + b.total)
      × ((add_ratio a b).count ≡ a.count + b.count)
      × IsShare (add_ratio a b)
unfolding add_ratio
add_ratio-sums a b ha hb h k =
    (omega arith, omega arith, record { within = omega arith; fits = omega arith })

-- Where the merged total does not fit the counter and the second is at most half of it, the merged
-- total wraps: it is less than the first total.
pub add_ratio_wraps :
    (a b : RatioMetricAccumulator)
    → IsShare a
    → IsShare b
    → max_u32 < a.total + b.total
    → b.total + b.total ≤ max_u32
    → (add_ratio a b).total < a.total
unfolding add_ratio
add_ratio_wraps a b ha hb h k = omega arith
