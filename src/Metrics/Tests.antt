-- ===== src/Metrics/Tests.antt =====
-- Small accumulators.
use kodiak.Base.{◌<◌, ◌≡◌, refl, arith, [], ◌∷◌, min, max, max_u32}
use kodiak.Metrics.{RatioMetricAccumulator, add_ratio, add_discrete, new_discrete}
use kodiak.Metrics.Discrete.{counted, add_discrete-counted}
use kodiak.Metrics.Ratios.{add_ratio_wraps}
use kodiak.Metrics.Extrema.{pushed, pushed_last}

add_discrete-counted_example :
    add_discrete (counted (new_discrete 0) (3 ∷ 4 ∷ [])) (counted (new_discrete 0) (max_u32 ∷ []))
    ≡ counted (new_discrete 0) (3 ∷ 4 ∷ max_u32 ∷ [])
add_discrete-counted_example = add_discrete-counted (3 ∷ 4 ∷ []) (max_u32 ∷ [])

abbrev half : RatioMetricAccumulator
half = record { total = 4; count = 2 }

abbrev few : RatioMetricAccumulator
few = record { total = 5; count = 0 }

abbrev full : RatioMetricAccumulator
full = record { total = max_u32; count = max_u32 }

add_ratio_wraps_example : (add_ratio full few).total < full.total
add_ratio_wraps_example =
    add_ratio_wraps full few (record { within = omega arith; fits = omega arith })
      (record { within = omega arith; fits = omega arith }) (omega arith) (omega arith)

pushed_last_example :
    pushed min max (record { count = 0; min = 0; max = 0 }) (9 ∷ 2 ∷ 5 ∷ [])
    ≡ record { count = 0; min = 5; max = 5 }
pushed_last_example =
    pushed_last min max (record { count = 0; min = 0; max = 0 }) (9 ∷ 2 ∷ []) 5 refl
