-- ===== src/Metrics/Extrema.antt =====
-- What the accumulators of extremes keep.
use kodiak.Base.{◌≡◌, refl, ap, ◌∙◌, arith, List, [], ◌∷◌, ◌++◌}
use kodiak.Metrics.{ExtremaMetricAccumulator, push_extrema}

module _ {A : Type 0} (min_of max_of : A → A → A) where
  abbrev pub pushed : ExtremaMetricAccumulator A → List A → ExtremaMetricAccumulator A
  pushed m [] = m
  pushed m (x ∷ samples) = pushed (push_extrema min_of max_of m x) samples

  first :
      (m : ExtremaMetricAccumulator A) (x : A)
      → m.count ≡ 0
      → push_extrema min_of max_of m x ≡ record { count = 0; min = x; max = x }
  unfolding push_extrema
  first m x e = ground arith

  -- However many samples are pushed onto an accumulator without samples, it counts none, and both
  -- extremes are the last sample.
  pub pushed_last :
      (m : ExtremaMetricAccumulator A) (samples : List A) (last : A)
      → m.count ≡ 0
      → pushed m (samples ++ (last ∷ [])) ≡ record { count = 0; min = last; max = last }
  unfolding push_extrema
  pushed_last m [] last e = first m last e
  pushed_last m (x ∷ samples) last e =
      ap (λ m. pushed m (samples ++ (last ∷ []))) (first m x e)
      ∙ pushed_last (record { count = 0; min = x; max = x }) samples last refl
