-- ===== src/Metrics/Discrete.antt =====
-- What a count comes to, however its parts are merged.
use kodiak.Base.{ℕ, ◌+◌, ◌≤◌, ◌≡◌, arith, List, [], ◌∷◌, ◌++◌, min, max_u32}
use kodiak.Metrics.{DiscreteMetricAccumulator, new_discrete, add_multiple, add_discrete}

-- An accumulator that has been given the amounts, one by one.
abbrev pub counted : DiscreteMetricAccumulator → List ℕ → DiscreteMetricAccumulator
counted m [] = m
counted m (n ∷ amounts) = counted (add_multiple m n) amounts

abbrev sum : List ℕ → ℕ
sum [] = 0
sum (n ∷ amounts) = n + sum amounts

total-counted :
    (m : DiscreteMetricAccumulator) (amounts : List ℕ)
    → m.total ≤ max_u32
    → (counted m amounts).total ≡ min (m.total + sum amounts) max_u32
unfolding add_multiple
total-counted m [] h = ground arith
total-counted m (n ∷ amounts) h =
    ground (arith, total-counted (add_multiple m n) amounts (ground arith))

sum-append : (xs ys : List ℕ) → sum (xs ++ ys) ≡ sum xs + sum ys
sum-append [] ys = omega arith
sum-append (x ∷ xs) ys = omega (arith, sum-append xs ys)

-- Two accumulators that start at zero and are merged hold what one would hold that was given all the
-- amounts, in whatever way they are split, and at the limit of the counter too.
pub add_discrete-counted :
    (xs ys : List ℕ)
    → add_discrete (counted (new_discrete 0) xs) (counted (new_discrete 0) ys)
      ≡ counted (new_discrete 0) (xs ++ ys)
unfolding add_discrete new_discrete
add_discrete-counted xs ys =
    let zero : DiscreteMetricAccumulator = record { total = 0 } in
    total_eq _ _ (
      omega (
        arith,
        total-counted zero xs (omega arith),
        total-counted zero ys (omega arith),
        total-counted zero (xs ++ ys) (omega arith),
        sum-append xs ys,
      ))
  where
    total_eq : (a b : DiscreteMetricAccumulator) → a.total ≡ b.total → a ≡ b
    total_eq a b e = λ i. record { total = e i }
