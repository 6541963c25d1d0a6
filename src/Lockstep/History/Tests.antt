-- ===== src/Lockstep/History/Tests.antt =====
-- The ring on a small input: ticks 8 and 9 have been written, and there are seven places.
use kodiak.Base.{ℕ, none, some, [], ◌∷◌}
use kodiak.Lockstep.History.{LagCompensation}

abbrev ring : LagCompensation ℕ
ring = record { lag_compensation = none ∷ some 80 ∷ some 90 ∷ none ∷ none ∷ none ∷ none ∷ [] }
