-- ===== src/Regulator/Tests.antt =====
-- A player joins, leaves, rejoins while leaving, and leaves.
use kodiak.Base.{◌≡◌, refl, true, false, [], ◌∷◌, Returns}
use kodiak.Regulator.{initial, joined, left, tick, active, can_forget}
use kodiak.Regulator.Traces.{
  Tracked, joins, leaves, ticks, run, in_game, wanted, run-Returns, tick_settles,
}

abbrev absent : Tracked
absent = record { regulator = initial; present = false }

abbrev there : Tracked
there = record { regulator = joined; present = true }

run-Returns_example :
    Returns
      (λ t'. t'.present ≡ in_game t'.regulator)
      (run absent
        (joins ∷ ticks ∷ leaves ∷ ticks ∷ joins ∷ leaves ∷ ticks ∷ ticks ∷ ticks ∷ joins ∷ []))
run-Returns_example =
    run-Returns absent
      (joins ∷ ticks ∷ leaves ∷ ticks ∷ joins ∷ leaves ∷ ticks ∷ ticks ∷ ticks ∷ joins ∷ []) refl tt

tick_settles_example :
    (wanted left ≡ true → active (tick left).0 ≡ true)
    × (wanted left ≡ false → can_forget (tick (tick (tick left).0).0).0 ≡ true)
tick_settles_example = tick_settles left
