-- ===== src/Ticks/Tests.antt =====
-- At 60 ticks a second.
use kodiak.Base.{◌≡◌, refl, some}
use kodiak.Ticks.{checked_add, checked_sub}
use kodiak.Ticks.Seconds.{checked_sub-checked_add}

twelve_less_five : checked_sub 12 5 ≡ some 7
unfolding checked_add
twelve_less_five = checked_sub-checked_add 7 5 12 refl
