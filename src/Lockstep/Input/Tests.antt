-- ===== src/Lockstep/Input/Tests.antt =====
-- A window of two inputs.
use kodiak.Base.{ℕ, [], ◌∷◌}
use kodiak.Lockstep.Input.{LockstepInputWindow}

abbrev two_inputs : LockstepInputWindow ℕ
two_inputs = record { sliding_window = 40 ∷ 50 ∷ []; last_input_id = 6 }
