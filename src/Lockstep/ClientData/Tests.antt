-- ===== src/Lockstep/ClientData/Tests.antt =====
-- Receiving on small inputs: input 5 has arrived, and a window brings 4, 5 and 6.
use kodiak.Base.{ℕ, ◌≡◌, arith, true, [], ◌∷◌}
use kodiak.Lockstep.Sample.{counting}
use kodiak.Lockstep.Input.{LockstepInputWindow}
use kodiak.Lockstep.ClientData.{LockstepClientData, receive}
use kodiak.Lockstep.ClientData.Laws.{IsValid, receive-IsValid, receive_twice}

abbrev waiting : LockstepClientData counting
waiting = record {
  initialized = true;
  last_applied_command_id = 3;
  last_received_command_id = 5;
  receive_buffer = record { inner = 50; input_id = 5 } ∷ [];
}

abbrev window : LockstepInputWindow ℕ
window = record { sliding_window = 40 ∷ 50 ∷ 60 ∷ []; last_input_id = 6 }

waiting-IsValid : IsValid counting waiting
waiting-IsValid = record { rising = (omega arith, tt); bounded = omega arith }

receive-IsValid_example : IsValid counting (receive counting waiting window)
receive-IsValid_example = receive-IsValid counting waiting window waiting-IsValid

receive_twice_example :
    receive counting (receive counting waiting window) window ≡ receive counting waiting window
receive_twice_example = receive_twice counting waiting window waiting-IsValid
