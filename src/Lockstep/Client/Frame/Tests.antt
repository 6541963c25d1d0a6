-- ===== src/Lockstep/Client/Frame/Tests.antt =====
-- A client with a full queue, which has heard from the server.
use kodiak.Base.{ℕ, ◌≡◌, arith, true, false, none, some, List, [], ◌∷◌, Returns, ◌⊎◌}
use kodiak.Lockstep.Sample.{counting, seven}
use kodiak.Lockstep.State.{Lockstep, start}
use kodiak.Lockstep.Client.{LockstepClient, HistoryBuffer}
use kodiak.Lockstep.Client.Frame.{tick_predicted}
use kodiak.Lockstep.Client.Frame.Predicted.{Taken, refuses, kept, tick_predicted-Returns}

-- A buffer that keeps its last value.
abbrev last_value : HistoryBuffer
last_value = record {
  Buffer = List ℕ;
  no_history = [];
  write = λ b l. l ∷ [];
  recent = λ b. none;
  values = λ b. b;
}

abbrev world : Lockstep counting
world = start counting 5

abbrev full : LockstepClient counting last_value
full = record {
  real = world;
  player_id = some seven;
  input_queue = record { inputs = 1 ∷ 2 ∷ 3 ∷ 4 ∷ []; end = 9 };
  predicted = world;
  predicted_next = world;
  interpolated = world;
  heard_from_server = true;
  since_predicted_tick = 0;
  smoothed_normalized_ticks_since_real = 0;
  server_buffered_inputs = 0;
  ping_latencies = [];
  total_latencies = [];
  info = [];
}

tick_predicted-Returns_example :
    Returns
      (λ r.
        ((refuses counting last_value 5 true full ≡ true)
          × (r ≡ (record full { heard_from_server = false }, none)))
        ⊎ ((refuses counting last_value 5 true full ≡ false)
            × Taken counting last_value 5 true full (kept counting last_value 5 true full) r))
      (tick_predicted counting last_value full 5 true)
tick_predicted-Returns_example =
    tick_predicted-Returns counting last_value 5 true full
      (record { started = omega arith; fits = omega arith; bounded = omega arith }) (omega arith)
      (omega arith) (omega arith)
