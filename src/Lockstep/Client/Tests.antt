-- ===== src/Lockstep/Client/Tests.antt =====
-- A client that is one tick behind a server, with one buffered input.
use kodiak.Base.{ℕ, ◌≡◌, refl, arith, true, false, none, some, List, [], ◌∷◌, Returns, ◌>>=◌}
use kodiak.Collection.Arena
use kodiak.Collection.Arena.Key.{nonzero_key}
use kodiak.Collection.Arena.Invariant.{new-IsValid, insert-IsValid}
use kodiak.Ids.{is_client}
use kodiak.Lockstep.Sample.{counting, seven}
use kodiak.Lockstep.State.{Lockstep, default_tick}
use kodiak.Lockstep.State.Validity.{KeepsPlayers}
use kodiak.Lockstep.ClientData.{LockstepClientData}
use kodiak.Lockstep.Server.{LockstepServer, update, client_update, post_update}
use kodiak.Lockstep.Server.Validity.{fresh-IsValid}
use kodiak.Lockstep.Client.{LockstepClient, HistoryBuffer, receive}
use kodiak.Lockstep.Client.Follow.{Ready, receive-client_update}

-- A buffer that keeps its last value.
abbrev last_value : HistoryBuffer
last_value = record {
  Buffer = List ℕ;
  no_history = [];
  write = λ b l. l ∷ [];
  recent = λ b. none;
  values = λ b. b;
}

counting-KeepsPlayers : KeepsPlayers counting
counting-KeepsPlayers w t c p valid = valid

abbrev world : Lockstep counting
world = record {
  context = record {
    tick_id = 4;
    players = (Arena.insert Arena.new seven (record { input = 0; inner = 7 })).0;
  };
  world = 5;
}

abbrev server : LockstepServer counting
server = record { real = world; current = default_tick counting }

abbrev buffered : LockstepClientData counting
buffered = record {
  initialized = true;
  last_applied_command_id = 1;
  last_received_command_id = 2;
  receive_buffer = record { inner = 50; input_id = 2 } ∷ [];
}

abbrev client : LockstepClient counting last_value
client = record {
  real = world;
  player_id = some seven;
  input_queue = record { inputs = 50 ∷ 60 ∷ []; end = 4 };
  predicted = world;
  predicted_next = world;
  interpolated = world;
  heard_from_server = false;
  since_predicted_tick = 0;
  smoothed_normalized_ticks_since_real = 0;
  server_buffered_inputs = 0;
  ping_latencies = [];
  total_latencies = [];
  info = [];
}

client-Ready : Ready counting last_value counting-KeepsPlayers server buffered client
client-Ready = record {
  queue = record { started = omega arith; fits = omega arith; bounded = omega arith };
  applied = omega arith;
  received = omega arith;
  same = λ e. refl;
}

receive-client_update_example :
    Returns
      (λ r.
        Returns
          (λ s'. r.0.real ≡ s'.0.real)
          (post_update counting (update counting server ((seven, buffered) ∷ [])).0))
      (client_update counting (update counting server ((seven, buffered) ∷ [])).0 seven buffered
        >>= λ message. receive counting last_value client message.0)
unfolding is_client
receive-client_update_example =
    receive-client_update counting last_value counting-KeepsPlayers server ((seven, buffered) ∷ [])
      seven buffered client (fresh-IsValid counting world)
      (insert-IsValid Arena.new seven (record { input = 0; inner = 7 }) new-IsValid) refl
      client-Ready
