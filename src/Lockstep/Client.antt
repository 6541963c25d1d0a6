-- ===== src/Lockstep/Client.antt =====
-- client.rs: what a client keeps of the shared state, and how it predicts past what the server said.
pub mod Frame
pub mod Follow
pub mod Validity
mod Tests
use Prim.Native.Nat
use kodiak.Base.{
  ℕ, zero, suc, ◌+◌, ◌%◌, ◌/◌, ◌^◌, min, Bool, true, false, not, ◌&&◌, Option, none, some, List, [],
  ◌∷◌, ◌++◌, Outcome, returns, panics, ◌>>=◌, ◌>>◌, assert, if◌then◌else◌, length, is_some, keep,
  ltb, ◌==◌, add_u32,
}
use mathlib.Core.Option
use kodiak.Collection.Arena
use kodiak.Collection.Arena.{ArenaMap}
use kodiak.Collection.Arena.Key.{nonzero_key}
use kodiak.Lockstep.World.{
  PlayerId, LockstepWorld, LockstepPhase, ground_truth, predicting,
  lerping_current_prediction_to_next_prediction,
  lerping_old_current_prediction_to_new_current_prediction, max_latency,
}
use kodiak.Lockstep.State
use kodiak.Lockstep.State.{Lockstep, LockstepTick, default_tick, start, checksum, lerp}
use kodiak.Lockstep.Input.{LockstepInputWindow}
use kodiak.Lockstep.Queue.{
  LockstepInputQueue, empty, is_full, pop_front, push_back, acknowledged, latency,
}
use kodiak.Lockstep.Server.{LockstepUpdate}

-- The `HistoryBuffer` of the crate heapless, of a fixed capacity: its last values, oldest first.
pub record HistoryBuffer : Type 1 where
  pub Buffer : Type 0
  pub no_history : Buffer
  pub write : Buffer → ℕ → Buffer
  pub recent : Buffer → Option ℕ
  pub values : Buffer → List ℕ

pub record LockstepClient (W : LockstepWorld) (H : HistoryBuffer) : Type 0 where
  pub real : Lockstep W
  pub player_id : Option PlayerId
  pub input_queue : LockstepInputQueue W
  pub predicted : Lockstep W
  pub predicted_next : Lockstep W
  pub interpolated : Lockstep W
  pub heard_from_server : Bool
  pub since_predicted_tick : W.F32
  pub smoothed_normalized_ticks_since_real : W.F32
  pub server_buffered_inputs : ℕ
  pub ping_latencies : H.Buffer
  pub total_latencies : H.Buffer
  pub info : List W.Info

-- `iter().sum::<u32>()`
pub sum_u32 : List ℕ → ℕ
sum_u32 [] = 0
sum_u32 (n ∷ ns) = add_u32 n (sum_u32 ns)

-- `checked_div`, and 0 for a division by zero.
pub checked_div_or_zero : ℕ → ℕ → ℕ
checked_div_or_zero a zero = 0
checked_div_or_zero a (suc b) = a / suc b

module _ (W : LockstepWorld) where
  -- One tick of a state into the future, with the client's own input if there is one.
  pub predict :
      Lockstep W → Option PlayerId → Bool → Option W.Input → Outcome (Lockstep W × List W.Info)
  predict predicted player_id interpolation_prediction input =
      let inputs : ArenaMap PlayerId W.Input = elim player_id [
        | none ↦ Arena.new
        | some id ↦ elim input [ none ↦ Arena.new | some i ↦ (Arena.insert Arena.new id i).0 ]
      ] in
      State.tick W predicted (record (default_tick W) { inputs = inputs })
        (predicting player_id interpolation_prediction)

  pub predict_all : Lockstep W → Option PlayerId → List W.Input → Outcome (Lockstep W)
  unfolding predict
  predict_all predicted player_id [] = returns predicted
  predict_all predicted player_id (input ∷ rest) = do
    (predicted', _) ← predict predicted player_id false (some input)
    predict_all predicted' player_id rest

  -- The infos of the real tick that were not predicted already; none before the client is loaded.
  pub unpredicted : Option PlayerId → List W.Info → List W.Info
  unpredicted none infos = []
  unpredicted (some id) infos = keep (λ info. not (W.is_predicted info id)) infos

  pub foretold : Option PlayerId → List W.Info → List W.Info
  foretold none infos = []
  foretold (some id) infos = keep (λ info. W.is_predicted info id) infos

module _ (W : LockstepWorld) (H : HistoryBuffer) where
  open W.floats use {ratio, of_ℕ, to_usize, add, sub, mul, div, neg, clamp, tan}

  abbrev Client : Type 0
  Client = LockstepClient W H

  -- `default`, of a world's default.
  pub default_client : W.World → Client
  default_client world = record {
    real = start W world;
    player_id = none;
    input_queue = empty W;
    predicted = start W world;
    predicted_next = start W world;
    interpolated = start W world;
    heard_from_server = false;
    since_predicted_tick = ratio 0 1;
    smoothed_normalized_ticks_since_real = ratio 0 1;
    server_buffered_inputs = 0;
    ping_latencies = H.no_history;
    total_latencies = H.no_history;
    info = [];
  }

  pub update_interpolated : Client → Outcome Client
  update_interpolated c = do
    interpolated ← lerp W c.predicted c.predicted_next c.since_predicted_tick (
        lerping_current_prediction_to_next_prediction c.player_id
          c.smoothed_normalized_ticks_since_real)
    returns (record c { interpolated = interpolated })

  -- A server's checksum that is not the client's own is a panic.
  pub check_desync : Client → Option ℕ → Outcome (Unit {0})
  check_desync c none = returns tt
  check_desync c (some checksum') = assert (checksum W c.real == checksum')

  -- The prediction that the new one is blended with, where the game asks for it.
  pub smooth_prediction : Client → Lockstep W → Outcome (Lockstep W)
  smooth_prediction c predicted =
      let old =
        if c.predicted_next.context.tick_id == predicted.context.tick_id
        then c.predicted_next
        else c.predicted in
      let blended =
        lerp W old predicted (W.floats.min (mul W.tick_period_secs (ratio 2 1)) (ratio 1 1))
          lerping_old_current_prediction_to_new_current_prediction in
      if W.interpolate_prediction then blended else returns predicted

  -- `LockstepClient::tick`, with the ping latency and the total latency.
  pub tick : Client → LockstepTick W → ℕ → ℕ → Outcome (Client × Option ℕ × Option ℕ)
  unfolding check_desync smooth_prediction update_interpolated predict_all
  tick c t last_applied_id last_received_id = do
    assert (ltb last_received_id c.input_queue.end && ltb last_applied_id c.input_queue.end)
    check_desync c t.checksum
    input_queue ← acknowledged W c.input_queue last_applied_id
    (real, infos) ← State.tick W c.real t ground_truth
    predicted' ← predict_all W real c.player_id input_queue.inputs
    predicted ← smooth_prediction c predicted'
    (predicted_next, _) ← predict W predicted c.player_id true none
    c' ← update_interpolated (record c {
      real = real;
      input_queue = input_queue;
      predicted = predicted;
      predicted_next = predicted_next;
      heard_from_server = true;
      smoothed_normalized_ticks_since_real = sub c.smoothed_normalized_ticks_since_real (ratio 1 1);
      info = c.info ++ unpredicted W c.player_id infos;
    })
    returns (
      c',
      (if last_received_id == 0 then none else some (latency W input_queue last_received_id)),
      if last_applied_id == 0 then none else some (latency W input_queue last_applied_id),
    )

  -- What an update that carries a whole state does first.
  pub initialize : Client → Option (PlayerId × Lockstep W) → Client
  initialize c none = c
  initialize c (some (id, initialization)) = record c {
    player_id = some id;
    real = initialization;
    predicted = initialization;
    predicted_next = initialization;
    interpolated = initialization;
    info = c.info ++ elim W.on_complete [ none ↦ [] | some info ↦ info ∷ [] ];
  }

  pub write_latency : H.Buffer → Option ℕ → H.Buffer
  write_latency buffer none = buffer
  write_latency buffer (some l) = H.write buffer l

  pub receive : Client → LockstepUpdate W → Outcome (Client × Option ℕ × Option ℕ)
  unfolding tick initialize write_latency
  receive c update = do
    (c', ping_latency, total_latency) ←
        tick
          (record (initialize c update.initialization) {
            server_buffered_inputs = update.buffered_inputs;
          })
          update.tick update.last_applied_input_id update.last_received_input_id
    returns (
      record c' {
        ping_latencies = write_latency c'.ping_latencies ping_latency;
        total_latencies = write_latency c'.total_latencies total_latency;
      },
      ping_latency,
      total_latency,
    )

  pub loaded : Client → Bool
  loaded c = is_some c.player_id

  pub client_buffer_usage : Client → W.F32
  client_buffer_usage c =
      mul (of_ℕ (length c.input_queue.inputs)) (div (ratio 1 1) (of_ℕ W.max_prediction))

  pub server_buffer_usage : Client → W.F32
  server_buffer_usage c =
      mul (of_ℕ c.server_buffered_inputs) (div (ratio 1 1) (of_ℕ W.buffered_ticks))

  pub lag_compensation_latency : Client → ℕ
  lag_compensation_latency c =
      min (elim (H.recent c.total_latencies) [ none ↦ 0 | some l ↦ l ]) (max_latency W) % 2 ^ 8

  pub average_ping_latency : Client → ℕ
  average_ping_latency c =
      checked_div_or_zero (sum_u32 (H.values c.ping_latencies)) (length (H.values c.ping_latencies))

  pub average_total_latency : Client → ℕ
  average_total_latency c =
      checked_div_or_zero (sum_u32 (H.values c.total_latencies))
        (length (H.values c.total_latencies))
