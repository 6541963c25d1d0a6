-- ===== src/Lockstep/Client/Frame.antt =====
-- client.rs: the client's own time. Each frame predicts the ticks that have passed, sends their
-- inputs, and interpolates.
pub mod Predicted
mod Tests
use Prim.Native.Nat
use kodiak.Base.{
  ℕ, zero, suc, min, Bool, true, false, Option, none, some, List, [], ◌∷◌, ◌++◌, Outcome, returns,
  ◌>>=◌, if◌then◌else◌,
}
use kodiak.Lockstep.World.{LockstepWorld}
use kodiak.Lockstep.Input.{LockstepInputWindow}
use kodiak.Lockstep.Queue.{is_full, pop_front, push_back}
use kodiak.Lockstep.Client.{
  LockstepClient, HistoryBuffer, predict, foretold, loaded, client_buffer_usage,
  server_buffer_usage, update_interpolated,
}

module _ (W : LockstepWorld) (H : HistoryBuffer) where
  open W.floats use {F32, ratio, of_ℕ, to_usize, add, sub, mul, div, neg, clamp, tan}

  abbrev Client : Type 0
  Client = LockstepClient W H

  abbrev Window : Type 0
  Window = LockstepInputWindow W.Input

  -- The second half of `tick_predicted`, with room in the queue.
  pub predict_and_push : Client → W.Input → Bool → Outcome (Client × Option Window)
  predict_and_push c input unreliable = do
    (predicted, infos) ← predict W c.predicted c.player_id false (some input)
    (input_queue, window) ← push_back W c.input_queue input unreliable
    returns (
      record c {
        predicted = predicted;
        input_queue = input_queue;
        info = c.info ++ foretold W c.player_id infos;
      },
      some window,
    )

  -- A full queue loses its oldest input if the server has been heard from since the last call, and
  -- refuses the new one, as `none`, if not.
  pub tick_predicted : Client → W.Input → Bool → Outcome (Client × Option Window)
  unfolding predict_and_push
  tick_predicted c input unreliable =
      let c' = record c { heard_from_server = false } in
      let popped = do
        input_queue ← pop_front W c.input_queue
        predict_and_push (record c' { input_queue = input_queue }) input unreliable
      in if is_full W c.input_queue
        then if c.heard_from_server then popped else returns (c', none)
        else predict_and_push c' input unreliable

  -- The loop of `update`, `n` rounds from the `i`-th call of `input` on: the windows that it sends,
  -- and how many rounds it went through.
  pub send_inputs :
      (ℕ → Bool → W.Input) → Bool → ℕ → ℕ → Client → Outcome (Client × List Window × ℕ)
  unfolding tick_predicted
  send_inputs input unreliable i zero c = returns (c, [], i)
  send_inputs input unreliable i (suc n) c = do
    (c', sent) ← tick_predicted c (input i true) unreliable
    elim sent [
      | none ↦ returns (c', [], i)
      | some window ↦ do
        (c'', windows, whole) ← send_inputs input unreliable (suc i) n c'
        returns (c'', window ∷ windows, whole)
    ]

  pub adjusted_tick_period_secs : Client → Bool → F32
  adjusted_tick_period_secs c supports_unreliable =
      let buffer_usage =
        add (mul (server_buffer_usage W H c) (ratio 1 2))
          (mul (client_buffer_usage W H c) (ratio 1 2)) in
      let error = mul (ratio 2 1) (sub buffer_usage (W.target_buffer supports_unreliable)) in
      let tick_scale =
        add (ratio 1 1) (mul (ratio 1 4) (tan (clamp error (neg (ratio 1 1)) (ratio 1 1)))) in
      mul W.tick_period_secs tick_scale

  -- How `update` moves the smoothed time since the last real tick.
  pub smooth : F32 → F32 → F32
  smooth t elapsed_seconds =
      let t' = add t (mul elapsed_seconds (div (ratio 1 1) W.tick_period_secs)) in
      let bound = div (ratio 1 10) W.tick_period_secs in
      let t'' =
        add t' (clamp (neg t') (mul (neg elapsed_seconds) bound) (mul elapsed_seconds bound)) in
      clamp t'' (neg (ratio 1 1)) (ratio 1 1)

  -- `update`. The closure `input` is a function of the number of its call; the windows that are sent
  -- and the infos that are drained are results.
  pub update :
      Client → F32 → Bool → (ℕ → Bool → W.Input) → Outcome (Client × List Window × List W.Info)
  unfolding send_inputs smooth adjusted_tick_period_secs
  update c elapsed_seconds supports_unreliable input =
      let period = adjusted_tick_period_secs c supports_unreliable in
      let since = add c.since_predicted_tick (div elapsed_seconds period) in
      let run = do
        (c', windows, whole) ←
            send_inputs input supports_unreliable 0 (min (to_usize since) W.buffered_ticks)
              (record c { since_predicted_tick = since })
        (predicted_next, _) ←
            predict W c'.predicted c'.player_id true
              (some (input (rounds (min (to_usize since) W.buffered_ticks) whole) false))
        c'' ← update_interpolated W H (record c' {
          since_predicted_tick =
              clamp (sub since (of_ℕ whole)) (ratio 0 1) (div (ratio 2 1) period);
          predicted_next = predicted_next;
          smoothed_normalized_ticks_since_real =
              smooth c'.smoothed_normalized_ticks_since_real elapsed_seconds;
        })
        returns (record c'' { info = [] }, windows, c''.info)
      in if loaded W H c then run else returns (record c { info = [] }, [], c.info)
    where
      -- The calls of `input` so far: a refused input has been asked for too.
      rounds : ℕ → ℕ → ℕ
      rounds asked whole = min asked (suc whole)
