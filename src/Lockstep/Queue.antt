-- ===== src/Lockstep/Queue.antt =====
-- input_queue.rs: the inputs that a client has sent and that the server has not yet applied.
pub mod Laws
pub mod Pop
mod Tests
use kodiak.Base.{
  ℕ, ◌+◌, ◌-◌, ◌≤◌, ◌<◌, ◌≡◌, ◌^◌, Bool, true, false, List, [], ◌∷◌, ◌++◌, length, drop, arith,
  Outcome, returns, panics, ◌>>=◌, ◌>>◌, assert, not, if◌then◌else◌, ltb, leb, sub_u32,
}
use kodiak.Lockstep.World.{LockstepWorld}
use kodiak.Lockstep.Input.{LockstepInputWindow, LockstepInput, number_from}

pub record LockstepInputQueue (W : LockstepWorld) : Type 0 where
  pub inputs : List W.Input
  -- One past the id of the last input.
  pub end : ℕ

module _ (W : LockstepWorld) where
  -- `default`: id 0 is never sent.
  pub empty : LockstepInputQueue W
  empty = record { inputs = []; end = 1 }

  pub is_full : LockstepInputQueue W → Bool
  is_full q = leb W.max_prediction (length q.inputs)

  -- `Vec::remove(0)`
  pub pop_front : LockstepInputQueue W → Outcome (LockstepInputQueue W)
  pop_front q = elim q.inputs [ [] ↦ panics | x ∷ rest ↦ returns (record q { inputs = rest }) ]

  -- The input gets the id `end`; the last few inputs, or it alone, go into the window. It is a panic
  -- to run out of ids, to push onto a full vector, and to collect more than a window holds.
  pub push_back :
      LockstepInputQueue W
      → W.Input
      → Bool
      → Outcome (LockstepInputQueue W × LockstepInputWindow W.Input)
  push_back q input unreliable =
      let inputs = q.inputs ++ (input ∷ []) in
      let sliding_window : ℕ = if unreliable then W.inputs_per_efficient_packet else 1 in
      let window = drop (length inputs - sliding_window) inputs in
      do
        assert (ltb (q.end + 1) (2 ^ 32))
        assert (ltb (length q.inputs) W.max_prediction)
        assert (leb (length window) W.inputs_per_efficient_packet)
        returns (
          record { inputs = inputs; end = q.end + 1 },
          record { sliding_window = window; last_input_id = q.end },
        )

  -- The server has applied everything up to and including `last_applied_id`. `drain(..=n)` panics
  -- past the end.
  pub acknowledged : LockstepInputQueue W → ℕ → Outcome (LockstepInputQueue W)
  acknowledged q last_applied_id =
      let start = sub_u32 q.end (length q.inputs) in
      if ltb last_applied_id start
      then returns q
      else if ltb (last_applied_id - start) (length q.inputs)
      then returns (record q { inputs = drop (last_applied_id - start + 1) q.inputs })
      else panics

  pub latency : LockstepInputQueue W → ℕ → ℕ
  latency q received_id = sub_u32 (sub_u32 q.end 1) received_id

  -- The inputs of the queue with their ids.
  abbrev pub numbered : LockstepInputQueue W → List (LockstepInput W.Input)
  numbered q = number_from (q.end - length q.inputs) q.inputs

  -- The ids are those below `end`, and id 0 is not among them.
  pub record IsValid (q : LockstepInputQueue W) : Type 0 where
    pub started : length q.inputs < q.end
    pub fits : q.end < 2 ^ 32
    pub bounded : length q.inputs ≤ W.max_prediction
