-- ===== src/Lockstep/Sample.antt =====
-- A small game for the tests. Whole numbers stand in for floats, every state is a number, and a
-- tick adds the number in the tick to the world.
use kodiak.Base.{arith, ℕ, ◌+◌, ◌-◌, ◌/◌, ◌*◌, false, none, [], min, leb}
use kodiak.Lockstep.World.{LockstepWorld, Floats, PlayerId}

-- Whole numbers stand in for the floats.
abbrev pub whole : Floats
whole = record {
  F32 = ℕ;
  ratio = λ a b. a / b;
  of_ℕ = λ n. n;
  to_usize = λ n. n;
  add = λ a b. a + b;
  sub = λ a b. a - b;
  mul = λ a b. a * b;
  div = λ a b. a / b;
  neg = λ a. a;
  min = min;
  clamp = λ a lo hi. min a hi;
  tan = λ a. a;
}

-- The player's state is the sum of the player's inputs; a tick adds to the world the tick's number.
abbrev pub counting : LockstepWorld
counting = record {
  floats = whole;
  World = ℕ;
  Player = ℕ;
  Input = ℕ;
  Info = ℕ;
  Tick = ℕ;
  default_input = 0;
  default_tick = 0;
  tps = 10;
  tick_period_secs = 1;
  inputs_per_efficient_packet = 2;
  lag_compensation = 7;
  max_prediction = 4;
  buffered_ticks = 3;
  interpolate_prediction = false;
  target_buffer = λ u. 0;
  tick = λ w t c p. (w + t, c, []);
  on_complete = none;
  lerp = λ a b t p. b;
  lerp_player = λ i a b t p. b;
  is_valid = λ i. leb i 100;
  is_predicted = λ i p. false;
  hash = λ c w. w + c.tick_id;
}

-- The fourth client.
abbrev pub seven : PlayerId
seven = (7, (omega arith, omega arith))

-- The first bot.
abbrev pub two : PlayerId
two = (2, (omega arith, omega arith))
