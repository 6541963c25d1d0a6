-- ===== src/Lockstep/State.antt =====
-- lockstep.rs, tick.rs and context.rs: the state that client and server share, and how one tick
-- changes it.
pub mod Applied
pub mod Guesses
pub mod Ticks
pub mod Validity
use kodiak.Base.{
  ℕ, ◌%◌, ◌^◌, not, ◌&&◌, Option, none, some, List, [], ◌∷◌, Outcome, returns, panics, ◌>>=◌,
  if◌then◌else◌, is_some, add_u32,
}
use kodiak.Collection.Arena.{ArenaMap, get, contains, insert, remove, modify, iter, map_values, new}
use kodiak.Collection.Arena.Key.{nonzero_key}
use kodiak.Lockstep.World.{
  PlayerId, LockstepWorld, LockstepPlayer, LockstepContext, LockstepPhase, perspective,
  interpolation_prediction,
}

pub record Lockstep (W : LockstepWorld) : Type 0 where
  pub context : LockstepContext W.Input W.Player
  pub world : W.World

-- One tick's news: players that are new, changed or gone (`none`), and the inputs to apply.
pub record LockstepTick (W : LockstepWorld) : Type 0 where
  pub checksum : Option ℕ
  pub overwrites : List (PlayerId × Option W.Player)
  pub inputs : ArenaMap PlayerId W.Input
  pub inner : W.Tick

module _ (W : LockstepWorld) where
  abbrev pub Players : Type 0
  Players = ArenaMap PlayerId (LockstepPlayer W.Input W.Player)

  abbrev pub default_tick : LockstepTick W
  default_tick = record { checksum = none; overwrites = []; inputs = new; inner = W.default_tick }

  -- `Lockstep::new`
  pub start : W.World → Lockstep W
  start world = record { context = record { tick_id = 0; players = new }; world = world }

  pub checksum : Lockstep W → ℕ
  checksum l = W.hash l.context l.world % 2 ^ 32

  -- A new player starts with the default input; one that is there keeps its input.
  pub overwrite : Players → PlayerId → Option W.Player → Players
  overwrite players id none = (remove players id).0
  overwrite players id (some inner) =
      if contains players id
      then modify players id (λ p. record p { inner = inner })
      else (insert players id (record { inner = inner; input = W.default_input })).0

  pub apply_overwrites : Players → List (PlayerId × Option W.Player) → Players
  unfolding overwrite
  apply_overwrites players [] = players
  apply_overwrites players ((id, o) ∷ rest) = apply_overwrites (overwrite players id o) rest

  -- An input for a player who is not there is a panic, unless the tick is a guess.
  pub apply_input : LockstepPhase W.F32 → Players → PlayerId → W.Input → Outcome Players
  apply_input phase players id input =
      if contains players id
      then returns (modify players id (λ p. record p { input = input }))
      else if not (is_some (perspective phase)) && not (interpolation_prediction phase)
      then panics
      else returns players

  pub apply_inputs : LockstepPhase W.F32 → Players → List (PlayerId × W.Input) → Outcome Players
  unfolding apply_input
  apply_inputs phase players [] = returns players
  apply_inputs phase players ((id, input) ∷ rest) = do
    players' ← apply_input phase players id input
    apply_inputs phase players' rest

  -- `Lockstep::tick`, with the infos that the game reports.
  pub tick : Lockstep W → LockstepTick W → LockstepPhase W.F32 → Outcome (Lockstep W × List W.Info)
  unfolding apply_overwrites apply_inputs
  tick l t phase = do
    let players = apply_overwrites l.context.players t.overwrites
    entries ← iter t.inputs
    players' ← apply_inputs phase players entries
    let context = record l.context { tick_id = add_u32 l.context.tick_id 1; players = players' }
    let (world, context', infos) = W.tick l.world t.inner context phase
    returns (record { context = context'; world = world }, infos)

  -- `LockstepContext::lerp`: a player that both have is between its two states, and has its next
  -- input.
  pub lerp_context :
      LockstepContext W.Input W.Player
      → LockstepContext W.Input W.Player
      → W.F32
      → LockstepPhase W.F32
      → Outcome (LockstepContext W.Input W.Player)
  lerp_context prev next t phase = do
    players ← map_values (λ id p. lerp_one id p (get prev.players id)) next.players
    returns (record { tick_id = next.tick_id; players = players })
    where
      lerp_one :
          PlayerId
          → LockstepPlayer W.Input W.Player
          → Option (LockstepPlayer W.Input W.Player)
          → LockstepPlayer W.Input W.Player
      lerp_one id p none = p
      lerp_one id p (some q) = record p { inner = W.lerp_player id q.inner p.inner t phase }

  pub lerp : Lockstep W → Lockstep W → W.F32 → LockstepPhase W.F32 → Outcome (Lockstep W)
  unfolding lerp_context
  lerp l next t phase = do
    let t' = W.floats.clamp t (W.floats.ratio 0 1) (W.floats.ratio 1 1)
    context ← lerp_context l.context next.context t' phase
    returns (record { context = context; world = W.lerp l.world next.world t' phase })
