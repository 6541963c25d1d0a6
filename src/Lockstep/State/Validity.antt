-- ===== src/Lockstep/State/Validity.antt =====
-- The map of the players stays valid through ticks and interpolation, if the game's tick keeps it.
use kodiak.Base.{
  refl, not, ◌&&◌, is_some, Option, none, some, List, [], ◌∷◌, Outcome, returns, panics, Returns,
  Safely, Safely-bind, Returns-bind, if_cases,
}
use kodiak.Collection.Arena
use kodiak.Collection.Arena.{ArenaMap}
use kodiak.Collection.Arena.Key.{nonzero_key}
use kodiak.Collection.Arena.Invariant
use kodiak.Collection.Arena.Invariant.{insert-IsValid, remove-IsValid}
use kodiak.Collection.Arena.Shape.{modify-IsValid, map_values-IsValid}
use kodiak.Lockstep.World.{
  PlayerId, LockstepWorld, LockstepPlayer, LockstepContext, LockstepPhase, perspective,
  interpolation_prediction,
}
use kodiak.Lockstep.State.{
  Lockstep, LockstepTick, Players, overwrite, apply_overwrites, apply_input, apply_inputs, tick,
  lerp, lerp_context,
}

module _ (W : LockstepWorld) where
  abbrev pub PlayersValid : Lockstep W → Type 0
  PlayersValid l = Invariant.IsValid l.context.players

  -- What the game's tick owes: it changes the players only through the map's operations, which keep
  -- the map valid.
  abbrev pub KeepsPlayers : Type 0
  KeepsPlayers =
      (world : W.World) (t : W.Tick) (context : LockstepContext W.Input W.Player)
      (phase : LockstepPhase W.F32)
      → Invariant.IsValid context.players
      → Invariant.IsValid (W.tick world t context phase).1.players

  overwrite-IsValid :
      (players : Players W) (id : PlayerId) (o : Option W.Player)
      → Invariant.IsValid players
      → Invariant.IsValid (overwrite W players id o)
  unfolding overwrite
  overwrite-IsValid players id none valid = remove-IsValid players id valid
  overwrite-IsValid players id (some inner) valid =
      if_cases Invariant.IsValid (Arena.contains players id)
        (λ _. modify-IsValid players id (λ p. record p { inner = inner }) valid)
        (λ _. insert-IsValid players id (record { inner = inner; input = W.default_input }) valid)

  apply_overwrites-IsValid :
      (players : Players W) (os : List (PlayerId × Option W.Player))
      → Invariant.IsValid players
      → Invariant.IsValid (apply_overwrites W players os)
  unfolding apply_overwrites
  apply_overwrites-IsValid players [] valid = valid
  apply_overwrites-IsValid players ((id, o) ∷ os) valid =
      apply_overwrites-IsValid (overwrite W players id o) os (overwrite-IsValid players id o valid)

  apply_input-IsValid :
      (phase : LockstepPhase W.F32) (players : Players W) (id : PlayerId) (input : W.Input)
      → Invariant.IsValid players
      → Safely Invariant.IsValid (apply_input W phase players id input)
  unfolding apply_input
  apply_input-IsValid phase players id input valid =
      if_cases (Safely Invariant.IsValid) (Arena.contains players id)
        (λ _. modify-IsValid players id (λ p. record p { input = input }) valid)
        (λ _.
          if_cases (Safely (Invariant.IsValid {K = PlayerId} {V = LockstepPlayer W.Input W.Player}))
            (not (is_some (perspective phase)) && not (interpolation_prediction phase)) {x = panics}
            {y = returns players} (λ _. tt) (λ _. valid))

  apply_inputs-IsValid :
      (phase : LockstepPhase W.F32) (players : Players W) (es : List (PlayerId × W.Input))
      → Invariant.IsValid players
      → Safely Invariant.IsValid (apply_inputs W phase players es)
  unfolding apply_inputs
  apply_inputs-IsValid phase players [] valid = valid
  apply_inputs-IsValid phase players ((id, input) ∷ es) valid =
      Safely-bind Invariant.IsValid Invariant.IsValid (apply_input W phase players id input) _
        (apply_input-IsValid phase players id input valid)
        (λ players' v. apply_inputs-IsValid phase players' es v)

  pub tick-PlayersValid :
      (l : Lockstep W) (t : LockstepTick W) (phase : LockstepPhase W.F32)
      → KeepsPlayers
      → PlayersValid l
      → Safely (λ r. PlayersValid r.0) (tick W l t phase)
  unfolding tick
  tick-PlayersValid l t phase keeps valid =
      Safely-bind (λ es. Unit {0}) (λ r. PlayersValid r.0) (Arena.iter t.inputs) _
        (any_result (Arena.iter t.inputs))
        (λ es _.
          Safely-bind Invariant.IsValid (λ r. PlayersValid r.0)
            (apply_inputs W phase (apply_overwrites W l.context.players t.overwrites) es) _
            (apply_inputs-IsValid phase _ es
              (apply_overwrites-IsValid l.context.players t.overwrites valid))
            (λ players v. keeps l.world t.inner _ phase v))
    where
      any_result : {A : Type 0} (m : Outcome A) → Safely (λ (a : A). Unit {0}) m
      any_result panics = tt
      any_result (returns a) = tt

  lerp_context-Returns :
      (prev next : LockstepContext W.Input W.Player) (time : W.F32) (phase : LockstepPhase W.F32)
      → Invariant.IsValid next.players
      → Returns (λ context. Invariant.IsValid context.players) (lerp_context W prev next time phase)
  unfolding lerp_context
  lerp_context-Returns prev next time phase valid =
      Returns-bind Invariant.IsValid (λ context. Invariant.IsValid context.players)
        (Arena.map_values _ next.players) _ (map_values-IsValid _ next.players valid)
        (λ players v. (_, refl, v))

  pub lerp-PlayersValid :
      (l next : Lockstep W) (time : W.F32) (phase : LockstepPhase W.F32)
      → PlayersValid next
      → Returns PlayersValid (lerp W l next time phase)
  unfolding lerp
  lerp-PlayersValid l next time phase valid =
      Returns-bind (λ context. Invariant.IsValid context.players) PlayersValid
        (lerp_context W l.context next.context
          (W.floats.clamp time (W.floats.ratio 0 1) (W.floats.ratio 1 1)) phase)
        _ (lerp_context-Returns l.context next.context _ phase valid) (λ context v. (_, refl, v))
