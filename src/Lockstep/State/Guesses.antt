-- ===== src/Lockstep/State/Guesses.antt =====
-- A tick that guesses: it drops the inputs of absent players, and never panics.
use kodiak.Base.{
  ◌≡◌, ◌∙◌, refl, Bool, true, Option, none, some, List, [], ◌∷◌, is_some, Bool-cases, inl, inr, ◌⊎◌,
  Returns,
}
use kodiak.Collection.Arena
use kodiak.Collection.Arena.{ArenaMap, contains}
use kodiak.Collection.Arena.Key.{nonzero_key}
use kodiak.Collection.Arena.Invariant
use kodiak.Collection.Arena.Invariant.{new-IsValid}
use kodiak.Collection.Arena.Iterate.{iter-Returns, iter-new}
use kodiak.Lockstep.World.{
  PlayerId, LockstepWorld, predicting, perspective, interpolation_prediction,
}
use kodiak.Lockstep.State.{
  Lockstep, Players, default_tick, apply_input, apply_inputs, apply_overwrites, tick,
}
use kodiak.Lockstep.State.Applied.{inner_of, inner_of-give_input, give_input}
use kodiak.Lockstep.State.Ticks.{ticked}

module _ (W : LockstepWorld) where
  -- No player's state is changed.
  abbrev pub SameStates : Players W → Players W → Type 0
  SameStates before after = (id : PlayerId) → inner_of W after id ≡ inner_of W before id

  -- In a guess, an input for a player who is not there is dropped.
  apply_inputs-guess :
      (who : Option PlayerId) (players : Players W) (es : List (PlayerId × W.Input)) (extra : Bool)
      → is_some who ≡ true
      → Returns (SameStates players) (apply_inputs W (predicting who extra) players es)
  unfolding apply_inputs apply_input perspective interpolation_prediction
  apply_inputs-guess who players [] extra h = (players, refl, λ id. refl)
  apply_inputs-guess none players (e ∷ es) extra h = cc
  apply_inputs-guess (some who) players ((id, input) ∷ es) extra h =
      elim (Bool-cases (contains players id)) [
        | inl there ↦
            let (r, e, same) =
              apply_inputs-guess (some who) (Arena.modify players id (give_input W input)) es extra
                refl in
            (r, rw there e, λ j. same j ∙ inner_of-give_input W players id j input)
        | inr away ↦
            let (r, e, same) = apply_inputs-guess (some who) players es extra refl in
            (r, rw (away, perspective) e, same)
      ]

  pub guess-Returns :
      (l : Lockstep W) (who : Option PlayerId) (extra : Bool) (inputs : ArenaMap PlayerId W.Input)
      → Invariant.IsValid inputs
      → (is_some who ≡ true) ⊎ (inputs ≡ Arena.new)
      → Returns
          (λ r.
            (players : Players W) × SameStates l.context.players players
            × (r ≡ ticked W l (default_tick W) (predicting who extra) players))
          (tick W l (record (default_tick W) { inputs = inputs }) (predicting who extra))
  unfolding tick apply_overwrites apply_inputs
  guess-Returns l who extra inputs valid (inl someone) =
      let (es, e, listed) = iter-Returns inputs valid in
      let (players, e', same) = apply_inputs-guess who l.context.players es extra someone in
      (
        ticked W l (default_tick W) (predicting who extra) players,
        rw (e, e'),
        (players, same, refl),
      )
  guess-Returns l who extra inputs valid (inr none_given) = (
    ticked W l (default_tick W) (predicting who extra) l.context.players,
    rw (none_given, iter-new),
    (l.context.players, λ id. refl, refl),
  )
