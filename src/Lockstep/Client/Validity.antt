-- ===== src/Lockstep/Client/Validity.antt =====
-- Predictions and interpolations on the client return, and keep the map of the players valid.
use kodiak.Base.{
  ℕ, ◌≡◌, refl, subst, Bool, false, Option, some, List, [], ◌∷◌, ==_refl, if_cases, returns,
  Returns, Safely, Returns-bind,
}
use kodiak.Collection.Arena.Key.{nonzero_key}
use kodiak.Lockstep.World.{PlayerId, LockstepWorld}
use kodiak.Lockstep.State.{Lockstep, checksum}
use kodiak.Lockstep.State.Validity.{
  PlayersValid, KeepsPlayers, tick-PlayersValid, lerp-PlayersValid,
}
use kodiak.Lockstep.Client.{
  LockstepClient, HistoryBuffer, predict, predict_all, smooth_prediction, update_interpolated,
  check_desync,
}
use kodiak.Lockstep.Client.Frame.Predicted.{predict-Returns}

module _ (W : LockstepWorld) (keeps : KeepsPlayers W) where
  pub predict-PlayersValid :
      (l : Lockstep W) (who : Option PlayerId) (extra : Bool) (input : Option W.Input)
      → PlayersValid W l
      → Returns (λ r. PlayersValid W r.0) (predict W l who extra input)
  unfolding predict
  predict-PlayersValid l who extra input valid =
      let (r, e, _) = predict-Returns W l who extra input in
      (r, e, subst (Safely (λ r. PlayersValid W r.0)) e (tick-PlayersValid W l _ _ keeps valid))

  pub predict_all-PlayersValid :
      (l : Lockstep W) (who : Option PlayerId) (inputs : List W.Input)
      → PlayersValid W l
      → Returns (PlayersValid W) (predict_all W l who inputs)
  unfolding predict_all
  predict_all-PlayersValid l who [] valid = (l, refl, valid)
  predict_all-PlayersValid l who (input ∷ inputs) valid =
      Returns-bind (λ r. PlayersValid W r.0) (PlayersValid W) (predict W l who false (some input)) _
        (predict-PlayersValid l who false (some input) valid)
        (λ r v. predict_all-PlayersValid r.0 who inputs v)

module _ (W : LockstepWorld) (H : HistoryBuffer) where
  pub smooth_prediction-PlayersValid :
      (c : LockstepClient W H) (predicted : Lockstep W)
      → PlayersValid W predicted
      → Returns (PlayersValid W) (smooth_prediction W H c predicted)
  unfolding smooth_prediction
  smooth_prediction-PlayersValid c predicted valid =
      if_cases (Returns (PlayersValid W)) W.interpolate_prediction
        (λ _. lerp-PlayersValid W _ predicted _ _ valid) (λ _. (predicted, refl, valid))

  pub update_interpolated-Returns :
      (c : LockstepClient W H)
      → PlayersValid W c.predicted_next
      → Returns (λ c'. c'.real ≡ c.real) (update_interpolated W H c)
  unfolding update_interpolated
  update_interpolated-Returns c valid =
      Returns-bind (PlayersValid W) (λ c'. c'.real ≡ c.real) _ _
        (lerp-PlayersValid W c.predicted c.predicted_next _ _ valid)
        (λ interpolated v. (_, refl, refl))

  pub check_desync-returns :
      (c : LockstepClient W H) (o : Option ℕ)
      → o ≡ some (checksum W c.real)
      → check_desync W H c o ≡ returns tt
  unfolding check_desync
  check_desync-returns c o e = rw (e, ==_refl)
