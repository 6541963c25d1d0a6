-- ===== src/Lockstep/State/Ticks.antt =====
-- `Lockstep::tick`, as a whole: it does not panic where every input is a present player's, and the
-- game sees exactly the players that the overwrites and inputs describe.
use mathlib.Core.Option
use kodiak.Base.{◌≡◌, ◌∙◌, sym, ap, refl, true, Option, none, some, List, is_some, returns, add_u32}
use kodiak.Collection.Arena
use kodiak.Collection.Arena.{ArenaMap, contains}
use kodiak.Collection.Arena.Key.{nonzero_key}
use kodiak.Collection.Arena.Invariant.{IsValid}
use kodiak.Collection.Arena.Iterate.{iter-Returns, find-All}
use kodiak.Collection.Arena.Modify.{contains_lem}
use kodiak.Lockstep.Overwrites
use kodiak.Lockstep.Overwrites.{Rising}
use kodiak.Lockstep.World.{PlayerId, LockstepWorld, LockstepPlayer, LockstepPhase}
use kodiak.Lockstep.State.{Lockstep, LockstepTick, Players, apply_overwrites, tick}
use kodiak.Lockstep.State.Applied.{
  inner_of, input_of, inner_of-apply_overwrites, apply_inputs-Applied,
}

module _ (W : LockstepWorld) where
  -- A player's state once the overwrites are applied.
  abbrev pub pending : Players W → List (PlayerId × Option W.Player) → PlayerId → Option W.Player
  pending players os id = elim (Overwrites.get os id) [ some o ↦ o | none ↦ inner_of W players id ]

  -- The players that the game's own tick is given.
  pub record Applied (l : Lockstep W) (t : LockstepTick W) (players : Players W) : Type 0 where
    pub states : (id : PlayerId) → inner_of W players id ≡ pending l.context.players t.overwrites id
    pub inputs :
        (id : PlayerId)
        → input_of W players id ≡ elim (Arena.get t.inputs id) [
          | some v ↦ some v
          | none ↦ input_of W (apply_overwrites W l.context.players t.overwrites) id
        ]

  -- Every input is that of a player who is there once the overwrites are applied.
  abbrev pub Expected : Lockstep W → LockstepTick W → Type 0
  Expected l t =
      (id : PlayerId)
      → is_some (Arena.get t.inputs id) ≡ true
      → is_some (pending l.context.players t.overwrites id) ≡ true

  -- The state after the game's own tick, over given players.
  abbrev pub ticked :
      Lockstep W → LockstepTick W → LockstepPhase W.F32 → Players W → Lockstep W × List W.Info
  ticked l t phase players =
      let context = record l.context { tick_id = add_u32 l.context.tick_id 1; players = players } in
      let (world, context', infos) = W.tick l.world t.inner context phase in
      (record { context = context'; world = world }, infos)

  contains-apply_overwrites :
      (players : Players W) (os : List (PlayerId × Option W.Player)) (id : PlayerId)
      → Rising 0 os
      → contains (apply_overwrites W players os) id ≡ is_some (pending players os id)
  contains-apply_overwrites players os id r =
      contains_lem (apply_overwrites W players os) id
      ∙ is_some-map (Arena.get (apply_overwrites W players os) id)
      ∙ ap is_some (inner_of-apply_overwrites W players os id 0 r)
    where
      is_some-map :
          (o : Option (LockstepPlayer W.Input W.Player))
          → is_some o ≡ is_some (Option.map (λ p. p.inner) o)
      is_some-map none = refl
      is_some-map (some p) = refl

  -- Where the map of inputs is valid, the overwrites rise, and every input is that of a player who
  -- is there once the overwrites are applied, `tick` returns, in any phase. What it returns is the
  -- game's tick at the next tick id, over players that have the states which the overwrites leave
  -- and the inputs which the tick brings.
  pub tick-Returns :
      (l : Lockstep W) (t : LockstepTick W) (phase : LockstepPhase W.F32)
      → IsValid t.inputs
      → Rising 0 t.overwrites
      → Expected l t
      → (players : Players W) × Applied l t players
        × (tick W l t phase ≡ returns (ticked l t phase players))
  unfolding tick
  tick-Returns l t phase valid r h =
      let before = apply_overwrites W l.context.players t.overwrites in
      let (es, e, listed) = iter-Returns t.inputs valid in
      let there =
        find-All (λ id. contains before id ≡ true) es
          (λ id f.
            contains-apply_overwrites l.context.players t.overwrites id r
            ∙ h id (sym (ap is_some (listed.2 id)) ∙ f)) in
      let (players, e', d) = apply_inputs-Applied W phase before es 0 listed.1 there in
      (
        players,
        record {
          states =
              λ id. d.states id ∙ inner_of-apply_overwrites W l.context.players t.overwrites id 0 r;
          inputs = λ id.
              d.inputs id
              ∙ ap (λ o. elim o [ some v ↦ some v | none ↦ input_of W before id ]) (listed.2 id);
        },
        rw (e, e'),
      )
