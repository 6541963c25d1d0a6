-- ===== src/Lockstep/Server.antt =====
-- server.rs and update.rs: the authoritative state, and the inputs gathered for its next tick.
pub mod Players
pub mod Validity
pub mod Messages
pub mod Feed
pub mod Inputs
pub mod Turns
mod Tests
use kodiak.Base.{
  ℕ, Bool, true, false, not, Option, none, some, List, [], ◌∷◌, Outcome, returns, panics, ◌>>=◌,
  ◌>>◌, assert, if◌then◌else◌, length, is_some,
}
use mathlib.Core.Option
use kodiak.Collection.Arena
use kodiak.Collection.Arena.{ArenaMap}
use kodiak.Collection.Arena.Key.{nonzero_key}
use kodiak.Lockstep.Overwrites
use kodiak.Ids.{is_client}
use kodiak.Lockstep.World.{PlayerId, LockstepWorld, LockstepPlayer, ground_truth}
use kodiak.Lockstep.State.{Lockstep, LockstepTick, default_tick, start, checksum, tick}
use kodiak.Lockstep.Input.{LockstepInputWindow}
use kodiak.Lockstep.ClientData.{LockstepClientData, receive}

pub record LockstepServer (W : LockstepWorld) : Type 0 where
  pub real : Lockstep W
  pub current : LockstepTick W

-- What a client is sent each tick.
pub record LockstepUpdate (W : LockstepWorld) : Type 0 where
  pub initialization : Option (PlayerId × Lockstep W)
  pub last_applied_input_id : ℕ
  pub last_received_input_id : ℕ
  pub tick : LockstepTick W
  pub buffered_inputs : ℕ

module _ {V1 V2 : Type 0} where
  -- A pending overwrite hides what the map holds, also where it removes the key.
  pub lockstep_get :
      ArenaMap PlayerId V1 → (V1 → V2) → List (PlayerId × Option V2) → PlayerId → Option V2
  lockstep_get map convert overwrites key = elim (Overwrites.get overwrites key) [
    | some o ↦ o
    | none ↦ Option.map convert (Arena.get map key)
  ]

  -- The entry for the key, made from the map where there is none: the new overwrites, and what the
  -- returned reference reads.
  pub lockstep_mut :
      ArenaMap PlayerId V1
      → (V1 → V2)
      → List (PlayerId × Option V2)
      → PlayerId
      → List (PlayerId × Option V2) × Option V2
  lockstep_mut map convert overwrites key = elim (Overwrites.get overwrites key) [
    | some o ↦ (overwrites, o)
    | none ↦
        let o = Option.map convert (Arena.get map key) in (Overwrites.insert overwrites key o, o)
  ]

module _ (W : LockstepWorld) where
  pub new : W.World → LockstepServer W
  new world = record { real = start W world; current = default_tick W }

  pub player : LockstepServer W → PlayerId → Option W.Player
  unfolding lockstep_get
  player s id = lockstep_get s.real.context.players (λ p. p.inner) s.current.overwrites id

  -- `*server.player_mut(id) = value`: the reference is taken, and written through.
  pub set_player : LockstepServer W → PlayerId → Option W.Player → LockstepServer W
  unfolding lockstep_mut
  set_player s id value =
      let (overwrites, _) =
        lockstep_mut s.real.context.players (λ p. p.inner) s.current.overwrites id in
      record s { current = record s.current { overwrites = Overwrites.insert overwrites id value } }

  -- `existing_player_mut`, with the write that follows it.
  pub modify_existing_player :
      LockstepServer W → PlayerId → (W.Player → W.Player) → LockstepServer W
  unfolding player set_player
  modify_existing_player s id f = elim (player s id) [
    | none ↦ s
    | some p ↦ set_player s id (some (f p))
  ]

  pub player_left : LockstepServer W → PlayerId → LockstepServer W
  unfolding set_player
  player_left s id =
      let s' = set_player s id none in
      record s' { current = record s'.current { inputs = (Arena.remove s'.current.inputs id).0 } }

  -- `self.current.inputs.insert`
  pub set_input : LockstepServer W → PlayerId → W.Input → LockstepServer W
  set_input s id input = record s {
    current = record s.current { inputs = (Arena.insert s.current.inputs id input).0 };
  }

  -- `request` without client data, from a bot: `sliding_window[0]` panics on an empty window.
  pub request_bot :
      LockstepServer W → PlayerId → LockstepInputWindow W.Input → Outcome (LockstepServer W)
  unfolding player set_input
  request_bot s id request =
      if is_some (player s id)
      then elim request.sliding_window [ [] ↦ panics | input ∷ _ ↦ returns (set_input s id input) ]
      else returns s

  pub request :
      LockstepServer W
      → PlayerId
      → LockstepInputWindow W.Input
      → Option (LockstepClientData W)
      → Outcome (LockstepServer W × Option (LockstepClientData W))
  unfolding request_bot
  request s id w (some client) = returns (s, some (receive W client w))
  request s id w none = do s' ← request_bot s id w; returns (s', none)

  -- The oldest buffered input of a client whose player is there becomes the player's input.
  pub update_client :
      LockstepServer W → PlayerId → LockstepClientData W → LockstepServer W × LockstepClientData W
  unfolding player set_input
  update_client s id client =
      if is_some (player s id)
      then elim client.receive_buffer [
        | [] ↦ (s, client)
        | input ∷ rest ↦ (
          set_input s id input.inner,
          record client { last_applied_command_id = input.input_id; receive_buffer = rest },
        )
      ]
      else (s, client)

  pub update_clients :
      LockstepServer W
      → List (PlayerId × LockstepClientData W)
      → LockstepServer W × List (PlayerId × LockstepClientData W)
  unfolding update_client
  update_clients s [] = (s, [])
  update_clients s ((id, client) ∷ rest) =
      let (s', client') = update_client s id client in
      let (s'', rest') = update_clients s' rest in (s'', (id, client') ∷ rest')

  pub update :
      LockstepServer W
      → List (PlayerId × LockstepClientData W)
      → LockstepServer W × List (PlayerId × LockstepClientData W)
  unfolding update_clients
  update s clients =
      let (s', clients') = update_clients s clients in
      (record s' { current = record s'.current { checksum = some (checksum W s'.real) } }, clients')

  -- The first update to a client carries the whole state, and starts its ids anew. The assertion is
  -- that the id is a client's.
  pub client_update :
      LockstepServer W
      → PlayerId
      → LockstepClientData W
      → Outcome (LockstepUpdate W × LockstepClientData W)
  client_update s id client =
      let client' = if client.initialized then client else record client {
        initialized = true;
        last_applied_command_id = 0;
        last_received_command_id = 0;
      } in
      do
        assert (is_client id)
        returns (
          record {
            initialization = if client.initialized then none else some (id, s.real);
            last_applied_input_id = client'.last_applied_command_id;
            last_received_input_id = client'.last_received_command_id;
            tick = s.current;
            buffered_inputs = length client'.receive_buffer;
          },
          client',
        )

  pub post_update : LockstepServer W → Outcome (LockstepServer W × List W.Info)
  post_update s = do
    (real, infos) ← tick W s.real s.current ground_truth
    returns (record { real = real; current = default_tick W }, infos)
