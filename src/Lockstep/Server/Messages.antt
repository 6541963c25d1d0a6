-- ===== src/Lockstep/Server/Messages.antt =====
-- What the server sends a client, against its own next tick.
use kodiak.Base.{
  ◌≡◌, ◌∙◌, refl, true, false, none, some, List, [], ◌∷◌, is_some, returns, Returns, if_cases,
}
use kodiak.Ids.{is_client}
use kodiak.Lockstep.World.{PlayerId, LockstepWorld, ground_truth}
use kodiak.Lockstep.State
use kodiak.Lockstep.State.{Lockstep, default_tick, checksum}
use kodiak.Lockstep.State.Ticks.{Expected}
use kodiak.Lockstep.Input.{LockstepInput}
use kodiak.Lockstep.ClientData.{LockstepClientData}
use kodiak.Lockstep.Server.{
  LockstepServer, LockstepUpdate, lockstep_get, player, set_input, update_client, update_clients,
  update, client_update, post_update,
}
use kodiak.Lockstep.Server.Validity.{IsValid}

module _ (W : LockstepWorld) where
  abbrev SameReal : Lockstep W → LockstepServer W × LockstepClientData W → Type 0
  SameReal real r = r.0.real ≡ real

  real-update_client :
      (s : LockstepServer W) (id : PlayerId) (client : LockstepClientData W)
      → (update_client W s id client).0.real ≡ s.real
  unfolding update_client set_input
  real-update_client s id client =
      if_cases (SameReal s.real) (is_some (player W s id)) (λ _. oldest client.receive_buffer)
        (λ _. refl)
    where
      oldest :
          (buffer : List (LockstepInput W.Input))
          → SameReal s.real (elim buffer [
            | [] ↦ (s, client)
            | input ∷ rest ↦ (
              set_input W s id input.inner,
              record client { last_applied_command_id = input.input_id; receive_buffer = rest },
            )
          ])
      oldest [] = refl
      oldest (input ∷ rest) = refl

  real-update_clients :
      (s : LockstepServer W) (clients : List (PlayerId × LockstepClientData W))
      → (update_clients W s clients).0.real ≡ s.real
  unfolding update_clients
  real-update_clients s [] = refl
  real-update_clients s ((id, client) ∷ rest) =
      real-update_clients (update_client W s id client).0 rest ∙ real-update_client s id client

  pub real-update :
      (s : LockstepServer W) (clients : List (PlayerId × LockstepClientData W))
      → (update W s clients).0.real ≡ s.real
  unfolding update
  real-update s clients = real-update_clients s clients

  pub checksum-update :
      (s : LockstepServer W) (clients : List (PlayerId × LockstepClientData W))
      → (update W s clients).0.current.checksum ≡ some (checksum W (update W s clients).0.real)
  unfolding update
  checksum-update s clients = refl

  -- What a message holds, for a client that is initialized or not.
  pub record Message (s : LockstepServer W) (id : PlayerId) (d : LockstepClientData W)
      (m : LockstepUpdate W × LockstepClientData W) : Type 0 where
    pub tick : m.0.tick ≡ s.current
    pub known :
        d.initialized ≡ true
        → (m.0.initialization ≡ none)
          × (m.0.last_applied_input_id ≡ d.last_applied_command_id)
          × (m.0.last_received_input_id ≡ d.last_received_command_id)
    pub unknown :
        d.initialized ≡ false
        → (m.0.initialization ≡ some (id, s.real))
          × (m.0.last_applied_input_id ≡ 0)
          × (m.0.last_received_input_id ≡ 0)

  pub client_update-Message :
      (s : LockstepServer W) (id : PlayerId) (d : LockstepClientData W)
      → is_client id ≡ true
      → Returns (Message s id d) (client_update W s id d)
  unfolding client_update
  client_update-Message s id d client = rw client (
    _,
    refl,
    record {
      tick = refl;
      known = λ e. rw e (refl, refl, refl);
      unknown = λ e. rw e (refl, refl, refl);
    },
  )

  pub IsValid-Expected : (s : LockstepServer W) → IsValid W s → Expected W s.real s.current
  unfolding player lockstep_get
  IsValid-Expected s valid = valid.expected

  pub post_update-Ticked :
      (s : LockstepServer W) (real : Lockstep W) (infos : List W.Info)
      → State.tick W s.real s.current ground_truth ≡ returns (real, infos)
      → Returns (λ s'. real ≡ s'.0.real) (post_update W s)
  unfolding post_update
  post_update-Ticked s real infos e =
      ((record { real = real; current = default_tick W }, infos), rw e, refl)
