-- ===== src/Lockstep/ClientData.antt =====
-- client_data.rs, and the receiving half of `LockstepServer::request`: what the server keeps of a
-- client's inputs that it has not applied.
pub mod Buffer
pub mod Laws
mod Tests
use kodiak.Base.{
  ℕ, zero, suc, ◌+◌, ◌≤◌, ◌<◌, ◌≡◌, refl, arith, Bool, true, false, not, Option, none, some, List,
  [], ◌∷◌, length, if◌then◌else◌, ltb, leb, ◌==◌, max,
}
use mathlib.Core.Option
use kodiak.Lockstep.World.{LockstepWorld}
use kodiak.Lockstep.Input.{LockstepInput, LockstepInputWindow, into_input_iter}

pub record LockstepClientData (W : LockstepWorld) : Type 0 where
  pub initialized : Bool
  pub last_applied_command_id : ℕ
  pub last_received_command_id : ℕ
  pub receive_buffer : List (LockstepInput W.Input)

-- `binary_search_by` on the id, in a buffer whose ids rise: where to insert the id, or `none` where
-- it is there.
unfoldable pub insertion_index : {I : Type 0} → ℕ → List (LockstepInput I) → Option ℕ
insertion_index id [] = some 0
insertion_index id (c ∷ cs) =
    let rest = Option.map suc (insertion_index id cs) in
    if id == c.input_id then none else if ltb id c.input_id then some 0 else rest

-- `ArrayVec::insert`
unfoldable pub insert_at : {A : Type 0} → List A → ℕ → A → List A
insert_at xs zero a = a ∷ xs
insert_at [] (suc i) a = []
insert_at (x ∷ xs) (suc i) a = x ∷ insert_at xs i a

-- What one round of the loop over a window does: go on with new data, or return.
pub data Flow (W : LockstepWorld) : Type 0 where
  continues : LockstepClientData W → Flow W
  stops : Flow W

module _ (W : LockstepWorld) where
  abbrev pub default_client_data : LockstepClientData W
  default_client_data = record {
    initialized = false;
    last_applied_command_id = 0;
    last_received_command_id = 0;
    receive_buffer = [];
  }

  -- The tests in the loop's order: an invalid input, a full buffer, a stale input, a duplicate.
  pub receive_input : LockstepClientData W → LockstepInput W.Input → Flow W
  receive_input client input =
      if not (W.is_valid input.inner)
      then continues client
      else if leb W.buffered_ticks (length client.receive_buffer)
      then stops
      else if leb input.input_id client.last_applied_command_id
      then continues client
      else elim (insertion_index input.input_id client.receive_buffer) [
        | none ↦ continues client
        | some index ↦ continues (record client {
          last_received_command_id = max client.last_received_command_id input.input_id;
          receive_buffer = insert_at client.receive_buffer index input;
        })
      ]

  pub receive_inputs : LockstepClientData W → List (LockstepInput W.Input) → LockstepClientData W
  unfolding receive_input
  receive_inputs client [] = client
  receive_inputs client (input ∷ rest) = elim (receive_input client input) [
    | continues client' ↦ receive_inputs client' rest
    | stops ↦ client
  ]

  -- `request`, with client data: nothing is received before the client is initialized.
  pub receive : LockstepClientData W → LockstepInputWindow W.Input → LockstepClientData W
  unfolding receive_inputs
  receive client inputs =
      if client.initialized then receive_inputs client (into_input_iter inputs) else client
