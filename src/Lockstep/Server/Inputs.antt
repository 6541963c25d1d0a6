-- ===== src/Lockstep/Server/Inputs.antt =====
-- The inputs that the server applies, over many updates (`update` in server.rs).
use kodiak.Base.{
  ℕ, suc, ◌≤◌, ◌≡◌, refl, ap, ap₂, arith, true, false, some, List, [], ◌∷◌, length, is_some, map,
  take, drop, get_elem?, All,
}
use kodiak.Collection.Arena.Key.{nonzero_key}
use kodiak.Lockstep.World.{PlayerId, LockstepWorld}
use kodiak.Lockstep.Input.{LockstepInput}
use kodiak.Lockstep.State.{checksum}
use kodiak.Lockstep.ClientData.{LockstepClientData}
use kodiak.Lockstep.ClientData.Laws
use kodiak.Lockstep.Server.{LockstepServer, player, update_clients, update}
use kodiak.Lockstep.Server.Feed.{
  is_same, Clients, Without, AreDistinct, input_of, popped, popped-IsValid, update_clients-real,
  update_clients_other, update_clients-ids, update_clients-AreDistinct, update_clients_next,
}

module _ (W : LockstepWorld) where
  -- Updates of servers, one after the other, each with the clients that the one before has left.
  abbrev pub updates : List (LockstepServer W) → Clients W → List (LockstepServer W) × Clients W
  updates [] clients = ([], clients)
  updates (s ∷ servers) clients =
      let (s', clients') = update W s clients in
      let (servers', clients'') = updates servers clients' in (s' ∷ servers', clients'')

  -- The id of the last input, where there is one.
  abbrev pub last_id : ℕ → List (LockstepInput W.Input) → ℕ
  last_id id [] = id
  last_id id (c ∷ inputs) = last_id c.input_id inputs

  -- The client after the first inputs of its buffer have been applied.
  abbrev pub after : ℕ → LockstepClientData W → LockstepClientData W
  after n client = record client {
    last_applied_command_id = last_id client.last_applied_command_id (take n client.receive_buffer);
    receive_buffer = drop n client.receive_buffer;
  }

  nonempty :
      (buffer : List (LockstepInput W.Input)) {n : ℕ}
      → suc n ≤ length buffer
      → (c : LockstepInput W.Input) × (rest : List (LockstepInput W.Input)) × (buffer ≡ c ∷ rest)
  nonempty [] h = absurd (omega arith)
  nonempty (c ∷ rest) h = (c, rest, refl)

  -- Over any number of updates, of servers in any state, with clients of distinct ids: a client whose
  -- player is there each time, whose data is valid, and that has at least as many inputs buffered as there are updates,
  -- has its inputs applied one for each update, the oldest first, none twice and none left out. It is
  -- left with the other inputs, with the id of the last applied one, and otherwise as it was and valid. A player
  -- without a client keeps what input it had in each server, and each update sets the checksum of the
  -- server's real state.
  pub updates-applied :
      (servers : List (LockstepServer W)) (clients : Clients W) (i : ℕ) (id : PlayerId)
      (client : LockstepClientData W) (other : PlayerId)
      → AreDistinct W clients
      → get_elem? clients i ≡ some (id, client)
      → All (λ s. is_some (player W s id) ≡ true) servers
      → length servers ≤ length client.receive_buffer
      → Without W other clients
      → Laws.IsValid W client
      → (map (input_of W id) (updates servers clients).0
          ≡ map (λ c. some c.inner) (take (length servers) client.receive_buffer))
        × (get_elem? (updates servers clients).1 i ≡ some (id, after (length servers) client))
        × Laws.IsValid W (after (length servers) client)
        × (map (input_of W other) (updates servers clients).0 ≡ map (input_of W other) servers)
        × (map (λ s. s.current.checksum) (updates servers clients).0
            ≡ map (λ s. some (checksum W s.real)) servers)
  unfolding update
  updates-applied [] clients i id client other d at there enough absent valid =
      (refl, at, valid, refl, refl)
  updates-applied (s ∷ servers) clients i id client other d at (there, theres) enough absent valid =
      let (c, rest, e) = nonempty client.receive_buffer enough in
      let (given, left) = update_clients_next W s clients i id client c rest d at there e in
      let shorter : length servers ≤ length rest = omega (arith, enough, ap length e) in
      let (inputs, data_left, still_valid, others, checksums) =
        updates-applied servers (update_clients W s clients).1 i id (popped W client c rest) other
          (update_clients-AreDistinct W s clients d) left theres shorter
          (update_clients-ids W (λ k. is_same k other ≡ false) s clients absent)
          (popped-IsValid W client c rest e valid) in
      (
        rw e (ap₂ (λ x xs. x ∷ xs) given inputs),
        rw e data_left,
        rw e still_valid,
        ap₂ (λ x xs. x ∷ xs) (update_clients_other W s clients other absent) others,
        ap₂ (λ x xs. x ∷ xs) (ap (λ r. some (checksum W r)) (update_clients-real W s clients))
            checksums,
      )
