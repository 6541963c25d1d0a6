-- ===== src/Lockstep/Server/Tests.antt =====
-- The server on small inputs: a client has joined, and one of its inputs is buffered.
use kodiak.Base.{
  ap, is_some, true, refl, map, get_elem?, arith, ◌≡◌, true, some, [], ◌∷◌, Returns, returns,
}
use kodiak.Collection.Arena.Key.{nonzero_to_index}
use kodiak.Lockstep.World.{PlayerId, ground_truth}
use kodiak.Lockstep.State.{Players, tick, default_tick, checksum}
use kodiak.Lockstep.State.Ticks.{Applied, ticked, tick-Returns}
use kodiak.Lockstep.Sample.{counting, seven}
use kodiak.Lockstep.ClientData.{LockstepClientData}
use kodiak.Lockstep.Server.{
  LockstepServer, new, player, set_player, update, post_update, lockstep_get,
}
use kodiak.Lockstep.ClientData.Laws
use kodiak.Lockstep.Server.Players.{player-set_player}
use kodiak.Lockstep.Server.Feed.{input_of}
use kodiak.Lockstep.Server.Inputs.{updates, after, updates-applied}
use kodiak.Lockstep.Server.Validity.{IsValid, post_update-Returns}
use kodiak.Lockstep.Server.Turns.{
  Reachable, started, stepped, set, updated, Reachable-IsValid, Reachable-post_update,
}

abbrev buffered : LockstepClientData counting
buffered = record {
  initialized = true;
  last_applied_command_id = 1;
  last_received_command_id = 2;
  receive_buffer = record { inner = 50; input_id = 2 } ∷ [];
}

abbrev joined : LockstepServer counting
joined = set_player counting (new counting 5) seven (some 0)

abbrev ready : LockstepServer counting
ready = (update counting joined ((seven, buffered) ∷ [])).0

ready-Reachable : Reachable counting 5 ready
ready-Reachable =
    stepped joined ready (stepped (new counting 5) joined started (set (new counting 5) seven 0))
      (updated joined ((seven, buffered) ∷ []))

Reachable-IsValid_example : IsValid counting ready
Reachable-IsValid_example = Reachable-IsValid counting 5 ready ready-Reachable

Reachable-post_update_example : Returns (λ r. Reachable counting 5 r.0) (post_update counting ready)
Reachable-post_update_example = Reachable-post_update counting 5 ready ready-Reachable

tick-Returns_example :
    (players : Players counting) × Applied counting ready.real ready.current players
    × (tick counting ready.real ready.current ground_truth
        ≡ returns (ticked counting ready.real ready.current ground_truth players))
unfolding player lockstep_get
tick-Returns_example =
    tick-Returns counting ready.real ready.current ground_truth Reachable-IsValid_example.inputs
      Reachable-IsValid_example.rising Reachable-IsValid_example.expected

post_update-Returns_example :
    Returns
      (λ r.
        IsValid counting r.0
        × (r.0.current ≡ default_tick counting)
        × ((players : Players counting) × Applied counting ready.real ready.current players
            × ((r.0.real, r.1) ≡ ticked counting ready.real ready.current ground_truth players)))
      (post_update counting ready)
post_update-Returns_example =
    post_update-Returns counting ready (Reachable-IsValid counting 5 ready ready-Reachable)

-- A client with two inputs in its buffer, and two updates of the server that it has joined.
abbrev two_buffered : LockstepClientData counting
two_buffered = record {
  initialized = true;
  last_applied_command_id = 1;
  last_received_command_id = 3;
  receive_buffer = record { inner = 50; input_id = 2 } ∷ record { inner = 60; input_id = 3 } ∷ [];
}

two_buffered-IsValid : Laws.IsValid counting two_buffered
two_buffered-IsValid = record { rising = (omega arith, (omega arith, tt)); bounded = omega arith }

seven_there : is_some (player counting joined seven) ≡ true
seven_there = ap is_some (player-set_player counting (new counting 5) seven seven (some 0))

abbrev nine : PlayerId
nine = (9, (omega arith, omega arith))

updates-applied_example :
    (map
        (input_of counting seven)
        (updates counting (joined ∷ joined ∷ []) ((seven, two_buffered) ∷ [])).0
      ≡ some 50 ∷ some 60 ∷ [])
    × (get_elem? (updates counting (joined ∷ joined ∷ []) ((seven, two_buffered) ∷ [])).1 0
        ≡ some (seven, after counting 2 two_buffered))
    × Laws.IsValid counting (after counting 2 two_buffered)
    × (map
          (input_of counting nine)
          (updates counting (joined ∷ joined ∷ []) ((seven, two_buffered) ∷ [])).0
        ≡ map (input_of counting nine) (joined ∷ joined ∷ []))
    × (map
          (λ s. s.current.checksum)
          (updates counting (joined ∷ joined ∷ []) ((seven, two_buffered) ∷ [])).0
        ≡ map (λ s. some (checksum counting s.real)) (joined ∷ joined ∷ []))
unfolding nonzero_to_index
updates-applied_example =
    updates-applied counting (joined ∷ joined ∷ []) ((seven, two_buffered) ∷ []) 0 seven
      two_buffered nine (tt, tt) refl (seven_there, (seven_there, tt)) (omega arith) (refl, tt)
      two_buffered-IsValid
