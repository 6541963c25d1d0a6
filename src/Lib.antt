-- ===== src/Lib.antt =====
-- kodiak: a game engine for multiplayer games in the browser, in Rust.
--
-- The parts that are modelled, and how they interact:
--
-- * common/src/lockstep keeps one world on a server and its clients. A client numbers its inputs,
--   predicts the world with them, and sends them in windows that overlap. The server buffers what it
--   receives of each client, applies one input per client and tick, and sends each tick to all clients,
--   which apply it to their own copy.
--     Lockstep/World       the trait `LockstepWorld` with its data (lockstep.rs, context.rs, player.rs, phase.rs)
--     Lockstep/State       `Lockstep`, `LockstepTick`, `tick`, `lerp` (lockstep.rs, tick.rs, context.rs)
--     Lockstep/Overwrites  the `BTreeMap` of a tick's new, changed and leaving players
--     Lockstep/Input       inputs and windows (input.rs, input_window.rs, request.rs)
--     Lockstep/Queue       the client's queue of inputs (input_queue.rs)
--     Lockstep/ClientData  the server's buffer for one client (client_data.rs, `request` in server.rs)
--     Lockstep/Server      the server (server.rs, update.rs)
--     Lockstep/Client      the client: what it receives (client.rs)
--     Lockstep/Client/Frame  the client: its own ticks and frames (client.rs)
--     Lockstep/Peers       all players but one (player_peers.rs)
--     Lockstep/History     the ring of past values (lag_compensation.rs)
-- * Collection/Arena is common/src/collection/arena_map.rs, the map from small ids that holds the
--   players and inputs of the lockstep.
-- * Ids is the numbering of clients and bots in plasma_protocol/src/ids/visitor.rs.
-- * Limiter is server/src/rate_limiter.rs, and Limiter/Ip is server/src/net/ip_rate_limiter.rs, which
--   limits the bandwidth of each address and counts its connections.
-- * Regulator is server/src/service/regulator.rs, which spaces a player's joins and leaves.
-- * Ticks is the arithmetic of common/src/time/ticks.rs.
-- * Team is common/src/team: teams, and what players ask of them.
--     Team             a team and its updates, the status of a player (team.rs, members.rs, joined_status.rs)
--     Team/Model       what a server provides of players and teams (the trait in _trait.rs)
--     Team/Requests    spawning and quitting, and the loops over requests (_trait.rs)
--     Team/Leave, Team/Handle  the requests of players (`handle_team_request` in _trait.rs)
--     Team/Asserted    `assert_valid_teams` (_trait.rs)
--     Team/Roster      the state that these keep, and the changes that keep it
--     Team/InMemory    a store that meets the interface
-- * Invitation is server/src/service/invitation_repo.rs, the invitations that all arenas of a server share.
--     Ids/Arenas              the ids of invitations and arenas (plasma_protocol/src/ids)
--     Invitation              the repository and its requests
--     Invitation/Vacant       the loops that draw an id
--     Invitation/World        the repository with the players of all arenas (player_repo.rs, realm_repo.rs)
--     Invitation/Consistency  what ties the two, and the changes that keep it
--     Invitation/Offers       what becomes of an invitation
-- * Chat is server/src/service/chat_inbox.rs with the part of chat_repo.rs on inboxes and muting.
--     Chat/Numbers   the numbers of messages
--     Chat/Delivery  reading
--     Chat/Muting    muting and unmuting
--     Chat/Silence   a muted address, whatever happens to the players afterwards
-- * Actor is common/src/actor_model: what a server knows that a client knows of an actor (singletons.rs,
--   `get_update` in macros.rs).
--     Actor/Visible  the knowledge over many updates
--     Actor/Client   the client that applies them
--     Actor/World    `get_update` for all actors of a kind, and the lengths that it counts
-- * Metrics is plasma_protocol/src/metrics (discrete.rs, ratio.rs): accumulators and their merging.
--
-- How the code is modelled. A method that changes `self` is a function from the old value to the new
-- one; closures that report or send are lists of results. A call that can panic has the type `Outcome`,
-- from Base/Panics. Machine words are numbers, with the wrap written out (Base/Words); additions wrap as
-- in a release build. Vectors are lists; loops are recursion on a list or on a number of rounds. The
-- one loop that needs fuel, `shrink_loop`, gets as many rounds as there are slots, and each round takes
-- one slot away. The loops that draw ids count down the governor of the source, from 255. Debug assertions are left out, as in a release build. Times and durations of the
-- limiter are nanoseconds, and the last instant of the platform is a parameter.
--
-- Parameters. A game is a value of the record `LockstepWorld`: its types, constants and methods, among
-- them `hash`, which stands for the hash of the state by the library's hasher. Floating point is the
-- record `Floats`, of which no law is used. The history buffer of the crate heapless is the record
-- `HistoryBuffer`, without laws. An `ArenaKey` is an instance of the interface in Collection/Arena/Key,
-- filled there by the numbers that are not zero. A server's players and teams are the record
-- `PlayerTeamModel` of Team/Model, whose laws say what the trait's methods are documented to do; a new
-- team is only promised where a team id is free, since the server draws ids until it finds one. The
-- constants of `Manifestation` are the record `Limits`. The sanitizing of names is a parameter. The
-- numbers that are drawn for the ids of invitations are arguments, so are messages and their ids.
--
-- Not modelled: rendering, user interface, browser, network and database code, the expansion of macros,
-- serialization, logging and debug printing, which are input and output or generated code;
-- floating-point geometry and the summaries of metrics, which are arithmetic on `f32`; the sending of
-- chat, its commands and its moderation, which pass text on to another service; the storage maps of the
-- actor model.
--
-- Modules named Tests, and Team/Scenario, hold the theorems at small inputs, over the game in Lockstep/Sample.
pub mod Actor
pub mod Base
pub mod Chat
pub mod Collection
pub mod Ids
pub mod Invitation
pub mod Limiter
pub mod Lockstep
pub mod Metrics
pub mod Regulator
pub mod Team
pub mod Ticks
