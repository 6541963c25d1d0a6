-- ===== src/Lockstep.antt =====
-- common/src/lockstep: clients predict a shared world, and a server tells them which inputs each tick
-- of it applies.
pub mod World
pub mod Overwrites
pub mod State
pub mod Input
pub mod Queue
pub mod Sample
pub mod History
pub mod ClientData
pub mod Server
pub mod Client
pub mod Peers
