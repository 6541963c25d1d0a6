-- ===== src/Collection.antt =====
-- common/src/collection: the containers.
pub mod Arena
