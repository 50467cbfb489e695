-- ===== src/Redis.antt =====
-- internal/adapters/redis: the hold store, over the commands of a Redis server.
pub mod Server
pub mod HoldStore
