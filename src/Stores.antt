-- ===== src/Stores.antt =====
-- data/ and eventbus/: what is kept in memory, and the events that are passed on.
pub mod Repository
pub mod EventBus
