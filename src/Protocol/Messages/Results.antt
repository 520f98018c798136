-- ===== src/Protocol/Messages/Results.antt =====
-- protocol/stratumv1_message/: the answers of a pool, and those that the router writes to a miner.
mod Result
mod Configure
mod Subscribe
unfoldable pub use Result.*
unfoldable pub use Configure.*
unfoldable pub use Subscribe.*
