-- ===== src/Protocol/Messages/Notices.antt =====
-- protocol/stratumv1_message/: the notices of a pool, a new job and the settings of the miner.
mod Notify
mod Settings
unfoldable pub use Notify.*
unfoldable pub use Settings.*
