-- ===== src/Protocol.antt =====
-- protocol/: the Stratum connections of a miner and of its pools.
pub mod PoolConn
pub mod ConnPool
pub mod MinerModel
pub mod Messages
pub mod MinerConn
