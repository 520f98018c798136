-- ===== src/Miner.antt =====
-- The miner package.
pub mod DestSplit
pub mod Scheduler
