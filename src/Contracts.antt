-- ===== src/Contracts.antt =====
-- The contractmanager package.
pub mod AllocSnap
pub mod SubsetSum
pub mod Combinations
pub mod GlobalScheduler
pub mod Contract
pub mod Manager
