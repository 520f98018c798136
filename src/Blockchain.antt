-- ===== src/Blockchain.antt =====
-- blockchain/: the access to the contracts on the blockchain, and lib/retry.go, by which it is retried.
pub mod Retry
pub mod Gateway
pub mod Closeout
pub mod Subscription
