-- ===== src/Library.antt =====
-- lib/: the helpers of the other parts. The back-off is in Blockchain/Retry.antt.
pub mod Endian
pub mod Errors
