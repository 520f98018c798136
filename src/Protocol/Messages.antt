-- ===== src/Protocol/Messages.antt =====
-- protocol/stratumv1_message/: the messages of the Stratum protocol.
pub mod Json
pub mod Requests
pub mod Notices
pub mod Results
pub mod Dispatch
pub mod RoundTrip
pub mod Extranonce
pub mod Absent
pub mod Unary
