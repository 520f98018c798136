-- ===== src/Server.antt =====
-- tcpserver/, miner/miner_controller.go and api/: what comes from outside, a connection or a request.
pub mod PeekJson
pub mod Connection
pub mod Api
