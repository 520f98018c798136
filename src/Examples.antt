-- ===== src/Examples.antt =====
-- Tests of the definitions on small inputs, and the theorems applied to them. The floating-point
-- numbers are hundredths, which add exactly.
mod Miner
mod Search
mod Contracts
mod Scheduling
mod Protocol
mod Messages
mod Handshake
mod Outside
mod Merkle
