-- ===== src/Tests.antt =====
-- Runs of the model at concrete inputs, and the theorems applied to them.
pub mod Crypto
pub mod Handshake
pub mod Identity
pub mod Events
pub mod Wire
pub mod Daemon
pub mod Eval
pub mod Lines
pub mod Collector
pub mod Analyzer
pub mod Agent
pub mod Claude
pub mod Recording
pub mod Sensitive
pub mod Sockets
pub mod Evaluate
pub mod Main
