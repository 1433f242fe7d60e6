-- ===== src/Agent.antt =====
-- The agent: agent/src/main.cpp.
pub mod Collector
pub mod ChannelSink
pub mod Synthetic
pub mod Replay
pub mod RecordSink
pub mod Sensitive
pub mod Options
pub mod Main
pub mod StdoutSink
