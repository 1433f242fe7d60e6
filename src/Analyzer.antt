-- ===== src/Analyzer.antt =====
-- The analyzer of analyzer/src: alerts, the rule filter, the correlator, the classifier, the pipeline.
pub mod Alert
pub mod Libc
pub mod Prefilter
pub mod Correlator
pub mod Llm
pub mod Claude
pub mod Pipeline
pub mod Daemon
pub mod Main
pub mod Eval
