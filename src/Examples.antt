-- ===== src/Examples.antt =====
-- Runs of the model at concrete inputs, at which the theorems' hypotheses hold.
pub mod Sequences
pub mod Load
pub mod Search
pub mod Windows
pub mod Memory
pub mod Callbacks
pub mod SessionRuns
pub mod Schedules
pub mod Summaries
pub mod Rates
pub mod Options
pub mod Threads
