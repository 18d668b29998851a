-- ===== src/Profiler.antt =====
-- InferenceProfiler (src/inference_profiler.{h,cc}): the search over load levels, what one window of
-- measurement takes from the request records, and the repeated windows of one load level.
pub mod Search
pub mod Window
pub mod Trials
pub mod Summary
pub mod Merge
pub mod ServerStats
