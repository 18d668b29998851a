-- ===== src/Lib.antt =====
-- Perf Analyzer: the load generation and the profiling of inference servers (src/*.cc, src/*.h).
--
-- The profiler (src/inference_profiler.{h,cc}) searches over load levels. For each it has a load
-- manager change the level, and repeats measurements until they are stable. The load manager
-- (src/concurrency_manager.cc) spreads the level over worker threads; each worker takes contexts
-- from a tracker of free ids, and sends the requests of sequences under ids and with data that the
-- sequence manager assigns.
--
-- Which file models what:
--   Prelude: helpers; 64-bit arithmetic is `add_u64`, `sub_u64` and `mul_u64` in Prelude/Int.
--   Status: cb::Error as its code.
--   Profiler/Search: the template Profile of src/inference_profiler.h, linear and binary.
--   Profiler/Window: ValidLatencyMeasurement. Profiler/Trials: ProfileHelper and DetermineStability.
--   Profiler/Merge: MergePerfStatusReports. Profiler/Summary: SummarizeLatency.
--   Profiler/ServerStats: MergeServerSideStats and GetTotalEnsembleDurations.
--   SequenceManager: src/sequence_manager.cc. SequenceManager/Lifecycle: the calls that
--     InferContext (src/infer_context.cc) makes of it for a request.
--   AsyncContext: the asynchronous requests of src/infer_context.cc.
--   CtxIdTracker: src/base_queue_ctx_id_tracker.h and the trackers that derive from it.
--   IdleTimer, RateSchedule: the headers of these names.
--   LoadSplit, ConcurrencyManager: src/concurrency_manager.cc with src/thread_config.h.
--   RequestRateManager: src/request_rate_manager.cc. CustomLoadManager,
--     CustomRequestScheduleManager: the files of these names, which build on it.
--   LoadManager: the statistics in src/load_manager.cc. ProfileDataCollector: the file of this name.
--   CommandLine: CLParser::VerifyOptions (src/command_line_parser.cc).
--   SessionConcurrency: session_concurrency_manager.cc and payload_dataset_manager.cc of
--     src/session_concurrency.
--   PeriodicConcurrencyManager: src/periodic_concurrency_manager.cc and its worker's callback.
--   SharedMemoryManager: src/client_backend/triton_c_api/shared_memory_manager.cc.
--   Examples: the theorems at concrete inputs.
--
-- Conventions. A function returns the new state; `none` is an exception or undefined behaviour, as
-- the file's comment says. Random draws, clocks, one measurement, doubles, the other MPI ranks and
-- the signal handler are arguments. A critical section is one step. The searches run on fuel: end +
-- 1 - start for the linear one, and n + 1 for the binary one where the range has at most step * 2 ^
-- n; the loop that fills the schedule of a file on the product of the numbers of ids and of
-- intervals. The theorems say that this is enough. The trials are counted by max_trials itself.
--
-- Not modelled: the client backends, MPI, CUDA, the JSON readers and the writers of reports, which
-- call other libraries; the text that is printed; the templates at double.
pub mod Prelude
pub mod CtxIdTracker
pub mod SequenceManager
pub mod IdleTimer
pub mod RateSchedule
pub mod LoadSplit
pub mod ConcurrencyManager
pub mod PeriodicConcurrencyManager
pub mod LoadManager
pub mod AsyncContext
pub mod RequestRateManager
pub mod CommandLine
pub mod ProfileDataCollector
pub mod Status
pub mod Profiler
pub mod SessionConcurrency
pub mod CustomRequestScheduleManager
pub mod CustomLoadManager
pub mod SharedMemoryManager
pub mod Examples
