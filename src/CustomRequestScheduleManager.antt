-- ===== src/CustomRequestScheduleManager.antt =====
-- CustomRequestScheduleManager (src/custom_request_schedule_manager.cc): the fixed schedule of a
-- dataset. The dataset is what the data loader holds: for each stream, the timestamps of its payloads
-- in milliseconds, none where the loader gives an error. `none` is an exception, or an access that is
-- undefined. The threads are their configurations, and the workers the schedules they are given. That the
-- initialization takes the timestamp out of the model's inputs is left out.
pub mod Given
pub mod Started
use perf_analyzer.Prelude.{
  ℕ, suc, ◌*◌, ◌%◌, not, map, List, [], ◌∷◌, ◌++◌, Option, none, some, leb, ltb, ◌==◌,
  if◌then◌else◌, ◌>>=◌, length, get_elem?, replicate, min, take, drop,
}
use perf_analyzer.RateSchedule.{RateSchedule}
use perf_analyzer.RequestRateManager.{
  RequestRateManager, calculate_thread_ids, configure_threads, emplace_interval,
  set_schedule_durations, empty_schedule, pause_workers, resume_workers, joined,
}

pub record CustomRequestScheduleManager : Type 0 where
  pub base : RequestRateManager
  pub warmup_request_count : ℕ
  pub warmup_schedule : List ℕ
  pub benchmark_schedule : List ℕ

-- What the workers of a schedule are given.
pub record Workers : Type 0 where
  pub schedules : List RateSchedule
  pub dataset_offset : ℕ

-- The loops of GetSchedulesFromDataset: the timestamps of the payloads.
unfoldable pub get_timestamps : List (Option ℕ) → Option (List ℕ)
get_timestamps [] = some []
get_timestamps (t ∷ ts) = do
  timestamp ← t
  timestamps ← get_timestamps ts
  some (timestamp ∷ timestamps)

unfoldable pub get_schedules_from_dataset : ℕ → List (List (Option ℕ)) → Option (List ℕ × List ℕ)
unfolding get_timestamps
get_schedules_from_dataset warmup_request_count [] = none
get_schedules_from_dataset warmup_request_count (s ∷ s' ∷ ss) = none
get_schedules_from_dataset warmup_request_count (dataset ∷ []) =
    let schedules : Option (List ℕ × List ℕ) =
      (get_timestamps (take warmup_request_count dataset) >>= λ warmup_schedule.
      get_timestamps (drop warmup_request_count dataset) >>= λ benchmark_schedule.
      some (warmup_schedule, benchmark_schedule)) in
    if length dataset == 0
    then none
    else (if leb (length dataset) warmup_request_count then none else schedules)

unfoldable pub init_manager_finalize :
    List (List (Option ℕ)) → CustomRequestScheduleManager → Option CustomRequestScheduleManager
unfolding get_schedules_from_dataset
init_manager_finalize streams m = do
  schedules ← get_schedules_from_dataset m.warmup_request_count streams
  some (record m { warmup_schedule = schedules.0; benchmark_schedule = schedules.1 })

-- Milliseconds as nanoseconds, in 63 bits and a sign: `none` where the product overflows, and for a
-- timestamp from 2 ^ 63 on, which the conversion makes negative.
abbrev pub as_nanos : ℕ → Option ℕ
as_nanos timestamp =
    if ltb (timestamp * 1000000) 9223372036854775808 then some (timestamp * 1000000) else none

unfoldable pub all_as_nanos : List ℕ → Option (List ℕ)
all_as_nanos [] = some []
all_as_nanos (timestamp ∷ rest) = do
  timestamp_ns ← as_nanos timestamp
  others ← all_as_nanos rest
  some (timestamp_ns ∷ others)

-- The loop of CreateWorkerSchedules.
unfoldable pub deal_timestamps :
    List ℕ → List ℕ → ℕ → List RateSchedule → Option (List RateSchedule)
unfolding emplace_interval
deal_timestamps thread_ids [] thread_id_index schedules = some schedules
deal_timestamps thread_ids (timestamp_ns ∷ rest) thread_id_index schedules = do
  worker_index ← get_elem? thread_ids thread_id_index
  dealt ← emplace_interval worker_index timestamp_ns schedules
  deal_timestamps thread_ids rest (suc thread_id_index % length thread_ids) dealt

unfoldable pub schedules_of : List ℕ → RequestRateManager → Option (List RateSchedule)
unfolding deal_timestamps calculate_thread_ids set_schedule_durations all_as_nanos
schedules_of schedule m = do
  timestamps ← all_as_nanos schedule
  dealt ←
      deal_timestamps (calculate_thread_ids m) timestamps 0
        (replicate (length m.threads_config) empty_schedule)
  set_schedule_durations dealt

unfoldable pub init_custom_schedule :
    List ℕ → ℕ → RequestRateManager → Option (RequestRateManager × Workers)
unfolding schedules_of configure_threads pause_workers resume_workers
init_custom_schedule schedule dataset_offset m = do
  configured ← configure_threads (length schedule) (pause_workers m)
  schedules ← schedules_of schedule configured
  some
      (resume_workers configured, record { schedules = schedules; dataset_offset = dataset_offset })

unfoldable pub perform_schedule_warmup :
    CustomRequestScheduleManager → Option (CustomRequestScheduleManager × Workers)
unfolding init_custom_schedule
perform_schedule_warmup m =
    let old_max_threads = m.base.max_threads in
    let started =
      init_custom_schedule m.warmup_schedule 0
        (record m.base { max_threads = min old_max_threads (length m.warmup_schedule) }) in
    if length m.warmup_schedule == 0
    then none
    else (started >>= λ s.
        some (record m { base = record (joined s.0) { max_threads = old_max_threads } }, s.1))

unfoldable pub start_benchmark :
    CustomRequestScheduleManager → Option (CustomRequestScheduleManager × Workers)
unfolding init_custom_schedule
start_benchmark m =
    let started =
      init_custom_schedule m.benchmark_schedule (length m.warmup_schedule)
        (record m.base { max_threads = min m.base.max_threads (length m.benchmark_schedule) }) in
    if length m.benchmark_schedule == 0
    then none
    else (started >>= λ s. some (record m { base = s.0 }, s.1))

-- The workers of the warmup, if there is one, and those of the benchmark.
unfoldable pub start_schedules :
    CustomRequestScheduleManager → Option (CustomRequestScheduleManager × Option Workers × Workers)
start_schedules m =
    let warmed =
      (perform_schedule_warmup m >>= λ w. start_benchmark w.0 >>= λ b. some (b.0, some w.1, b.1)) in
    if not (length m.warmup_schedule == 0)
    then warmed
    else (start_benchmark m >>= λ b. some (b.0, none, b.1))
