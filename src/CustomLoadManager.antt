-- ===== src/CustomLoadManager.antt =====
-- CustomLoadManager (src/custom_load_manager.cc): the schedule of a file of intervals. The file is
-- what can be read of it: its lines, each a number of microseconds that is not negative, or none
-- where std::stol throws. Times are nanoseconds, and do not pass their type. `none` is an exception,
-- a division by zero, an access out of range, or the end of the fuel.
pub mod Repeated
use perf_analyzer.Prelude.{
  ℕ, zero, suc, ◌+◌, ◌*◌, ◌/◌, ◌%◌, Bool, not, ◌||◌, List, [], ◌∷◌, ◌++◌, Option, none, some, ◌==◌,
  if◌then◌else◌, ◌>>=◌, length, get_elem?, replicate, sum, mul_u64,
}
use perf_analyzer.Status.{Status, ok, err, generic_error}
use perf_analyzer.RateSchedule.{RateSchedule}
use perf_analyzer.RequestRateManager.{
  RequestRateManager, calculate_thread_ids, configure_threads, emplace_interval,
  set_schedule_durations, empty_schedule, pause_workers, resume_workers, joined,
}

pub record CustomLoadManager : Type 0 where
  pub base : RequestRateManager
  pub has_intervals_file : Bool
  pub custom_intervals : List ℕ

-- The manager and the status after an operation, and the schedules that it gave to the workers.
pub record Outcome : Type 0 where
  pub manager : CustomLoadManager
  pub status : Status
  pub schedules : Option (List RateSchedule)

-- The loop of ReadTimeIntervalsFile.
unfoldable pub read_lines : List (Option ℕ) → List ℕ → Option (List ℕ)
read_lines [] contents = some contents
read_lines (line ∷ lines) contents = do
  interval ← line
  read_lines lines (contents ++ ((interval * 1000) ∷ []))

abbrev pub unless_empty : List ℕ → Status
unless_empty [] = err generic_error
unless_empty (interval ∷ intervals) = ok

unfoldable pub read_time_intervals_file :
    Option (List (Option ℕ)) → List ℕ → Option (Status × List ℕ)
unfolding read_lines
read_time_intervals_file none contents = some (err generic_error, contents)
read_time_intervals_file (some lines) contents =
    read_lines lines contents >>= λ read. some (unless_empty read, read)

-- The loop of CreateWorkerSchedules, from its body on, on fuel.
unfoldable pub fill :
    ℕ → List ℕ → List ℕ → ℕ → ℕ → ℕ → List RateSchedule → Option (List RateSchedule)
unfolding emplace_interval
fill zero thread_ids intervals thread_id_index intervals_index timestamp schedules = none
fill (suc fuel) thread_ids intervals thread_id_index intervals_index timestamp schedules =
    get_elem? intervals intervals_index >>= λ interval.
    get_elem? thread_ids thread_id_index >>= λ worker_index.
    emplace_interval worker_index (timestamp + interval) schedules >>= λ filled.
    let next_thread = suc thread_id_index % length thread_ids in
    let next_interval = suc intervals_index % length intervals in
    let rest =
      fill fuel thread_ids intervals next_thread next_interval (timestamp + interval) filled in
    if not (next_thread == 0) || not (next_interval == 0) then rest else some filled

unfoldable pub repeatable_schedules : CustomLoadManager → Option (List RateSchedule)
unfolding fill calculate_thread_ids set_schedule_durations
repeatable_schedules m =
    let thread_ids = calculate_thread_ids m.base in
    fill (length thread_ids * length m.custom_intervals) thread_ids m.custom_intervals 0 0 0
      (replicate (length m.base.threads_config) empty_schedule)
    >>= λ filled. set_schedule_durations filled

-- What follows the reading of the file.
unfoldable pub after_reading : CustomLoadManager → Status → Option Outcome
after_reading m ok = do
  schedules ← repeatable_schedules m
  some (record { manager = m; status = ok; schedules = some schedules })
after_reading m (err code) = some (record { manager = m; status = err code; schedules = none })

unfoldable pub generate_schedule : Option (List (Option ℕ)) → CustomLoadManager → Option Outcome
generate_schedule file m =
    let generated =
      (read_time_intervals_file file m.custom_intervals >>= λ read.
      after_reading (record m { custom_intervals = read.1 }) read.0) in
    if not m.has_intervals_file
    then some (record { manager = m; status = ok; schedules = none })
    else generated

abbrev pub resumed : Outcome → Outcome
resumed o = record o { manager = record o.manager { base = resume_workers o.manager.base } }

unfoldable pub init_custom_intervals :
    Option (List (Option ℕ)) → ℕ → CustomLoadManager → Option Outcome
init_custom_intervals file request_count m = do
  configured ← configure_threads request_count (pause_workers m.base)
  generated ← generate_schedule file (record m { base = configured })
  some (resumed generated)

-- The threads are joined, the vectors and the intervals cleared.
abbrev pub cleaned : CustomLoadManager → CustomLoadManager
cleaned m = record m { base = joined m.base; custom_intervals = [] }

abbrev pub after_warmup : Outcome → Status → Outcome
after_warmup o ok = record o { manager = cleaned o.manager }
after_warmup o (err code) = o

unfoldable pub warm_up : Option (List (Option ℕ)) → ℕ → CustomLoadManager → Option Outcome
warm_up file warmup_request_count m =
    let warmed =
      (init_custom_intervals file warmup_request_count m >>= λ o. some (after_warmup o o.status)) in
    if warmup_request_count == 0
    then some (record { manager = m; status = ok; schedules = none })
    else warmed

-- The quotient is one of integers; the code divides by the sum without a test.
unfoldable pub get_custom_request_rate : CustomLoadManager → Option (Status × ℕ)
get_custom_request_rate m =
    if length m.custom_intervals == 0
    then some (err generic_error, 0)
    else (if sum m.custom_intervals == 0
        then none
        else some (ok, mul_u64 (length m.custom_intervals) 1000000000 / sum m.custom_intervals))
