-- ===== src/RequestRateManager.antt =====
-- RequestRateManager (src/request_rate_manager.cc): its threads and how it deals a schedule to their
-- workers. Times are nanoseconds. The random generator's draws are an argument, the list of the
-- intervals between requests. `none` is a division by zero, an access out of range, or the end of
-- that list.
pub mod Dealt
pub mod Turns
pub mod Rotation
pub mod Arrivals
pub mod Timed
use perf_analyzer.Prelude.{
  ℕ, zero, suc, ◌+◌, ◌%◌, ◌≡◌, refl, Bool, true, false, not, ◌&&◌, ◌||◌, List, [], ◌∷◌, ◌++◌, map,
  Option, none, some, ltb, leb, ◌==◌, if◌then◌else◌, ◌>>=◌, length, get_elem?, set, replicate, min,
  max,
}
use perf_analyzer.LoadSplit.{ThreadConfig, new_config, share}
use perf_analyzer.RateSchedule.{RateSchedule}

pub record RequestRateManager : Type 0 where
  pub max_threads : ℕ
  pub num_of_sequences : ℕ
  pub on_sequence_model : Bool
  pub execute : Bool
  pub threads_config : List ThreadConfig

unfoldable pub determine_num_threads : RequestRateManager → ℕ
determine_num_threads m =
    if m.on_sequence_model then min m.max_threads m.num_of_sequences else m.max_threads

-- The loop of CalculateThreadIds from `i`, over `n` more ids.
unfoldable pub thread_ids_from : ℕ → ℕ → ℕ → List ℕ
thread_ids_from num_threads i zero = []
thread_ids_from num_threads i (suc n) = (i % num_threads) ∷ thread_ids_from num_threads (suc i) n

unfoldable pub calculate_thread_ids : RequestRateManager → List ℕ
unfolding thread_ids_from
calculate_thread_ids m =
    thread_ids_from (determine_num_threads m) 0
      (if m.on_sequence_model then m.num_of_sequences else m.max_threads)

-- The launching loop of ConfigureThreads, over `n` more threads.
unfoldable pub launch_threads : ℕ → List ThreadConfig → List ThreadConfig
launch_threads zero threads = threads
launch_threads (suc n) threads = launch_threads n (threads ++ (new_config (length threads) ∷ []))

-- The loop over the threads, from thread `i` of `count` on.
unfoldable pub configure_sequences : ℕ → ℕ → ℕ → ℕ → ℕ → List ThreadConfig → List ThreadConfig
configure_sequences sequences requests count i seq_offset [] = []
configure_sequences sequences requests count i seq_offset (c ∷ cs) =
    let num_of_seq = share sequences count i in
    let c' : ThreadConfig = record c {
      num_sequences = num_of_seq;
      seq_stat_index_offset = seq_offset;
      num_requests = share requests count i;
    } in
    c' ∷ configure_sequences sequences requests count (suc i) (seq_offset + num_of_seq) cs

-- Threads that are there are left as they are.
unfoldable pub configure_threads : ℕ → RequestRateManager → Option RequestRateManager
unfolding launch_threads configure_sequences
configure_threads request_count m =
    let threads = launch_threads (determine_num_threads m) [] in
    if not (length m.threads_config == 0)
    then some m
    else (if length threads == 0
        then none
        else some (record m {
          threads_config =
              configure_sequences m.num_of_sequences request_count (length threads) 0 0 threads;
        }))

-- One timestamp for the worker at `worker_index`.
unfoldable pub emplace_interval : ℕ → ℕ → List RateSchedule → Option (List RateSchedule)
emplace_interval worker_index timestamp schedules = do
  s ← get_elem? schedules worker_index
  some (set schedules worker_index (record s { intervals = s.intervals ++ (timestamp ∷ []) }))

-- The loop of CreateWorkerSchedules, with the draws that are left.
unfoldable pub deal : List ℕ → ℕ → List ℕ → ℕ → ℕ → List RateSchedule → Option (List RateSchedule)
unfolding emplace_interval
deal thread_ids max_duration [] next_timestamp thread_id_index schedules =
    if ltb next_timestamp max_duration || not (thread_id_index % length thread_ids == 0)
    then none
    else some schedules
deal thread_ids max_duration (gap ∷ gaps) next_timestamp thread_id_index schedules =
    let more =
      (get_elem? thread_ids thread_id_index >>= λ worker_index.
      emplace_interval worker_index (next_timestamp + gap) schedules >>= λ dealt.
      deal thread_ids max_duration gaps (next_timestamp + gap)
        (suc thread_id_index % length thread_ids) dealt) in
    if ltb next_timestamp max_duration || not (thread_id_index % length thread_ids == 0)
    then more
    else some schedules

-- The last element of a list that has one.
unfoldable pub back {ℓ} : {A : Type ℓ} → List A → Option A
back [] = none
back (x ∷ []) = some x
back (x ∷ y ∷ ys) = back (y ∷ ys)

unfoldable pub longest : ℕ → List RateSchedule → Option ℕ
unfolding back
longest duration [] = some duration
longest duration (s ∷ ss) = back s.intervals >>= λ end. longest (max end duration) ss

abbrev pub with_duration : ℕ → RateSchedule → RateSchedule
with_duration duration s = record s { duration = duration }

unfoldable pub set_schedule_durations : List RateSchedule → Option (List RateSchedule)
unfolding back longest
set_schedule_durations schedules = do
  last_schedule ← back schedules
  first ← back last_schedule.intervals
  duration ← longest first schedules
  some (map (with_duration duration) schedules)

abbrev pub empty_schedule : RateSchedule
empty_schedule = record { intervals = []; duration = 0; rounds = 0; index = 0 }

unfoldable pub create_worker_schedules :
    ℕ → List ℕ → RequestRateManager → Option (List RateSchedule)
unfolding calculate_thread_ids deal set_schedule_durations
create_worker_schedules max_duration gaps m =
    let thread_ids = calculate_thread_ids m in
    let empty = replicate (length m.threads_config) empty_schedule in
    if length thread_ids == 0
    then none
    else (deal thread_ids max_duration gaps 0 0 empty >>= λ dealt. set_schedule_durations dealt)

abbrev pub paused_config : ThreadConfig → ThreadConfig
paused_config c = record c { is_paused = true }

-- Where the code waits until every worker is paused, the model goes on with the paused workers.
unfoldable pub pause_workers : RequestRateManager → RequestRateManager
pause_workers m = record m { execute = false; threads_config = map paused_config m.threads_config }

unfoldable pub resume_workers : RequestRateManager → RequestRateManager
resume_workers m = record m { execute = true }

pub data Distribution : Type 0 where
  poisson : Distribution
  constant : Distribution
  custom : Distribution

-- GenerateSchedule: what the workers are given, if anything. `gen_duration` is the longest that the
-- trials may take.
unfoldable pub generate_schedule :
    Distribution → ℕ → List ℕ → RequestRateManager → Option (Option (List RateSchedule))
generate_schedule poisson gen_duration gaps m =
    create_worker_schedules gen_duration gaps m >>= λ schedules. some (some schedules)
generate_schedule constant gen_duration gaps m =
    create_worker_schedules 1 gaps m >>= λ schedules. some (some schedules)
generate_schedule custom gen_duration gaps m = some none

unfoldable pub change_request_rate :
    Distribution
    → ℕ
    → List ℕ
    → ℕ
    → RequestRateManager
    → Option (RequestRateManager × Option (List RateSchedule))
change_request_rate distribution gen_duration gaps request_count m = do
  configured ← configure_threads request_count (pause_workers m)
  schedules ← generate_schedule distribution gen_duration gaps configured
  some (resume_workers configured, schedules)

-- The threads are joined, and the vectors cleared.
abbrev pub joined : RequestRateManager → RequestRateManager
joined m = record m { threads_config = [] }

unfoldable pub warm_up :
    Distribution → ℕ → List ℕ → ℕ → RequestRateManager → Option RequestRateManager
warm_up distribution gen_duration gaps warmup_request_count m =
    let warmed =
      (change_request_rate distribution gen_duration gaps warmup_request_count m >>= λ changed.
      some (joined changed.0)) in
    if warmup_request_count == 0 then some m else warmed
