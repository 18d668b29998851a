-- ===== src/LoadManager.antt =====
-- What a load manager gathers from its threads: src/load_manager.cc. A thread is its ThreadStat
-- (src/thread_stat.h), whose lock makes each visit one step where the code takes it. Counters have 64
-- bits.
pub mod Gathered
use perf_analyzer.Prelude.{
  ℕ, zero, suc, ◌+◌, ◌*◌, ◌/◌, ◌≡◌, refl, Bool, true, false, not, ◌&&◌, ◌||◌, List, [], ◌∷◌, ◌++◌,
  map, Option, none, some, ◌==◌, if◌then◌else◌, ◌>>=◌, add_u64, length,
}
use perf_analyzer.Status.{Status, ok, err, is_ok, generic_error}
use perf_analyzer.IdleTimer.{IdleTimer, reset, get_idle_time}
use perf_analyzer.Profiler.Window.{RequestRecord}

-- The statistics of a client backend's context (cb::InferStat).
pub record InferStat : Type 0 where
  pub completed_request_count : ℕ
  pub cumulative_total_request_time_ns : ℕ
  pub cumulative_send_time_ns : ℕ
  pub cumulative_receive_time_ns : ℕ

pub record ThreadStat : Type 0 where
  pub status : Status
  pub cb_status : Status
  pub idle_timer : IdleTimer
  pub contexts_stat : List InferStat
  pub request_records : List RequestRecord
  pub num_sent_requests : ℕ

unfoldable pub check_health : List ThreadStat → Status
check_health [] = ok
check_health (t ∷ ts) =
    if not (is_ok t.status)
    then err generic_error
    else (if not (is_ok t.cb_status) then err generic_error else check_health ts)

-- The records of all threads in turn, which replace the caller's, and the threads without them.
unfoldable pub swap_request_records :
    List ThreadStat → Status × List RequestRecord × List ThreadStat
swap_request_records [] = (ok, [], [])
swap_request_records (t ∷ ts) =
    let (status, records, ts') = swap_request_records ts in
    (status, t.request_records ++ records, record t { request_records = [] } ∷ ts')

-- The loop with the count so far.
unfoldable pub count_from : ℕ → List ThreadStat → ℕ
count_from n [] = n
count_from n (t ∷ ts) = count_from (add_u64 n (length t.request_records)) ts

unfoldable pub count_collected_requests : List ThreadStat → ℕ
unfolding count_from
count_collected_requests ts = count_from 0 ts

unfoldable pub add_stat : InferStat → InferStat → InferStat
add_stat total s = record {
  completed_request_count = add_u64 total.completed_request_count s.completed_request_count;
  cumulative_total_request_time_ns =
      add_u64 total.cumulative_total_request_time_ns s.cumulative_total_request_time_ns;
  cumulative_send_time_ns = add_u64 total.cumulative_send_time_ns s.cumulative_send_time_ns;
  cumulative_receive_time_ns =
      add_u64 total.cumulative_receive_time_ns s.cumulative_receive_time_ns;
}

unfoldable pub add_stats : InferStat → List InferStat → InferStat
unfolding add_stat
add_stats total [] = total
add_stats total (s ∷ ss) = add_stats (add_stat total s) ss

unfoldable pub accumulate : InferStat → List ThreadStat → InferStat
unfolding add_stats
accumulate total [] = total
accumulate total (t ∷ ts) = accumulate (add_stats total t.contexts_stat) ts

abbrev pub no_stat : InferStat
no_stat = record {
  completed_request_count = 0;
  cumulative_total_request_time_ns = 0;
  cumulative_send_time_ns = 0;
  cumulative_receive_time_ns = 0;
}

unfoldable pub get_accumulated_client_stat : List ThreadStat → Status × InferStat
unfolding accumulate
get_accumulated_client_stat ts = (ok, accumulate no_stat ts)

-- The loop of GetIdleTime: the total and the number of threads that have idled so far. Each timer
-- looks at the clock twice.
unfoldable pub idle_from : List (ℕ × ℕ) → ℕ → ℕ → List ThreadStat → Option (ℕ × ℕ × List ThreadStat)
idle_from clock total num_active_threads [] = some (total, num_active_threads, [])
idle_from [] total num_active_threads (t ∷ ts) = none
idle_from ((stopped, started) ∷ clock) total num_active_threads (t ∷ ts) = do
  (idle_time, timer) ← get_idle_time t.idle_timer stopped started
  let total' = (if idle_time == 0 then total else add_u64 total idle_time)
  let active = (if idle_time == 0 then num_active_threads else add_u64 num_active_threads 1)
  (sum, n, ts') ← idle_from clock total' active ts
  some (sum, n, record t { idle_timer = timer } ∷ ts')

-- `none` is a timer's exception, or a clock that is read too often.
unfoldable pub get_idle_time_of_threads :
    List (ℕ × ℕ) → List ThreadStat → Option (ℕ × List ThreadStat)
unfolding idle_from
get_idle_time_of_threads clock ts = do
  (total, num_active_threads, ts') ← idle_from clock 0 0 ts
  some (if num_active_threads == 0 then total else total / num_active_threads, ts')

unfoldable pub reset_idle_time : List (ℕ × ℕ) → List ThreadStat → Option (List ThreadStat)
reset_idle_time clock [] = some []
reset_idle_time [] (t ∷ ts) = none
reset_idle_time ((stopped, started) ∷ clock) (t ∷ ts) = do
  timer ← reset t.idle_timer stopped started
  ts' ← reset_idle_time clock ts
  some (record t { idle_timer = timer } ∷ ts')

-- Nothing locks the counters here: with each thread comes the number of requests that it sends
-- after its counter was read, and before it is set back to 0.
unfoldable pub sent_from : ℕ → List (ThreadStat × ℕ) → ℕ × List ThreadStat
sent_from n [] = (n, [])
sent_from n ((t, sent) ∷ ts) =
    let (total, ts') = sent_from (add_u64 n t.num_sent_requests) ts in
    let later : ThreadStat = record t { num_sent_requests = add_u64 t.num_sent_requests sent } in
    (total, record later { num_sent_requests = 0 } ∷ ts')

unfoldable pub get_and_reset_num_sent_requests : List (ThreadStat × ℕ) → ℕ × List ThreadStat
unfolding sent_from
get_and_reset_num_sent_requests ts = sent_from 0 ts
