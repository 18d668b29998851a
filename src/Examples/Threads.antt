-- ===== src/Examples/Threads.antt =====
-- Runs of what is gathered from the threads.
use perf_analyzer.Prelude.{ℕ, ◌≡◌, ◌≢◌, ◌⊎◌, refl, true, false, List, [], ◌∷◌, some, ◌==◌, arith}
use perf_analyzer.Prelude.{All, ◌+◌, sum, map}
use perf_analyzer.Status.{ok, err, generic_error}
use perf_analyzer.Profiler.Window.{RequestRecord}
use perf_analyzer.LoadManager.{
  ThreadStat, check_health, swap_request_records, count_collected_requests,
  get_and_reset_num_sent_requests,
}
use perf_analyzer.LoadManager.Gathered.{
  Healthy, sent_late, all_sent, swap_request_records_lem, get_and_reset_num_sent_requests_lem,
  check_health_lem,
}
use perf_analyzer.ProfileDataCollector.{Experiment, find_experiment, add_window, add_data}
use perf_analyzer.ProfileDataCollector.Experiments.{HasBoundary, Records, add_window-add_data}

abbrev request : ℕ → RequestRecord
request n = record {
  start_time = n;
  response_timestamps = n ∷ [];
  sequence_end = true;
  delayed = false;
  sequence_id = 0;
  has_null_last_response = false;
}

abbrev thread : List RequestRecord → ℕ → ThreadStat
thread records sent = record {
  status = ok;
  cb_status = ok;
  idle_timer = record { idle_ns = 0; is_idle = false; start_time = 0 };
  contexts_stat = [];
  request_records = records;
  num_sent_requests = sent;
}

abbrev threads : List ThreadStat
threads = thread (request 1 ∷ request 4 ∷ []) 3 ∷ thread (request 2 ∷ []) 2 ∷ []

swap_request_records_example :
    (ts' : List ThreadStat) × (swap_request_records threads
      ≡ (ok, request 1 ∷ request 4 ∷ request 2 ∷ [], ts'))
    × (3 ≡ count_collected_requests threads)
    × (swap_request_records ts' ≡ (ok, [], ts'))
    × (check_health ts' ≡ check_health threads)
swap_request_records_example = swap_request_records_lem threads (omega arith)

-- The first thread sends one more while its counter is set back.
abbrev sending : List (ThreadStat × ℕ)
sending = (thread [] 3, 1) ∷ (thread [] 2, 0) ∷ []

get_and_reset_num_sent_requests_example :
    (n : ℕ) × (ts' : List ThreadStat) × (get_and_reset_num_sent_requests sending ≡ (n, ts'))
    × (n + sent_late sending ≡ all_sent sending)
    × (sum (map (λ t. t.num_sent_requests) ts') ≡ 0)
get_and_reset_num_sent_requests_example = get_and_reset_num_sent_requests_lem sending (omega arith)

check_health_example :
    ((check_health threads ≡ ok) × All Healthy threads)
    ⊎ ((check_health threads ≡ err generic_error) × (¬ All Healthy threads))
check_health_example = check_health_lem threads

-- Two concurrencies, as the mode.
same_number : (a b : ℕ) → (a == b) ≡ true → a ≡ b
same_number a b h = ground arith

abbrev experiments : List (Experiment ℕ)
experiments = record { mode = 4; requests = request 7 ∷ []; window_boundaries = 1 ∷ 9 ∷ [] } ∷ []

abbrev threads_records : List RequestRecord
threads_records = request 3 ∷ request 5 ∷ []

has_boundary : HasBoundary ◌==◌ (find_experiment ◌==◌ 4 experiments)
unfolding find_experiment
has_boundary = omega arith

add_window-add_data_example :
    (ws : List (Experiment ℕ)) × (add_window ◌==◌ 4 9 20 experiments ≡ some ws)
    × ((e : Experiment ℕ) × (find_experiment ◌==◌ 4 (add_data ◌==◌ 4 threads_records ws) ≡ some e)
        × Records ◌==◌ 4 9 20 threads_records (find_experiment ◌==◌ 4 experiments) e)
    × ((other : ℕ)
        → 4 ≢ other
        → find_experiment ◌==◌ other (add_data ◌==◌ 4 threads_records ws)
          ≡ find_experiment ◌==◌ other experiments)
add_window-add_data_example =
    add_window-add_data ◌==◌ 4 9 20 threads_records experiments has_boundary refl same_number
