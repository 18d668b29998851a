-- ===== src/PeriodicConcurrencyManager.antt =====
-- PeriodicConcurrencyManager (src/periodic_concurrency_manager.{h,cc}) and the callback of its
-- workers (src/periodic_concurrency_worker.cc). The callbacks hold a mutex, so each is one step on
-- the manager's state. A thread is its seq_stat_index_offset_; its id is its place in the list. The
-- counters have 64 bits.
pub mod Rounds
use perf_analyzer.Prelude.{
  ℕ, zero, suc, ◌+◌, ◌-◌, ◌*◌, ◌≤◌, ◌<◌, ◌≡◌, refl, Bool, true, false, List, [], ◌∷◌, ◌++◌, Option,
  none, some, ltb, leb, ◌==◌, if◌then◌else◌, add_u64, sub_u64, mul_u64, length,
}
use perf_analyzer.LoadSplit.{ThreadConfig, new_config}

-- Range<uint64_t>
pub record Range : Type 0 where
  pub start : ℕ
  pub end : ℕ
  pub step : ℕ

-- all_requests_completed counts the calls of set_value on the promise: a second one throws.
pub record PeriodicConcurrencyManager : Type 0 where
  pub threads_config : List ThreadConfig
  pub active_threads : ℕ
  pub num_incomplete_periods : ℕ
  pub steps_completed : ℕ
  pub num_completed_requests : ℕ
  pub all_requests_completed : ℕ

unfoldable pub add_concurrent_request : ℕ → PeriodicConcurrencyManager → PeriodicConcurrencyManager
add_concurrent_request seq_stat_index_offset m =
    let config : ThreadConfig = record (new_config (length m.threads_config)) {
      concurrency = 1;
      seq_stat_index_offset = seq_stat_index_offset;
    } in
    record m {
      threads_config = m.threads_config ++ (config ∷ []);
      active_threads = m.active_threads + 1;
    }

-- The loop from index `i`, over `n` more requests.
unfoldable pub add_requests_from : ℕ → ℕ → PeriodicConcurrencyManager → PeriodicConcurrencyManager
unfolding add_concurrent_request
add_requests_from i zero m = m
add_requests_from i (suc n) m = add_requests_from (suc i) n (add_concurrent_request i m)

unfoldable pub add_concurrent_requests : ℕ → PeriodicConcurrencyManager → PeriodicConcurrencyManager
add_concurrent_requests n m = record (add_requests_from 0 n m) { num_incomplete_periods = n }

-- A period is complete: the rest of the callback at the decremented count.
unfoldable pub after_period : Range → ℕ → PeriodicConcurrencyManager → PeriodicConcurrencyManager
after_period range num_incomplete_periods m =
    let less = record m { num_incomplete_periods = num_incomplete_periods } in
    let stepped = record less { steps_completed = add_u64 m.steps_completed 1 } in
    let num_requests_sent = mul_u64 stepped.steps_completed range.step in
    if num_incomplete_periods == 0
    then (if ltb num_requests_sent range.end
        then add_concurrent_requests range.step stepped
        else stepped)
    else less

unfoldable pub period_completed_callback :
    Range → PeriodicConcurrencyManager → PeriodicConcurrencyManager
unfolding after_period
period_completed_callback range m = after_period range (sub_u64 m.num_incomplete_periods 1) m

unfoldable pub request_completed_callback :
    Range → PeriodicConcurrencyManager → PeriodicConcurrencyManager
request_completed_callback range m =
    let more = record m { num_completed_requests = add_u64 m.num_completed_requests 1 } in
    if more.num_completed_requests == range.end
    then record more { all_requests_completed = m.all_requests_completed + 1 }
    else more

-- The manager as it is constructed, and RunExperiment up to its wait.
abbrev pub initial : PeriodicConcurrencyManager
initial = record {
  threads_config = [];
  active_threads = 0;
  num_incomplete_periods = 0;
  steps_completed = 0;
  num_completed_requests = 0;
  all_requests_completed = 0;
}

unfoldable pub run_experiment : Range → PeriodicConcurrencyManager
run_experiment range = add_concurrent_requests range.start initial

-- The worker's callback at a response: the number of responses of the current request, and whether
-- the last was the final one. `none` is the exception for a request that ends before its period.
unfoldable pub worker_callback :
    Range → ℕ → ℕ → Bool → PeriodicConcurrencyManager → Option PeriodicConcurrencyManager
worker_callback range request_period num_responses has_received_final_response m =
    let completed =
      (if num_responses == request_period then period_completed_callback range m else m) in
    if has_received_final_response
    then (if ltb num_responses request_period
        then none
        else some (request_completed_callback range completed))
    else some completed

-- GetRequestRecords: the records of the threads in turn.
unfoldable pub get_request_records {ℓ} : {R : Type ℓ} → List (List R) → List R
get_request_records [] = []
get_request_records (records ∷ rest) = records ++ get_request_records rest
