-- ===== src/ConcurrencyManager.antt =====
-- The concurrency manager: src/concurrency_manager.cc. A worker is its ThreadConfig (threads_,
-- threads_stat_, threads_config_ and workers_ grow together). Where the code waits until every
-- worker is paused, the model goes on with the paused workers. `none` is the division by zero of a
-- manager without threads.
pub mod Reconfigured
use perf_analyzer.Prelude.{
  ℕ, zero, suc, ◌+◌, ◌-◌, Bool, true, false, ◌&&◌, List, [], ◌∷◌, ◌++◌, map, Option, none, some,
  length, ltb, ◌==◌, if◌then◌else◌, ◌>>=◌,
}
use perf_analyzer.LoadSplit.{ThreadConfig, new_config, share}

pub record ConcurrencyManager : Type 0 where
  pub max_threads : ℕ
  pub on_sequence_model : Bool
  pub execute : Bool
  pub active_threads : ℕ
  pub threads_config : List ThreadConfig

-- The launching loop of ReconfigThreads; max_threads rounds are enough.
pub launch : ℕ → ℕ → ℕ → List ThreadConfig → List ThreadConfig
launch zero max_threads concurrency threads = threads
launch (suc fuel) max_threads concurrency threads =
    let grown = launch fuel max_threads concurrency (threads ++ new_config (length threads) ∷ []) in
    if ltb (length threads) concurrency && ltb (length threads) max_threads then grown else threads

-- The loop over the threads, from thread i of `count` on; it also counts the active threads.
pub configure : ℕ → ℕ → ℕ → ℕ → ℕ → List ThreadConfig → List ThreadConfig × ℕ
unfolding share
configure concurrency requests count i offset [] = ([], 0)
configure concurrency requests count i offset (c ∷ cs) =
    let part = share concurrency count i in
    let c' : ThreadConfig = record c {
      concurrency = part;
      seq_stat_index_offset = offset;
      num_requests = share requests count i;
    } in
    let (cs', active) = configure concurrency requests count (suc i) (offset + part) cs in
    (c' ∷ cs', if part == 0 then active else suc active)

unfoldable pub reconfig_threads : ConcurrencyManager → ℕ → ℕ → Option ConcurrencyManager
reconfig_threads m concurrent_request_count request_count =
    let threads = launch m.max_threads m.max_threads concurrent_request_count m.threads_config in
    let (threads', active) =
      configure concurrent_request_count request_count (length threads) 0 0 threads in
    if length threads == 0
    then none
    else some (record m { threads_config = threads'; active_threads = active })

set_paused : ThreadConfig → ThreadConfig
set_paused c = record c { is_paused = true }

unfoldable pub pause_sequence_workers : ConcurrencyManager → ConcurrencyManager
unfolding set_paused
pause_sequence_workers m =
    if m.on_sequence_model
    then record m { execute = false; threads_config = map set_paused m.threads_config }
    else m

unfoldable pub resume_sequence_workers : ConcurrencyManager → ConcurrencyManager
resume_sequence_workers m = if m.on_sequence_model then record m { execute = true } else m

unfoldable pub change_concurrency_level : ConcurrencyManager → ℕ → ℕ → Option ConcurrencyManager
change_concurrency_level m concurrent_request_count request_count = do
  m' ← reconfig_threads (pause_sequence_workers m) concurrent_request_count request_count
  some (resume_sequence_workers m')

-- LoadManager::WaitForWarmupAndCleanup: the threads are joined and all vectors cleared.
unfoldable pub wait_for_warmup_and_cleanup : ConcurrencyManager → ConcurrencyManager
wait_for_warmup_and_cleanup m = record m { threads_config = [] }

unfoldable pub perform_warmup : ConcurrencyManager → ℕ → ℕ → Option ConcurrencyManager
perform_warmup m concurrent_request_count warmup_request_count =
    let level =
      (if ltb warmup_request_count concurrent_request_count
        then warmup_request_count
        else concurrent_request_count) in
    if warmup_request_count == 0
    then some m
    else (change_concurrency_level m level warmup_request_count >>= λ m'.
        some (wait_for_warmup_and_cleanup m'))
