-- ===== src/LoadSplit.antt =====
-- How the managers spread a number over their threads: the floor for each and one more for the
-- first of them, with running offsets. It is written out in ConcurrencyManager::ReconfigThreads
-- (src/concurrency_manager.cc) and RequestRateManager::ConfigureThreads
-- (src/request_rate_manager.cc). ThreadConfig is src/thread_config.h.
pub mod Totals
use perf_analyzer.Prelude.{
  ℕ, zero, suc, ◌+◌, ◌/◌, ◌%◌, Bool, false, List, [], ◌∷◌, ltb, if◌then◌else◌,
}

pub record ThreadConfig : Type 0 where
  pub thread_id : ℕ
  pub concurrency : ℕ
  pub num_sequences : ℕ
  pub num_requests : ℕ
  pub seq_stat_index_offset : ℕ
  pub is_paused : Bool

unfoldable pub new_config : ℕ → ThreadConfig
new_config thread_id = record {
  thread_id = thread_id;
  concurrency = 0;
  num_sequences = 1;
  num_requests = 0;
  seq_stat_index_offset = 0;
  is_paused = false;
}

-- The part of thread i of `threads`.
unfoldable pub share : ℕ → ℕ → ℕ → ℕ
share total threads i = total / threads + (if ltb i (total % threads) then 1 else 0)

-- The parts of `count` threads from thread i on, and where each part begins.
unfoldable pub shares : ℕ → ℕ → ℕ → ℕ → List ℕ
shares total threads i zero = []
shares total threads i (suc count) = share total threads i ∷ shares total threads (suc i) count

unfoldable pub offsets : ℕ → List ℕ → List ℕ
offsets from [] = []
offsets from (part ∷ parts) = from ∷ offsets (from + part) parts
