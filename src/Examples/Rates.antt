-- ===== src/Examples/Rates.antt =====
-- Runs of the request rate manager.
use perf_analyzer.Prelude.{count, ℕ, ◌≡◌, ◌<◌, refl, true, false, List, [], ◌∷◌, some, arith}
use perf_analyzer.LoadSplit.{share}
use perf_analyzer.RateSchedule.{RateSchedule}
use perf_analyzer.RequestRateManager.{
  RequestRateManager, calculate_thread_ids, configure_threads, determine_num_threads,
  create_worker_schedules,
}
use perf_analyzer.RequestRateManager.Dealt.{
  IsSpread, slots_are_sequences, configure_threads-IsSpread,
}

abbrev manager : RequestRateManager
manager = record {
  max_threads = 4;
  num_of_sequences = 10;
  on_sequence_model = true;
  execute = false;
  threads_config = [];
}

four : determine_num_threads manager ≡ 4
unfolding determine_num_threads
four = refl

four_pos : 0 < determine_num_threads manager
four_pos = omega (arith, four)

slots_are_sequences_example :
    count 0 (calculate_thread_ids manager) ≡ share 10 (determine_num_threads manager) 0
slots_are_sequences_example = slots_are_sequences manager 0 refl four_pos

configure_threads-IsSpread_example :
    (m' : RequestRateManager) × (configure_threads 7 manager ≡ some m')
    × IsSpread manager 7 m'.threads_config
configure_threads-IsSpread_example = configure_threads-IsSpread manager 7 refl four_pos

abbrev two_workers : RequestRateManager
two_workers = record manager {
  max_threads = 2;
  on_sequence_model = false;
  threads_config =
      record {
        thread_id = 0;
        concurrency = 0;
        num_sequences = 1;
        num_requests = 0;
        seq_stat_index_offset = 0;
        is_paused = false;
      }
      ∷ record {
        thread_id = 1;
        concurrency = 0;
        num_sequences = 1;
        num_requests = 0;
        seq_stat_index_offset = 0;
        is_paused = false;
      }
      ∷ [];
}

abbrev dealt : List ℕ → RateSchedule
dealt intervals = record { intervals = intervals; duration = 20; rounds = 0; index = 0 }

-- A request every 5 ns, for 20 ns, goes to two workers in turn.
deals :
    create_worker_schedules 20 (5 ∷ 5 ∷ 5 ∷ 5 ∷ 5 ∷ []) two_workers
    ≡ some (dealt (5 ∷ 15 ∷ []) ∷ dealt (10 ∷ 20 ∷ []) ∷ [])
unfolding create_worker_schedules determine_num_threads
deals = refl
