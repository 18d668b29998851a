-- ===== src/Examples/Load.antt =====
-- Runs of the load managers, the timers and the schedules.
use perf_analyzer.Prelude.{
  ◌+◌, ◌-◌, ◌≡◌, ◌⊎◌, refl, true, false, [], ◌∷◌, some, arith, length, min, max, ◌>>=◌,
}
use perf_analyzer.IdleTimer.{IdleTimer, get_idle_time, stop}
use perf_analyzer.IdleTimer.Accounting.{observed, reads, lost, get_idle_time_lem, reads-stop}
use perf_analyzer.RateSchedule.{RateSchedule}
use perf_analyzer.RateSchedule.Timeline.{timestamp, next_many, next_many_lem}
use perf_analyzer.LoadSplit.{new_config}
use perf_analyzer.ConcurrencyManager.{ConcurrencyManager, change_concurrency_level}
use perf_analyzer.ConcurrencyManager.Reconfigured.{IsConfigured, change_concurrency_level_lem}

abbrev running : IdleTimer
running = record { idle_ns = 5; is_idle = true; start_time = 10 }

get_idle_time_example :
    (t' : IdleTimer) × (get_idle_time running 20 22 ≡ some (observed running 20, t'))
    × (t'.is_idle ≡ true)
    × ((true ≡ true) × (observed t' 30 + (22 - 20) ≡ observed running 30)
        ⊎ (true ≡ false) × (t' ≡ running))
get_idle_time_example =
    get_idle_time_lem running 20 22 30 (omega arith) (omega arith) (omega arith) (omega arith)

reads-stop_example :
    (t' : IdleTimer) × ((reads ((12, 13) ∷ (17, 17) ∷ []) running >>= λ u. stop u 20) ≡ some t')
    × (t'.idle_ns + lost ((12, 13) ∷ (17, 17) ∷ []) ≡ 5 + (20 - 10))
    × (t'.is_idle ≡ false)
reads-stop_example =
    reads-stop ((12, 13) ∷ (17, 17) ∷ []) running 20 refl
      (omega arith, omega arith, (omega arith, omega arith, omega arith)) (omega arith)

abbrev schedule : RateSchedule
schedule = record { intervals = 1 ∷ 4 ∷ 9 ∷ []; duration = 10; rounds = 0; index = 0 }

next_many_example : (next_many 4 schedule >>= λ r. some r.0) ≡ timestamp schedule 4
next_many_example = next_many_lem 4 schedule (omega arith) refl refl

abbrev four_threads : ConcurrencyManager
four_threads = record {
  max_threads = 4;
  on_sequence_model = true;
  execute = true;
  active_threads = 0;
  threads_config = new_config 0 ∷ [];
}

change_concurrency_level_example :
    (m' : ConcurrencyManager) × (change_concurrency_level four_threads 10 7 ≡ some m')
    × (length m'.threads_config ≡ max 1 (min 10 4))
    × IsConfigured m' 10 7
    × (m'.on_sequence_model ≡ true → m'.execute ≡ true)
change_concurrency_level_example = change_concurrency_level_lem four_threads 10 7 (omega arith)
