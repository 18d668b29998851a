-- ===== src/Examples/Schedules.antt =====
-- Runs of the managers that deal a schedule to their workers.
use perf_analyzer.Prelude.{
  ◌<◌, ◌≡◌, refl, true, false, List, [], ◌∷◌, map, Option, some, ◌>>=◌, take, drop, arith,
}
use perf_analyzer.Status.{ok}
use perf_analyzer.RateSchedule.{RateSchedule}
use perf_analyzer.RequestRateManager.{
  RequestRateManager, determine_num_threads, constant, change_request_rate,
}
use perf_analyzer.RequestRateManager.Timed.{IsTimed, change_request_rate-IsTimed}
use perf_analyzer.CustomRequestScheduleManager.{
  CustomRequestScheduleManager, Workers, init_manager_finalize, start_schedules,
}
use perf_analyzer.CustomRequestScheduleManager.Given.{IsGiven}
use perf_analyzer.CustomRequestScheduleManager.Started.{IsWarmed, start_schedules-IsGiven}
use perf_analyzer.CustomLoadManager.{CustomLoadManager, Outcome, init_custom_intervals}
use perf_analyzer.CustomLoadManager.Repeated.Files.{Repeats, micros, init_custom_intervals-Repeats}

abbrev base : RequestRateManager
base = record {
  max_threads = 2;
  num_of_sequences = 4;
  on_sequence_model = false;
  execute = false;
  threads_config = [];
}

two : determine_num_threads base ≡ 2
unfolding determine_num_threads
two = refl

two_pos : 0 < determine_num_threads base
two_pos = omega (arith, two)

-- The constant distribution at 100 requests per second.
change_request_rate-IsTimed_example :
    (m' : RequestRateManager) × (ss : List RateSchedule) × (change_request_rate constant 7
        (10 ∷ 10 ∷ 10 ∷ [])
        0
        base
      ≡ some (m', some ss))
    × IsTimed base 1 (10 ∷ 10 ∷ 10 ∷ []) ss
change_request_rate-IsTimed_example =
    change_request_rate-IsTimed constant 7 1 (10 ∷ 10 ∷ 10 ∷ []) 0 base 2 refl refl two_pos
      (omega arith) (omega arith) refl (omega arith)

abbrev fixed : CustomRequestScheduleManager
fixed = record {
  base = base;
  warmup_request_count = 1;
  warmup_schedule = [];
  benchmark_schedule = [];
}

start_schedules-IsGiven_example :
    (m' : CustomRequestScheduleManager) × (w : Option Workers) × (ss : List RateSchedule)
    × ((init_manager_finalize (map some (3 ∷ 4 ∷ 9 ∷ 6 ∷ []) ∷ []) fixed >>= start_schedules)
        ≡ some (m', w, record { schedules = ss; dataset_offset = 1 }))
    × IsWarmed base (take 1 (3 ∷ 4 ∷ 9 ∷ 6 ∷ [])) w
    × IsGiven base (drop 1 (3 ∷ 4 ∷ 9 ∷ 6 ∷ [])) ss
start_schedules-IsGiven_example =
    start_schedules-IsGiven fixed (3 ∷ 4 ∷ 9 ∷ 6 ∷ [])
      (omega arith, (omega arith, (omega arith, (omega arith, tt)))) refl two_pos (omega arith)

abbrev from_file : CustomLoadManager
from_file = record { base = base; has_intervals_file = true; custom_intervals = [] }

init_custom_intervals-Repeats_example :
    (o : Outcome) × (ss : List RateSchedule) × (init_custom_intervals
        (some (map some (5 ∷ 1 ∷ 2 ∷ [])))
        0
        from_file
      ≡ some o)
    × (o.status ≡ ok)
    × (o.schedules ≡ some ss)
    × (o.manager.custom_intervals ≡ map micros (5 ∷ 1 ∷ 2 ∷ []))
    × Repeats base (map micros (5 ∷ 1 ∷ 2 ∷ [])) ss
init_custom_intervals-Repeats_example =
    init_custom_intervals-Repeats from_file (5 ∷ 1 ∷ 2 ∷ []) 0 refl refl refl two_pos (omega arith)
