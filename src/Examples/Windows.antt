-- ===== src/Examples/Windows.antt =====
-- Runs of the measurement window and of the repeated trials.
use perf_analyzer.Prelude.{
  count, ℕ, ◌+◌, ◌*◌, ◌/◌, if◌then◌else◌, ◌≡◌, refl, Bool, true, false, not, List, [], ◌∷◌, some,
  arith, ltb, leb, ◌==◌,
}
use perf_analyzer.Status.{ok}
use perf_analyzer.Profiler.Window.{RequestRecord, Measured, valid_latency_measurement}
use perf_analyzer.Profiler.Window.Sorted.{Sorted}
use perf_analyzer.Profiler.Window.Partition.{
  filter, taken, counted, latencies, responses, number, valid_latency_measurement_lem,
}
use perf_analyzer.Profiler.Trials.{Double, Limits, World, Report, profile_helper}
use perf_analyzer.Profiler.Trials.LastTrials.{IsStable, profile_helper_lem}

abbrev answered : ℕ → List ℕ → Bool → RequestRecord
answered start ends null = record {
  start_time = start;
  response_timestamps = ends;
  sequence_end = true;
  delayed = false;
  sequence_id = start;
  has_null_last_response = null;
}

abbrev records : List RequestRecord
records =
    answered 10 (25 ∷ []) false ∷ answered 11 (30 ∷ []) true ∷ answered 12 (15 ∷ 90 ∷ []) false ∷ []

valid_latency_measurement_example :
    (m : Measured) × (valid_latency_measurement 20 50 0 records
      ≡ (m, filter (taken 20 50) records, filter (λ r. not (taken 20 50 r)) records))
    × Sorted m.valid_latencies
    × ((n : ℕ) → count n m.valid_latencies ≡ count n (latencies (filter (counted 20 50) records)))
    × (m.response_count ≡ responses (filter (counted 20 50) records))
    × (m.valid_sequence_count ≡ number (λ r. r.sequence_end) (filter (counted 20 50) records))
    × (m.delayed_request_count ≡ 0 + number (λ r. r.delayed) (filter (counted 20 50) records))
valid_latency_measurement_example =
    valid_latency_measurement_lem 20 50 0 records (omega arith, (omega arith, (omega arith, tt)))

-- Numbers in place of doubles: `div` and `one_plus_threshold` are in percent.
abbrev percent : Double ℕ
percent = record {
  of_u64 = λ n. n;
  zero_double = 0;
  div = λ a b. a * 100 / b;
  lt = ltb;
  le = leb;
  is_zero = λ n. n == 0;
  one_plus_threshold = 110;
}

-- The server answers more slowly in its first trial.
abbrev trial : ℕ → Report ℕ
trial n = record {
  status = ok;
  infer_per_sec = if n == 0 then 50 else 100;
  stabilizing_latency_ns = 5000;
}

abbrev world : World ℕ ℕ
world = record {
  swap_request_records = λ n. (ok, n);
  check_health = λ n. ok;
  measure = λ n. (trial n, n + 1);
  ranks_stable = λ stable n. (stable, n);
  early_exit = λ n. false;
}

abbrev limits : Limits
limits = record { stability_window = 3; max_trials = 10; latency_threshold_ms = 0 }

abbrev merged_trials : List (Report ℕ)
merged_trials = trial 1 ∷ trial 2 ∷ trial 3 ∷ []

profile_merges : (profile_helper percent world limits false (λ q. ok) 0 0).2 ≡ some merged_trials
unfolding profile_helper
profile_merges = refl

profile_helper_example : IsStable percent limits false 0 merged_trials
profile_helper_example =
    profile_helper_lem percent world limits false (λ q. ok) 0 0 merged_trials profile_merges
