-- ===== src/Examples/Options.antt =====
-- Runs of the checks of options.
use perf_analyzer.Prelude.{ℕ, ◌≡◌, refl, true, false, [], ◌∷◌, some, ltb, ◌==◌, pos, negsuc}
use perf_analyzer.PeriodicConcurrencyManager.{Range}
use perf_analyzer.CommandLine.{
  Parameters, Rates, usage_if, triton, grpc, concurrency, periodic_concurrency,
}
use perf_analyzer.CommandLine.Checks.{verify_options}
use perf_analyzer.CommandLine.Accepted.{
  IsSearchable, IsPeriodic, verify_options-IsSearchable, verify_options-IsPeriodic,
}

-- Rates as numbers.
abbrev rates : Rates ℕ
rates = record {
  not_positive = λ n. n == 0;
  negative = λ n. false;
  is_one = λ n. n == 1;
  is_zero = λ n. n == 0;
  lt = ltb;
  as_size = λ n. n;
}

abbrev ranged : ℕ → ℕ → ℕ → Range
ranged start end step = record { start = start; end = end; step = step }

abbrev binary_options : Parameters ℕ
binary_options = record {
  model_name = 109 ∷ [];
  kind = triton;
  concurrency_range = ranged 4 4 0;
  periodic_concurrency_range = ranged 1 1 1;
  rate_start = 1;
  rate_end = 1;
  rate_step = 1;
  protocol = grpc;
  streaming = true;
  using_grpc_compression = false;
  sequence_length_variation = 0;
  start_sequence_id = 0;
  percentile = negsuc 0;
  zero_input = false;
  user_data = [];
  async = true;
  forced_sync = false;
  inference_load_mode = concurrency;
  profile_export_file = 102 ∷ [];
  max_threads = 4;
  num_request_parameters = 0;
  is_mpi_run = false;
  latency_threshold_ms = 20;
  search_mode = 1;
  warmup_request_count = 0;
  request_count = 5;
  using_batch_size = false;
  batch_size = pos 1;
  triton_server_path = [];
  model_repository_path = [];
  uses_shared_memory = false;
  endpoint = [];
  should_collect_metrics = false;
  metrics_url_specified = false;
  metrics_interval_ms_specified = false;
  url = 104 ∷ 58 ∷ 49 ∷ [];
  metrics_url = [];
}

abbrev binary_accepted : Parameters ℕ
binary_accepted = record binary_options { start_sequence_id = 1 }

-- A step of 0 is accepted.
accepts_binary : verify_options rates binary_options ≡ some binary_accepted
unfolding verify_options usage_if
accepts_binary = refl

verify_options-IsSearchable_example : IsSearchable rates binary_accepted
verify_options-IsSearchable_example =
    verify_options-IsSearchable rates binary_options binary_accepted accepts_binary

abbrev periodic_options : Parameters ℕ
periodic_options = record binary_options {
  inference_load_mode = periodic_concurrency;
  periodic_concurrency_range = ranged 1 64 3;
}

abbrev periodic_accepted : Parameters ℕ
periodic_accepted = record periodic_options { start_sequence_id = 1; max_threads = 64 }

accepts_periodic : verify_options rates periodic_options ≡ some periodic_accepted
unfolding verify_options usage_if
accepts_periodic = refl

verify_options-IsPeriodic_example : IsPeriodic rates periodic_accepted
verify_options-IsPeriodic_example =
    verify_options-IsPeriodic rates periodic_options periodic_accepted accepts_periodic refl
