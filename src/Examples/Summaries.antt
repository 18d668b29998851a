-- ===== src/Examples/Summaries.antt =====
-- Summaries of measurements.
use perf_analyzer.Prelude.{
  none, true, ℕ, ◌+◌, ◌-◌, ◌*◌, ◌/◌, ◌%◌, ◌≤◌, ◌<◌, ◌≡◌, refl, false, [], ◌∷◌, map, some, sum,
  u64_mod, arith, All,
}
use perf_analyzer.Profiler.Merge.{agrees, all_agree, merge_perf_status_reports}
use perf_analyzer.Profiler.Merge.Totals.{IsMerged, merge_perf_status_reports-IsMerged}
use perf_analyzer.Status.{ok}
use perf_analyzer.Profiler.Summary.{Doubles, percentile_index, PerfStatus}
use perf_analyzer.Profiler.Summary.Percentiles.{IsExact, IsSummarized}
use perf_analyzer.Profiler.ServerStats.{
  Member, queue_count, queue_time_ns, ServerSideStats, server_side_stats, no_models,
  composing_model, merge_server_side_stats, EnsembleDurations, model_of,
  get_total_ensemble_durations, add_counters, all_have_size,
}
use perf_analyzer.Profiler.ServerStats.Merged.{
  counter_at, HasPath, has_model, merge_server_side_stats_lem,
}
use perf_analyzer.Profiler.ServerStats.Durations.{leaves, models, get_total_ensemble_durations_lem}
use perf_analyzer.Profiler.ServerStats.Means.{IsCounted, IsComputed, queue_average, compute_average}

-- Doubles as whole numbers of hundredths.
abbrev doubles : Doubles
doubles = record {
  of_size = λ n. 100 * n;
  truncate = λ x. x / 100;
  divide = λ a b. a * 100 / b;
  multiply = λ a b. a * b / 100;
  plus = λ a b. a + b;
  half = 50;
  sqrt_div_1000 = λ n. n;
}

doubles-IsExact : (n : ℕ) → 0 < n → IsExact doubles n
doubles-IsExact n pos = (inside, rising)
  where
    inside : (p : ℕ) → p ≤ 100 → percentile_index doubles p n < n
    inside p h =
        let r : 100 * p * 100 / (100 * 100) ≡ p = omega arith in
        let e : p * (100 * (n - 1)) ≡ 100 * (p * (n - 1)) = grind arith in
        let l : p * (n - 1) ≤ 100 * (n - 1) = grind arith in rw (r, e) (omega (arith, l))

    rising :
        (p q : ℕ) → p < q → q ≤ 100 → percentile_index doubles p n ≤ percentile_index doubles q n
    rising p q l h =
        let r : 100 * p * 100 / (100 * 100) ≡ p = omega arith in
        let t : 100 * q * 100 / (100 * 100) ≡ q = omega arith in
        let e : p * (100 * (n - 1)) ≡ 100 * (p * (n - 1)) = grind arith in
        let f : q * (100 * (n - 1)) ≡ 100 * (q * (n - 1)) = grind arith in
        let m : p * (n - 1) ≤ q * (n - 1) = grind arith in rw (r, t, e, f) (omega (arith, m))

abbrev no_stats : Member → ℕ
no_stats f = 0

abbrev summary : PerfStatus
summary = record {
  batch_size = 1;
  on_sequence_model = false;
  server_stats = server_side_stats no_stats no_models;
  client_stats = record {
    request_count = 0;
    sequence_count = 0;
    delayed_request_count = 0;
    response_count = 0;
    duration_ns = 0;
    avg_latency_ns = 0;
    percentile_latency_ns = [];
    latencies = [];
    std_us = 0;
    avg_request_time_ns = 0;
    avg_send_time_ns = 0;
    avg_receive_time_ns = 0;
    completed_count = 0;
  };
  stabilizing_latency_ns = 0;
}

abbrev one_queued : Member → ℕ
one_queued queue_count = 1
one_queued queue_time_ns = 7000
one_queued f = 0

abbrev ensemble : ServerSideStats
ensemble =
    server_side_stats no_stats
      (composing_model 4 (server_side_stats one_queued no_models) no_models)

abbrev merged : ServerSideStats
merged = server_side_stats (add_counters no_stats (ensemble ∷ ensemble ∷ [])) (
    composing_model 4
      (server_side_stats
        (add_counters no_stats
          (server_side_stats one_queued no_models ∷ server_side_stats one_queued no_models ∷ []))
        no_models)
      no_models)

merged_lem : merge_server_side_stats ensemble (ensemble ∷ []) ≡ some merged
unfolding merge_server_side_stats all_have_size model_of
merged_lem = refl

has_four : HasPath (4 ∷ []) ensemble
unfolding has_model
has_four = (refl, tt)

merge_server_side_stats_example :
    counter_at (4 ∷ []) queue_count merged
    ≡ sum (map (counter_at (4 ∷ []) queue_count) (ensemble ∷ ensemble ∷ [])) % u64_mod
merge_server_side_stats_example =
    merge_server_side_stats_lem (4 ∷ []) queue_count ensemble (ensemble ∷ []) merged merged_lem
      has_four

ensemble-IsCounted : All IsCounted (models ensemble)
unfolding models
ensemble-IsCounted =
    ((omega arith, omega arith, omega arith), ((omega arith, omega arith, omega arith), tt))

ensemble-IsComputed : All IsComputed (leaves ensemble)
unfolding leaves
ensemble-IsComputed = ((refl, refl, omega arith), tt)

get_total_ensemble_durations_example :
    (d : EnsembleDurations) × (get_total_ensemble_durations ensemble ≡ some d)
    × (d.total_queue_time_avg_us ≡ sum (map queue_average (leaves ensemble)) % u64_mod)
    × (d.total_compute_time_avg_us ≡ sum (map compute_average (leaves ensemble)) % u64_mod)
get_total_ensemble_durations_example =
    get_total_ensemble_durations_lem ensemble ensemble-IsCounted ensemble-IsComputed

abbrev report : ℕ → ℕ → PerfStatus
report fast slow = record summary {
  client_stats = record summary.client_stats {
    request_count = 2;
    response_count = 2;
    latencies = fast ∷ slow ∷ [];
    avg_request_time_ns = slow;
    completed_count = 2;
  };
}

alone :
    merge_server_side_stats summary.server_stats (summary.server_stats ∷ [])
    ≡ some (
        server_side_stats
          (add_counters no_stats (summary.server_stats ∷ summary.server_stats ∷ []))
          no_models)
unfolding merge_server_side_stats all_have_size
alone = refl

agreeing : all_agree (report 3 9) (report 5 7 ∷ []) ≡ true
unfolding all_agree agrees
agreeing = refl

merge_perf_status_reports-IsMerged_example :
    (s : PerfStatus) × (merge_perf_status_reports doubles none true
        (report 3 9)
        (report 5 7 ∷ [])
        summary
      ≡ some (ok, s))
    × (s.server_stats
        ≡ server_side_stats
            (add_counters no_stats (summary.server_stats ∷ summary.server_stats ∷ []))
            no_models)
    × IsMerged true (report 3 9 ∷ report 5 7 ∷ []) 0 s
    × IsSummarized doubles s.client_stats.latencies none 3 9 s
merge_perf_status_reports-IsMerged_example =
    merge_perf_status_reports-IsMerged doubles none true (report 3 9) (report 5 7 ∷ []) summary
      (server_side_stats (add_counters no_stats (summary.server_stats ∷ summary.server_stats ∷ []))
        no_models)
      3 9 (doubles-IsExact 4 (omega arith)) tt agreeing alone (omega arith) (omega arith)
      (omega arith, (omega arith, (omega arith, (omega arith, tt))))
      (omega arith, (omega arith, (omega arith, (omega arith, tt)))) (omega arith)
