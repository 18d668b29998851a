-- ===== src/Profiler/Merge.antt =====
-- MergePerfStatusReports (src/inference_profiler.cc): the reports of the last trials become one. The
-- overhead, the rates per second and the metrics, which are doubles, are left out.
pub mod Loops
pub mod Totals
use perf_analyzer.Prelude.{
  ℕ, ◌/◌, Bool, true, false, ◌&&◌, List, [], ◌∷◌, ◌++◌, map, Option, none, some, ◌==◌,
  if◌then◌else◌, add_u64, mul_u64,
}
use perf_analyzer.Status.{Status, ok, err, generic_error}
use perf_analyzer.Profiler.Window.{sort}
use perf_analyzer.Profiler.ServerStats.{
  ServerSideStats, composing_models_stat, size, merge_server_side_stats,
}
use perf_analyzer.Profiler.Summary.{Doubles, ClientSideStats, PerfStatus, summarize_latency}

abbrev pub same_setting : Bool → Bool → Bool
same_setting true b = b
same_setting false true = false
same_setting false false = true

-- The tests of a report against the first one.
unfoldable pub agrees : PerfStatus → PerfStatus → Bool
agrees first r =
    same_setting r.on_sequence_model first.on_sequence_model
    && (r.batch_size == first.batch_size)
    && (size (composing_models_stat r.server_stats)
        == size (composing_models_stat first.server_stats))

unfoldable pub all_agree : PerfStatus → List PerfStatus → Bool
unfolding agrees
all_agree first [] = true
all_agree first (r ∷ rs) = agrees first r && all_agree first rs

-- The merged report at the start. The number of responses is not set back.
unfoldable pub start_merge : PerfStatus → PerfStatus → PerfStatus
start_merge first experiment = record experiment {
  batch_size = first.batch_size;
  on_sequence_model = first.on_sequence_model;
  client_stats = record experiment.client_stats {
    request_count = 0;
    sequence_count = 0;
    delayed_request_count = 0;
    duration_ns = 0;
    avg_latency_ns = 0;
    percentile_latency_ns = [];
    latencies = [];
    std_us = 0;
    avg_request_time_ns = 0;
    avg_send_time_ns = 0;
    avg_receive_time_ns = 0;
    completed_count = 0;
  };
  stabilizing_latency_ns = 0;
}

abbrev pub add_client : ClientSideStats → ClientSideStats → ClientSideStats
add_client c r = record c {
  request_count = add_u64 c.request_count r.request_count;
  sequence_count = add_u64 c.sequence_count r.sequence_count;
  delayed_request_count = add_u64 c.delayed_request_count r.delayed_request_count;
  response_count = add_u64 c.response_count r.response_count;
  duration_ns = add_u64 c.duration_ns r.duration_ns;
  latencies = c.latencies ++ r.latencies;
}

-- The loop over the reports.
unfoldable pub add_reports : ClientSideStats → List PerfStatus → ClientSideStats
add_reports c [] = c
add_reports c (r ∷ rs) = add_reports (add_client c r.client_stats) rs

abbrev pub add_times : ClientSideStats → ClientSideStats → ClientSideStats
add_times c r = record c {
  completed_count = add_u64 c.completed_count r.completed_count;
  avg_request_time_ns =
      add_u64 c.avg_request_time_ns (mul_u64 r.avg_request_time_ns r.completed_count);
  avg_send_time_ns = add_u64 c.avg_send_time_ns (mul_u64 r.avg_send_time_ns r.completed_count);
  avg_receive_time_ns =
      add_u64 c.avg_receive_time_ns (mul_u64 r.avg_receive_time_ns r.completed_count);
}

-- The loop over the statistics of the client library.
unfoldable pub add_lib_stats : ClientSideStats → List PerfStatus → ClientSideStats
add_lib_stats c [] = c
add_lib_stats c (r ∷ rs) = add_lib_stats (add_times c r.client_stats) rs

unfoldable pub averaged : ClientSideStats → ClientSideStats
averaged c = if c.completed_count == 0 then c else record c {
  avg_request_time_ns = c.avg_request_time_ns / c.completed_count;
  avg_send_time_ns = c.avg_send_time_ns / c.completed_count;
  avg_receive_time_ns = c.avg_receive_time_ns / c.completed_count;
}

abbrev pub server_stats_of : PerfStatus → ServerSideStats
server_stats_of r = r.server_stats

-- The latencies are sorted, and summarized.
abbrev pub sorted_summary :
    Doubles → Option ℕ → PerfStatus → Option ServerSideStats → Option (Status × PerfStatus)
sorted_summary doubles percentile merged none = some (err generic_error, merged)
sorted_summary doubles percentile merged (some server_stats) =
    let latencies = sort merged.client_stats.latencies in
    summarize_latency doubles percentile latencies (record merged {
      server_stats = server_stats;
      client_stats = record merged.client_stats { latencies = latencies };
    })

-- The first report, the others, and the report of the experiment into which they are merged.
unfoldable pub merge_perf_status_reports :
    Doubles
    → Option ℕ
    → Bool
    → PerfStatus
    → List PerfStatus
    → PerfStatus
    → Option (Status × PerfStatus)
merge_perf_status_reports doubles percentile include_lib_stats first rest experiment =
    let start = start_merge first experiment in
    let added = add_reports start.client_stats (first ∷ rest) in
    let timed = averaged (add_lib_stats added (first ∷ rest)) in
    let client_stats : ClientSideStats = if include_lib_stats then timed else added in
    let server_stats = merge_server_side_stats first.server_stats (map server_stats_of rest) in
    let merged : PerfStatus = record start { client_stats = client_stats } in
    if all_agree first rest
    then sorted_summary doubles percentile merged server_stats
    else some (err generic_error, experiment)
