-- ===== src/Profiler/ServerStats.antt =====
-- The statistics that the server keeps of a model and of the models that it is composed of
-- (src/inference_profiler.{h,cc}): MergeServerSideStats and GetTotalEnsembleDurations. The counters
-- are numbers by the name of the member. A model's identifier is a number. The sums are in 64 bits.
-- `none` is an error of the merge, and an
-- exception or a division by 0 of the durations.
pub mod Merged
pub mod Means
pub mod Durations
use perf_analyzer.Prelude.{
  ℕ, suc, ◌-◌, ◌/◌, ltb, Bool, true, ◌&&◌, List, [], ◌∷◌, map, Option, none, some, ◌==◌,
  if◌then◌else◌, ◌>>=◌, add_u64, mul_u64,
}

pub data Member : Type 0 where
  inference_count : Member
  execution_count : Member
  cache_hit_count : Member
  cache_miss_count : Member
  success_count : Member
  queue_count : Member
  compute_input_count : Member
  compute_infer_count : Member
  compute_output_count : Member
  cumm_time_ns : Member
  queue_time_ns : Member
  compute_input_time_ns : Member
  compute_infer_time_ns : Member
  compute_output_time_ns : Member
  cache_hit_time_ns : Member
  cache_miss_time_ns : Member

mutual
  pub data ServerSideStats : Type 0 where
    server_side_stats : (Member → ℕ) → ComposingModels → ServerSideStats

  pub data ComposingModels : Type 0 where
    no_models : ComposingModels
    composing_model : ℕ → ServerSideStats → ComposingModels → ComposingModels

abbrev pub counters : ServerSideStats → Member → ℕ
counters (server_side_stats c parts) = c

abbrev pub composing_models_stat : ServerSideStats → ComposingModels
composing_models_stat (server_side_stats c parts) = parts

abbrev pub size : ComposingModels → ℕ
size no_models = 0
size (composing_model id s more) = suc (size more)

abbrev pub no_counts : Member → ℕ
no_counts f = 0

-- operator[] of the map: a model that is not there has no counts.
unfoldable pub model_of : ℕ → ComposingModels → ServerSideStats
model_of id no_models = server_side_stats no_counts no_models
model_of id (composing_model k s more) = if id == k then s else model_of id more

abbrev pub submodel : ℕ → ServerSideStats → ServerSideStats
submodel id s = model_of id (composing_models_stat s)

unfoldable pub all_have_size : ℕ → List ServerSideStats → Bool
all_have_size n [] = true
all_have_size n (s ∷ ss) = (size (composing_models_stat s) == n) && all_have_size n ss

-- The aggregation loop.
unfoldable pub add_counters : (Member → ℕ) → List ServerSideStats → Member → ℕ
add_counters total [] = total
add_counters total (s ∷ ss) = add_counters (λ f. add_u64 (total f) (counters s f)) ss

-- The first of the statistics, and the others.
unfoldable mutual
  unfolding model_of all_have_size add_counters

  pub merge_server_side_stats : ServerSideStats → List ServerSideStats → Option ServerSideStats
  merge_server_side_stats (server_side_stats c parts) rest =
      let merged = merge_composing_models parts rest in
      let total = add_counters no_counts (server_side_stats c parts ∷ rest) in
      if all_have_size (size parts) rest
      then (merged >>= λ composing. some (server_side_stats total composing))
      else none

  pub merge_composing_models : ComposingModels → List ServerSideStats → Option ComposingModels
  merge_composing_models no_models rest = some no_models
  merge_composing_models (composing_model id s more) rest =
      merge_server_side_stats s (map (submodel id) rest) >>= λ merged.
      merge_composing_models more rest >>= λ others. some (composing_model id merged others)

-- A count whose thousandfold wraps to 0 would divide by zero.
-- `none` is a division by 0: cnt * 1000 may wrap to 0.
unfoldable pub average_duration_in_us : ℕ → ℕ → Option ℕ
average_duration_in_us total_time_in_ns cnt =
    let average : Option ℕ =
      (if mul_u64 cnt 1000 == 0 then none else some (total_time_in_ns / mul_u64 cnt 1000)) in
    if cnt == 0 then some 0 else average

pub record EnsembleDurations : Type 0 where
  pub total_queue_time_avg_us : ℕ
  pub total_compute_time_avg_us : ℕ
  pub total_cache_hit_time_avg_us : ℕ
  pub total_cache_miss_time_avg_us : ℕ
  pub total_combined_cache_compute_time_avg_us : ℕ

abbrev pub compute_time : (Member → ℕ) → ℕ
compute_time c =
    add_u64 (add_u64 (c compute_input_time_ns) (c compute_infer_time_ns)) (c compute_output_time_ns)

abbrev pub counts_agree : (Member → ℕ) → Bool
counts_agree c =
    (c compute_input_count == c compute_infer_count)
    && (c compute_infer_count == c compute_output_count)

-- The durations of a model that is not composed, as averages.
unfoldable pub durations_of : (Member → ℕ) → Option EnsembleDurations
durations_of c = do
  queue_avg ← average_duration_in_us (c queue_time_ns) (c queue_count)
  compute_avg ← average_duration_in_us (compute_time c) (c compute_input_count)
  cache_hit_avg ← average_duration_in_us (c cache_hit_time_ns) (c cache_hit_count)
  cache_miss_avg ← average_duration_in_us (c cache_miss_time_ns) (c cache_miss_count)
  combined_avg ←
      average_duration_in_us
        (add_u64 (add_u64 (compute_time c) (c cache_hit_time_ns)) (c cache_miss_time_ns))
        (add_u64 (c compute_input_count) (c cache_hit_count))
  some (record {
    total_queue_time_avg_us = queue_avg;
    total_compute_time_avg_us = compute_avg;
    total_cache_hit_time_avg_us = cache_hit_avg;
    total_cache_miss_time_avg_us = cache_miss_avg;
    total_combined_cache_compute_time_avg_us = combined_avg;
  })

abbrev pub add_durations : EnsembleDurations → EnsembleDurations → EnsembleDurations
add_durations d e = record {
  total_queue_time_avg_us = add_u64 d.total_queue_time_avg_us e.total_queue_time_avg_us;
  total_compute_time_avg_us = add_u64 d.total_compute_time_avg_us e.total_compute_time_avg_us;
  total_cache_hit_time_avg_us = add_u64 d.total_cache_hit_time_avg_us e.total_cache_hit_time_avg_us;
  total_cache_miss_time_avg_us =
      add_u64 d.total_cache_miss_time_avg_us e.total_cache_miss_time_avg_us;
  total_combined_cache_compute_time_avg_us =
      add_u64 d.total_combined_cache_compute_time_avg_us e.total_combined_cache_compute_time_avg_us;
}

-- What the response cache of the ensemble itself gives.
unfoldable pub cache_durations : (Member → ℕ) → Option EnsembleDurations
cache_durations c = do
  cache_hit_avg ← average_duration_in_us (c cache_hit_time_ns) (c cache_hit_count)
  cache_miss_avg ← average_duration_in_us (c cache_miss_time_ns) (c cache_miss_count)
  some (record {
    total_queue_time_avg_us = 0;
    total_compute_time_avg_us = 0;
    total_cache_hit_time_avg_us = cache_hit_avg;
    total_cache_miss_time_avg_us = cache_miss_avg;
    total_combined_cache_compute_time_avg_us = 0;
  })

abbrev pub leaf_durations : (Member → ℕ) → Option EnsembleDurations
leaf_durations c = if counts_agree c then durations_of c else none

-- The loop over the composing models adds to what is there.
unfoldable mutual
  unfolding average_duration_in_us durations_of cache_durations

  pub get_total_ensemble_durations : ServerSideStats → Option EnsembleDurations
  get_total_ensemble_durations (server_side_stats c parts) =
      cache_durations c >>= λ d. add_composing_models d parts

  pub add_composing_models : EnsembleDurations → ComposingModels → Option EnsembleDurations
  add_composing_models d no_models = some d
  add_composing_models d (composing_model id (server_side_stats c no_models) more) =
      leaf_durations c >>= λ e. add_composing_models (add_durations d e) more
  add_composing_models d
        (composing_model id (server_side_stats c (composing_model k s others)) more) =
      get_total_ensemble_durations (server_side_stats c (composing_model k s others)) >>= λ e.
      add_composing_models (add_durations d e) more

unfoldable pub get_overhead_duration : ℕ → ℕ → ℕ → ℕ
get_overhead_duration total_time queue_time compute_time =
    if ltb (add_u64 queue_time compute_time) total_time
    then total_time - queue_time - compute_time
    else 0
