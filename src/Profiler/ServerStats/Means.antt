-- ===== src/Profiler/ServerStats/Means.antt =====
-- The means of a model's durations.
use perf_analyzer.Prelude.{
  ℕ, zero, suc, ◌+◌, ◌/◌, ◌*◌, ◌<◌, ◌≡◌, refl, true, false, some, ◌==◌, add_u64, mul_u64, u64_mod,
  arith,
}
use native.Mathlib.Nat.{mod-eq_of_lt}
use perf_analyzer.Profiler.ServerStats.{
  Member, EnsembleDurations, compute_time, counts_agree, durations_of, cache_durations,
  leaf_durations, average_duration_in_us, queue_time_ns, queue_count, compute_input_count,
  compute_infer_count, compute_output_count, compute_input_time_ns, compute_infer_time_ns,
  compute_output_time_ns, cache_hit_count, cache_miss_count, cache_hit_time_ns, cache_miss_time_ns,
}

-- The mean in microseconds, of a total in nanoseconds.
abbrev pub mean : ℕ → ℕ → ℕ
mean total_ns zero = 0
mean total_ns (suc n) = total_ns / (suc n * 1000)

abbrev pub queue_average : (Member → ℕ) → ℕ
queue_average c = mean (c queue_time_ns) (c queue_count)

abbrev pub computing : (Member → ℕ) → ℕ
computing c = c compute_input_time_ns + c compute_infer_time_ns + c compute_output_time_ns

abbrev pub compute_average : (Member → ℕ) → ℕ
compute_average c = mean (computing c) (c compute_input_count)

-- The counts, times 1000, do not wrap.
abbrev pub IsCounted : (Member → ℕ) → Type 0
IsCounted c =
    (c queue_count * 1000 < u64_mod)
    × ((c compute_input_count + c cache_hit_count) * 1000 < u64_mod)
    × (c cache_miss_count * 1000 < u64_mod)

-- As many inputs, inferences and outputs were computed, in a time that does not wrap.
abbrev pub IsComputed : (Member → ℕ) → Type 0
IsComputed c =
    (c compute_input_count ≡ c compute_infer_count)
    × (c compute_infer_count ≡ c compute_output_count)
    × (computing c < u64_mod)

average_lem :
    (total_ns cnt : ℕ)
    → cnt * 1000 < u64_mod
    → average_duration_in_us total_ns cnt ≡ some (mean total_ns cnt)
unfolding average_duration_in_us
average_lem total_ns zero h = refl
average_lem total_ns (suc n) h =
    let e : (suc n == 0) ≡ false = ground arith in
    let m : mul_u64 (suc n) 1000 ≡ suc n * 1000 = mod-eq_of_lt h in
    let z : (suc n * 1000 == 0) ≡ false = ground arith in rw (e, m, z)

-- The durations of a model at a leaf.
unfoldable pub leaf_record : (Member → ℕ) → EnsembleDurations
leaf_record c = record {
  total_queue_time_avg_us = queue_average c;
  total_compute_time_avg_us = compute_average c;
  total_cache_hit_time_avg_us = mean (c cache_hit_time_ns) (c cache_hit_count);
  total_cache_miss_time_avg_us = mean (c cache_miss_time_ns) (c cache_miss_count);
  total_combined_cache_compute_time_avg_us =
      mean (add_u64 (add_u64 (computing c) (c cache_hit_time_ns)) (c cache_miss_time_ns))
        (c compute_input_count + c cache_hit_count);
}

pub leaf_lem :
    (c : Member → ℕ) → IsCounted c → IsComputed c → leaf_durations c ≡ some (leaf_record c)
unfolding durations_of leaf_record
leaf_lem c (few, both, missed) (inputs, outputs, fits) =
    let agree : counts_agree c ≡ true = ground arith in
    let time : compute_time c ≡ computing c = omega arith in
    let count : add_u64 (c compute_input_count) (c cache_hit_count)
        ≡ c compute_input_count + c cache_hit_count =
      mod-eq_of_lt (omega arith) in
    rw (
      agree,
      time,
      count,
      average_lem (c queue_time_ns) (c queue_count) few,
      average_lem (computing c) (c compute_input_count) (omega arith),
      average_lem (c cache_hit_time_ns) (c cache_hit_count) (omega arith),
      average_lem (c cache_miss_time_ns) (c cache_miss_count) missed,
      average_lem (add_u64 (add_u64 (computing c) (c cache_hit_time_ns)) (c cache_miss_time_ns))
          (c compute_input_count + c cache_hit_count) both,
    )

-- The durations that an ensemble begins with.
unfoldable pub Begins : EnsembleDurations → Type 0
Begins z = (z.total_queue_time_avg_us ≡ 0) × (z.total_compute_time_avg_us ≡ 0)

pub cache_lem :
    (c : Member → ℕ)
    → IsCounted c
    → (z : EnsembleDurations) × (cache_durations c ≡ some z) × Begins z
unfolding cache_durations Begins
cache_lem c (few, both, missed) = (
  record {
    total_queue_time_avg_us = 0;
    total_compute_time_avg_us = 0;
    total_cache_hit_time_avg_us = mean (c cache_hit_time_ns) (c cache_hit_count);
    total_cache_miss_time_avg_us = mean (c cache_miss_time_ns) (c cache_miss_count);
    total_combined_cache_compute_time_avg_us = 0;
  },
  rw (
    average_lem (c cache_hit_time_ns) (c cache_hit_count) (omega arith),
    average_lem (c cache_miss_time_ns) (c cache_miss_count) missed,
  ),
  (refl, refl),
)
