-- ===== src/Profiler/Summary.antt =====
-- SummarizeLatency, GetMeanAndStdDev and the counts of SummarizeClientStat
-- (src/inference_profiler.cc). A double is its 64 bits, and the operations on doubles are parameters;
-- so is the square root of the variance in microseconds. The rates per second,
-- which are doubles that nothing here reads, are left out, as are the members of the records that these
-- functions do not touch. `none` is an access out of range or a
-- division by zero.
pub mod Values
pub mod Keys
pub mod Percentiles
use perf_analyzer.Prelude.{
  ℕ, ◌-◌, ◌/◌, Bool, List, [], ◌∷◌, Option, none, some, ltb, ◌==◌, if◌then◌else◌, ◌>>=◌, length,
  get_elem?, add_u64, sub_u64, mul_u64, max,
}
use perf_analyzer.Profiler.ServerStats.{ServerSideStats}
use perf_analyzer.Status.{Status, ok, err, option_error}

-- A double, as the 64 bits that represent it.
abbrev pub Double : Type 0
Double = ℕ

-- What the code uses of doubles: the conversions from and to whole numbers, the arithmetic, and the
-- constant 0.5.
pub record Doubles : Type 0 where
  pub of_size : ℕ → Double
  pub truncate : Double → ℕ
  pub divide : Double → Double → Double
  pub multiply : Double → Double → Double
  pub plus : Double → Double → Double
  pub half : Double
  pub sqrt_div_1000 : ℕ → ℕ

pub record ClientSideStats : Type 0 where
  pub request_count : ℕ
  pub sequence_count : ℕ
  pub delayed_request_count : ℕ
  pub response_count : ℕ
  pub duration_ns : ℕ
  pub avg_latency_ns : ℕ
  pub percentile_latency_ns : List (ℕ × ℕ)
  pub latencies : List ℕ
  pub std_us : ℕ
  pub avg_request_time_ns : ℕ
  pub avg_send_time_ns : ℕ
  pub avg_receive_time_ns : ℕ
  pub completed_count : ℕ

pub record PerfStatus : Type 0 where
  pub batch_size : ℕ
  pub on_sequence_model : Bool
  pub server_stats : ServerSideStats
  pub client_stats : ClientSideStats
  pub stabilizing_latency_ns : ℕ

-- The index of a percentile among `n` latencies: (percentile / 100.0) * (n - 1) + 0.5, truncated.
abbrev pub percentile_index : Doubles → ℕ → ℕ → ℕ
percentile_index doubles percentile n =
    let ratio = doubles.divide (doubles.of_size percentile) (doubles.of_size 100) in
    doubles.truncate (doubles.plus (doubles.multiply ratio (doubles.of_size (n - 1))) doubles.half)

-- std::accumulate in 64 bits.
unfoldable pub accumulate : ℕ → List ℕ → ℕ
accumulate total [] = total
accumulate total (l ∷ ls) = accumulate (add_u64 total l) ls

-- The square of l - avg, which does not depend on the sign.
abbrev pub squared_difference : ℕ → ℕ → ℕ
squared_difference l avg =
    if ltb l avg then mul_u64 (avg - l) (avg - l) else mul_u64 (l - avg) (l - avg)

unfoldable pub sum_squares : ℕ → ℕ → List ℕ → ℕ
sum_squares avg total [] = total
sum_squares avg total (l ∷ ls) = sum_squares avg (add_u64 total (squared_difference l avg)) ls

abbrev pub uint64_max : ℕ
uint64_max = 18446744073709551615

unfoldable pub get_mean_and_std_dev : Doubles → List ℕ → Option (ℕ × ℕ)
get_mean_and_std_dev doubles latencies =
    let avg = accumulate 0 latencies / length latencies in
    let std =
      (if ltb 1 (length latencies)
        then doubles.sqrt_div_1000 (sum_squares avg 0 latencies / (length latencies - 1))
        else uint64_max) in
    if length latencies == 0 then none else some (avg, std)

-- std::set::emplace on ascending numbers.
unfoldable pub emplace : ℕ → List ℕ → List ℕ
emplace p [] = p ∷ []
emplace p (q ∷ qs) = if ltb p q then p ∷ q ∷ qs else (if p == q then q ∷ qs else q ∷ emplace p qs)

abbrev pub default_percentiles : List ℕ
default_percentiles = 50 ∷ 90 ∷ 95 ∷ 99 ∷ []

-- The percentiles with the one that the user asks for, if there is one.
unfoldable pub percentiles_for : Option ℕ → List ℕ
percentiles_for none = default_percentiles
percentiles_for (some percentile) = emplace percentile default_percentiles

unfoldable pub percentile_values : (ℕ → ℕ → ℕ) → List ℕ → List ℕ → Option (List (ℕ × ℕ))
percentile_values index latencies [] = some []
percentile_values index latencies (p ∷ ps) = do
  value ← get_elem? latencies (index p (length latencies))
  values ← percentile_values index latencies ps
  some ((p, value) ∷ values)

unfoldable pub find_percentile : ℕ → List (ℕ × ℕ) → Option ℕ
find_percentile p [] = none
find_percentile p ((q, value) ∷ rest) = if p == q then some value else find_percentile p rest

-- stabilizing_latency_ns: the user's percentile, or the average.
unfoldable pub stabilizing : Option ℕ → ℕ → List (ℕ × ℕ) → Option ℕ
unfolding find_percentile
stabilizing none avg values = some avg
stabilizing (some percentile) avg values = find_percentile percentile values

unfoldable pub summarize_latency :
    Doubles → Option ℕ → List ℕ → PerfStatus → Option (Status × PerfStatus)
summarize_latency doubles percentile latencies summary =
    let summarized : Option (Status × PerfStatus) =
      (get_mean_and_std_dev doubles latencies >>= λ mean.
      percentile_values (percentile_index doubles) latencies (percentiles_for percentile)
      >>= λ values. stabilizing percentile mean.0 values >>= λ stabilizing_latency_ns. some (
        ok,
        record summary {
          client_stats = record summary.client_stats {
            avg_latency_ns = mean.0;
            std_us = mean.1;
            percentile_latency_ns = values;
          };
          stabilizing_latency_ns = stabilizing_latency_ns;
        },
      )) in
    if length latencies == 0 then some (err option_error, summary) else summarized
