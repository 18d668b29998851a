-- ===== src/Profiler/Summary/Percentiles.antt =====
-- The latencies of the percentiles.
use perf_analyzer.Prelude.{
  ℕ, ◌+◌, ◌-◌, ◌/◌, ◌≤◌, ◌<◌, ◌≡◌, refl, sym, ap, ◌∙◌, get_or, false, List, [], ◌∷◌, Option, none,
  some, ltb, ◌==◌, if◌then◌else◌, length, get_elem?, sum, All, arith, u64_mod,
}
use perf_analyzer.Status.{ok}
use perf_analyzer.Profiler.Window.Sorted.{Sorted}
use perf_analyzer.Profiler.Summary.{
  Doubles, percentile_index, PerfStatus, accumulate, get_mean_and_std_dev, default_percentiles,
  percentiles_for, stabilizing, summarize_latency, sum_squares, uint64_max,
}
use perf_analyzer.Profiler.Summary.Keys.{Wanted, HasKey, valued-Wanted, Wanted-valued}
use perf_analyzer.Profiler.Summary.Values.{
  Ascending, emplace-All, emplace-Ascending, valued, find_valued, Ascends, valued-Ascends,
  get_or-Sorted, get_elem?-get_or, percentile_values_lem, quotient_between, sum_between,
  accumulate_lem,
}

-- The latency at the percentile of an ascending list.
abbrev pub at_percentile : Doubles → List ℕ → ℕ → Option ℕ
at_percentile doubles latencies p =
    get_elem? latencies (percentile_index doubles p (length latencies))

-- For `n` latencies, the computation of the indices stays within them, and a higher percentile has
-- no lower index.
abbrev pub IsExact : Doubles → ℕ → Type 0
IsExact doubles n =
    ((p : ℕ) → p ≤ 100 → percentile_index doubles p n < n)
    × ((p q : ℕ) → p < q → q ≤ 100 → percentile_index doubles p n ≤ percentile_index doubles q n)

abbrev pub IsPercentile : Option ℕ → Type 0
IsPercentile none = Unit
IsPercentile (some p) = p ≤ 100

-- The latency by which a measurement is judged to be stable.
abbrev pub Judged : Doubles → List ℕ → Option ℕ → PerfStatus → Type 0
Judged doubles latencies none s = s.stabilizing_latency_ns ≡ s.client_stats.avg_latency_ns
Judged doubles latencies (some p) s =
    at_percentile doubles latencies p ≡ some s.stabilizing_latency_ns

abbrev pub IsSummarized : Doubles → List ℕ → Option ℕ → ℕ → ℕ → PerfStatus → Type 0
IsSummarized doubles latencies percentile lo hi s =
    ((p : ℕ) → Wanted percentile p → HasKey p s.client_stats.percentile_latency_ns)
    × ((p : ℕ) → HasKey p s.client_stats.percentile_latency_ns → Wanted percentile p)
    × Ascends s.client_stats.percentile_latency_ns
    × All (λ (y : ℕ × ℕ). at_percentile doubles latencies y.0 ≡ some y.1)
        s.client_stats.percentile_latency_ns
    × Judged doubles latencies percentile s
    × (lo ≤ s.client_stats.avg_latency_ns)
    × (s.client_stats.avg_latency_ns ≤ hi)

default-Ascending : Ascending default_percentiles
default-Ascending = (
  (omega arith, (omega arith, (omega arith, tt))),
  ((omega arith, (omega arith, tt)), ((omega arith, tt), (tt, tt))),
)

default-All : All (λ p. p ≤ 100) default_percentiles
default-All = (omega arith, (omega arith, (omega arith, (omega arith, tt))))

percentiles-Ascending : (percentile : Option ℕ) → Ascending (percentiles_for percentile)
unfolding percentiles_for
percentiles-Ascending none = default-Ascending
percentiles-Ascending (some p) = emplace-Ascending p default_percentiles default-Ascending

percentiles-All :
    (percentile : Option ℕ)
    → IsPercentile percentile
    → All (λ p. p ≤ 100) (percentiles_for percentile)
unfolding percentiles_for
percentiles-All none h = default-All
percentiles-All (some p) h = emplace-All (λ p. p ≤ 100) p default_percentiles h default-All

at-valued :
    (doubles : Doubles) (latencies ps : List ℕ)
    → ((p : ℕ) → p ≤ 100 → percentile_index doubles p (length latencies) < length latencies)
    → All (λ p. p ≤ 100) ps
    → All
        (λ (y : ℕ × ℕ). at_percentile doubles latencies y.0 ≡ some y.1)
        (valued (λ p. get_or latencies (percentile_index doubles p (length latencies)) 0) ps)
at-valued doubles latencies [] inside a = tt
at-valued doubles latencies (p ∷ ps) inside (l, a) = (
  get_elem?-get_or latencies (percentile_index doubles p (length latencies)) (inside p l),
  at-valued doubles latencies ps inside a,
)

abbrev Stable : (ℕ → ℕ) → Option ℕ → ℕ → ℕ → Type 0
Stable f none avg s = s ≡ avg
Stable f (some p) avg s = s ≡ f p

stabilizing_lem :
    (f : ℕ → ℕ) (percentile : Option ℕ) (avg : ℕ)
    → (s : ℕ) × (stabilizing percentile avg (valued f (percentiles_for percentile)) ≡ some s)
      × Stable f percentile avg s
unfolding stabilizing percentiles_for
stabilizing_lem f none avg = (avg, refl, refl)
stabilizing_lem f (some p) avg = (f p, find_valued f p default_percentiles, refl)

judged :
    (doubles : Doubles) (latencies : List ℕ) (percentile : Option ℕ) (s : PerfStatus)
    → IsExact doubles (length latencies)
    → 0 < length latencies
    → IsPercentile percentile
    → Stable
        (λ p. get_or latencies (percentile_index doubles p (length latencies)) 0)
        percentile
        s.client_stats.avg_latency_ns
        s.stabilizing_latency_ns
    → Judged doubles latencies percentile s
judged doubles latencies none s exact pos h e = e
judged doubles latencies (some p) s (inside, mono) pos h e =
    get_elem?-get_or latencies (percentile_index doubles p (length latencies)) (inside p h)
    ∙ ap some (sym e)

-- Nothing but the average, the deviation, the percentiles and the deciding latency is changed.
abbrev pub Rewritten : PerfStatus → PerfStatus → Type 0
Rewritten summary s = s ≡ record summary {
  client_stats = record summary.client_stats {
    avg_latency_ns = s.client_stats.avg_latency_ns;
    std_us = s.client_stats.std_us;
    percentile_latency_ns = s.client_stats.percentile_latency_ns;
  };
  stabilizing_latency_ns = s.stabilizing_latency_ns;
}

pub summarize_latency-IsSummarized :
    (doubles : Doubles) (percentile : Option ℕ) (latencies : List ℕ) (lo hi : ℕ)
    (summary : PerfStatus)
    → IsExact doubles (length latencies)
    → Sorted latencies
    → IsPercentile percentile
    → 0 < length latencies
    → All (λ x. lo ≤ x) latencies
    → All (λ x. x ≤ hi) latencies
    → sum latencies < u64_mod
    → (s : PerfStatus) × (summarize_latency doubles percentile latencies summary ≡ some (ok, s))
      × IsSummarized doubles latencies percentile lo hi s
      × Rewritten summary s
unfolding summarize_latency get_mean_and_std_dev
summarize_latency-IsSummarized doubles percentile latencies lo hi summary (inside, mono) sorted h
      pos low high no_wrap =
    let n = length latencies in
    let f : ℕ → ℕ = λ p. get_or latencies (percentile_index doubles p n) 0 in
    let ps = percentiles_for percentile in
    let all = percentiles-All percentile h in
    let avg = accumulate 0 latencies / n in
    let (st, found, stable) = stabilizing_lem f percentile avg in
    let values =
      percentile_values_lem (percentile_index doubles) latencies ps 100 (λ p. inside p) all in
    let std =
      (if ltb 1 n
        then doubles.sqrt_div_1000 (sum_squares avg 0 latencies / (n - 1))
        else uint64_max) in
    let s : PerfStatus = record summary {
      client_stats = record summary.client_stats {
        avg_latency_ns = avg;
        std_us = std;
        percentile_latency_ns = valued f ps;
      };
      stabilizing_latency_ns = st;
    } in
    let z : (n == 0) ≡ false = ground arith in
    let rises : (p q : ℕ) → p < q → q ≤ 100 → f p ≤ f q =
      λ p q l m. get_or-Sorted latencies _ _ sorted (mono p q l m) (inside q m) in
    let total : accumulate 0 latencies ≡ 0 + sum latencies =
      accumulate_lem 0 latencies (omega arith) in
    let (below, above) = sum_between lo hi latencies low high in
    let within =
      quotient_between lo hi n (accumulate 0 latencies) pos (omega (arith, total, below))
        (omega (arith, total, above)) in
    (
      s,
      rw (z, values, found),
      (
        λ p w. Wanted-valued f percentile p w,
        λ p k. valued-Wanted f percentile p k,
        valued-Ascends f 100 ps rises (percentiles-Ascending percentile) all,
        at-valued doubles latencies ps (λ p. inside p) all,
        judged doubles latencies percentile s (inside, mono) pos h stable,
        within.0,
        within.1,
      ),
      refl,
    )
