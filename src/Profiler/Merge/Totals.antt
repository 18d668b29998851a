-- ===== src/Profiler/Merge/Totals.antt =====
-- What the merged report has of the reports.
use perf_analyzer.Prelude.{
  ℕ, ◌+◌, ◌/◌, ◌%◌, ◌≤◌, ◌<◌, ◌≡◌, refl, sym, ap, ◌∙◌, subst, inl, inr, Bool, true, false, List,
  ◌∷◌, map, Option, some, ◌==◌, if◌then◌else◌, length, sum, All, concat, count, arith, Bool-cases,
  add_u64, mul_u64, u64_mod,
}
use perf_analyzer.Status.{ok}
use perf_analyzer.Profiler.Window.{sort}
use perf_analyzer.Profiler.Window.Sorted.{
  Sorted, sort-Sorted, count-sort, length-sort, sort-All, sum-sort,
}
use perf_analyzer.Profiler.ServerStats.{ServerSideStats, merge_server_side_stats}
use perf_analyzer.Profiler.Summary.{Doubles, ClientSideStats, PerfStatus}
use perf_analyzer.Profiler.Summary.Percentiles.{
  IsExact, IsPercentile, IsSummarized, summarize_latency-IsSummarized,
}
use perf_analyzer.Profiler.Merge.{
  all_agree, start_merge, add_client, add_reports, add_times, add_lib_stats, averaged,
  server_stats_of, merge_perf_status_reports,
}
use perf_analyzer.Profiler.Merge.Loops.{
  latencies_of, total_of, summed, kept, add_reports_nil, add_reports_cons, add_lib_stats_nil,
  add_lib_stats_cons, latencies-add_reports, averaged_keeps,
}

abbrev merged_client : Bool → ClientSideStats → List PerfStatus → ClientSideStats
merged_client include_lib_stats start rs =
    if include_lib_stats
    then averaged (add_lib_stats (add_reports start rs) rs)
    else add_reports start rs

merged_keeps :
    {B : Type 0} (get : ClientSideStats → B) (include_lib_stats : Bool) (start : ClientSideStats)
    (rs : List PerfStatus)
    → ((c r : ClientSideStats) → get (add_times c r) ≡ get c)
    → ((c : ClientSideStats) (a b d : ℕ)
        → get (record c { avg_request_time_ns = a; avg_send_time_ns = b; avg_receive_time_ns = d })
          ≡ get c)
    → get (merged_client include_lib_stats start rs) ≡ get (add_reports start rs)
merged_keeps get true start rs lib avg =
    averaged_keeps get (add_lib_stats (add_reports start rs) rs)
      (avg (add_lib_stats (add_reports start rs) rs))
    ∙ kept add_times add_lib_stats add_lib_stats_nil add_lib_stats_cons get lib
        (add_reports start rs) rs
merged_keeps get false start rs lib avg = refl

summed_reports :
    (get : ClientSideStats → ℕ)
    → ((c r : ClientSideStats) → get (add_client c r) ≡ add_u64 (get c) (get r))
    → (c : ClientSideStats) (rs : List PerfStatus) → get c < u64_mod
    → get (add_reports c rs) ≡ (get c + total_of get rs) % u64_mod
summed_reports get adds =
    summed add_client add_reports add_reports_nil add_reports_cons get get adds

zero_plus : (n : ℕ) → 0 + n ≡ n
zero_plus n = omega arith

-- With the statistics of the client library, the average time of a request is weighted by the
-- requests that each report has completed.
abbrev pub Means : Bool → List PerfStatus → ClientSideStats → Type 0
Means false rs c = (c.completed_count ≡ 0) × (c.avg_request_time_ns ≡ 0)
Means true rs c =
    (c.completed_count ≡ total_of (λ r. r.completed_count) rs % u64_mod)
    × (c.avg_request_time_ns ≡ (
        if c.completed_count == 0
        then total_of (λ r. mul_u64 r.avg_request_time_ns r.completed_count) rs % u64_mod
        else total_of (λ r. mul_u64 r.avg_request_time_ns r.completed_count) rs
          % u64_mod
          / c.completed_count))

averaged_mean :
    (c : ClientSideStats)
    → (averaged c).avg_request_time_ns ≡ (
        if c.completed_count == 0
        then c.avg_request_time_ns
        else c.avg_request_time_ns / c.completed_count)
unfolding averaged
averaged_mean c = elim (Bool-cases (c.completed_count == 0)) [ inl t ↦ rw t | inr f ↦ rw f ]

merged-Means :
    (include_lib_stats : Bool) (start : ClientSideStats) (rs : List PerfStatus)
    → start.completed_count ≡ 0
    → start.avg_request_time_ns ≡ 0
    → Means include_lib_stats rs (merged_client include_lib_stats start rs)
merged-Means false start rs z t = (
  kept add_client add_reports add_reports_nil add_reports_cons (λ c. c.completed_count)
        (λ c r. refl) start rs
      ∙ z,
  kept add_client add_reports add_reports_nil add_reports_cons (λ c. c.avg_request_time_ns)
        (λ c r. refl) start rs
      ∙ t,
)
merged-Means true start rs z t =
    let added = add_reports start rs in
    let timed = add_lib_stats added rs in
    let bits : 0 < u64_mod = omega arith in
    let z' : added.completed_count ≡ 0 =
      kept add_client add_reports add_reports_nil add_reports_cons (λ c. c.completed_count)
        (λ c r. refl) start rs
      ∙ z in
    let t' : added.avg_request_time_ns ≡ 0 =
      kept add_client add_reports add_reports_nil add_reports_cons (λ c. c.avg_request_time_ns)
        (λ c r. refl) start rs
      ∙ t in
    let completed : timed.completed_count ≡ total_of (λ r. r.completed_count) rs % u64_mod =
      summed add_times add_lib_stats add_lib_stats_nil add_lib_stats_cons (λ c. c.completed_count)
        (λ r. r.completed_count) (λ c r. refl) added rs (subst (λ n. n < u64_mod) (sym z') bits)
      ∙ ap (λ n. (n + total_of (λ r. r.completed_count) rs) % u64_mod) z'
      ∙ ap (λ n. n % u64_mod) (zero_plus (total_of (λ r. r.completed_count) rs)) in
    let time : timed.avg_request_time_ns
        ≡ total_of (λ r. mul_u64 r.avg_request_time_ns r.completed_count) rs % u64_mod =
      summed add_times add_lib_stats add_lib_stats_nil add_lib_stats_cons
        (λ c. c.avg_request_time_ns) (λ r. mul_u64 r.avg_request_time_ns r.completed_count)
        (λ c r. refl) added rs (subst (λ n. n < u64_mod) (sym t') bits)
      ∙ ap (λ n. (n + total_of (λ r. mul_u64 r.avg_request_time_ns r.completed_count) rs) % u64_mod)
          t'
      ∙ ap (λ n. n % u64_mod)
          (zero_plus (total_of (λ r. mul_u64 r.avg_request_time_ns r.completed_count) rs)) in
    let same : (averaged timed).completed_count ≡ timed.completed_count =
      averaged_keeps (λ c. c.completed_count) timed (λ a b d. refl) in
    (
      same ∙ completed,
      averaged_mean timed
          ∙ ap (λ n. if timed.completed_count == 0 then n else n / timed.completed_count) time
          ∙ ap
              (λ k.
                if k == 0
                then total_of (λ r. mul_u64 r.avg_request_time_ns r.completed_count) rs % u64_mod
                else total_of (λ r. mul_u64 r.avg_request_time_ns r.completed_count) rs
                  % u64_mod
                  / k)
              (sym same),
    )

Means-same :
    (include_lib_stats : Bool) (rs : List PerfStatus) (c d : ClientSideStats)
    → c.completed_count ≡ d.completed_count
    → c.avg_request_time_ns ≡ d.avg_request_time_ns
    → Means include_lib_stats rs d
    → Means include_lib_stats rs c
Means-same false rs c d p q (a, b) = (p ∙ a, q ∙ b)
Means-same true rs c d p q (a, b) = (
  p ∙ a,
  q
      ∙ b
      ∙ ap
          (λ k.
            if k == 0
            then total_of (λ r. mul_u64 r.avg_request_time_ns r.completed_count) rs % u64_mod
            else total_of (λ r. mul_u64 r.avg_request_time_ns r.completed_count) rs % u64_mod / k)
          (sym p),
)

abbrev pub all_latencies : List PerfStatus → List ℕ
all_latencies rs = concat (map latencies_of rs)

-- What the merged report `s` has of the reports `rs`, where the experiment began with `responses`.
abbrev pub IsMerged : Bool → List PerfStatus → ℕ → PerfStatus → Type 0
IsMerged include_lib_stats rs responses s =
    Sorted s.client_stats.latencies
    × ((n : ℕ) → count n s.client_stats.latencies ≡ count n (all_latencies rs))
    × (s.client_stats.request_count ≡ total_of (λ c. c.request_count) rs % u64_mod)
    × (s.client_stats.response_count ≡ (responses + total_of (λ c. c.response_count) rs) % u64_mod)
    × Means include_lib_stats rs s.client_stats

-- If the reports agree in their settings, the statistics of their servers can be merged, there is a
-- latency, all latencies lie between two bounds, their sum does not wrap, and for their number the
-- doubles give indices of the percentiles within range and in order, then the reports are merged. The merged report
-- has the latencies of all the reports, each as often as they have it, in order; the sum of their
-- requests, and of their responses with those that the experiment had before; the merged statistics
-- of the servers; with the statistics of the client library, the mean time of a request weighted by
-- the completed requests; and it is a summary of these latencies.
pub merge_perf_status_reports-IsMerged :
    (doubles : Doubles) (percentile : Option ℕ) (include_lib_stats : Bool) (first : PerfStatus)
    (rest : List PerfStatus) (experiment : PerfStatus) (m : ServerSideStats) (lo hi : ℕ)
    → IsExact doubles (length (all_latencies (first ∷ rest)))
    → IsPercentile percentile
    → all_agree first rest ≡ true
    → merge_server_side_stats first.server_stats (map server_stats_of rest) ≡ some m
    → experiment.client_stats.response_count < u64_mod
    → 0 < length (all_latencies (first ∷ rest))
    → All (λ x. lo ≤ x) (all_latencies (first ∷ rest))
    → All (λ x. x ≤ hi) (all_latencies (first ∷ rest))
    → sum (all_latencies (first ∷ rest)) < u64_mod
    → (s : PerfStatus) × (merge_perf_status_reports doubles percentile include_lib_stats first rest
          experiment
        ≡ some (ok, s))
      × (s.server_stats ≡ m)
      × IsMerged include_lib_stats (first ∷ rest) experiment.client_stats.response_count s
      × IsSummarized doubles s.client_stats.latencies percentile lo hi s
unfolding merge_perf_status_reports start_merge
merge_perf_status_reports-IsMerged doubles percentile include_lib_stats first rest experiment m lo
      hi exact h agree servers responses some_latency low high no_wrap =
    let rs = first ∷ rest in
    let start : PerfStatus = start_merge first experiment in
    let client : ClientSideStats = merged_client include_lib_stats start.client_stats rs in
    let ls : List ℕ = all_latencies rs in
    let bits : 0 < u64_mod = omega arith in
    let lat : client.latencies ≡ ls =
      merged_keeps (λ c. c.latencies) include_lib_stats start.client_stats rs (λ c r. refl)
        (λ c a b d. refl)
      ∙ latencies-add_reports start.client_stats rs in
    let requests : client.request_count ≡ total_of (λ c. c.request_count) rs % u64_mod =
      merged_keeps (λ c. c.request_count) include_lib_stats start.client_stats rs (λ c r. refl)
        (λ c a b d. refl)
      ∙ summed_reports (λ c. c.request_count) (λ c r. refl) start.client_stats rs bits
      ∙ ap (λ n. n % u64_mod) (zero_plus (total_of (λ c. c.request_count) rs)) in
    let answers : client.response_count
        ≡ (experiment.client_stats.response_count + total_of (λ c. c.response_count) rs) % u64_mod =
      merged_keeps (λ c. c.response_count) include_lib_stats start.client_stats rs (λ c r. refl)
        (λ c a b d. refl)
      ∙ summed_reports (λ c. c.response_count) (λ c r. refl) start.client_stats rs responses in
    let means = merged-Means include_lib_stats start.client_stats rs refl refl in
    let sorted : List ℕ = sort client.latencies in
    let ready : PerfStatus = record start {
      server_stats = m;
      client_stats = record client { latencies = sorted };
    } in
    let len = length-sort client.latencies ∙ ap length lat in
    let all : (P : ℕ → Type 0) → All P ls → All P sorted =
      λ P a. sort-All P client.latencies (subst (All P) (sym lat) a) in
    let (s, e, summarized, rewritten) =
      summarize_latency-IsSummarized doubles percentile sorted lo hi ready
        (subst (IsExact doubles) (sym len) exact) (sort-Sorted client.latencies) h
        (omega (arith, len)) (all (λ x. lo ≤ x) low) (all (λ x. x ≤ hi) high)
        (subst (λ n. n < u64_mod) (sym (sum-sort client.latencies ∙ ap sum lat)) no_wrap) in
    let same : s.client_stats.latencies ≡ sorted = ap (λ r. r.client_stats.latencies) rewritten in
    (
      s,
      rw (agree, servers) e,
      ap server_stats_of rewritten,
      (
        subst Sorted (sym same) (sort-Sorted client.latencies),
        λ n. ap (count n) same ∙ count-sort n client.latencies ∙ ap (count n) lat,
        ap (λ r. r.client_stats.request_count) rewritten ∙ requests,
        ap (λ r. r.client_stats.response_count) rewritten ∙ answers,
        Means-same include_lib_stats rs s.client_stats client
            (ap (λ r. r.client_stats.completed_count) rewritten)
            (ap (λ r. r.client_stats.avg_request_time_ns) rewritten) means,
      ),
      subst (λ l. IsSummarized doubles l percentile lo hi s) (sym same) summarized,
    )
