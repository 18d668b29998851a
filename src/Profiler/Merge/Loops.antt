-- ===== src/Profiler/Merge/Loops.antt =====
-- The loops over the reports.
use perf_analyzer.Prelude.{
  ℕ, ◌+◌, ◌%◌, ◌<◌, ◌≡◌, refl, sym, ap, ◌∙◌, subst, inl, inr, List, [], ◌∷◌, ◌++◌, map, ◌==◌, sum,
  concat, arith, Bool-cases, add_u64, u64_mod,
}
use native.Mathlib.Nat.{mod-lt, mod-eq_of_lt, mod-add-mod}
use mathlib.Core.List.{append_assoc, append-nil}
use perf_analyzer.Profiler.Summary.{ClientSideStats, PerfStatus}
use perf_analyzer.Profiler.Merge.{add_client, add_reports, add_times, add_lib_stats, averaged}

abbrev pub latencies_of : PerfStatus → List ℕ
latencies_of r = r.client_stats.latencies

-- The sum of a member of the reports, in 64 bits.
abbrev pub total_of : (ClientSideStats → ℕ) → List PerfStatus → ℕ
total_of g rs = sum (map (λ r. g r.client_stats) rs)

-- A number to which the loop adds, from report to report.
module _ (step : ClientSideStats → ClientSideStats → ClientSideStats)
    (run : ClientSideStats → List PerfStatus → ClientSideStats)
    (run_nil : (c : ClientSideStats) → run c [] ≡ c)
    (run_cons : (c : ClientSideStats) (r : PerfStatus) (rs : List PerfStatus)
      → run c (r ∷ rs) ≡ run (step c r.client_stats) rs) where
  pub summed :
      (get add : ClientSideStats → ℕ)
      → ((c r : ClientSideStats) → get (step c r) ≡ add_u64 (get c) (add r))
      → (c : ClientSideStats) (rs : List PerfStatus) → get c < u64_mod
      → get (run c rs) ≡ (get c + total_of add rs) % u64_mod
  summed get add adds c [] h =
      let z : get c + 0 ≡ get c = omega arith in
      ap get (run_nil c) ∙ sym (ap (λ n. n % u64_mod) z ∙ mod-eq_of_lt h)
  summed get add adds c (r ∷ rs) h =
      let x : ℕ = add r.client_stats in
      let bits : 0 < u64_mod = omega arith in
      let l : get (step c r.client_stats) < u64_mod =
        subst (λ n. n < u64_mod) (sym (adds c r.client_stats)) (mod-lt (get c + x) bits) in
      let e : get c + x + total_of add rs ≡ get c + (x + total_of add rs) = omega arith in
      ap get (run_cons c r rs)
      ∙ summed get add adds (step c r.client_stats) rs l
      ∙ ap (λ n. (n + total_of add rs) % u64_mod) (adds c r.client_stats)
      ∙ mod-add-mod (get c + x) u64_mod (total_of add rs)
      ∙ ap (λ n. n % u64_mod) e

  pub kept :
      {B : Type 0} (get : ClientSideStats → B)
      → ((c r : ClientSideStats) → get (step c r) ≡ get c)
      → (c : ClientSideStats) (rs : List PerfStatus) → get (run c rs) ≡ get c
  kept get keeps c [] = ap get (run_nil c)
  kept get keeps c (r ∷ rs) =
      ap get (run_cons c r rs) ∙ kept get keeps (step c r.client_stats) rs ∙ keeps c r.client_stats

pub add_reports_nil : (c : ClientSideStats) → add_reports c [] ≡ c
unfolding add_reports
add_reports_nil c = refl

pub add_reports_cons :
    (c : ClientSideStats) (r : PerfStatus) (rs : List PerfStatus)
    → add_reports c (r ∷ rs) ≡ add_reports (add_client c r.client_stats) rs
unfolding add_reports
add_reports_cons c r rs = refl

pub add_lib_stats_nil : (c : ClientSideStats) → add_lib_stats c [] ≡ c
unfolding add_lib_stats
add_lib_stats_nil c = refl

pub add_lib_stats_cons :
    (c : ClientSideStats) (r : PerfStatus) (rs : List PerfStatus)
    → add_lib_stats c (r ∷ rs) ≡ add_lib_stats (add_times c r.client_stats) rs
unfolding add_lib_stats
add_lib_stats_cons c r rs = refl

pub latencies-add_reports :
    (c : ClientSideStats) (rs : List PerfStatus)
    → (add_reports c rs).latencies ≡ c.latencies ++ concat (map latencies_of rs)
unfolding add_reports
latencies-add_reports c [] = sym (append-nil c.latencies)
latencies-add_reports c (r ∷ rs) =
    latencies-add_reports (add_client c r.client_stats) rs
    ∙ append_assoc c.latencies r.client_stats.latencies (concat (map latencies_of rs))

pub averaged_keeps :
    {B : Type 0} (get : ClientSideStats → B) (c : ClientSideStats)
    → ((a b d : ℕ)
        → get (record c { avg_request_time_ns = a; avg_send_time_ns = b; avg_receive_time_ns = d })
          ≡ get c)
    → get (averaged c) ≡ get c
unfolding averaged
averaged_keeps get c keeps = elim (Bool-cases (c.completed_count == 0)) [
  | inl t ↦ rw t
  | inr f ↦ rw f (keeps _ _ _)
]
