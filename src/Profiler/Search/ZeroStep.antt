-- ===== src/Profiler/Search/ZeroStep.antt =====
-- The searches with a step of 0.
use perf_analyzer.Prelude.{
  ℕ, zero, suc, ◌≤◌, ◌<◌, ◌≡◌, refl, true, none, leb, add_u64, u64_mod, arith,
}
use perf_analyzer.Status.{ok}
use perf_analyzer.Profiler.Search.{Trial, SearchMode, linear_loop, search_levels}

-- If the start is not above the end, which is below 2 ^ 64, then while the measurements at the start
-- succeed and meet the threshold, a linear search with a step of 0 does not end, however much fuel
-- it has.
pub linear-ZeroStep :
    {S : Type 0} (profile : ℕ → S → Trial × S) (fuel start stop : ℕ) (s : S)
    → ((u : S) → (profile start u).0.status ≡ ok)
    → ((u : S) → (profile start u).0.meets_threshold ≡ true)
    → start ≤ stop
    → stop < u64_mod
    → search_levels profile fuel SearchMode.linear start stop 0 s ≡ none
unfolding search_levels linear_loop
linear-ZeroStep profile zero start stop s fine meets le fits = refl
linear-ZeroStep profile (suc fuel) start stop s fine meets le fits =
    let same : add_u64 start 0 ≡ start = omega arith in
    let on : leb start stop ≡ true = ground arith in
    let rest = linear-ZeroStep profile fuel start stop (profile start s).1 fine meets le fits in
    rw (fine s, meets s, same, on, rest)
