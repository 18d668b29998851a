-- ===== src/Examples/Search.antt =====
-- Runs of the search over load levels, on a server that meets the threshold up to level 5.
use perf_analyzer.Prelude.{ℕ, ◌+◌, ◌≡◌, ◌≢◌, refl, true, List, [], ◌∷◌, some, none, arith, leb}
use perf_analyzer.Status.{Status, ok}
use perf_analyzer.Profiler.Search.{Trial, SearchMode, no_limit, search_levels}
use perf_analyzer.Profiler.Search.Linear.{Sweep, verdict, linear-Sweep}
use perf_analyzer.Profiler.Search.ZeroStep.{linear-ZeroStep}
use perf_analyzer.Profiler.Search.Binary.{Outcome, binary-Bracket}

abbrev measured : ℕ → ℕ → Trial × ℕ
measured v n =
    (record { value = v; status = ok; meets_threshold = leb v 5; is_stable = true }, n + 1)

ten_ne : ◌≢◌ {A = ℕ} 10 no_limit
ten_ne e = ground arith

linear-Sweep_example :
    (r : Status × List Trial × ℕ) × (search_levels measured 11 SearchMode.linear 1 10 2 0 ≡ some r)
    × Sweep 10 2 1 r.1
    × (r.0 ≡ verdict true r.1)
linear-Sweep_example =
    linear-Sweep measured 11 1 10 2 0 (λ v u. refl) ten_ne (omega arith) (omega arith) (omega arith)
      (omega arith) (omega arith)

binary-Bracket_example :
    (r : Status × List Trial × ℕ) × (search_levels measured 5 SearchMode.binary 1 10 2 0 ≡ some r)
    × Outcome 1 10 2 r.1 r.0
binary-Bracket_example =
    binary-Bracket measured 4 1 10 2 0 (λ v u. refl) (omega arith) (omega arith) (omega arith)
      (omega arith)

-- The binary search tries 1, 10, 5 and 7, and ends between 5 and 7.
binary_levels :
    (search_levels measured 5 SearchMode.binary 1 10 2 0)
    ≡ some (ok, (measured 1 0).0 ∷ (measured 10 0).0 ∷ (measured 5 0).0 ∷ (measured 7 0).0 ∷ [], 4)
unfolding search_levels
binary_levels = refl

linear-ZeroStep_example : search_levels measured 100 SearchMode.linear 2 10 0 0 ≡ none
linear-ZeroStep_example =
    linear-ZeroStep measured 100 2 10 0 (λ u. refl) (λ u. refl) (omega arith) (omega arith)
