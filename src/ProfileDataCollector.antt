-- ===== src/ProfileDataCollector.antt =====
-- ProfileDataCollector (src/profile_data_collector.{h,cc}): the records and the window boundaries of
-- each load level. A mode, an InferenceLoadMode, is compared only: it is a value of any type with a
-- Boolean equality.
pub mod Updates
pub mod Experiments
use perf_analyzer.Prelude.{
  ℕ, ◌≡◌, refl, Bool, true, false, List, [], ◌∷◌, ◌++◌, Option, none, some, ◌==◌, if◌then◌else◌,
  ◌>>=◌,
}
use perf_analyzer.Profiler.Window.{RequestRecord}

pub record Experiment (Mode : Type 0) : Type 0 where
  pub mode : Mode
  pub requests : List RequestRecord
  pub window_boundaries : List ℕ

-- std::vector::back, undefined where there is no element: `none`.
unfoldable pub back : List ℕ → Option ℕ
back [] = none
back (x ∷ []) = some x
back (x ∷ y ∷ xs) = back (y ∷ xs)

module _ {Mode : Type 0} (same : Mode → Mode → Bool) where
  unfoldable pub find_experiment : Mode → List (Experiment Mode) → Option (Experiment Mode)
  find_experiment id [] = none
  find_experiment id (e ∷ es) = if same e.mode id then some e else find_experiment id es

  -- To change the experiment that FindExperiment finds, or to add one at the end.
  unfoldable pub update_experiment :
      (Experiment Mode → Experiment Mode)
      → Experiment Mode
      → List (Experiment Mode)
      → List (Experiment Mode)
  update_experiment change new [] = new ∷ []
  update_experiment change new (e ∷ es) =
      if same e.mode new.mode then change e ∷ es else e ∷ update_experiment change new es

  -- The boundaries of an experiment that is there: the start is added unless it is the last boundary.
  unfoldable pub add_boundaries : ℕ → ℕ → Experiment Mode → Option (Experiment Mode)
  unfolding back
  add_boundaries start end e = do
    last_boundary ← back e.window_boundaries
    let started =
        (if last_boundary == start
          then e.window_boundaries
          else e.window_boundaries ++ (start ∷ []))
    some (record e { window_boundaries = started ++ (end ∷ []) })

  abbrev pub add_window_to :
      Mode
      → ℕ
      → ℕ
      → Option (Experiment Mode)
      → List (Experiment Mode)
      → Option (List (Experiment Mode))
  add_window_to id start end none es =
      some (es ++ (record { mode = id; requests = []; window_boundaries = start ∷ end ∷ [] } ∷ []))
  add_window_to id start end (some found) es = do
    e ← add_boundaries start end found
    some (update_experiment (λ old. e) (record e { mode = id }) es)

  unfoldable pub add_window :
      Mode → ℕ → ℕ → List (Experiment Mode) → Option (List (Experiment Mode))
  unfolding update_experiment add_boundaries find_experiment
  add_window id start end es = add_window_to id start end (find_experiment id es) es

  unfoldable pub add_data :
      Mode → List RequestRecord → List (Experiment Mode) → List (Experiment Mode)
  unfolding update_experiment
  add_data id request_records es =
      update_experiment (λ e. record e { requests = e.requests ++ request_records })
        (record { mode = id; requests = request_records; window_boundaries = [] }) es
