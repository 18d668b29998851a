-- ===== src/Profiler/Trials.antt =====
-- ProfileHelper, DetermineStability and IsDoneProfiling (src/inference_profiler.cc): the measurement
-- of one load level is repeated until it is stable or the trials run out. The throughputs are
-- doubles: their type and its operations are parameters. So are the window's measurement, the load
-- manager and the other MPI ranks, which act on a state `S`. The text that is printed, the metrics
-- manager's stop and the averages of LoadStatus, which nothing reads, are left out.
pub mod Queue
pub mod LastTrials
use perf_analyzer.Prelude.{
  ℕ, zero, suc, ◌+◌, ◌-◌, ◌*◌, ◌≤◌, ◌<◌, ◌≡◌, refl, Bool, true, false, not, ◌&&◌, ◌||◌, List, [],
  ◌∷◌, ◌++◌, Option, none, some, ltb, leb, ◌==◌, if◌then◌else◌, length, drop, u64_mod, mul_u64,
}
use perf_analyzer.Status.{Status, ok, err, is_ok, generic_error}

-- The doubles, as the profiler uses them.
pub record Double (D : Type 0) : Type 0 where
  pub of_u64 : ℕ → D
  pub zero_double : D
  pub div : D → D → D
  pub lt : D → D → Bool
  pub le : D → D → Bool
  pub is_zero : D → Bool
  pub one_plus_threshold : D

-- The vectors of LoadStatus, the last trial at the end.
pub record LoadStatus (D : Type 0) : Type 0 where
  pub infer_per_sec : List D
  pub latencies : List ℕ

-- The members of the profiler that bound the trials.
pub record Limits : Type 0 where
  pub stability_window : ℕ
  pub max_trials : ℕ
  pub latency_threshold_ms : ℕ

module _ {D : Type 0} (double : Double D) where
  -- std::minmax_element.
  unfoldable pub min_element : D → List D → D
  min_element x [] = x
  min_element x (y ∷ ys) = min_element (if double.lt y x then y else x) ys

  unfoldable pub max_element : D → List D → D
  max_element x [] = x
  max_element x (y ∷ ys) = max_element (if double.lt y x then x else y) ys

  -- On no trial, which a stability window of 0 would ask for, the code reads past the vector.
  unfoldable pub is_window_stable : List D → Bool
  unfolding min_element max_element
  is_window_stable [] = false
  is_window_stable (x ∷ xs) =
      double.le (double.div (max_element x xs) (min_element x xs)) double.one_plus_threshold

  unfoldable pub as_doubles : List ℕ → List D
  as_doubles [] = []
  as_doubles (n ∷ ns) = double.of_u64 n ∷ as_doubles ns

  unfoldable pub check_window_for_stability : ℕ → LoadStatus D → Bool → Bool
  unfolding is_window_stable as_doubles
  check_window_for_stability idx load_status check_latency =
      is_window_stable (drop idx load_status.infer_per_sec)
      && (not check_latency || is_window_stable (as_doubles (drop idx load_status.latencies)))

  unfoldable pub none_zero : List D → Bool
  none_zero [] = true
  none_zero (x ∷ xs) = not (double.is_zero x) && none_zero xs

  unfoldable pub determine_stability : Limits → LoadStatus D → Bool → Bool
  unfolding none_zero check_window_for_stability
  determine_stability limits load_status check_latency =
      let idx = length load_status.infer_per_sec - limits.stability_window in
      leb limits.stability_window (length load_status.infer_per_sec)
      && (none_zero (drop idx load_status.infer_per_sec)
          && check_window_for_stability idx load_status check_latency)

-- CheckWithinThreshold of each trial in a list.
unfoldable pub all_within_threshold : ℕ → List ℕ → Bool
all_within_threshold latency_threshold_ms [] = true
all_within_threshold latency_threshold_ms (l ∷ ls) =
    ltb l (mul_u64 latency_threshold_ms 1000000) && all_within_threshold latency_threshold_ms ls

-- `ranks_stable` is AllMPIRanksAreStable for an MPI run, and the rank's own flag otherwise.
unfoldable pub is_done_profiling : {D : Type 0} → Limits → LoadStatus D → Bool → Bool
unfolding all_within_threshold
is_done_profiling limits load_status ranks_stable =
    let idx = length load_status.infer_per_sec - limits.stability_window in
    let within_threshold =
      (if leb limits.stability_window (length load_status.infer_per_sec)
        then all_within_threshold limits.latency_threshold_ms (drop idx load_status.latencies)
        else true) in
    ranks_stable || (not within_threshold && not (limits.latency_threshold_ms == 0))

-- Push at the back, and pop the front where the queue is then longer than the window.
unfoldable pub push_bounded {ℓ} : {A : Type ℓ} → ℕ → A → List A → List A
push_bounded window x q =
    let pushed = q ++ (x ∷ []) in if ltb window (length pushed) then drop 1 pushed else pushed

-- One trial: Measure's status and, of its report, the throughput and the stabilizing latency.
pub record Report (D : Type 0) : Type 0 where
  pub status : Status
  pub infer_per_sec : D
  pub stabilizing_latency_ns : ℕ

unfoldable pub push_load : {D : Type 0} → Double D → Report D → LoadStatus D → LoadStatus D
push_load double r load_status = record {
  infer_per_sec =
      load_status.infer_per_sec
      ++ ((if is_ok r.status then r.infer_per_sec else double.zero_double) ∷ []);
  latencies =
      load_status.latencies
      ++ ((if is_ok r.status then r.stabilizing_latency_ns else u64_mod - 1) ∷ []);
}

-- What the trials need of the rest of the program.
pub record World (D S : Type 0) : Type 0 where
  pub swap_request_records : S → Status × S
  pub check_health : S → Status
  pub measure : S → Report D × S
  pub ranks_stable : Bool → S → Bool × S
  pub early_exit : S → Bool

-- How the loop ended: CheckHealth's error and the flag so far, or the flag with the reports of the two queues, which hold
-- the same trials, and the load status.
pub data Trials (D S : Type 0) : Type 0 where
  unhealthy : Status → Bool → S → Trials D S
  ended : Bool → List (Report D) → LoadStatus D → S → Trials D S

-- Where a trial goes: the threads are unhealthy, the requests are counted, or the profiling is done.
unfoldable pub after_trial :
    {D S : Type 0}
    → Bool
    → Bool
    → Bool
    → Trials D S
    → Trials D S
    → Trials D S
    → Trials D S
    → Trials D S
after_trial bad counted done a b c d =
    if bad then a else (if counted then b else (if done then c else d))

-- The loop, with the trials that are left after this one; it ends with its first trial even where
-- max_trials is 0.
unfoldable pub run_trials :
    {D S : Type 0}
    → Double D
    → World D S
    → Limits
    → ℕ
    → ℕ
    → Bool
    → List (Report D)
    → LoadStatus D
    → S
    → Trials D S
unfolding determine_stability is_done_profiling push_bounded push_load after_trial
run_trials double world limits request_count zero was_stable queue load_status s =
    let (r, s₁) = world.measure s in
    let queue' = push_bounded limits.stability_window r queue in
    let load_status' = push_load double r load_status in
    let stable = determine_stability double limits load_status' true in
    let (ranks, s₂) = world.ranks_stable stable s₁ in
    after_trial (not (is_ok (world.check_health s))) (not (request_count == 0)) true
      (unhealthy (world.check_health s) was_stable s) (ended true queue' load_status' s₁)
      (ended stable queue' load_status' s₂) (ended stable queue' load_status' s₂)
run_trials double world limits request_count (suc left) was_stable queue load_status s =
    let (r, s₁) = world.measure s in
    let queue' = push_bounded limits.stability_window r queue in
    let load_status' = push_load double r load_status in
    let stable = determine_stability double limits load_status' true in
    let (ranks, s₂) = world.ranks_stable stable s₁ in
    after_trial (not (is_ok (world.check_health s))) (not (request_count == 0))
      (is_done_profiling limits load_status' ranks || world.early_exit s₂)
      (unhealthy (world.check_health s) was_stable s) (ended true queue' load_status' s₁)
      (ended stable queue' load_status' s₂)
      (run_trials double world limits request_count left stable queue' load_status' s₂)

-- The first error of the queue, or the code after the loop.
unfoldable pub first_error : {D : Type 0} → List (Report D) → Status
first_error [] = ok
first_error (r ∷ rs) = if is_ok r.status then first_error rs else r.status

-- The status, is_stable, the reports that MergePerfStatusReports is called on, if it is, and the
-- state. `merge` is the status that it returns.
unfoldable pub conclude :
    {D S : Type 0}
    → Double D
    → World D S
    → Limits
    → Bool
    → (List (Report D) → Status)
    → Trials D S
    → Status × Bool × Option (List (Report D)) × S
unfolding first_error determine_stability
conclude double world limits async_mode merge (unhealthy e was_stable s) = (e, was_stable, none, s)
conclude double world limits async_mode merge (ended stable queue load_status s) =
    let is_stable = stable || (async_mode && determine_stability double limits load_status false) in
    let last = (if world.early_exit s then err generic_error else ok) in
    if not (is_ok (first_error queue))
    then (first_error queue, is_stable, none, s)
    else (if is_stable
        then (if is_ok (merge queue)
            then (last, is_stable, some queue, s)
            else (merge queue, is_stable, some queue, s))
        else (last, is_stable, none, s))

unfoldable pub profile_helper :
    {D S : Type 0}
    → Double D
    → World D S
    → Limits
    → Bool
    → (List (Report D) → Status)
    → ℕ
    → S
    → Status × Bool × Option (List (Report D)) × S
unfolding run_trials conclude
profile_helper {D} {S} double world limits async_mode merge request_count s =
    let (e, s₁) = world.swap_request_records s in
    let no_load : LoadStatus D = record { infer_per_sec = []; latencies = [] } in
    let trials =
      run_trials double world limits request_count (limits.max_trials - 1) false [] no_load s₁ in
    if is_ok e then conclude double world limits async_mode merge trials else (e, false, none, s₁)
