-- ===== src/CustomRequestScheduleManager/Started.antt =====
-- The start of a fixed schedule, from its dataset on.
use perf_analyzer.Prelude.{
  ℕ, zero, suc, ◌<◌, ◌≡◌, refl, sym, ap, ◌∙◌, subst, true, false, List, [], ◌∷◌, map, Option, none,
  some, ◌==◌, leb, ◌>>=◌, length, take, drop, length-drop, length-take, length-map, arith, All,
}
use perf_analyzer.RateSchedule.{RateSchedule}
use perf_analyzer.RequestRateManager.{RequestRateManager, determine_num_threads}
use perf_analyzer.CustomRequestScheduleManager.{
  CustomRequestScheduleManager, Workers, get_timestamps, get_schedules_from_dataset,
  init_manager_finalize, perform_schedule_warmup, start_benchmark, start_schedules,
}
use perf_analyzer.CustomRequestScheduleManager.Given.{
  capped, IsGiven, IsHeld, init_custom_schedule_lem,
}

get_timestamps_lem : (ts : List ℕ) → get_timestamps (map some ts) ≡ some ts
unfolding get_timestamps
get_timestamps_lem [] = refl
get_timestamps_lem (t ∷ ts) = rw (get_timestamps_lem ts)

take-map : (n : ℕ) (ts : List ℕ) → take n (map some ts) ≡ map some (take n ts)
take-map zero ts = refl
take-map (suc n) [] = refl
take-map (suc n) (t ∷ ts) = ap (λ l. some t ∷ l) (take-map n ts)

drop-map : (n : ℕ) (ts : List ℕ) → drop n (map some ts) ≡ map some (drop n ts)
drop-map zero ts = refl
drop-map (suc n) [] = refl
drop-map (suc n) (t ∷ ts) = drop-map n ts

All-take : (n : ℕ) (ts : List ℕ) → All IsHeld ts → All IsHeld (take n ts)
All-take zero ts a = tt
All-take (suc n) [] a = tt
All-take (suc n) (t ∷ ts) (h, a) = (h, All-take n ts a)

All-drop : (n : ℕ) (ts : List ℕ) → All IsHeld ts → All IsHeld (drop n ts)
All-drop zero ts a = a
All-drop (suc n) [] a = tt
All-drop (suc n) (t ∷ ts) (h, a) = All-drop n ts a

-- The manager with the schedules of its dataset.
abbrev pub scheduled : CustomRequestScheduleManager → List ℕ → CustomRequestScheduleManager
scheduled m ts = record m {
  warmup_schedule = take m.warmup_request_count ts;
  benchmark_schedule = drop m.warmup_request_count ts;
}

init_manager_finalize_lem :
    (m : CustomRequestScheduleManager) (ts : List ℕ)
    → m.warmup_request_count < length ts
    → init_manager_finalize (map some ts ∷ []) m ≡ some (scheduled m ts)
unfolding init_manager_finalize get_schedules_from_dataset
init_manager_finalize_lem m ts h =
    let l = length-map ts some in
    let n = m.warmup_request_count in
    let t = ap get_timestamps (take-map n ts) ∙ get_timestamps_lem (take n ts) in
    let d = ap get_timestamps (drop-map n ts) ∙ get_timestamps_lem (drop n ts) in
    let z : (length (map some ts) == 0) ≡ false = ground (arith, l) in
    let f : leb (length (map some ts)) m.warmup_request_count ≡ false = ground (arith, l) in
    rw (z, f, t, d)

start_benchmark_lem :
    (m : CustomRequestScheduleManager)
    → All IsHeld m.benchmark_schedule
    → m.base.threads_config ≡ []
    → 0 < determine_num_threads m.base
    → 0 < length m.benchmark_schedule
    → (m' : CustomRequestScheduleManager) × (ss : List RateSchedule) × (start_benchmark m
        ≡ some (m', record { schedules = ss; dataset_offset = length m.warmup_schedule }))
      × IsGiven m.base m.benchmark_schedule ss
unfolding start_benchmark
start_benchmark_lem m held empty pos h =
    let (cs, ss, e, given) =
      init_custom_schedule_lem m.base m.benchmark_schedule (length m.warmup_schedule) held empty pos
        h in
    let z : (length m.benchmark_schedule == 0) ≡ false = ground arith in
    let m' : CustomRequestScheduleManager = record m {
      base = record (capped m.base (length m.benchmark_schedule)) {
        execute = true;
        threads_config = cs;
      };
    } in
    (m', ss, rw (z, e), given)

-- The warmup gives its workers their schedules, and leaves the manager without threads.
perform_schedule_warmup_lem :
    (m : CustomRequestScheduleManager)
    → All IsHeld m.warmup_schedule
    → m.base.threads_config ≡ []
    → 0 < determine_num_threads m.base
    → 0 < length m.warmup_schedule
    → (ss : List RateSchedule) × (perform_schedule_warmup m
        ≡ some (
          record m { base = record m.base { execute = true; threads_config = [] } },
          record { schedules = ss; dataset_offset = 0 },
        ))
      × IsGiven m.base m.warmup_schedule ss
unfolding perform_schedule_warmup
perform_schedule_warmup_lem m held empty pos h =
    let (cs, ss, e, given) = init_custom_schedule_lem m.base m.warmup_schedule 0 held empty pos h in
    let z : (length m.warmup_schedule == 0) ≡ false = ground arith in (ss, rw (z, e), given)

abbrev pub IsWarmed : RequestRateManager → List ℕ → Option Workers → Type 0
IsWarmed m [] warmup = warmup ≡ none
IsWarmed m (t ∷ ts) warmup =
    (ss : List RateSchedule) × (warmup ≡ some (record { schedules = ss; dataset_offset = 0 }))
    × IsGiven m (t ∷ ts) ss

start_schedules_lem :
    (m : CustomRequestScheduleManager) (warmup : List ℕ)
    → All IsHeld m.benchmark_schedule
    → All IsHeld m.warmup_schedule
    → m.warmup_schedule ≡ warmup
    → m.base.threads_config ≡ []
    → 0 < determine_num_threads m.base
    → 0 < length m.benchmark_schedule
    → (m' : CustomRequestScheduleManager) × (w : Option Workers) × (ss : List RateSchedule)
      × (start_schedules m
          ≡ some (m', w, record { schedules = ss; dataset_offset = length m.warmup_schedule }))
      × IsWarmed m.base warmup w
      × IsGiven m.base m.benchmark_schedule ss
unfolding start_schedules determine_num_threads
start_schedules_lem m [] later first none_to_warm empty pos h =
    let (m', ss, e, given) = start_benchmark_lem m later empty pos h in
    let z : (length m.warmup_schedule == 0) ≡ true = ap (λ l. length l == 0) none_to_warm in
    (m', none, ss, rw (z, e), refl, given)
start_schedules_lem m (t ∷ ts) later first warm empty pos h =
    let some_warmup : 0 < length m.warmup_schedule =
      subst (λ l. 0 < length l) (sym warm) (omega arith) in
    let (ws, warmed, given_warmup) = perform_schedule_warmup_lem m first empty pos some_warmup in
    let m₁ : CustomRequestScheduleManager = record m {
      base = record m.base { execute = true; threads_config = [] };
    } in
    let (m', ss, e, given) = start_benchmark_lem m₁ later refl pos h in
    let z : (length m.warmup_schedule == 0) ≡ false = ground (arith, some_warmup) in
    (
      m',
      some (record { schedules = ws; dataset_offset = 0 }),
      ss,
      rw (z, warmed, e),
      (ws, refl, subst (λ l. IsGiven m.base l ws) warm given_warmup),
      given,
    )

-- If every payload of a dataset of one stream has a timestamp, whose nanoseconds 63 bits hold, there are more of them than the
-- warmup has requests, and the manager has no threads yet but may have one, then its initialization
-- and its start do not fail. The first timestamps, as many as the warmup has requests, are dealt to
-- the workers of the warmup, if there are any; the others to those of the benchmark, whose dataset
-- begins where the warmup's has ended. The workers of each schedule have it dealt in the order of
-- the thread ids, round and round, and a duration that no timestamp of the last ones exceeds.
pub start_schedules-IsGiven :
    (m : CustomRequestScheduleManager) (ts : List ℕ)
    → All IsHeld ts
    → m.base.threads_config ≡ []
    → 0 < determine_num_threads m.base
    → m.warmup_request_count < length ts
    → (m' : CustomRequestScheduleManager) × (w : Option Workers) × (ss : List RateSchedule)
      × ((init_manager_finalize (map some ts ∷ []) m >>= start_schedules)
          ≡ some (m', w, record { schedules = ss; dataset_offset = m.warmup_request_count }))
      × IsWarmed m.base (take m.warmup_request_count ts) w
      × IsGiven m.base (drop m.warmup_request_count ts) ss
start_schedules-IsGiven m ts held empty pos h =
    let n = m.warmup_request_count in
    let d = length-drop n ts in
    let some_left : 0 < length (drop n ts) = omega (arith, d) in
    let (m', w, ss, e, warmed, given) =
      start_schedules_lem (scheduled m ts) (take n ts) (All-drop n ts held) (All-take n ts held)
        refl empty pos some_left in
    let offset : length (take n ts) ≡ n = omega (arith, length-take n ts) in
    let i = init_manager_finalize_lem m ts h in
    (
      m',
      w,
      ss,
      rw i (e ∙ ap (λ k. some (m', w, record { schedules = ss; dataset_offset = k })) offset),
      warmed,
      given,
    )
