-- ===== src/CustomLoadManager/Repeated/Files.antt =====
-- The schedules of a file's intervals, from its lines on.
use perf_analyzer.Prelude.{
  ℕ, zero, suc, ◌+◌, ◌*◌, ◌%◌, ◌≤◌, ◌<◌, ◌≡◌, refl, sym, ap, ◌∙◌, true, List, [], ◌∷◌, ◌++◌, map,
  some, length, get_or, replicate, arith, dec_lt, length-map, length-replicate, get_elem?-replicate,
}
use native.Mathlib.Nat.{mod-eq_of_lt}
use mathlib.Core.List.{append_assoc, append-nil}
use perf_analyzer.Status.{ok}
use perf_analyzer.RateSchedule.{RateSchedule}
use perf_analyzer.RequestRateManager.{
  RequestRateManager, determine_num_threads, calculate_thread_ids, empty_schedule, pause_workers,
  paused_config,
}
use perf_analyzer.RequestRateManager.Dealt.{configured_threads}
use perf_analyzer.RequestRateManager.Rotation.{Lasts, durations_lem, dealt_to-some}
use perf_analyzer.RequestRateManager.Turns.{dealt_to, Holds, length-thread_ids}
use perf_analyzer.RequestRateManager.Timed.{ids_of, threads_have_ids}
use perf_analyzer.CustomRequestScheduleManager.Given.{Holds-dealt}
use perf_analyzer.CustomLoadManager.{
  CustomLoadManager, Outcome, read_lines, read_time_intervals_file, unless_empty,
  repeatable_schedules, after_reading, generate_schedule, resumed, init_custom_intervals,
}
use perf_analyzer.CustomLoadManager.Repeated.{stamps, IsNextStart, filled_lem}

length-stamps :
    (intervals : List ℕ) (count i time : ℕ) → length (stamps intervals count i time) ≡ count
length-stamps intervals zero i time = refl
length-stamps intervals (suc count) i time =
    ap suc
      (length-stamps intervals count (suc i) (time + get_or intervals (i % length intervals) 0))

at_least_one_round : (n k count : ℕ) → 0 < n → IsNextStart n k 0 count → n ≤ count
at_least_one_round n k count pos (some_step, a, b, least) = elim (dec_lt count n) [
  | no l ↦ omega arith
  | yes l ↦
      let z : 0 + count ≡ count = omega arith in
      let m : count % n ≡ count = mod-eq_of_lt l in
      let e : count ≡ 0 = sym m ∙ ap (λ j. j % n) (sym z) ∙ a in omega arith
]

-- The workers have the timestamps of whole rounds dealt among them.
abbrev pub Repeats : RequestRateManager → List ℕ → List RateSchedule → Type 0
Repeats m intervals ss =
    (count : ℕ) × IsNextStart (ids_of m) (length intervals) 0 count
    × Lasts (determine_num_threads m)
        (λ t. dealt_to t (determine_num_threads m) (ids_of m) 0 (stamps intervals count 0 0)) ss

repeatable_schedules_lem :
    (m : CustomLoadManager)
    → 0 < determine_num_threads m.base
    → length m.base.threads_config ≡ determine_num_threads m.base
    → 0 < length m.custom_intervals
    → (ss : List RateSchedule) × (repeatable_schedules m ≡ some ss)
      × Repeats m.base m.custom_intervals ss
unfolding repeatable_schedules calculate_thread_ids
repeatable_schedules_lem m pos len some_interval =
    let threads = determine_num_threads m.base in
    let ids : ℕ = ids_of m.base in
    let enough = threads_have_ids m.base in
    let some_id : 0 < ids = omega (arith, enough, pos) in
    let start : List RateSchedule = replicate (length m.base.threads_config) empty_schedule in
    let fresh : Holds threads (λ t. []) start = (
      length-replicate (length m.base.threads_config) empty_schedule ∙ len,
      λ t h.
          get_elem?-replicate t (length m.base.threads_config) empty_schedule (omega (arith, len)),
    ) in
    let (count, next, bound, same) =
      filled_lem threads ids m.custom_intervals pos some_id some_interval (λ t. []) start fresh in
    let ts : List ℕ = stamps m.custom_intervals count 0 0 in
    let (dealt, deals, holds) = Holds-dealt threads ids ts 0 (λ t. []) start pos some_id fresh in
    let zero_index : 0 % ids ≡ 0 = mod-eq_of_lt some_id in
    let deals' = rw zero_index at deals in
    let rounds = at_least_one_round ids (length m.custom_intervals) count some_id next in
    let filled : (t : ℕ) → t < threads → 0 < length (dealt_to t threads ids 0 ts) = λ t h.
      let l = length-stamps m.custom_intervals count 0 0 in
      let z : 0 + t ≡ t = omega arith in
      let a : t % ids ≡ t = mod-eq_of_lt (omega (arith, enough)) in
      let b : t % threads ≡ t = mod-eq_of_lt h in
      dealt_to-some t threads ids 0 ts t (omega (arith, l, rounds, enough))
        (ap (λ k. k % ids % threads) z ∙ ap (λ k. k % threads) a ∙ b) in
    let (ss, durations, lasts) = durations_lem threads _ dealt pos filled holds in
    let n = length-thread_ids threads 0 ids in
    (ss, rw (n, same, deals', durations), (count, next, lasts))

abbrev pub micros : ℕ → ℕ
micros interval = interval * 1000

read_lines_lem : (us c : List ℕ) → read_lines (map some us) c ≡ some (c ++ map micros us)
unfolding read_lines
read_lines_lem [] c = ap some (sym (append-nil c))
read_lines_lem (u ∷ us) c =
    read_lines_lem us (c ++ (micros u ∷ []))
    ∙ ap some (append_assoc c (micros u ∷ []) (map micros us))

unless_empty_lem : (xs : List ℕ) → 0 < length xs → unless_empty xs ≡ ok
unless_empty_lem [] h = absurd (omega arith)
unless_empty_lem (x ∷ xs) h = refl

-- If a manager has a file of intervals, one at least, and has read no intervals and has no threads
-- yet, but may have one, then it gives its workers a schedule: the loop that fills it ends. The
-- schedule has the timestamps of the intervals, walked round and round, up to the first number of
-- them at which the thread ids and the intervals are both at their beginning, so that it can be
-- repeated. They are dealt in the order of the thread ids, and the duration is not below any worker's
-- last timestamp.
pub init_custom_intervals-Repeats :
    (m : CustomLoadManager) (us : List ℕ) (request_count : ℕ)
    → m.has_intervals_file ≡ true
    → m.custom_intervals ≡ []
    → m.base.threads_config ≡ []
    → 0 < determine_num_threads m.base
    → 0 < length us
    → (o : Outcome) × (ss : List RateSchedule) × (init_custom_intervals
          (some (map some us))
          request_count
          m
        ≡ some o)
      × (o.status ≡ ok)
      × (o.schedules ≡ some ss)
      × (o.manager.custom_intervals ≡ map micros us)
      × Repeats m.base (map micros us) ss
unfolding init_custom_intervals generate_schedule read_time_intervals_file after_reading
    pause_workers determine_num_threads
init_custom_intervals-Repeats m us request_count has none_read empty pos some_line =
    let paused = pause_workers m.base in
    let (cs, configured, len) =
      configured_threads paused request_count (ap (λ l. map paused_config l) empty) pos in
    let base : RequestRateManager = record paused { threads_config = cs } in
    let read : CustomLoadManager = record {
      base = base;
      has_intervals_file = true;
      custom_intervals = map micros us;
    } in
    let l = length-map us micros in
    let (ss, given, repeats) = repeatable_schedules_lem read pos len (omega (arith, l)) in
    let lines = read_lines_lem us [] in
    let fine = unless_empty_lem (map micros us) (omega (arith, l)) in
    let o : Outcome = resumed (record { manager = read; status = ok; schedules = some ss }) in
    (o, ss, rw (configured, has, none_read, lines, fine, given), refl, refl, refl, repeats)
