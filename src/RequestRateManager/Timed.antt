-- ===== src/RequestRateManager/Timed.antt =====
-- The schedule that the drawn intervals give.
use perf_analyzer.Prelude.{
  ℕ, zero, suc, ◌+◌, ◌%◌, ◌≤◌, ◌<◌, ◌≡◌, inl, inr, refl, sym, ap, ◌∙◌, false, List, [], ◌∷◌, map,
  Option, none, some, ◌==◌, if◌then◌else◌, length, take, sum, replicate, length-replicate,
  get_elem?-replicate, length-take, arith, dec_lt, Bool-cases,
}
use native.Mathlib.Nat.{mod-eq_of_lt}
use perf_analyzer.RateSchedule.{RateSchedule}
use perf_analyzer.RequestRateManager.{
  RequestRateManager, determine_num_threads, calculate_thread_ids, create_worker_schedules,
  empty_schedule, pause_workers, resume_workers, paused_config, Distribution, poisson, constant,
  custom, generate_schedule, change_request_rate,
}
use perf_analyzer.RequestRateManager.Dealt.{configured_threads}
use perf_analyzer.RequestRateManager.Rotation.{Lasts, durations_lem, dealt_to-some}
use perf_analyzer.RequestRateManager.Turns.{dealt_to, Holds, length-thread_ids}
use perf_analyzer.RequestRateManager.Arrivals.{arrivals, IsFirstEnd, deal_lem}

abbrev pub ids_of : RequestRateManager → ℕ
ids_of m = if m.on_sequence_model then m.num_of_sequences else m.max_threads

pub threads_have_ids : (m : RequestRateManager) → determine_num_threads m ≤ ids_of m
unfolding determine_num_threads
threads_have_ids m = elim (Bool-cases m.on_sequence_model) [
  | inl t ↦ rw t (omega arith)
  | inr f ↦ rw f (omega arith)
]

-- How long a schedule has to last; none where the manager makes none.
abbrev pub duration_of : Distribution → ℕ → Option ℕ
duration_of poisson gen_duration = some gen_duration
duration_of constant gen_duration = some 1
duration_of custom gen_duration = none

generate_schedule_lem :
    (distribution : Distribution) (gen_duration duration : ℕ) (gaps : List ℕ)
    (m : RequestRateManager) (ss : List RateSchedule)
    → duration_of distribution gen_duration ≡ some duration
    → create_worker_schedules duration gaps m ≡ some ss
    → generate_schedule distribution gen_duration gaps m ≡ some (some ss)
unfolding generate_schedule
generate_schedule_lem poisson gen_duration duration gaps m ss d e =
    let same : gen_duration ≡ duration = cc in rw (same, e)
generate_schedule_lem constant gen_duration duration gaps m ss d e =
    let same : 1 ≡ duration = cc in rw (same, e)
generate_schedule_lem custom gen_duration duration gaps m ss d e = cc

length-arrivals : (gaps : List ℕ) (time : ℕ) → length (arrivals gaps time) ≡ length gaps
length-arrivals [] time = refl
length-arrivals (gap ∷ gaps) time = ap suc (length-arrivals gaps (time + gap))

some_round :
    (ids duration : ℕ) (gaps : List ℕ) (count : ℕ)
    → 0 < ids
    → 0 < duration
    → IsFirstEnd ids duration gaps 0 0 count
    → ids ≤ count
some_round ids duration gaps zero pos h (bound, a, l, before) = absurd (omega arith)
some_round ids duration gaps (suc count) pos h (bound, a, l, before) =
    elim (dec_lt (suc count) ids) [
      | no n ↦ omega arith
      | yes less ↦
          let z : 0 + suc count ≡ suc count = omega arith in
          let m : suc count % ids ≡ suc count = mod-eq_of_lt less in
          let e : suc count ≡ 0 = sym m ∙ ap (λ j. j % ids) (sym z) ∙ a in omega arith
    ]

-- The workers have the times of the first intervals dealt among them.
abbrev pub IsTimed : RequestRateManager → ℕ → List ℕ → List RateSchedule → Type 0
IsTimed m duration gaps ss =
    (count : ℕ) × IsFirstEnd (ids_of m) duration gaps 0 0 count
    × Lasts (determine_num_threads m)
        (λ t. dealt_to t (determine_num_threads m) (ids_of m) 0 (arrivals (take count gaps) 0)) ss

create_worker_schedules_lem :
    (m : RequestRateManager) (duration : ℕ) (gaps : List ℕ) (count : ℕ)
    → 0 < determine_num_threads m
    → length m.threads_config ≡ determine_num_threads m
    → 0 < duration
    → count ≤ length gaps
    → count % ids_of m ≡ 0
    → duration ≤ sum (take count gaps)
    → (ss : List RateSchedule) × (create_worker_schedules duration gaps m ≡ some ss)
      × IsTimed m duration gaps ss
unfolding create_worker_schedules calculate_thread_ids
create_worker_schedules_lem m duration gaps count pos len lasting enough_gaps round reached =
    let threads = determine_num_threads m in
    let ids : ℕ = ids_of m in
    let enough = threads_have_ids m in
    let some_id : 0 < ids = omega (arith, enough, pos) in
    let start : List RateSchedule = replicate (length m.threads_config) empty_schedule in
    let fresh : Holds threads (λ t. []) start = (
      length-replicate (length m.threads_config) empty_schedule ∙ len,
      λ t h. get_elem?-replicate t (length m.threads_config) empty_schedule (omega (arith, len)),
    ) in
    let z : 0 + count ≡ count = omega arith in
    let (used, dealt, deals, first_end, holds) =
      deal_lem threads ids duration pos some_id gaps 0 0 (λ t. []) start count fresh enough_gaps
        (ap (λ j. j % ids) z ∙ round) (omega arith) in
    let zero_index : 0 % ids ≡ 0 = mod-eq_of_lt some_id in
    let deals' = rw zero_index at deals in
    let ts : List ℕ = arrivals (take used gaps) 0 in
    let rounds = some_round ids duration gaps used some_id lasting first_end in
    let used_gaps = first_end.0 in
    let filled : (t : ℕ) → t < threads → 0 < length (dealt_to t threads ids 0 ts) = λ t h.
      let l = length-arrivals (take used gaps) 0 in
      let k = length-take used gaps in
      let y : 0 + t ≡ t = omega arith in
      let a : t % ids ≡ t = mod-eq_of_lt (omega (arith, enough)) in
      let b : t % threads ≡ t = mod-eq_of_lt h in
      dealt_to-some t threads ids 0 ts t (omega (arith, l, k, rounds, enough, used_gaps))
        (ap (λ k. k % ids % threads) y ∙ ap (λ k. k % threads) a ∙ b) in
    let (ss, durations, lasts) = durations_lem threads _ dealt pos filled holds in
    let n = length-thread_ids threads 0 ids in
    let some_ids : (ids == 0) ≡ false = ground (arith, some_id) in
    (ss, rw (n, some_ids, deals', durations), (used, first_end, lasts))

-- A manager of a paced distribution that has no threads yet, but may have one, gives its workers a
-- schedule when its rate is changed, provided that the drawn intervals reach the duration that the
-- distribution asks for, which is not 0, in whole rounds of the thread ids. The schedule has the
-- times of the intervals up to the first whole round by which the duration is reached. They are
-- dealt in the order of the thread ids, and the schedule's own duration is not below any worker's
-- last time.
pub change_request_rate-IsTimed :
    (distribution : Distribution) (gen_duration duration : ℕ) (gaps : List ℕ) (request_count : ℕ)
    (m : RequestRateManager) (count : ℕ)
    → duration_of distribution gen_duration ≡ some duration
    → m.threads_config ≡ []
    → 0 < determine_num_threads m
    → 0 < duration
    → count ≤ length gaps
    → count % ids_of m ≡ 0
    → duration ≤ sum (take count gaps)
    → (m' : RequestRateManager) × (ss : List RateSchedule) × (change_request_rate distribution
          gen_duration gaps request_count m
        ≡ some (m', some ss))
      × IsTimed m duration gaps ss
unfolding change_request_rate pause_workers determine_num_threads
change_request_rate-IsTimed distribution gen_duration duration gaps request_count m count asks empty
      pos lasting enough round reached =
    let paused = pause_workers m in
    let (cs, configured, len) =
      configured_threads paused request_count (ap (λ l. map paused_config l) empty) pos in
    let ready : RequestRateManager = record paused { threads_config = cs } in
    let (ss, given, timed) =
      create_worker_schedules_lem ready duration gaps count pos len lasting enough round reached in
    let generated =
      generate_schedule_lem distribution gen_duration duration gaps ready ss asks given in
    (resume_workers ready, ss, rw (configured, generated), timed)
