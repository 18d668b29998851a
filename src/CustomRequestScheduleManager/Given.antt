-- ===== src/CustomRequestScheduleManager/Given.antt =====
-- The schedules that the workers are given.
use perf_analyzer.Prelude.{
  ℕ, suc, All, ltb, ◌*◌, ◌^◌, ◌+◌, ◌%◌, ◌≤◌, ◌<◌, ◌≡◌, inl, inr, refl, sym, ap, ◌∙◌, true, List, [],
  ◌∷◌, ◌++◌, map, some, ◌==◌, if◌then◌else◌, length, get_elem?, replicate, min, length-replicate,
  get_elem?-replicate, length-map, arith, Bool-cases,
}
use native.Mathlib.Nat.{mod-lt, mod-eq_of_lt}
use mathlib.Core.List.{append_assoc, append-nil}
use perf_analyzer.RateSchedule.{RateSchedule}
use perf_analyzer.RequestRateManager.{
  RequestRateManager, determine_num_threads, calculate_thread_ids, thread_ids_from, empty_schedule,
  pause_workers, resume_workers, paused_config,
}
use perf_analyzer.LoadSplit.{ThreadConfig}
use perf_analyzer.RequestRateManager.Dealt.{configured_threads}
use perf_analyzer.RequestRateManager.Rotation.{Lasts, durations_lem, dealt_to-some}
use perf_analyzer.RequestRateManager.Turns.{
  dealt_to, unused, Holds, get_elem?-thread_ids, length-thread_ids, next_index, emplace_lem,
}
use perf_analyzer.CustomRequestScheduleManager.{
  all_as_nanos, deal_timestamps, schedules_of, init_custom_schedule,
}

pub Holds-dealt :
    (threads ids : ℕ) (xs : List ℕ) (i : ℕ) (f : ℕ → List ℕ) (ss : List RateSchedule)
    → 0 < threads
    → 0 < ids
    → Holds threads f ss
    → (ss' : List RateSchedule) × (deal_timestamps (thread_ids_from threads 0 ids) xs (i % ids) ss
        ≡ some ss')
      × Holds threads (λ t. f t ++ dealt_to t threads ids i xs) ss'
unfolding deal_timestamps
Holds-dealt threads ids [] i f ss pos some_id (len, at) =
    (ss, refl, (len, λ t h. at t h ∙ ap (λ l. some (unused l)) (sym (append-nil (f t)))))
Holds-dealt threads ids (x ∷ xs) i f ss pos some_id holds =
    let w = i % ids % threads in
    let got : get_elem? (thread_ids_from threads 0 ids) (i % ids) ≡ some w =
      get_elem?-thread_ids threads 0 ids (i % ids) (mod-lt i some_id)
      ∙ (let z : 0 + i % ids ≡ i % ids = omega arith in ap (λ k. some (k % threads)) z) in
    let (ss', dealt, holds') = emplace_lem threads w x f ss (mod-lt (i % ids) pos) holds in
    let (ss'', rest, (len, at)) =
      Holds-dealt threads ids xs (suc i) (λ t. f t ++ (if t == w then x ∷ [] else [])) ss' pos
        some_id holds' in
    let len_ids = length-thread_ids threads 0 ids in
    let next = next_index i ids some_id in
    (
      ss'',
      rw (got, dealt, len_ids, next) rest,
      (
        len,
        λ t h.
            at t h
            ∙ ap (λ l. some (unused l))
                (append_assoc (f t) (if t == w then x ∷ [] else [])
                  (dealt_to t threads ids (suc i) xs)),
      ),
    )

-- The manager while its threads are bounded by the length of a schedule; its threads, and its ids.
abbrev pub capped : RequestRateManager → ℕ → RequestRateManager
capped m n = record m { max_threads = min m.max_threads n }

abbrev pub threads_for : RequestRateManager → ℕ → ℕ
threads_for m n = determine_num_threads (capped m n)

abbrev pub ids_for : RequestRateManager → ℕ → ℕ
ids_for m n = if m.on_sequence_model then m.num_of_sequences else min m.max_threads n

-- Milliseconds as nanoseconds, and the timestamps whose nanoseconds 63 bits hold.
abbrev pub nanos : ℕ → ℕ
nanos t = t * 1000000

abbrev pub IsHeld : ℕ → Type 0
IsHeld t = nanos t < 2 ^ 63

all_as_nanos_lem : (ts : List ℕ) → All IsHeld ts → all_as_nanos ts ≡ some (map nanos ts)
unfolding all_as_nanos
all_as_nanos_lem [] a = refl
all_as_nanos_lem (t ∷ ts) (h, a) =
    let l : ltb (t * 1000000) 9223372036854775808 ≡ true = ground arith in
    rw (l, all_as_nanos_lem ts a)

-- The workers of the schedule `ts`, in milliseconds, have it dealt among them.
abbrev pub IsGiven : RequestRateManager → List ℕ → List RateSchedule → Type 0
IsGiven m ts ss =
    Lasts (threads_for m (length ts))
      (λ t. dealt_to t (threads_for m (length ts)) (ids_for m (length ts)) 0 (map nanos ts)) ss

bounded_threads :
    (m : RequestRateManager) (n : ℕ)
    → 0 < determine_num_threads m
    → 0 < n
    → (0 < threads_for m n) × (threads_for m n ≤ ids_for m n) × (threads_for m n ≤ n)
unfolding determine_num_threads
bounded_threads m n pos h = elim (Bool-cases m.on_sequence_model) [
  | inl t ↦ let p = rw t at pos in rw t (omega (arith, p), omega arith, omega arith)
  | inr f ↦ let p = rw f at pos in rw f (omega (arith, p), omega arith, omega arith)
]

schedules_of_lem :
    (m : RequestRateManager) (ts : List ℕ)
    → All IsHeld ts
    → 0 < determine_num_threads m
    → determine_num_threads m ≤ length ts
    → determine_num_threads m ≤ (if m.on_sequence_model then m.num_of_sequences else m.max_threads)
    → length m.threads_config ≡ determine_num_threads m
    → (ss : List RateSchedule) × (schedules_of ts m ≡ some ss)
      × Lasts
          (determine_num_threads m)
          (λ t.
            dealt_to t
              (determine_num_threads m)
              (if m.on_sequence_model then m.num_of_sequences else m.max_threads)
              0
              (map nanos ts))
          ss
unfolding schedules_of calculate_thread_ids
schedules_of_lem m ts in_range pos long enough len =
    let threads = determine_num_threads m in
    let ids : ℕ = if m.on_sequence_model then m.num_of_sequences else m.max_threads in
    let some_id : 0 < ids = omega (arith, enough, pos) in
    let start : List RateSchedule = replicate (length m.threads_config) empty_schedule in
    let fresh : Holds threads (λ t. []) start = (
      length-replicate (length m.threads_config) empty_schedule ∙ len,
      λ t h. get_elem?-replicate t (length m.threads_config) empty_schedule (omega (arith, len)),
    ) in
    let (dealt, deals, holds) =
      Holds-dealt threads ids (map nanos ts) 0 (λ t. []) start pos some_id fresh in
    let zero_index : 0 % ids ≡ 0 = mod-eq_of_lt some_id in
    let deals' = rw zero_index at deals in
    let filled : (t : ℕ) → t < threads → 0 < length (dealt_to t threads ids 0 (map nanos ts)) =
      λ t h.
        let l = length-map ts nanos in
        let z : 0 + t ≡ t = omega arith in
        let a : t % ids ≡ t = mod-eq_of_lt (omega (arith, enough)) in
        let b : t % threads ≡ t = mod-eq_of_lt h in
        dealt_to-some t threads ids 0 (map nanos ts) t (omega (arith, l, long))
          (ap (λ k. k % ids % threads) z ∙ ap (λ k. k % threads) a ∙ b) in
    let (ss, durations, lasts) = durations_lem threads _ dealt pos filled holds in
    (ss, rw (all_as_nanos_lem ts in_range, deals', durations), lasts)

pub init_custom_schedule_lem :
    (m : RequestRateManager) (ts : List ℕ) (offset : ℕ)
    → All IsHeld ts
    → m.threads_config ≡ []
    → 0 < determine_num_threads m
    → 0 < length ts
    → (cs : List ThreadConfig) × (ss : List RateSchedule) × (init_custom_schedule ts offset
          (capped m (length ts))
        ≡ some (
          record (capped m (length ts)) { execute = true; threads_config = cs },
          record { schedules = ss; dataset_offset = offset },
        ))
      × IsGiven m ts ss
unfolding init_custom_schedule pause_workers resume_workers determine_num_threads
init_custom_schedule_lem m ts offset in_range empty pos h =
    let (some_thread, enough, long) = bounded_threads m (length ts) pos h in
    let paused = pause_workers (capped m (length ts)) in
    let (cs, configured, len) =
      configured_threads paused (length ts) (ap (λ l. map paused_config l) empty) some_thread in
    let ready : RequestRateManager = record paused { threads_config = cs } in
    let (ss, given, lasts) = schedules_of_lem ready ts in_range some_thread long enough len in
    (cs, ss, rw (configured, given), lasts)
