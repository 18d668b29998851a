-- ===== src/LoadManager/Gathered.antt =====
-- Nothing that the threads hold is lost or gathered twice.
use perf_analyzer.Prelude.{
  ℕ, ◌+◌, ◌<◌, ◌≡◌, ◌≢◌, ◌⊎◌, inl, inr, refl, ap, ◌∙◌, false, List, [], ◌∷◌, ◌++◌, map, add_u64,
  u64_mod, length, length-append, sum, All, arith, Bool-cases,
}
use perf_analyzer.Status.{Status, ok, err, is_ok, generic_error}
use perf_analyzer.Profiler.Search.Linear.{ok_of_is_ok}
use perf_analyzer.Profiler.Window.{RequestRecord}
use perf_analyzer.LoadManager.{
  ThreadStat, check_health, swap_request_records, count_from, count_collected_requests, sent_from,
  get_and_reset_num_sent_requests,
}

abbrev pub Healthy : ThreadStat → Type 0
Healthy t = (t.status ≡ ok) × (t.cb_status ≡ ok)

-- The records of all threads in turn.
abbrev pub all_records : List ThreadStat → List RequestRecord
all_records [] = []
all_records (t ∷ ts) = t.request_records ++ all_records ts

abbrev without_records : ThreadStat → ThreadStat
without_records t = record t { request_records = [] }

swap-all_records :
    (ts : List ThreadStat) → swap_request_records ts ≡ (ok, all_records ts, map without_records ts)
unfolding swap_request_records
swap-all_records [] = refl
swap-all_records (t ∷ ts) = rw (swap-all_records ts)

swapped_empty : (ts : List ThreadStat) → all_records (map without_records ts) ≡ []
swapped_empty [] = refl
swapped_empty (t ∷ ts) = swapped_empty ts

healthy_without : (ts : List ThreadStat) → check_health (map without_records ts) ≡ check_health ts
unfolding check_health
healthy_without [] = refl
healthy_without (t ∷ ts) = rw (healthy_without ts)

without_twice :
    (ts : List ThreadStat) → map without_records (map without_records ts) ≡ map without_records ts
without_twice [] = refl
without_twice (t ∷ ts) = rw (without_twice ts)

zero_add : (n : ℕ) → 0 + n ≡ n
zero_add n = omega arith

error_differs : (st : Status) → is_ok st ≡ false → st ≢ ok
error_differs st h e = ground arith

count_from_lem :
    (n : ℕ) (ts : List ThreadStat)
    → n + length (all_records ts) < u64_mod
    → count_from n ts ≡ n + length (all_records ts)
unfolding count_from
count_from_lem n [] h = omega arith
count_from_lem n (t ∷ ts) h =
    let len = length-append t.request_records (all_records ts) in
    let e : add_u64 n (length t.request_records) ≡ n + length t.request_records =
      omega (arith, len) in
    rw e
      (count_from_lem (n + length t.request_records) ts (omega (arith, len)) ∙ omega (arith, len))

-- Taking the records gives those of all threads, each thread's in its order, as many as were
-- counted just before where the count does not wrap; it leaves none behind, so that taking them again
-- at once gives none, and does not change the threads' health.
pub swap_request_records_lem :
    (ts : List ThreadStat)
    → length (all_records ts) < u64_mod
    → (ts' : List ThreadStat) × (swap_request_records ts ≡ (ok, all_records ts, ts'))
      × (length (all_records ts) ≡ count_collected_requests ts)
      × (swap_request_records ts' ≡ (ok, [], ts'))
      × (check_health ts' ≡ check_health ts)
unfolding count_collected_requests
swap_request_records_lem ts fits =
    let empty : all_records (map without_records ts) ≡ [] = swapped_empty ts in
    (
      map without_records ts,
      swap-all_records ts,
      omega (arith, count_from_lem 0 ts (omega arith)),
      swap-all_records (map without_records ts) ∙ rw (empty, without_twice ts),
      healthy_without ts,
    )

abbrev unsent : ThreadStat × ℕ → ThreadStat
unsent x = record x.0 { num_sent_requests = 0 }

-- What the threads' counters hold when they are read, and what is sent after that.
abbrev pub held : List (ThreadStat × ℕ) → ℕ
held ts = sum (map (λ x. x.0.num_sent_requests) ts)

abbrev pub sent_late : List (ThreadStat × ℕ) → ℕ
sent_late ts = sum (map (λ x. x.1) ts)

-- All that the threads have sent when the last counter is set back.
abbrev pub all_sent : List (ThreadStat × ℕ) → ℕ
all_sent ts = sum (map (λ x. x.0.num_sent_requests + x.1) ts)

sent_from_lem :
    (n : ℕ) (ts : List (ThreadStat × ℕ))
    → n + held ts < u64_mod
    → sent_from n ts ≡ (n + held ts, map unsent ts)
unfolding sent_from
sent_from_lem n [] h = let e : n ≡ n + 0 = omega arith in ap (λ k. (k, [])) e
sent_from_lem n ((t, sent) ∷ ts) h =
    let e : add_u64 n t.num_sent_requests ≡ n + t.num_sent_requests = omega arith in
    let f : n + t.num_sent_requests + held ts ≡ n + (t.num_sent_requests + held ts) = omega arith in
    rw (e, sent_from_lem (n + t.num_sent_requests) ts (omega arith), f)

none_left :
    (ts : List (ThreadStat × ℕ))
    → sum (map (λ (t : ThreadStat). t.num_sent_requests) (map unsent ts)) ≡ 0
none_left [] = refl
none_left (x ∷ ts) = omega (arith, none_left ts)

held_and_late : (ts : List (ThreadStat × ℕ)) → held ts + sent_late ts ≡ all_sent ts
held_and_late [] = refl
held_and_late ((t, sent) ∷ ts) = omega (arith, held_and_late ts)

-- Where what the counters hold does not wrap, the call returns all that the threads have sent since
-- their counters were last set back, up to when they are set back again, but for what each sends
-- between the reading of its counter and the setting back; each counter is 0 then, so that what was
-- sent in between is not returned by a later call either.
pub get_and_reset_num_sent_requests_lem :
    (ts : List (ThreadStat × ℕ))
    → held ts < u64_mod
    → (n : ℕ) × (ts' : List ThreadStat) × (get_and_reset_num_sent_requests ts ≡ (n, ts'))
      × (n + sent_late ts ≡ all_sent ts)
      × (sum (map (λ t. t.num_sent_requests) ts') ≡ 0)
unfolding get_and_reset_num_sent_requests
get_and_reset_num_sent_requests_lem ts fits = (
  held ts,
  map unsent ts,
  sent_from_lem 0 ts (omega arith) ∙ ap (λ k. (k, map unsent ts)) (zero_add (held ts)),
  held_and_late ts,
  none_left ts,
)

-- The health is good exactly where every thread's two statuses are; otherwise it is the generic error.
pub check_health_lem :
    (ts : List ThreadStat)
    → ((check_health ts ≡ ok) × All Healthy ts)
      ⊎ ((check_health ts ≡ err generic_error) × (¬ All Healthy ts))
unfolding check_health
check_health_lem [] = inl (refl, tt)
check_health_lem (t ∷ ts) = elim (Bool-cases (is_ok t.status)) [
  | inr bad ↦ inr (rw bad, λ h. error_differs t.status bad h.0.0)
  | inl good ↦ elim (Bool-cases (is_ok t.cb_status)) [
    | inr bad ↦ inr (rw (good, bad), λ h. error_differs t.cb_status bad h.0.1)
    | inl fine ↦ elim (check_health_lem ts) [
      | inl c ↦
          inl
            (rw (good, fine) c.0, ((ok_of_is_ok t.status good, ok_of_is_ok t.cb_status fine), c.1))
      | inr c ↦ inr (rw (good, fine) c.0, λ h. c.1 h.1)
    ]
  ]
]
