-- ===== src/Examples/SessionRuns.antt =====
-- Sessions that two threads serve.
use perf_analyzer.Prelude.{
  ℕ, ◌+◌, ◌≤◌, ◌≡◌, ◌⊎◌, refl, ltb, List, [], ◌∷◌, some, if◌then◌else◌, length, concat, count, All,
  arith,
}
use mathlib.Core.List.Permᴰ
use perf_analyzer.SessionConcurrency.{
  answered, Payload, fetching, ended, Worker, SessionConcurrencyManager, make_threads,
  get_request_records, group_payloads_by_session, step_at, record_request_inputs,
  get_and_wait_for_delay,
}
use perf_analyzer.SessionConcurrency.Grouped.{IsSession, group_payloads_by_session-IsSession}
use perf_analyzer.SessionConcurrency.Threads.{
  Trace, start_run, next_step, this_thread, later_thread, AllEnded,
}
use perf_analyzer.SessionConcurrency.Threads.Sent.{ServedWhole, all_sessions_sent}
use perf_analyzer.SessionConcurrency.Threads.Progress.{CanMove, IsComplete, threads_come_to_end}

abbrev turn : List ℕ → Payload
turn id = record {
  payload = some (7 ∷ []);
  session_id = some id;
  delay = some (some 4);
  outcome = answered;
}

abbrev dataset : List Payload
dataset = turn (1 ∷ []) ∷ turn (2 ∷ []) ∷ turn (1 ∷ []) ∷ []

group_payloads_by_session-IsSession_example :
    (sessions : List (List ℕ)) × (group_payloads_by_session (λ m. m) (dataset ∷ []) ≡ some sessions)
    × All (IsSession ((1 ∷ []) ∷ (2 ∷ []) ∷ (1 ∷ []) ∷ [])) sessions
    × ((n : ℕ) → count n (concat sessions) ≡ (if ltb n (length dataset) then 1 else 0))
group_payloads_by_session-IsSession_example =
    group_payloads_by_session-IsSession (λ m. m) (λ m. Permᴰ.refl m) dataset
      ((1 ∷ []) ∷ (2 ∷ []) ∷ (1 ∷ []) ∷ []) refl

abbrev sessions : List (List ℕ)
sessions = (0 ∷ 2 ∷ []) ∷ (1 ∷ []) ∷ []

abbrev manager : SessionConcurrencyManager
manager = record { session_concurrency = 2; next_session_index = 0; threads = [] }

abbrev idle : Worker
idle = record { activity = fetching; request_records = [] }

abbrev started : SessionConcurrencyManager
started = record manager { threads = idle ∷ idle ∷ [] }

started_lem : make_threads sessions manager ≡ some started
unfolding make_threads
started_lem = refl

abbrev finished : List Worker
finished =
    record { activity = ended; request_records = 0 ∷ 2 ∷ [] }
    ∷ record { activity = ended; request_records = 1 ∷ [] }
    ∷ []

-- The second session is sent between the two requests of the first one.
interleaved : Trace dataset sessions 0 (idle ∷ idle ∷ []) 7 4 finished
unfolding step_at
interleaved =
    next_step
      (next_step
        (next_step
          (next_step
            (next_step
              (next_step (next_step start_run (this_thread refl)) (later_thread (this_thread refl)))
              (this_thread refl))
            (later_thread (this_thread refl)))
          (this_thread refl))
        (later_thread (this_thread refl)))
      (this_thread refl)

all_sessions_sent_example :
    ((ts : List (List ℕ)) × ServedWhole dataset sessions finished ts
      × ((i : ℕ) → count i (concat ts) ≡ (if ltb i (length sessions) then 1 else 0)))
    × ((v : ℕ) → count v (get_request_records finished) ≡ count v (concat sessions))
all_sessions_sent_example =
    all_sessions_sent dataset sessions manager started started_lem (omega arith) 7 4 finished
      interleaved (refl, (refl, tt))

complete : All (IsComplete dataset) sessions
unfolding record_request_inputs get_and_wait_for_delay
complete = (
  ((turn (1 ∷ []), refl, refl, refl, refl), (turn (1 ∷ []), refl, refl, refl)),
  ((turn (2 ∷ []), refl, refl, refl), tt),
)

threads_come_to_end_example :
    (7 ≤ 2 + (length (concat sessions) + (length sessions + length sessions)))
    × (AllEnded finished ⊎ CanMove dataset sessions 4 finished)
threads_come_to_end_example =
    threads_come_to_end dataset sessions manager started started_lem complete 7 4 finished
      interleaved
