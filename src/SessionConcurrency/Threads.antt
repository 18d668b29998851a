-- ===== src/SessionConcurrency/Threads.antt =====
-- The threads of a session concurrency manager as interleaved steps.
pub mod Served
pub mod Counted
pub mod Sent
pub mod Bound
pub mod Progress
use perf_analyzer.Prelude.{ℕ, suc, ◌≡◌, List, [], ◌∷◌, some}
use perf_analyzer.SessionConcurrency.{
  Payload, Activity, fetching, sending, ended, Worker, worker_step,
}

-- One thread makes a step, the others stay.
pub data ThreadStep (payloads : List Payload) (sessions : List (List ℕ))
    : ℕ → List Worker → ℕ → List Worker → Type 0 where
  this_thread :
      {next : ℕ} {w : Worker} {ws : List Worker} {next' : ℕ} {w' : Worker}
      → worker_step payloads sessions next w ≡ some (next', w')
      → ThreadStep payloads sessions next (w ∷ ws) next' (w' ∷ ws)
  later_thread :
      {next : ℕ} {w : Worker} {ws : List Worker} {next' : ℕ} {ws' : List Worker}
      → ThreadStep payloads sessions next ws next' ws'
      → ThreadStep payloads sessions next (w ∷ ws) next' (w ∷ ws')

-- A run of so many steps, in any interleaving.
pub data Trace (payloads : List Payload) (sessions : List (List ℕ)) (first : ℕ)
    (start : List Worker) : ℕ → ℕ → List Worker → Type 0 where
  start_run : Trace payloads sessions first start 0 first start
  next_step :
      {steps : ℕ} {next : ℕ} {ws : List Worker} {next' : ℕ} {ws' : List Worker}
      → Trace payloads sessions first start steps next ws
      → ThreadStep payloads sessions next ws next' ws'
      → Trace payloads sessions first start (suc steps) next' ws'

abbrev pub AllEnded : List Worker → Type 0
AllEnded [] = Unit
AllEnded (w ∷ ws) = (w.activity ≡ ended) × AllEnded ws

-- The payloads that a thread has still to send.
abbrev pub unsent : Activity → List ℕ
unsent fetching = []
unsent (sending ps) = ps
unsent ended = []
