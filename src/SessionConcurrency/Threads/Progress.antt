-- ===== src/SessionConcurrency/Threads/Progress.antt =====
-- The threads come to their end, in any interleaving.
use perf_analyzer.Prelude.{
  ℕ, zero, suc, ◌+◌, ◌≤◌, ◌≡◌, refl, sym, subst, ◌⊎◌, inl, inr, List, [], ◌∷◌, ◌++◌, Option, none,
  some, length, get_elem?, replicate, All, concat, >>=-eq-some,
}
use perf_analyzer.SessionConcurrency.{
  SessionConcurrencyManager, make_threads, Payload, Activity, fetching, sending, ended, Worker,
  answered, wait_for_response, send_one, take_session, step_at, new_worker, after_request,
  record_request_inputs, get_and_wait_for_delay,
}
use perf_analyzer.SessionConcurrency.Threads.{
  ThreadStep, this_thread, later_thread, Trace, start_run, next_step, AllEnded, unsent,
}
use perf_analyzer.SessionConcurrency.Threads.Served.{send_one_lem, make_threads_lem}
use perf_analyzer.SessionConcurrency.Threads.Bound.{run_bound}

-- The inputs of a payload can be read and its request is answered, and each payload but a session's last has a delay.
abbrev pub IsReadable : List Payload → ℕ → Type 0
IsReadable payloads i =
    (p : Payload) × (get_elem? payloads i ≡ some p)
    × (record_request_inputs p ≡ some tt)
    × (p.outcome ≡ answered)

abbrev pub HasDelay : List Payload → ℕ → Type 0
HasDelay payloads i =
    (p : Payload) × (get_elem? payloads i ≡ some p)
    × (record_request_inputs p ≡ some tt)
    × (p.outcome ≡ answered)
    × (get_and_wait_for_delay p ≡ some tt)

abbrev pub IsComplete : List Payload → List ℕ → Type 0
IsComplete payloads [] = Unit
IsComplete payloads (i ∷ []) = IsReadable payloads i
IsComplete payloads (i ∷ j ∷ is) = HasDelay payloads i × IsComplete payloads (j ∷ is)

module _ (payloads : List Payload) (sessions : List (List ℕ)) where
  IsComplete-tail : (i : ℕ) (is : List ℕ) → IsComplete payloads (i ∷ is) → IsComplete payloads is
  IsComplete-tail i [] h = tt
  IsComplete-tail i (j ∷ is) (d, h) = h

  IsComplete-get :
      (ss : List (List ℕ)) (i : ℕ) {s : List ℕ}
      → get_elem? ss i ≡ some s
      → All (IsComplete payloads) ss
      → IsComplete payloads s
  IsComplete-get [] i e a = cc
  IsComplete-get (s' ∷ ss) zero {s} e (h, a) =
      let same : s' ≡ s = cc in subst (IsComplete payloads) same h
  IsComplete-get (s' ∷ ss) (suc i) e (h, a) = IsComplete-get ss i e a

  take-IsComplete :
      (next : ℕ) (w : Worker) (found : Option (List ℕ))
      → get_elem? sessions next ≡ found
      → All (IsComplete payloads) sessions
      → IsComplete payloads (unsent (take_session found w).activity)
  unfolding take_session
  take-IsComplete next w none e a = tt
  take-IsComplete next w (some session) e a = IsComplete-get sessions next e a

  step-IsComplete :
      (next : ℕ) (a : Activity) (w : Worker) {r : ℕ × Worker}
      → step_at payloads sessions next a w ≡ some r
      → All (IsComplete payloads) sessions
      → IsComplete payloads (unsent a)
      → IsComplete payloads (unsent r.1.activity)
  unfolding step_at
  step-IsComplete next fetching w {r} h all c =
      let same : (suc next, take_session (get_elem? sessions next) w) ≡ r = cc in
      subst (λ (s : ℕ × Worker). IsComplete payloads (unsent s.1.activity)) same
        (take-IsComplete next w (get_elem? sessions next) refl all)
  step-IsComplete next (sending []) w {r} h all c =
      let idle : Worker = record w { activity = fetching } in
      let same : (next, idle) ≡ r = cc in
      subst (λ (s : ℕ × Worker). IsComplete payloads (unsent s.1.activity)) same tt
  step-IsComplete next (sending (p ∷ ps)) w {r} h all c =
      let (w', sent, ret) = >>=-eq-some (send_one payloads p ps w) _ h in
      let same : (next, w') ≡ r = cc in
      let (records, left) = send_one_lem payloads p ps w w' sent in
      subst (λ (s : ℕ × Worker). IsComplete payloads (unsent s.1.activity)) same
        (subst (IsComplete payloads) (sym left) (IsComplete-tail p ps c))
  step-IsComplete next ended w h all c = cc

  abbrev AllComplete : List Worker → Type 0
  AllComplete ws = All (λ w. IsComplete payloads (unsent w.activity)) ws

  threads_complete :
      {next next' : ℕ} {ws ws' : List Worker}
      → ThreadStep payloads sessions next ws next' ws'
      → All (IsComplete payloads) sessions
      → AllComplete ws
      → AllComplete ws'
  threads_complete (this_thread {next = next} {w = w} h) all (c, cs) =
      (step-IsComplete next w.activity w h all c, cs)
  threads_complete (later_thread h) all (c, cs) = (c, threads_complete h all cs)

  run_complete :
      {first : ℕ} {start : List Worker} {steps next : ℕ} {ws : List Worker}
      → Trace payloads sessions first start steps next ws
      → All (IsComplete payloads) sessions
      → AllComplete start
      → AllComplete ws
  run_complete start_run all c = c
  run_complete (next_step run st) all c = threads_complete st all (run_complete run all c)

  new_threads_complete : (c : ℕ) → AllComplete (replicate c new_worker)
  new_threads_complete zero = tt
  new_threads_complete (suc c) = (tt, new_threads_complete c)

  -- A thread that has not ended can make a step.
  can_send :
      (p : ℕ) (ps : List ℕ) (w : Worker)
      → IsComplete payloads (p ∷ ps)
      → (w' : Worker) × (send_one payloads p ps w ≡ some w')
  unfolding send_one after_request wait_for_response
  can_send p [] w (q, at, read, out) =
      let w' : Worker = record {
        activity = fetching;
        request_records = w.request_records ++ (p ∷ []);
      } in
      (w', rw (at, read, out))
  can_send p (j ∷ ps) w ((q, at, read, out, delayed), c) =
      let w' : Worker = record {
        activity = sending (j ∷ ps);
        request_records = w.request_records ++ (p ∷ []);
      } in
      (w', rw (at, read, out, delayed))

  worker_moves :
      (next : ℕ) (a : Activity) (w : Worker)
      → IsComplete payloads (unsent a)
      → (a ≡ ended) ⊎ ((r : ℕ × Worker) × (step_at payloads sessions next a w ≡ some r))
  unfolding step_at
  worker_moves next fetching w c = inr (_, refl)
  worker_moves next (sending []) w c = inr (_, refl)
  worker_moves next (sending (p ∷ ps)) w c =
      let (w', sent) = can_send p ps w c in inr ((next, w'), rw sent)
  worker_moves next ended w c = inl refl

  abbrev pub CanMove : ℕ → List Worker → Type 0
  CanMove next ws =
      (next' : ℕ) × (ws' : List Worker) × ThreadStep payloads sessions next ws next' ws'

  threads_move : (next : ℕ) (ws : List Worker) → AllComplete ws → AllEnded ws ⊎ CanMove next ws
  threads_move next [] c = inl tt
  threads_move next (w ∷ ws) (c, cs) = elim (worker_moves next w.activity w c) [
    | inr ((next', w'), h) ↦ inr (next', w' ∷ ws, this_thread h)
    | inl e ↦ elim (threads_move next ws cs) [
      | inl over ↦ inl (e, over)
      | inr (next', ws', st) ↦ inr (next', w ∷ ws', later_thread st)
    ]
  ]

  run_comes_to_end :
      (c steps next : ℕ) (ws : List Worker)
      → All (IsComplete payloads) sessions
      → Trace payloads sessions 0 (replicate c new_worker) steps next ws
      → (steps ≤ c + (length (concat sessions) + (length sessions + length sessions)))
        × (AllEnded ws ⊎ CanMove next ws)
  run_comes_to_end c steps next ws all run = (
    run_bound payloads sessions c steps next ws run,
    threads_move next ws (run_complete run all (new_threads_complete c)),
  )

-- If the inputs of every payload in a session can be read, every request is answered (its JSON and the
-- sending are no exception, and a response comes), and all payloads but the session's last have a
-- delay, then the threads that a manager makes are never stuck: whatever steps were made, all have
-- ended or one can make a step, and no run has more steps than there are threads, payloads in the
-- sessions and twice the sessions.
pub threads_come_to_end :
    (payloads : List Payload) (sessions : List (List ℕ)) (m m' : SessionConcurrencyManager)
    → make_threads sessions m ≡ some m'
    → All (IsComplete payloads) sessions
    → (steps next : ℕ) (ws : List Worker) → Trace payloads sessions 0 m'.threads steps next ws
    → (steps
        ≤ m.session_concurrency + (length (concat sessions) + (length sessions + length sessions)))
      × (AllEnded ws ⊎ CanMove payloads sessions next ws)
threads_come_to_end payloads sessions m m' made all steps next ws run =
    let e = make_threads_lem sessions m m' made in
    run_comes_to_end payloads sessions m.session_concurrency steps next ws all
      (subst (λ ts. Trace payloads sessions 0 ts steps next ws) e run)
