-- ===== src/SessionConcurrency/Threads/Bound.antt =====
-- How many steps the threads can make, in any interleaving.
use perf_analyzer.Prelude.{
  ℕ, zero, suc, ◌+◌, ◌≤◌, ◌<◌, ◌≡◌, refl, ap, subst, List, [], ◌∷◌, Option, none, some, length,
  get_elem?, replicate, arith, concat, drop, >>=-eq-some, drop-some, drop-none, length-append,
}
use perf_analyzer.SessionConcurrency.{
  wait_for_response, Payload, Activity, fetching, sending, ended, Worker, send_one, take_session,
  step_at, new_worker, after_request, record_request_inputs, get_and_wait_for_delay,
}
use perf_analyzer.SessionConcurrency.Threads.{
  ThreadStep, this_thread, later_thread, Trace, start_run, next_step,
}

module _ (payloads : List Payload) (sessions : List (List ℕ)) where
  -- The steps that a thread may still make without taking a session.
  abbrev work : Activity → ℕ
  work fetching = 1
  work (sending ps) = length ps + 2
  work ended = 0

  abbrev session_work : List (List ℕ) → ℕ
  session_work [] = 0
  session_work (s ∷ ss) = length s + 2 + session_work ss

  abbrev all_work : List Worker → ℕ
  all_work [] = 0
  all_work (w ∷ ws) = work w.activity + all_work ws

  abbrev Less : ℕ → Activity → ℕ × Worker → Type 0
  Less next a r =
      work r.1.activity + session_work (drop r.0 sessions)
      < work a + session_work (drop next sessions)

  take-Less :
      (next : ℕ) (w : Worker) (found : Option (List ℕ))
      → get_elem? sessions next ≡ found
      → Less next fetching (suc next, take_session found w)
  unfolding take_session
  take-Less next w none e = let d = ap session_work (drop-none sessions next e) in omega (arith, d)
  take-Less next w (some session) e =
      let d = ap session_work (drop-some sessions next e) in omega (arith, d)

  work-send :
      (p : Payload) (rest : List ℕ) {activity : Activity}
      → after_request p rest ≡ some activity
      → work activity < length rest + 3
  unfolding after_request
  work-send p [] {activity} h =
      let e : fetching ≡ activity = cc in subst (λ a. work a < 3) e (omega arith)
  work-send p (q ∷ rest) {activity} h =
      let (waited, delayed, same) = >>=-eq-some (get_and_wait_for_delay p) _ h in
      let e : sending (q ∷ rest) ≡ activity = cc in
      subst (λ a. work a < length (q ∷ rest) + 3) e (omega arith)

  send_one-work :
      (index : ℕ) (rest : List ℕ) (w w' : Worker)
      → send_one payloads index rest w ≡ some w'
      → work w'.activity < length rest + 3
  unfolding send_one
  send_one-work index rest w w' h =
      let (p, at, h₁) = >>=-eq-some (get_elem? payloads index) _ h in
      let (u, recorded, h₂) = >>=-eq-some (record_request_inputs p) _ h₁ in
      let (v, responded, h₃) = >>=-eq-some (wait_for_response p.outcome) _ h₂ in
      let (activity, after, same) = >>=-eq-some (after_request p rest) _ h₃ in
      let a : activity ≡ w'.activity = cc in
      subst (λ a. work a < length rest + 3) a (work-send p rest after)

  step-Less :
      (next : ℕ) (a : Activity) (w : Worker) {r : ℕ × Worker}
      → step_at payloads sessions next a w ≡ some r
      → Less next a r
  unfolding step_at
  step-Less next fetching w {r} h =
      let same : (suc next, take_session (get_elem? sessions next) w) ≡ r = cc in
      subst (Less next fetching) same (take-Less next w (get_elem? sessions next) refl)
  step-Less next (sending []) w {r} h =
      let idle : Worker = record w { activity = fetching } in
      let same : (next, idle) ≡ r = cc in subst (Less next (sending [])) same (omega arith)
  step-Less next (sending (p ∷ ps)) w {r} h =
      let (w', sent, ret) = >>=-eq-some (send_one payloads p ps w) _ h in
      let same : (next, w') ≡ r = cc in
      let l = send_one-work p ps w w' sent in
      subst (Less next (sending (p ∷ ps))) same (omega (arith, l))
  step-Less next ended w h = cc

  threads-Less :
      {next next' : ℕ} {ws ws' : List Worker}
      → ThreadStep payloads sessions next ws next' ws'
      → all_work ws' + session_work (drop next' sessions)
        < all_work ws + session_work (drop next sessions)
  threads-Less (this_thread {next = next} {w = w} h) =
      let l = step-Less next w.activity w h in omega (arith, l)
  threads-Less (later_thread h) = let l = threads-Less h in omega (arith, l)

  run-Less :
      {first : ℕ} {start : List Worker} {steps next : ℕ} {ws : List Worker}
      → Trace payloads sessions first start steps next ws
      → steps + (all_work ws + session_work (drop next sessions))
        ≤ all_work start + session_work (drop first sessions)
  run-Less start_run = omega arith
  run-Less (next_step run st) =
      let l = run-Less run in let m = threads-Less st in omega (arith, l, m)

  all_work-new : (c : ℕ) → all_work (replicate c new_worker) ≡ c
  all_work-new zero = refl
  all_work-new (suc c) = let e = all_work-new c in omega (arith, e)

  session_work-concat :
      (ss : List (List ℕ)) → session_work ss ≡ length (concat ss) + (length ss + length ss)
  session_work-concat [] = omega arith
  session_work-concat (s ∷ ss) =
      let e = session_work-concat ss in let a = length-append s (concat ss) in omega (arith, e, a)

  -- No run of new threads is longer than this.
  pub run_bound :
      (c steps next : ℕ) (ws : List Worker)
      → Trace payloads sessions 0 (replicate c new_worker) steps next ws
      → steps ≤ c + (length (concat sessions) + (length sessions + length sessions))
  run_bound c steps next ws run =
      let l = run-Less run in
      let n = all_work-new c in
      let s = session_work-concat sessions in
      let d : drop 0 sessions ≡ sessions = refl in omega (arith, l, n, s)
