-- ===== src/SessionConcurrency/Threads/Counted.antt =====
-- How often a payload is with the threads, or in the sessions that nobody took.
use perf_analyzer.Prelude.{
  ℕ, suc, ◌+◌, ◌≤◌, ◌≡◌, refl, ap, subst, List, [], ◌∷◌, ◌++◌, Option, none, some, length,
  get_elem?, arith, count, count-append, concat, drop, >>=-eq-some, ge_of_get_elem?, drop-some,
  drop-none, All,
}
use mathlib.Core.List.{append_assoc}
use perf_analyzer.SessionConcurrency.{
  wait_for_response, Payload, Activity, fetching, sending, ended, Worker, send_one, take_session,
  step_at, get_and_wait_for_delay, after_request, record_request_inputs,
}
use perf_analyzer.SessionConcurrency.Threads.{
  ThreadStep, this_thread, later_thread, Trace, start_run, next_step, unsent,
}
use perf_analyzer.SessionConcurrency.Threads.Served.{send_one_lem}

module _ (payloads : List Payload) (sessions : List (List ℕ)) where
  -- No thread ends before every session is taken.
  abbrev pub EndsLate : ℕ → Activity → Type 0
  EndsLate next fetching = Unit
  EndsLate next (sending ps) = Unit
  EndsLate next ended = length sessions ≤ next

  take-EndsLate :
      (next : ℕ) (w : Worker) (found : Option (List ℕ))
      → get_elem? sessions next ≡ found
      → EndsLate (suc next) (take_session found w).activity
  unfolding take_session
  take-EndsLate next w none e = let l = ge_of_get_elem? sessions next e in omega (arith, l)
  take-EndsLate next w (some session) e = tt

  after-EndsLate :
      (next : ℕ) (p : Payload) (rest : List ℕ) {activity : Activity}
      → after_request p rest ≡ some activity
      → EndsLate next activity
  unfolding after_request
  after-EndsLate next p [] {activity} h =
      let e : fetching ≡ activity = cc in subst (EndsLate next) e tt
  after-EndsLate next p (q ∷ rest) {activity} h =
      let (waited, delayed, same) = >>=-eq-some (get_and_wait_for_delay p) _ h in
      let e : sending (q ∷ rest) ≡ activity = cc in subst (EndsLate next) e tt

  send_one-EndsLate :
      (next index : ℕ) (rest : List ℕ) (w w' : Worker)
      → send_one payloads index rest w ≡ some w'
      → EndsLate next w'.activity
  unfolding send_one
  send_one-EndsLate next index rest w w' h =
      let (p, at, h₁) = >>=-eq-some (get_elem? payloads index) _ h in
      let (u, recorded, h₂) = >>=-eq-some (record_request_inputs p) _ h₁ in
      let (v, responded, h₃) = >>=-eq-some (wait_for_response p.outcome) _ h₂ in
      let (activity, after, same) = >>=-eq-some (after_request p rest) _ h₃ in
      let a : activity ≡ w'.activity = cc in
      subst (EndsLate next) a (after-EndsLate next p rest after)

  -- What is counted of the payload `v`: with a thread, and in the sessions that nobody took.
  abbrev pub with_thread : ℕ → Activity → Worker → ℕ
  with_thread v a w = count v (w.request_records ++ unsent a)

  abbrev pub with_nobody : ℕ → ℕ → ℕ
  with_nobody v next = count v (concat (drop next sessions))

  abbrev Moves : ℕ → Activity → Worker → ℕ × Worker → Type 0
  Moves next a w r =
      (next ≤ r.0)
      × EndsLate r.0 r.1.activity
      × ((v : ℕ)
          → with_thread v r.1.activity r.1 + with_nobody v r.0
            ≡ with_thread v a w + with_nobody v next)

  take-Moves :
      (v next : ℕ) (w : Worker) (found : Option (List ℕ))
      → get_elem? sessions next ≡ found
      → with_thread v (take_session found w).activity (take_session found w)
          + with_nobody v (suc next)
        ≡ with_thread v fetching w + with_nobody v next
  unfolding take_session
  take-Moves v next w none e =
      ap (λ l. count v (w.request_records ++ []) + count v (concat l)) (drop-none sessions next e)
  take-Moves v next w (some session) e =
      let d = ap (λ l. count v (concat l)) (drop-some sessions next e) in
      let a = count-append v session (concat (drop (suc next) sessions)) in
      let b = count-append v w.request_records session in
      let c = count-append v w.request_records [] in omega (arith, a, b, c, d)

  step-Moves :
      (next : ℕ) (a : Activity) (w : Worker) {r : ℕ × Worker}
      → step_at payloads sessions next a w ≡ some r
      → Moves next a w r
  unfolding step_at
  step-Moves next fetching w {r} h =
      let same : (suc next, take_session (get_elem? sessions next) w) ≡ r = cc in
      subst (Moves next fetching w) same (
        omega arith,
        take-EndsLate next w (get_elem? sessions next) refl,
        λ v. take-Moves v next w (get_elem? sessions next) refl,
      )
  step-Moves next (sending []) w {r} h =
      let idle : Worker = record w { activity = fetching } in
      let same : (next, idle) ≡ r = cc in
      subst (Moves next (sending []) w) same (omega arith, tt, λ v. refl)
  step-Moves next (sending (p ∷ ps)) w {r} h =
      let (w', sent, ret) = >>=-eq-some (send_one payloads p ps w) _ h in
      let same : (next, w') ≡ r = cc in
      let (records, left) = send_one_lem payloads p ps w w' sent in
      let moved : w'.request_records ++ unsent w'.activity ≡ w.request_records ++ (p ∷ ps) =
        rw (records, left) (append_assoc w.request_records (p ∷ []) ps) in
      subst (Moves next (sending (p ∷ ps)) w) same (
        omega arith,
        send_one-EndsLate next p ps w w' sent,
        λ v. ap (λ l. count v l + with_nobody v next) moved,
      )
  step-Moves next ended w h = cc

  EndsLate-later :
      (next next' : ℕ) (a : Activity) → next ≤ next' → EndsLate next a → EndsLate next' a
  EndsLate-later next next' fetching h e = tt
  EndsLate-later next next' (sending ps) h e = tt
  EndsLate-later next next' ended h e = omega arith

  abbrev pub EndLate : ℕ → List Worker → Type 0
  EndLate next ws = All (λ w. EndsLate next w.activity) ws

  EndLate-later :
      (next next' : ℕ) (ws : List Worker) → next ≤ next' → EndLate next ws → EndLate next' ws
  EndLate-later next next' [] h a = tt
  EndLate-later next next' (w ∷ ws) h (e, a) =
      (EndsLate-later next next' w.activity h e, EndLate-later next next' ws h a)

  abbrev pub with_threads : ℕ → List Worker → ℕ
  with_threads v [] = 0
  with_threads v (w ∷ ws) = with_thread v w.activity w + with_threads v ws

  threads-Moves :
      {next next' : ℕ} {ws ws' : List Worker}
      → ThreadStep payloads sessions next ws next' ws'
      → EndLate next ws
      → (next ≤ next')
        × EndLate next' ws'
        × ((v : ℕ)
            → with_threads v ws' + with_nobody v next' ≡ with_threads v ws + with_nobody v next)
  threads-Moves (this_thread {next = next} {w = w} {ws = ws} {next' = next'} h) (e, a) =
      let (l, e', c) = step-Moves next w.activity w h in
      (l, (e', EndLate-later next next' ws l a), λ v. let d = c v in omega (arith, d))
  threads-Moves (later_thread {next = next} {w = w} {next' = next'} h) (e, a) =
      let (l, a', c) = threads-Moves h a in
      (l, (EndsLate-later next next' w.activity l e, a'), λ v. let d = c v in omega (arith, d))

  pub run-Moves :
      {first : ℕ} {start : List Worker} {steps next : ℕ} {ws : List Worker}
      → Trace payloads sessions first start steps next ws
      → EndLate first start
      → EndLate next ws
        × ((v : ℕ)
            → with_threads v ws + with_nobody v next ≡ with_threads v start + with_nobody v first)
  run-Moves start_run a = (a, λ v. refl)
  run-Moves (next_step run st) a =
      let (a', c) = run-Moves run a in
      let (l, a'', d) = threads-Moves st a' in
      (a'', λ v. let x = c v in let y = d v in omega (arith, x, y))
