-- ===== src/SessionConcurrency/Threads/Sent.antt =====
-- What the threads have sent when all have ended.
use perf_analyzer.Prelude.{
  ℕ, zero, suc, ◌≤◌, ◌<◌, ◌≡◌, refl, sym, ap, subst, ◌∙◌, true, false, List, [], ◌∷◌, ◌++◌, some,
  ltb, if◌then◌else◌, length, replicate, arith, count, count-append, concat, drop, drop-past,
  length-replicate,
}
use mathlib.Core.List.{append-nil}
use perf_analyzer.SessionConcurrency.{
  SessionConcurrencyManager, make_threads, Payload, Worker, new_worker, get_request_records,
}
use perf_analyzer.SessionConcurrency.Threads.{
  ThreadStep, this_thread, later_thread, Trace, start_run, next_step, AllEnded, unsent,
}
use perf_analyzer.SessionConcurrency.Threads.Served.{
  make_threads_lem, whole_sessions, Serves, run_lem,
}
use perf_analyzer.SessionConcurrency.Threads.Counted.{EndsLate, EndLate, with_threads, run-Moves}

module _ (payloads : List Payload) (sessions : List (List ℕ)) where
  -- Each thread's requests are those of whole sessions.
  abbrev pub ServedWhole : List Worker → List (List ℕ) → Type 0
  ServedWhole [] [] = Unit
  ServedWhole [] (t ∷ ts) = true ≡ false
  ServedWhole (w ∷ ws) [] = true ≡ false
  ServedWhole (w ∷ ws) (t ∷ ts) =
      (w.request_records ≡ whole_sessions sessions t) × ServedWhole ws ts

  Serves-ServedWhole :
      (ws : List Worker) (ts : List (List ℕ))
      → AllEnded ws
      → Serves sessions ws ts
      → ServedWhole ws ts
  Serves-ServedWhole [] [] a s = tt
  Serves-ServedWhole [] (t ∷ ts) a s = s
  Serves-ServedWhole (w ∷ ws) [] a s = s
  Serves-ServedWhole (w ∷ ws) (t ∷ ts) (e, a) (h, s) = (
    sym (append-nil w.request_records) ∙ ap (λ x. w.request_records ++ unsent x) (sym e) ∙ h,
    Serves-ServedWhole ws ts a s,
  )

  new_threads-Serves : (c : ℕ) → Serves sessions (replicate c new_worker) (replicate c [])
  new_threads-Serves zero = tt
  new_threads-Serves (suc c) = (refl, new_threads-Serves c)

  new_threads-late : (c : ℕ) → EndLate payloads sessions 0 (replicate c new_worker)
  new_threads-late zero = tt
  new_threads-late (suc c) = (tt, new_threads-late c)

  nothing_taken : (i c : ℕ) → count i (concat (replicate c [])) ≡ 0
  nothing_taken i zero = refl
  nothing_taken i (suc c) = nothing_taken i c

  nothing_held : (v c : ℕ) → with_threads payloads sessions v (replicate c new_worker) ≡ 0
  nothing_held v zero = refl
  nothing_held v (suc c) = omega (arith, nothing_held v c)

  count-records :
      (v : ℕ) (ws : List Worker)
      → AllEnded ws
      → with_threads payloads sessions v ws ≡ count v (get_request_records ws)
  unfolding get_request_records
  count-records v [] a = refl
  count-records v (w ∷ ws) (e, a) =
      let r : count v (w.request_records ++ unsent w.activity) ≡ count v w.request_records =
        ap (λ x. count v (w.request_records ++ unsent x)) e
        ∙ ap (count v) (append-nil w.request_records) in
      let rest = count-records v ws a in
      let c = count-append v w.request_records (get_request_records ws) in omega (arith, r, rest, c)

  length-step :
      {next next' : ℕ} {ws ws' : List Worker}
      → ThreadStep payloads sessions next ws next' ws'
      → length ws' ≡ length ws
  length-step (this_thread h) = refl
  length-step (later_thread h) = ap suc (length-step h)

  length-run :
      {first : ℕ} {start : List Worker} {steps next : ℕ} {ws : List Worker}
      → Trace payloads sessions first start steps next ws
      → length ws ≡ length start
  length-run start_run = refl
  length-run (next_step run st) = length-step st ∙ length-run run

  all_taken :
      (next : ℕ) (ws : List Worker)
      → 0 < length ws
      → EndLate payloads sessions next ws
      → AllEnded ws
      → length sessions ≤ next
  all_taken next [] pos l a = absurd (omega arith)
  all_taken next (w ∷ ws) pos (l, ls) (e, a) = subst (EndsLate payloads sessions next) e l

  run_sent :
      (c steps next : ℕ) (ws : List Worker)
      → 0 < c
      → Trace payloads sessions 0 (replicate c new_worker) steps next ws
      → AllEnded ws
      → ((ts : List (List ℕ)) × ServedWhole ws ts
          × ((i : ℕ) → count i (concat ts) ≡ (if ltb i (length sessions) then 1 else 0)))
        × ((v : ℕ) → count v (get_request_records ws) ≡ count v (concat sessions))
  run_sent c steps next ws pos run over_all =
      let threads : List Worker = replicate c new_worker in
      let len = length-run run in
      let same = length-replicate c new_worker in
      let (late, total) = run-Moves payloads sessions run (new_threads-late c) in
      let over = all_taken next ws (omega (arith, len, same)) late over_all in
      let (ts, serves, claimed) =
        run_lem payloads sessions (replicate c []) run (new_threads-Serves c) in
      (
        (
          ts,
          Serves-ServedWhole ws ts over_all serves,
          λ i. let k = claimed i in let n = nothing_taken i c in ground (arith, k, n, over),
        ),
        λ v.
            let t = total v in
            let n = nothing_held v c in
            let r = count-records v ws over_all in
            let none_left : count v (concat (drop next sessions)) ≡ 0 =
              ap (λ l. count v (concat l)) (drop-past sessions next over) in
            omega (arith, t, n, r, none_left),
      )

-- If a manager makes its threads, one at least, and, whatever the order of their steps, all have
-- ended, then each thread has sent whole sessions one after the other, every session was sent by one
-- thread once, and the requests that are recorded are as often of each payload as it stands in the
-- sessions.
pub all_sessions_sent :
    (payloads : List Payload) (sessions : List (List ℕ)) (m m' : SessionConcurrencyManager)
    → make_threads sessions m ≡ some m'
    → 0 < m.session_concurrency
    → (steps next : ℕ) (ws : List Worker) → Trace payloads sessions 0 m'.threads steps next ws
    → AllEnded ws
    → ((ts : List (List ℕ)) × ServedWhole payloads sessions ws ts
        × ((i : ℕ) → count i (concat ts) ≡ (if ltb i (length sessions) then 1 else 0)))
      × ((v : ℕ) → count v (get_request_records ws) ≡ count v (concat sessions))
all_sessions_sent payloads sessions m m' made pos steps next ws run over =
    let e = make_threads_lem sessions m m' made in
    run_sent payloads sessions m.session_concurrency steps next ws pos
      (subst (λ ts. Trace payloads sessions 0 ts steps next ws) e run) over
