-- ===== src/SessionConcurrency/Threads/Served.antt =====
-- What the threads have sent, in any interleaving.
use perf_analyzer.Prelude.{
  ℕ, suc, ◌+◌, ◌≡◌, refl, sym, ap, subst, ◌∙◌, inl, inr, true, false, List, [], ◌∷◌, not,
  Bool-cases, ◌++◌, Option, none, some, ltb, ◌==◌, if◌then◌else◌, length, get_elem?, replicate,
  arith, count, count-append, concat, >>=-eq-some, lt_of_get_elem?, ge_of_get_elem?, min,
}
use mathlib.Core.List.{append_assoc, append-nil}
use perf_analyzer.SessionConcurrency.{
  wait_for_response, SessionConcurrencyManager, make_threads, Payload, Activity, fetching, sending,
  ended, Worker, send_one, take_session, step_at, new_worker, get_and_wait_for_delay, after_request,
  record_request_inputs,
}
use perf_analyzer.SessionConcurrency.Threads.{
  ThreadStep, this_thread, later_thread, Trace, start_run, next_step, unsent,
}

abbrev pub found_session : Option (List ℕ) → List ℕ
found_session none = []
found_session (some session) = session

-- The payloads of the sessions at the indices, one session after the other.
abbrev pub whole_sessions : List (List ℕ) → List ℕ → List ℕ
whole_sessions sessions [] = []
whole_sessions sessions (i ∷ is) =
    found_session (get_elem? sessions i) ++ whole_sessions sessions is

-- The threads have sent, or are about to send, the sessions that they took.
abbrev pub Serves : List (List ℕ) → List Worker → List (List ℕ) → Type 0
Serves sessions [] [] = Unit
Serves sessions [] (t ∷ ts) = true ≡ false
Serves sessions (w ∷ ws) [] = true ≡ false
Serves sessions (w ∷ ws) (t ∷ ts) =
    (w.request_records ++ unsent w.activity ≡ whole_sessions sessions t) × Serves sessions ws ts

whole_sessions-snoc :
    (sessions : List (List ℕ)) (t : List ℕ) (i : ℕ)
    → whole_sessions sessions (t ++ (i ∷ []))
      ≡ whole_sessions sessions t ++ found_session (get_elem? sessions i)
whole_sessions-snoc sessions [] i = append-nil (found_session (get_elem? sessions i))
whole_sessions-snoc sessions (j ∷ t) i =
    ap (λ l. found_session (get_elem? sessions j) ++ l) (whole_sessions-snoc sessions t i)
    ∙ sym (
        append_assoc (found_session (get_elem? sessions j)) (whole_sessions sessions t)
          (found_session (get_elem? sessions i)))

-- A manager whose threads are made has as many as its concurrency.
pub make_threads_lem :
    (sessions : List (List ℕ)) (m m' : SessionConcurrencyManager)
    → make_threads sessions m ≡ some m'
    → m'.threads ≡ replicate m.session_concurrency new_worker
unfolding make_threads
make_threads_lem sessions m m' h = elim (Bool-cases (not (length m.threads == 0))) [
  | inl t ↦ let h' = rw t at h in cc
  | inr f ↦ elim (Bool-cases (ltb (length sessions) m.session_concurrency)) [
    | inl t ↦ let h' = rw (f, t) at h in cc
    | inr g ↦ let h' = rw (f, g) at h in cc
  ]
]

unsent-after :
    (p : Payload) (rest : List ℕ) {activity : Activity}
    → after_request p rest ≡ some activity
    → unsent activity ≡ rest
unfolding after_request
unsent-after p [] {activity} h = let e : fetching ≡ activity = cc in ap unsent (sym e)
unsent-after p (q ∷ rest) {activity} h =
    let (waited, delayed, same) = >>=-eq-some (get_and_wait_for_delay p) _ h in
    let e : sending (q ∷ rest) ≡ activity = cc in ap unsent (sym e)

-- A request moves one payload from the unsent to the sent.
pub send_one_lem :
    (payloads : List Payload) (index : ℕ) (rest : List ℕ) (w w' : Worker)
    → send_one payloads index rest w ≡ some w'
    → (w'.request_records ≡ w.request_records ++ (index ∷ [])) × (unsent w'.activity ≡ rest)
unfolding send_one after_request
send_one_lem payloads index rest w w' h =
    let (p, at, h₁) = >>=-eq-some (get_elem? payloads index) _ h in
    let (u, recorded, h₂) = >>=-eq-some (record_request_inputs p) _ h₁ in
    let (v, responded, h₃) = >>=-eq-some (wait_for_response p.outcome) _ h₂ in
    let (activity, after, same) = >>=-eq-some (after_request p rest) _ h₃ in
    let r : w'.request_records ≡ w.request_records ++ (index ∷ []) = cc in
    let a : w'.activity ≡ activity = cc in (r, ap unsent a ∙ unsent-after p rest after)

module _ (payloads : List Payload) (sessions : List (List ℕ)) where
  abbrev pub taken : ℕ → ℕ → ℕ
  taken next i = if ltb i (min next (length sessions)) then 1 else 0

  -- A session that is taken goes to the end of what the thread serves.
  take_lem :
      (next : ℕ) (w : Worker) (t : List ℕ) (found : Option (List ℕ))
      → get_elem? sessions next ≡ found
      → w.request_records ≡ whole_sessions sessions t
      → (t' : List ℕ) × ((take_session found w).request_records
            ++ unsent (take_session found w).activity
          ≡ whole_sessions sessions t')
        × ((i : ℕ) → count i t' + taken next i ≡ count i t + taken (suc next) i)
  unfolding take_session
  take_lem next w t none e h = (
    t,
    append-nil w.request_records ∙ h,
    λ i. let l = ge_of_get_elem? sessions next e in ground (arith, l),
  )
  take_lem next w t (some session) e h = (
    t ++ (next ∷ []),
    ap (λ l. l ++ session) h
        ∙ sym (
            whole_sessions-snoc sessions t next
            ∙ ap (λ o. whole_sessions sessions t ++ found_session o) e),
    λ i.
        let l = lt_of_get_elem? sessions next e in
        let c = count-append i t (next ∷ []) in ground (arith, l, c),
  )

  -- What a step leaves of a thread that serves the sessions `t`.
  abbrev Kept : ℕ → List ℕ → ℕ × Worker → Type 0
  Kept next t r =
      (t' : List ℕ) × (r.1.request_records ++ unsent r.1.activity ≡ whole_sessions sessions t')
      × ((i : ℕ) → count i t' + taken next i ≡ count i t + taken r.0 i)

  step_lem :
      (next : ℕ) (a : Activity) (w : Worker) (t : List ℕ) {r : ℕ × Worker}
      → step_at payloads sessions next a w ≡ some r
      → w.request_records ++ unsent a ≡ whole_sessions sessions t
      → Kept next t r
  unfolding step_at
  step_lem next fetching w t {r} h e =
      let same : (suc next, take_session (get_elem? sessions next) w) ≡ r = cc in
      subst (Kept next t) same
        (take_lem next w t (get_elem? sessions next) refl (sym (append-nil w.request_records) ∙ e))
  step_lem next (sending []) w t {r} h e =
      let idle : Worker = record w { activity = fetching } in
      let same : (next, idle) ≡ r = cc in subst (Kept next t) same (t, e, λ i. refl)
  step_lem next (sending (p ∷ ps)) w t {r} h e =
      let (w', sent, ret) = >>=-eq-some (send_one payloads p ps w) _ h in
      let same : (next, w') ≡ r = cc in
      let (records, left) = send_one_lem payloads p ps w w' sent in
      let moved : w'.request_records ++ unsent w'.activity ≡ whole_sessions sessions t =
        rw (records, left) (append_assoc w.request_records (p ∷ []) ps ∙ e) in
      subst (Kept next t) same (t, moved, λ i. refl)
  step_lem next ended w t h e = cc

  threads_lem :
      {next next' : ℕ} {ws ws' : List Worker} (ts : List (List ℕ))
      → ThreadStep payloads sessions next ws next' ws'
      → Serves sessions ws ts
      → (ts' : List (List ℕ)) × Serves sessions ws' ts'
        × ((i : ℕ) → count i (concat ts') + taken next i ≡ count i (concat ts) + taken next' i)
  threads_lem [] (this_thread h) s = cc
  threads_lem (t ∷ ts) (this_thread {next = next} {w = w} h) (e, s) =
      let (t', e', c) = step_lem next w.activity w t h e in
      (
        t' ∷ ts,
        (e', s),
        λ i.
            let c' = c i in
            let a = count-append i t' (concat ts) in
            let b = count-append i t (concat ts) in omega (arith, c', a, b),
      )
  threads_lem [] (later_thread h) s = cc
  threads_lem (t ∷ ts) (later_thread h) (e, s) =
      let (ts', s', c) = threads_lem ts h s in
      (
        t ∷ ts',
        (e, s'),
        λ i.
            let c' = c i in
            let a = count-append i t (concat ts') in
            let b = count-append i t (concat ts) in omega (arith, c', a, b),
      )

  pub run_lem :
      {first : ℕ} {start : List Worker} {steps next : ℕ} {ws : List Worker} (ts : List (List ℕ))
      → Trace payloads sessions first start steps next ws
      → Serves sessions start ts
      → (ts' : List (List ℕ)) × Serves sessions ws ts'
        × ((i : ℕ) → count i (concat ts') + taken first i ≡ count i (concat ts) + taken next i)
  run_lem ts start_run s = (ts, s, λ i. refl)
  run_lem ts (next_step run st) s =
      let (ts', s', c) = run_lem ts run s in
      let (ts'', s'', c') = threads_lem ts' st s' in
      (ts'', s'', λ i. let a = c i in let b = c' i in omega (arith, a, b))
