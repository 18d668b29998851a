-- ===== src/Profiler/Trials/LastTrials.antt =====
-- The reports that are merged are the ones that were found stable.
use perf_analyzer.Prelude.{
  ℕ, ◌-◌, ◌≡◌, ◌≢◌, inl, inr, refl, sym, ◌∙◌, subst, Bool, true, false, ◌&&◌, ◌||◌, List, [], ◌∷◌,
  map, some, length, All, arith, Bool-cases, leb→le, length-drop, length-map,
}
use perf_analyzer.Status.{Status, ok, is_ok}
use perf_analyzer.Profiler.Search.Linear.{ok_of_is_ok}
use perf_analyzer.Profiler.Trials.{
  Double, LoadStatus, Limits, World, Report, Trials, unhealthy, ended, is_window_stable, as_doubles,
  check_window_for_stability, none_zero, determine_stability, run_trials, first_error, conclude,
  profile_helper,
}
use perf_analyzer.Profiler.Trials.Queue.{
  drop-map, last_of, throughput, stabilizing, loads, Ends, from_start,
}

error_stays : (st : Status) → is_ok st ≡ false → st ≢ ok
error_stays st h e = ground arith

both : {a b : Bool} → a && b ≡ true → (a ≡ true) × (b ≡ true)
both {a = true} {b} h = (refl, h)
both {a = false} {b} h = ground arith

true_not_false : (b : Bool) → b ≡ true → b ≢ false
true_not_false b t f = ground arith

module _ {D : Type 0} (double : Double D) where
  -- What the merged reports satisfy.
  abbrev pub IsStable : Limits → Bool → ℕ → List (Report D) → Type 0
  IsStable limits async_mode request_count q =
      All (λ r. r.status ≡ ok) q
      × (request_count ≡ 0
          → (length q ≡ limits.stability_window)
            × (none_zero double (map (throughput double) q) ≡ true)
            × (is_window_stable double (map (throughput double) q) ≡ true)
            × (async_mode ≡ false
                → is_window_stable double (as_doubles double (map (stabilizing double) q)) ≡ true))

  each_fine : (q : List (Report D)) → first_error q ≡ ok → All (λ r. r.status ≡ ok) q
  unfolding first_error
  each_fine [] e = tt
  each_fine (r ∷ q) e = elim (Bool-cases (is_ok r.status)) [
    | inl g ↦ (ok_of_is_ok r.status g, each_fine q (rw g at e))
    | inr b ↦ absurd (error_stays r.status b (rw b at e))
  ]

  -- A window that is found stable is full.
  determined :
      (limits : Limits) (check : Bool) (h : List (Report D))
      → determine_stability double limits (loads double h) check ≡ true
      → (length (last_of limits.stability_window h) ≡ limits.stability_window)
        × (none_zero double (map (throughput double) (last_of limits.stability_window h)) ≡ true)
        × (is_window_stable double (map (throughput double) (last_of limits.stability_window h))
            ≡ true)
        × (check ≡ true
            → is_window_stable double
                (as_doubles double (map (stabilizing double) (last_of limits.stability_window h)))
              ≡ true)
  unfolding determine_stability check_window_for_stability
  determined limits check h e =
      let k = length h - limits.stability_window in
      let len : length (map (throughput double) h) ≡ length h = length-map h (throughput double) in
      let t = rw (len, drop-map (throughput double) k h, drop-map (stabilizing double) k h) at e in
      let (full, t₁) = both t in
      let (nonzero, t₂) = both t₁ in
      let (steady, t₃) = both t₂ in
      (
        omega (arith, length-drop k h, leb→le limits.stability_window (length h) full),
        nonzero,
        steady,
        λ c. rw c at t₃,
      )

  -- The reports are merged only where no trial of the queue failed and the flag is set.
  conclude-merged :
      {S : Type 0} (world : World D S) (limits : Limits) (async_mode : Bool)
      (merge : List (Report D) → Status) (stable : Bool) (queue : List (Report D))
      (load : LoadStatus D) (s : S) (q : List (Report D))
      → (conclude double world limits async_mode merge (ended stable queue load s)).2 ≡ some q
      → (first_error queue ≡ ok)
        × (stable || (async_mode && determine_stability double limits load false) ≡ true)
        × (queue ≡ q)
  unfolding conclude
  conclude-merged world limits async_mode merge stable queue load s q merged =
      elim (Bool-cases (is_ok (first_error queue))) [
        | inr b ↦ let none_ = rw b at merged in absurd (ground arith)
        | inl g ↦
            let merged₁ = rw g at merged in
            elim (Bool-cases
              (stable || (async_mode && determine_stability double limits load false))) [
                | inr b ↦ let none_ = rw b at merged₁ in absurd (ground arith)
                | inl g' ↦
                    let merged₂ = rw g' at merged₁ in
                    elim (Bool-cases (is_ok (merge queue))) [
                      | inl m ↦
                          let same = rw m at merged₂ in
                          (ok_of_is_ok (first_error queue) g, g', ground arith)
                      | inr m ↦
                          let same = rw m at merged₂ in
                          (ok_of_is_ok (first_error queue) g, g', ground arith)
                    ]
              ]
      ]

  last_of-IsStable :
      (limits : Limits) (async_mode : Bool) (request_count : ℕ) (stable : Bool)
      (h : List (Report D))
      → first_error (last_of limits.stability_window h) ≡ ok
      → stable || (async_mode && determine_stability double limits (loads double h) false) ≡ true
      → (request_count ≡ 0 → stable ≡ determine_stability double limits (loads double h) true)
      → IsStable limits async_mode request_count (last_of limits.stability_window h)
  last_of-IsStable limits async_mode request_count stable h no_error flag from = (
    each_fine (last_of limits.stability_window h) no_error,
    λ z. elim (Bool-cases (determine_stability double limits (loads double h) true)) [
      | inl d ↦ let (a, b, c, l) = determined limits true h d in (a, b, c, λ y. l refl)
      | inr d ↦
          let off : stable ≡ false = from z ∙ d in
          let late : async_mode && determine_stability double limits (loads double h) false ≡ true =
            rw off at flag in
          let (async_, d') = both late in
          let (a, b, c, l) = determined limits false h d' in
          (a, b, c, λ y. absurd (true_not_false async_mode async_ y))
    ],
  )

  conclude-IsStable :
      {S : Type 0} (world : World D S) (limits : Limits) (async_mode : Bool)
      (merge : List (Report D) → Status) (request_count : ℕ) (t : Trials D S) (q : List (Report D))
      → Ends double limits request_count t
      → (conclude double world limits async_mode merge t).2 ≡ some q
      → IsStable limits async_mode request_count q
  unfolding conclude Ends
  conclude-IsStable world limits async_mode merge request_count (unhealthy e b s) q ends merged =
      ground arith
  conclude-IsStable world limits async_mode merge request_count (ended stable queue load s) q ends
        merged =
      let (h, is_queue, is_load, some_trial, from) = ends in
      let (no_error, flag, same) =
        conclude-merged world limits async_mode merge stable queue load s q merged in
      subst (IsStable limits async_mode request_count) (sym is_queue ∙ same) (
        last_of-IsStable limits async_mode request_count stable h (rw is_queue at no_error)
          (rw is_load at flag) from)

-- The reports that are merged into the result are of trials without an error, whatever the load
-- manager, the measurements, the signals and the other ranks do. Where the number of requests is
-- not fixed they are as many as the stability window, each with a throughput other than 0, and the
-- largest of these throughputs is within the threshold of the smallest; so are their latencies,
-- unless the requests are asynchronous.
pub profile_helper_lem :
    {D S : Type 0} (double : Double D) (world : World D S) (limits : Limits) (async_mode : Bool)
    (merge : List (Report D) → Status) (request_count : ℕ) (s : S) (q : List (Report D))
    → (profile_helper double world limits async_mode merge request_count s).2 ≡ some q
    → IsStable double limits async_mode request_count q
unfolding profile_helper
profile_helper_lem double world limits async_mode merge request_count s q merged =
    let (e, s₁) = world.swap_request_records s in
    elim (Bool-cases (is_ok e)) [
      | inl g ↦
          conclude-IsStable double world limits async_mode merge request_count
            (run_trials double world limits request_count (limits.max_trials - 1) false []
              (loads double []) s₁)
            q (from_start double world limits request_count (limits.max_trials - 1) s₁)
            (rw g at merged)
      | inr b ↦ let none_ = rw b at merged in absurd (ground arith)
    ]
