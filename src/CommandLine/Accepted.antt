-- ===== src/CommandLine/Accepted.antt =====
-- What accepted options satisfy.
use perf_analyzer.Prelude.{
  ℕ, ◌≤◌, ◌<◌, ◌≡◌, ◌≢◌, refl, sym, ap, subst, ◌∙◌, Bool, true, false, not, ◌&&◌, ◌||◌, List, [],
  ◌∷◌, Option, some, ltb, ◌==◌, if◌then◌else◌, ◌>>=◌, >>=-eq-some, arith, All, Bool-cases, inl, inr,
}
use perf_analyzer.Profiler.Search.{no_limit}
use perf_analyzer.CommandLine.{
  concurrency, periodic_concurrency, mode_value, Parameters, Rates, any_of, usage_if, is_empty,
}
use perf_analyzer.CommandLine.Checks.{
  basic_tests, verify_basics, periodic_tests, correct_periodic, verify_periodic, search_tests,
  verify_search, count_tests, verify_counts, correct_backend, verify_backend, correct_service,
  verify_service, verify_options,
}

none_holds : (bs : List Bool) → any_of bs ≡ false → All (λ b. b ≡ false) bs
none_holds [] h = tt
none_holds (true ∷ bs) h = absurd (ground arith)
none_holds (false ∷ bs) h = (refl, none_holds bs h)

not_refused :
    {A : Type 0} (bs : List Bool) (p q : A)
    → usage_if bs p ≡ some q
    → All (λ b. b ≡ false) bs × (p ≡ q)
unfolding usage_if
not_refused bs p q h = elim (Bool-cases (any_of bs)) [
  | inl r ↦ let n = rw r at h in absurd (ground arith)
  | inr r ↦ let s = rw r at h in (none_holds bs r, ground arith)
]

positive : (n : ℕ) → (n == 0) ≡ false → 0 < n
positive n h = ground arith

binary_bounds :
    (start end latency mode : ℕ) (z r : Bool)
    → (end == no_limit || z) && mode == 1 ≡ false
    → mode == 1 && latency == no_limit ≡ false
    → (ltb end start || r) && mode == 1 ≡ false
    → mode ≡ 1
    → (start ≤ end) × (end ≢ no_limit) × (latency ≢ no_limit)
binary_bounds start end latency mode z r u l b e =
    (backwards start end mode r b e, λ n. ground arith, λ n. ground arith)
  where
    backwards : (s f m : ℕ) (c : Bool) → (ltb f s || c) && m == 1 ≡ false → m ≡ 1 → s ≤ f
    backwards s f m c h i = ground arith

limited :
    (end latency : ℕ) (z : Bool)
    → (end == no_limit || z) && latency == no_limit ≡ false
    → end ≡ no_limit
    → latency ≢ no_limit
limited end latency z u e n = ground arith

counted_bounds :
    (start end requests mode : ℕ)
    → not (requests == 0) && (mode == 1 && ltb requests start) ≡ false
    → not (requests == 0) && (mode == 1 && ltb start end) ≡ false
    → mode ≡ 1
    → requests ≢ 0
    → (start ≤ requests) × (end ≤ start)
counted_bounds start end requests mode few levels m n = (ground arith, ground arith)

-- One group is passed, and the rest runs on its result.
next_group :
    {A B : Type 0} (bs : List Bool) (p : A) (f : A → Option B) (q : B)
    → (usage_if bs p >>= f) ≡ some q
    → All (λ b. b ≡ false) bs × (f p ≡ some q)
next_group bs p f q h =
    let (a, e, r) = >>=-eq-some (usage_if bs p) f h in
    let (tests, same) = not_refused bs p a e in (tests, ap f same ∙ r)

module _ {D : Type 0} (rates : Rates D) where
  -- The options before the search is checked, and the ones that the search and the counts leave.
  abbrev corrected : Parameters D → Parameters D
  corrected p =
      correct_periodic rates (record p {
        start_sequence_id = if p.start_sequence_id == 0 then 1 else p.start_sequence_id;
      })

  passed_tests :
      (p q : Parameters D)
      → verify_options rates p ≡ some q
      → All (λ b. b ≡ false) (basic_tests rates p)
        × All
            (λ b. b ≡ false)
            (periodic_tests rates (record p {
              start_sequence_id = if p.start_sequence_id == 0 then 1 else p.start_sequence_id;
            }))
        × All (λ b. b ≡ false) (search_tests rates (corrected p))
        × All (λ b. b ≡ false) (count_tests rates (corrected p))
        × (correct_service rates (correct_backend rates (corrected p)) ≡ q)
  unfolding verify_options verify_basics verify_periodic verify_search verify_counts verify_backend
      verify_service
  passed_tests p q h =
      let (basic, h₁) = next_group _ _ _ q h in
      let (periodic, h₂) = next_group _ _ _ q h₁ in
      let (search, h₃) = next_group _ _ _ q h₂ in
      let (count, h₄) = next_group _ _ _ q h₃ in
      let (backend, h₅) = next_group _ _ _ q h₄ in
      let (service, h₆) = not_refused _ _ q h₅ in (basic, periodic, search, count, h₆)

  -- The corrections leave the search, the mode and the counts alone.
  abbrev SameSearch : Parameters D → Parameters D → Type 0
  SameSearch p q =
      (q.concurrency_range ≡ p.concurrency_range)
      × (q.search_mode ≡ p.search_mode)
      × (q.latency_threshold_ms ≡ p.latency_threshold_ms)
      × (q.inference_load_mode ≡ p.inference_load_mode)
      × (q.request_count ≡ p.request_count)

  correct_periodic-SameSearch : (p : Parameters D) → SameSearch p (correct_periodic rates p)
  unfolding correct_periodic
  correct_periodic-SameSearch p = elim (Bool-cases (mode_value p.inference_load_mode == 4)) [
    | inr m ↦ rw m (refl, refl, refl, refl, refl)
    | inl m ↦ elim (Bool-cases (p.periodic_concurrency_range.end == no_limit)) [
      | inl z ↦ rw (m, z) (refl, refl, refl, refl, refl)
      | inr z ↦ rw (m, z) (refl, refl, refl, refl, refl)
    ]
  ]

  -- The range that a search over concurrencies may use.
  abbrev pub IsSearchable : Parameters D → Type 0
  IsSearchable q =
      (0 < q.concurrency_range.start)
      × (q.search_mode ≡ 1
          → (q.concurrency_range.start ≤ q.concurrency_range.end)
            × (q.concurrency_range.end ≢ no_limit)
            × (q.latency_threshold_ms ≢ no_limit))
      × (q.concurrency_range.end ≡ no_limit → q.latency_threshold_ms ≢ no_limit)
      × (q.inference_load_mode ≡ concurrency
          → q.request_count ≢ 0
          → (q.concurrency_range.start ≤ q.request_count)
            × (q.concurrency_range.end ≤ q.concurrency_range.start))

  search_bounds :
      (p c : Parameters D)
      → SameSearch p c
      → All (λ b. b ≡ false) (basic_tests rates p)
      → All (λ b. b ≡ false) (search_tests rates c)
      → All (λ b. b ≡ false) (count_tests rates c)
      → IsSearchable c
  unfolding basic_tests search_tests count_tests
  search_bounds p c (range, mode, latency, load, requests) basic search count =
      let started : (p.concurrency_range.start == 0) ≡ false = basic.1.0 in
      let unlimited = search.1.1.1.0 in
      let unlimited_binary = search.1.1.1.1.0 in
      let no_latency = search.1.1.1.1.1.0 in
      let backwards = search.1.1.1.1.1.1.0 in
      let few = count.1.1.0 in
      let levels = count.1.1.1.0 in
      (
        subst (λ r. 0 < r.start) (sym range) (positive p.concurrency_range.start started),
        binary_bounds c.concurrency_range.start c.concurrency_range.end c.latency_threshold_ms
            c.search_mode _ _ unlimited_binary no_latency backwards,
        limited c.concurrency_range.end c.latency_threshold_ms _ unlimited,
        λ l n.
            counted_bounds c.concurrency_range.start c.concurrency_range.end c.request_count
              (mode_value c.inference_load_mode) few levels (ap mode_value l) n,
      )

  -- The streaming and the limit of a run with a periodic concurrency.
  abbrev pub IsPeriodic : Parameters D → Type 0
  IsPeriodic q =
      (q.streaming ≡ true)
      × (is_empty q.profile_export_file ≡ false)
      × (q.periodic_concurrency_range.end ≤ q.max_threads)

  correct_periodic-kept :
      (p : Parameters D)
      → ((correct_periodic rates p).streaming ≡ p.streaming)
        × ((correct_periodic rates p).profile_export_file ≡ p.profile_export_file)
        × ((correct_periodic rates p).inference_load_mode ≡ p.inference_load_mode)
  unfolding correct_periodic
  correct_periodic-kept p = elim (Bool-cases (mode_value p.inference_load_mode == 4)) [
    | inr m ↦ rw m (refl, refl, refl)
    | inl m ↦ elim (Bool-cases (p.periodic_concurrency_range.end == no_limit)) [
      | inl z ↦ rw (m, z) (refl, refl, refl)
      | inr z ↦ rw (m, z) (refl, refl, refl)
    ]
  ]

  corrected_end :
      (p : Parameters D)
      → p.inference_load_mode ≡ periodic_concurrency
      → (correct_periodic rates p).periodic_concurrency_range.end
        ≤ (correct_periodic rates p).max_threads
  unfolding correct_periodic
  corrected_end p e =
      let m : (mode_value p.inference_load_mode == 4) ≡ true = ap (λ l. mode_value l == 4) e in
      elim (Bool-cases (p.periodic_concurrency_range.end == no_limit)) [
        | inl z ↦ rw (m, z) (omega arith)
        | inr z ↦ rw (m, z) (omega arith)
      ]

  streams_and_exports :
      (p : Parameters D)
      → All (λ b. b ≡ false) (periodic_tests rates p)
      → (correct_periodic rates p).inference_load_mode ≡ periodic_concurrency
      → IsPeriodic (correct_periodic rates p)
  unfolding periodic_tests
  streams_and_exports p (streams, (exports, rest)) e =
      let (stream, file, load) = correct_periodic-kept p in
      let own = sym load ∙ e in
      let m : (mode_value p.inference_load_mode == 4) ≡ true = ap (λ l. mode_value l == 4) own in
      (
        stream ∙ held p.streaming (rw m at streams),
        ap is_empty file ∙ rw m at exports,
        corrected_end p own,
      )
    where
      held : (b : Bool) → not b ≡ false → b ≡ true
      held b n = ground arith

-- Options that are accepted can be searched: the concurrency starts above 0; a binary search
-- has an end other than 0, not below the start, and a latency limit; a search without an end
-- has a latency limit; and a run over concurrencies with a number of requests has an end that is
-- not above its start (0, which stands for no end, included), and as many requests at least as the
-- start.
pub verify_options-IsSearchable :
    {D : Type 0} (rates : Rates D) (p q : Parameters D)
    → verify_options rates p ≡ some q
    → IsSearchable rates q
unfolding correct_service correct_backend
verify_options-IsSearchable rates p q h =
    let (basic, periodic, search, count, same) = passed_tests rates p q h in
    subst (IsSearchable rates) same (
      search_bounds rates p (corrected rates p) (correct_periodic-SameSearch rates _) basic search
        count)

-- Accepted options with a periodic concurrency have streaming and a file to export to, and the end
-- of their range is within the limit of threads, which may have been raised for it.
pub verify_options-IsPeriodic :
    {D : Type 0} (rates : Rates D) (p q : Parameters D)
    → verify_options rates p ≡ some q
    → q.inference_load_mode ≡ periodic_concurrency
    → IsPeriodic rates q
unfolding correct_service correct_backend
verify_options-IsPeriodic rates p q h mode =
    let (basic, periodic, search, count, same) = passed_tests rates p q h in
    subst (IsPeriodic rates) same
      (streams_and_exports rates _ periodic (ap (λ r. r.inference_load_mode) same ∙ mode))
