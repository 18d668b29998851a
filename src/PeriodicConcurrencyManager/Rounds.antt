-- ===== src/PeriodicConcurrencyManager/Rounds.antt =====
-- The rounds of an experiment: how many requests it starts in all.
use perf_analyzer.Prelude.{
  ℕ, zero, suc, ◌+◌, ◌*◌, ◌≤◌, ◌<◌, ◌≡◌, ◌⊎◌, inl, inr, refl, sym, ap, true, false, [], ◌∷◌, ltb,
  ◌==◌, add_u64, sub_u64, mul_u64, u64_mod, length, length-append, arith, subst,
}
use perf_analyzer.LoadSplit.{ThreadConfig, new_config}
use perf_analyzer.PeriodicConcurrencyManager.{
  Range, PeriodicConcurrencyManager, add_concurrent_request, add_requests_from,
  add_concurrent_requests, after_period, period_completed_callback, initial, run_experiment,
}

-- Every request that is in its first period ends it.
abbrev periods_completed : Range → ℕ → PeriodicConcurrencyManager → PeriodicConcurrencyManager
periods_completed range zero m = m
periods_completed range (suc n) m = periods_completed range n (period_completed_callback range m)

abbrev pub round : Range → PeriodicConcurrencyManager → PeriodicConcurrencyManager
round range m = periods_completed range m.num_incomplete_periods m

abbrev pub rounds : Range → ℕ → PeriodicConcurrencyManager → PeriodicConcurrencyManager
rounds range zero m = m
rounds range (suc n) m = round range (rounds range n m)

-- What a manager's counters are.
abbrev pub Counts : ℕ → ℕ → ℕ → PeriodicConcurrencyManager → Type 0
Counts requests steps incomplete m =
    (length m.threads_config ≡ requests)
    × (m.active_threads ≡ requests)
    × (m.steps_completed ≡ steps)
    × (m.num_incomplete_periods ≡ incomplete)

one_added :
    (i a s k : ℕ) (m : PeriodicConcurrencyManager)
    → Counts a s k m
    → Counts (suc a) s k (add_concurrent_request i m)
unfolding add_concurrent_request
one_added i a s k m (x, y, z, w) =
    let config : ThreadConfig = record (new_config (length m.threads_config)) {
      concurrency = 1;
      seq_stat_index_offset = i;
    } in
    (omega (arith, length-append m.threads_config (config ∷ []), x), omega (arith, y), z, w)

added :
    (i n a s k : ℕ) (m : PeriodicConcurrencyManager)
    → Counts a s k m
    → Counts (a + n) s k (add_requests_from i n m)
unfolding add_requests_from
added i zero a s k m (x, y, z, w) = (omega (arith, x), omega (arith, y), z, w)
added i (suc n) a s k m c =
    subst (λ b. Counts b s k (add_requests_from (suc i) n (add_concurrent_request i m)))
      (omega arith)
      (added (suc i) n (suc a) s k (add_concurrent_request i m) (one_added i a s k m c))

added_all :
    (n a s k : ℕ) (m : PeriodicConcurrencyManager)
    → Counts a s k m
    → Counts (a + n) s n (add_concurrent_requests n m)
unfolding add_concurrent_requests
added_all n a s k m c = let (x, y, z, w) = added 0 n a s k m c in (x, y, z, refl)

still_waiting :
    (range : Range) (a s k : ℕ) (m : PeriodicConcurrencyManager)
    → Counts a s (suc (suc k)) m
    → Counts a s (suc k) (after_period range (suc k) m)
unfolding after_period
still_waiting range a s k m (x, y, z, w) =
    let t : (suc k == 0) ≡ false = ground arith in rw t (x, y, z, refl)

waiting :
    (range : Range) (a s k : ℕ) (m : PeriodicConcurrencyManager)
    → suc (suc k) < u64_mod
    → Counts a s (suc (suc k)) m
    → Counts a s (suc k) (period_completed_callback range m)
unfolding period_completed_callback
waiting range a s k m fits c =
    let (x, y, z, w) = c in
    let e : suc k ≡ sub_u64 m.num_incomplete_periods 1 = omega (arith, w) in
    subst (λ n. Counts a s (suc k) (after_period range n m)) e (still_waiting range a s k m c)

more_requests :
    (range : Range) (a s : ℕ) (m : PeriodicConcurrencyManager)
    → suc s * range.step < u64_mod
    → suc s < u64_mod
    → suc s * range.step < range.end
    → Counts a s 1 m
    → Counts (a + range.step) (suc s) range.step (after_period range 0 m)
unfolding after_period
more_requests range a s m fits fits_steps more (x, y, z, w) =
    let e : add_u64 m.steps_completed 1 ≡ suc s = omega (arith, z) in
    let f : mul_u64 (suc s) range.step ≡ suc s * range.step = omega arith in
    let t : ltb (suc s * range.step) range.end ≡ true = ground arith in
    let stepped = record m { num_incomplete_periods = 0; steps_completed = suc s } in
    rw (e, f, t) (added_all range.step a (suc s) 0 stepped (x, y, refl, refl))

no_more_requests :
    (range : Range) (a s : ℕ) (m : PeriodicConcurrencyManager)
    → suc s * range.step < u64_mod
    → suc s < u64_mod
    → range.end ≤ suc s * range.step
    → Counts a s 1 m
    → Counts a (suc s) 0 (after_period range 0 m)
unfolding after_period
no_more_requests range a s m fits fits_steps over (x, y, z, w) =
    let e : add_u64 m.steps_completed 1 ≡ suc s = omega (arith, z) in
    let f : mul_u64 (suc s) range.step ≡ suc s * range.step = omega arith in
    let t : ltb (suc s * range.step) range.end ≡ false = ground arith in
    rw (e, f, t) (x, y, refl, refl)

at_last :
    (range : Range) (m : PeriodicConcurrencyManager)
    → m.num_incomplete_periods ≡ 1
    → period_completed_callback range m ≡ after_period range 0 m
unfolding period_completed_callback
at_last range m w =
    let e : sub_u64 m.num_incomplete_periods 1 ≡ 0 = omega (arith, w) in
    ap (λ n. after_period range n m) e

periods_more :
    (range : Range) (a s k : ℕ) (m : PeriodicConcurrencyManager)
    → suc k < u64_mod
    → suc s * range.step < u64_mod
    → suc s < u64_mod
    → suc s * range.step < range.end
    → Counts a s (suc k) m
    → Counts (a + range.step) (suc s) range.step (periods_completed range (suc k) m)
periods_more range a s zero m fk f fs more c =
    subst (Counts (a + range.step) (suc s) range.step) (sym (at_last range m c.3))
      (more_requests range a s m f fs more c)
periods_more range a s (suc k) m fk f fs more c =
    periods_more range a s k (period_completed_callback range m) (omega arith) f fs more
      (waiting range a s k m fk c)

periods_no_more :
    (range : Range) (a s k : ℕ) (m : PeriodicConcurrencyManager)
    → suc k < u64_mod
    → suc s * range.step < u64_mod
    → suc s < u64_mod
    → range.end ≤ suc s * range.step
    → Counts a s (suc k) m
    → Counts a (suc s) 0 (periods_completed range (suc k) m)
periods_no_more range a s zero m fk f fs over c =
    subst (Counts a (suc s) 0) (sym (at_last range m c.3))
      (no_more_requests range a s m f fs over c)
periods_no_more range a s (suc k) m fk f fs over c =
    periods_no_more range a s k (period_completed_callback range m) (omega arith) f fs over
      (waiting range a s k m fk c)

-- The concurrency range as the command line leaves it, and its rounds within 64 bits.
abbrev pub InRange : Range → ℕ → Type 0
InRange range n =
    (0 < range.start)
    × (range.start < u64_mod)
    × (0 < range.step)
    × (range.step < u64_mod)
    × (n * range.step < u64_mod)
    × (n < u64_mod)

incomplete : Range → ℕ → ℕ
incomplete range zero = range.start
incomplete range (suc n) = range.step

round_more :
    (range : Range) (a s k : ℕ) (m : PeriodicConcurrencyManager)
    → InRange range (suc s)
    → 0 < k
    → k < u64_mod
    → suc s * range.step < range.end
    → Counts a s k m
    → Counts (a + range.step) (suc s) range.step (round range m)
round_more range a s zero m r pos fk more c = absurd (omega arith)
round_more range a s (suc k) m (p, q, u, v, f, fs) pos fk more c =
    subst (λ n. Counts (a + range.step) (suc s) range.step (periods_completed range n m)) (sym c.3)
      (periods_more range a s k m fk f fs more c)

round_no_more :
    (range : Range) (a s k : ℕ) (m : PeriodicConcurrencyManager)
    → InRange range (suc s)
    → 0 < k
    → k < u64_mod
    → range.end ≤ suc s * range.step
    → Counts a s k m
    → Counts a (suc s) 0 (round range m)
round_no_more range a s zero m r pos fk over c = absurd (omega arith)
round_no_more range a s (suc k) m (p, q, u, v, f, fs) pos fk over c =
    subst (λ n. Counts a (suc s) 0 (periods_completed range n m)) (sym c.3)
      (periods_no_more range a s k m fk f fs over c)

incomplete_pos :
    (range : Range) (n : ℕ)
    → InRange range n
    → (0 < incomplete range n) × (incomplete range n < u64_mod)
unfolding incomplete
incomplete_pos range zero (p, q, u, v, f, fs) = (p, q)
incomplete_pos range (suc n) (p, q, u, v, f, fs) = (u, v)

rounds-Counts :
    (range : Range) (n : ℕ)
    → InRange range n
    → (n ≡ 0) ⊎ (n * range.step < range.end)
    → Counts
        (range.start + n * range.step)
        n
        (incomplete range n)
        (rounds range n (run_experiment range))
unfolding run_experiment incomplete
rounds-Counts range zero r h =
    subst (λ a. Counts a 0 range.start (add_concurrent_requests range.start initial)) (omega arith)
      (added_all range.start 0 0 0 initial (refl, refl, refl, refl))
rounds-Counts range (suc n) (p, q, u, v, f, fs) h =
    let more : suc n * range.step < range.end = elim h [
      | inl e ↦ absurd (ground arith)
      | inr g ↦ g
    ] in
    let r : InRange range n = (p, q, u, v, grind arith, omega arith) in
    let (pos, fk) = incomplete_pos range n r in
    subst (λ a. Counts a (suc n) range.step (rounds range (suc n) (run_experiment range)))
      (omega arith)
      (round_more range (range.start + n * range.step) n (incomplete range n)
        (rounds range n (run_experiment range)) (p, q, u, v, f, fs) pos fk more
        (rounds-Counts range n r (inr (grind arith))))

-- Where the end of the range is k steps above its start, and the start is q whole steps and at least
-- one and at most a step more, the experiment stops after k + q + 1 rounds, with no period
-- incomplete, and has then started q steps more requests than the end of the range: exactly that
-- end only where the start is at most a step.
pub requests_started :
    (range : Range) (k q r : ℕ)
    → InRange range (suc (k + q))
    → range.start ≡ q * range.step + r
    → 0 < r
    → r ≤ range.step
    → range.end ≡ range.start + k * range.step
    → Counts
        (range.end + q * range.step)
        (suc (k + q))
        0
        (rounds range (suc (k + q)) (run_experiment range))
requests_started range k q r (p, pq, u, v, f, fs) start pos le end =
    let dist : (k + q) * range.step ≡ k * range.step + q * range.step = grind arith in
    let total : range.end + q * range.step ≡ range.start + (k + q) * range.step =
      omega (arith, dist, end) in
    let in_ : InRange range (k + q) = (p, pq, u, v, omega arith, omega arith) in
    let (posi, fk) = incomplete_pos range (k + q) in_ in
    subst (λ a. Counts a (suc (k + q)) 0 (rounds range (suc (k + q)) (run_experiment range)))
      (sym total)
      (round_no_more range (range.start + (k + q) * range.step) (k + q) (incomplete range (k + q))
        (rounds range (k + q) (run_experiment range)) (p, pq, u, v, f, fs) posi fk
        (omega (arith, dist, end, start))
        (rounds-Counts range (k + q) in_ (inr (omega (arith, dist, end, start)))))
