-- ===== src/ConcurrencyManager/Reconfigured.antt =====
-- What a change of the concurrency level does to the workers.
use perf_analyzer.Prelude.{
  ℕ, zero, suc, ◌+◌, ◌≤◌, ◌<◌, ◌≡◌, refl, ap, ◌∙◌, inl, inr, true, false, List, [], ◌∷◌, ◌++◌, map,
  some, length, length-append, sum, min, max, arith, ◌==◌, Bool-cases, length-map,
}
use perf_analyzer.LoadSplit.{ThreadConfig, new_config, share, shares, offsets}
use perf_analyzer.LoadSplit.Totals.{sum-shares, share-zero}
use perf_analyzer.ConcurrencyManager.{
  ConcurrencyManager, launch, configure, reconfig_threads, change_concurrency_level, set_paused,
  pause_sequence_workers, resume_sequence_workers,
}

length-launch :
    (fuel max_threads concurrency : ℕ) (threads : List ThreadConfig)
    → max_threads ≤ length threads + fuel
    → length (launch fuel max_threads concurrency threads)
      ≡ max (length threads) (min concurrency max_threads)
unfolding launch
length-launch zero max_threads concurrency threads h = omega arith
length-launch (suc fuel) max_threads concurrency threads h = ground (
  arith,
  length-launch fuel max_threads concurrency (threads ++ new_config (length threads) ∷ []),
  length-append threads (new_config (length threads) ∷ []),
)

configure-fields :
    (concurrency requests count i offset : ℕ) (cs : List ThreadConfig)
    → let cs' = (configure concurrency requests count i offset cs).0 in
      (map (λ c. c.concurrency) cs' ≡ shares concurrency count i (length cs))
      × (map (λ c. c.num_requests) cs' ≡ shares requests count i (length cs))
      × (map (λ c. c.seq_stat_index_offset) cs'
          ≡ offsets offset (shares concurrency count i (length cs)))
unfolding configure shares offsets
configure-fields concurrency requests count i offset [] = (refl, refl, refl)
configure-fields concurrency requests count i offset (c ∷ cs) =
    let ih =
      configure-fields concurrency requests count (suc i) (offset + share concurrency count i) cs in
    (
      ap (λ xs. share concurrency count i ∷ xs) (ih.0),
      ap (λ xs. share requests count i ∷ xs) (ih.1),
      ap (λ xs. offset ∷ xs) (ih.2),
    )

configure-active :
    (concurrency requests count i offset : ℕ) (cs : List ThreadConfig)
    → i + length cs ≡ count
    → (configure concurrency requests count i offset cs).1 + min i concurrency
      ≡ min count concurrency
unfolding configure
configure-active concurrency requests count i offset [] e = omega arith
configure-active concurrency requests count i offset (c ∷ cs) e = ground (
  arith,
  share-zero concurrency count i,
  configure-active concurrency requests count (suc i) (offset + share concurrency count i) cs,
)

length-configure :
    (concurrency requests count i offset : ℕ) (cs : List ThreadConfig)
    → length (configure concurrency requests count i offset cs).0 ≡ length cs
unfolding configure
length-configure concurrency requests count i offset [] = refl
length-configure concurrency requests count i offset (c ∷ cs) =
    ap suc
      (length-configure concurrency requests count (suc i) (offset + share concurrency count i) cs)

-- The workers after a change of the level.
pub record IsConfigured (m : ConcurrencyManager) (concurrency requests : ℕ) : Type 0 where
  pub concurrency_total : sum (map (λ c. c.concurrency) m.threads_config) ≡ concurrency
  pub requests_total : sum (map (λ c. c.num_requests) m.threads_config) ≡ requests
  pub slots :
      map (λ c. c.seq_stat_index_offset) m.threads_config
      ≡ offsets 0 (map (λ c. c.concurrency) m.threads_config)
  pub active : m.active_threads ≡ min (length m.threads_config) concurrency

configured :
    (m : ConcurrencyManager) (concurrency requests : ℕ) (threads : List ThreadConfig)
    → 0 < length threads
    → IsConfigured
        (record m {
          threads_config = (configure concurrency requests (length threads) 0 0 threads).0;
          active_threads = (configure concurrency requests (length threads) 0 0 threads).1;
        })
        concurrency
        requests
configured m concurrency requests threads pos =
    let (cs, rs, os) = configure-fields concurrency requests (length threads) 0 0 threads in
    record {
      concurrency_total = rw cs (sum-shares concurrency (length threads) pos);
      requests_total = rw rs (sum-shares requests (length threads) pos);
      slots = rw (os, cs);
      active = omega (
        arith,
        configure-active concurrency requests (length threads) 0 0 threads (omega arith),
        length-configure concurrency requests (length threads) 0 0 threads,
      );
    }

reconfig_threads_lem :
    (m : ConcurrencyManager) (concurrency requests : ℕ)
    → 0 < max (length m.threads_config) (min concurrency m.max_threads)
    → (m' : ConcurrencyManager) × (reconfig_threads m concurrency requests ≡ some m')
      × (length m'.threads_config ≡ max (length m.threads_config) (min concurrency m.max_threads))
      × IsConfigured m' concurrency requests
      × (m'.max_threads ≡ m.max_threads)
      × (m'.on_sequence_model ≡ m.on_sequence_model)
      × (m'.execute ≡ m.execute)
unfolding reconfig_threads
reconfig_threads_lem m concurrency requests pos =
    let threads = launch m.max_threads m.max_threads concurrency m.threads_config in
    let size =
      length-launch m.max_threads m.max_threads concurrency m.threads_config (omega arith) in
    let some_threads : (length threads == 0) ≡ false = ground (arith, size) in
    (
      record m {
        threads_config = (configure concurrency requests (length threads) 0 0 threads).0;
        active_threads = (configure concurrency requests (length threads) 0 0 threads).1;
      },
      rw some_threads,
      length-configure concurrency requests (length threads) 0 0 threads ∙ size,
      configured m concurrency requests threads (omega (arith, size)),
      refl,
      refl,
      refl,
    )

paused :
    (m : ConcurrencyManager)
    → let p = pause_sequence_workers m in
      (length p.threads_config ≡ length m.threads_config)
      × (p.max_threads ≡ m.max_threads)
      × (p.on_sequence_model ≡ m.on_sequence_model)
unfolding pause_sequence_workers
paused m = (ground (arith, length-map m.threads_config set_paused), ground arith, ground arith)

resumed :
    (m : ConcurrencyManager) (concurrency requests : ℕ)
    → IsConfigured m concurrency requests
    → let r = resume_sequence_workers m in
      (r.threads_config ≡ m.threads_config)
      × IsConfigured r concurrency requests
      × (r.on_sequence_model ≡ true → r.execute ≡ true)
unfolding resume_sequence_workers
resumed m concurrency requests v = elim (Bool-cases m.on_sequence_model) [
  | inl seq ↦ rw seq (
    refl,
    record {
      concurrency_total = v.concurrency_total;
      requests_total = v.requests_total;
      slots = v.slots;
      active = v.active;
    },
    λ _. refl,
  )
  | inr plain ↦ rw plain (
    refl,
    record {
      concurrency_total = v.concurrency_total;
      requests_total = v.requests_total;
      slots = v.slots;
      active = v.active;
    },
    λ h. cc,
  )
]

-- Whenever the manager has a thread or may launch one, a change of the level succeeds: it launches
-- threads up to the smaller of the level and the limit and stops none, the concurrencies of the
-- workers add up to the level and their request counts to the count asked for, the slots of the
-- workers follow one another from slot 0 on, the active threads are those with work, and a
-- sequence model runs again.
pub change_concurrency_level_lem :
    (m : ConcurrencyManager) (concurrency requests : ℕ)
    → 0 < max (length m.threads_config) (min concurrency m.max_threads)
    → (m' : ConcurrencyManager) × (change_concurrency_level m concurrency requests ≡ some m')
      × (length m'.threads_config ≡ max (length m.threads_config) (min concurrency m.max_threads))
      × IsConfigured m' concurrency requests
      × (m'.on_sequence_model ≡ true → m'.execute ≡ true)
unfolding change_concurrency_level
change_concurrency_level_lem m concurrency requests pos =
    let p = pause_sequence_workers m in
    let (same, limit, _) = paused m in
    let (m', run, size, conf, _, _, _) =
      reconfig_threads_lem p concurrency requests (rw (same, limit) pos) in
    let (kept, conf', exec) = resumed m' concurrency requests conf in
    (resume_sequence_workers m', rw run, ap length kept ∙ size ∙ rw (same, limit), conf', exec)
