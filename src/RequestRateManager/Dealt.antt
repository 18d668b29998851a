-- ===== src/RequestRateManager/Dealt.antt =====
-- How the sequences and the schedule's slots fall to the workers.
use perf_analyzer.Prelude.{
  ℕ, zero, suc, ◌+◌, ◌*◌, ◌/◌, ◌%◌, ◌<◌, ◌≡◌, ◌⊎◌, inl, inr, refl, sym, ap, ◌∙◌, true, false, List,
  [], ◌∷◌, ◌++◌, map, some, ◌==◌, if◌then◌else◌, length, length-append, sum, arith, dec_lt,
  div_mod_unique, count,
}
use native.Mathlib.Nat.{mod-add-div, mod-lt, div-eq_of_lt, mod-eq_of_lt}
use perf_analyzer.LoadSplit.{ThreadConfig, new_config, share, shares, offsets}
use perf_analyzer.LoadSplit.Totals.{sum-shares}
use perf_analyzer.RequestRateManager.{
  RequestRateManager, determine_num_threads, thread_ids_from, calculate_thread_ids, launch_threads,
  configure_sequences, configure_threads,
}

pub div_mod_suc :
    (i k : ℕ)
    → 0 < k
    → ((suc i % k ≡ suc (i % k)) × (suc i / k ≡ i / k) × (suc (i % k) < k))
      ⊎ ((suc i % k ≡ 0) × (suc i / k ≡ suc (i / k)) × (suc (i % k) ≡ k))
div_mod_suc i k pos =
    let whole : i % k + k * (i / k) ≡ i = mod-add-div i k in
    let below : i % k < k = mod-lt i pos in
    elim (dec_lt (suc (i % k)) k) [
      | yes less ↦
          let e : suc i ≡ suc (i % k) + (i / k) * k = grind arith in
          let (d, m) = div_mod_unique (suc (i % k)) (i / k) k less in
          inl (ap (λ n. n % k) e ∙ m, ap (λ n. n / k) e ∙ d, less)
      | no full ↦
          let e : suc i ≡ 0 + suc (i / k) * k = grind arith in
          let (d, m) = div_mod_unique 0 (suc (i / k)) k pos in
          inr (ap (λ n. n % k) e ∙ m, ap (λ n. n / k) e ∙ d, omega arith)
    ]

-- One id more falls to the thread whose turn it is.
share-suc :
    (i threads t : ℕ)
    → t < threads
    → share (suc i) threads t ≡ (if t == i % threads then 1 else 0) + share i threads t
unfolding share
share-suc i threads t h = elim (div_mod_suc i threads (omega arith)) [
  | inl (m, d, less) ↦ rw (m, d) (ground arith)
  | inr (m, d, full) ↦ rw (m, d) (ground arith)
]

zero_sum : (n : ℕ) → 0 + n ≡ n
zero_sum n = omega arith

count-thread_ids :
    (threads t i n : ℕ)
    → t < threads
    → count t (thread_ids_from threads i n) + share i threads t ≡ share (i + n) threads t
unfolding thread_ids_from
count-thread_ids threads t i zero h =
    let e : i ≡ i + 0 = omega arith in zero_sum (share i threads t) ∙ ap (λ k. share k threads t) e
count-thread_ids threads t i (suc n) h =
    let e : suc i + n ≡ i + suc n = omega arith in
    let rest : count t (thread_ids_from threads (suc i) n) + share (suc i) threads t
        ≡ share (i + suc n) threads t =
      count-thread_ids threads t (suc i) n h ∙ ap (λ k. share k threads t) e in
    omega (arith, rest, share-suc i threads t h)

share_none : (threads t : ℕ) → t < threads → share 0 threads t ≡ 0
unfolding share
share_none threads t h =
    let pos : 0 < threads = omega arith in
    let d : 0 / threads ≡ 0 = div-eq_of_lt pos in
    let r : 0 % threads ≡ 0 = mod-eq_of_lt pos in rw (d, r) (ground arith)

-- On a sequence model every worker has as many slots in the schedule's rotation as it owns
-- sequences.
pub slots_are_sequences :
    (m : RequestRateManager) (t : ℕ)
    → m.on_sequence_model ≡ true
    → t < determine_num_threads m
    → count t (calculate_thread_ids m) ≡ share m.num_of_sequences (determine_num_threads m) t
unfolding calculate_thread_ids
slots_are_sequences m t seq h =
    let k = determine_num_threads m in
    let ids : (if m.on_sequence_model then m.num_of_sequences else m.max_threads)
        ≡ m.num_of_sequences =
      ap (λ b. if b then m.num_of_sequences else m.max_threads) seq in
    let all : 0 + m.num_of_sequences ≡ m.num_of_sequences = omega arith in
    let dealt = count-thread_ids k t 0 m.num_of_sequences h ∙ ap (λ n. share n k t) all in
    ap (λ n. count t (thread_ids_from k 0 n)) ids ∙ omega (arith, dealt, share_none k t h)

launched :
    (n : ℕ) (threads : List ThreadConfig) → length (launch_threads n threads) ≡ length threads + n
unfolding launch_threads
launched zero threads = omega arith
launched (suc n) threads = omega (
  arith,
  launched n (threads ++ (new_config (length threads) ∷ [])),
  length-append threads (new_config (length threads) ∷ []),
)

configured_sums :
    (sequences requests count i offset : ℕ) (cs : List ThreadConfig)
    → (map (λ c. c.num_sequences) (configure_sequences sequences requests count i offset cs)
        ≡ shares sequences count i (length cs))
      × (map (λ c. c.num_requests) (configure_sequences sequences requests count i offset cs)
          ≡ shares requests count i (length cs))
      × (map
            (λ c. c.seq_stat_index_offset)
            (configure_sequences sequences requests count i offset cs)
          ≡ offsets offset (shares sequences count i (length cs)))
unfolding configure_sequences shares offsets
configured_sums sequences requests count i offset [] = (refl, refl, refl)
configured_sums sequences requests count i offset (c ∷ cs) =
    let (a, b, o) =
      configured_sums sequences requests count (suc i) (offset + share sequences count i) cs in
    (
      ap (λ l. share sequences count i ∷ l) a,
      ap (λ l. share requests count i ∷ l) b,
      ap (λ l. offset ∷ l) o,
    )

-- What the threads have after they are configured.
abbrev pub IsSpread : RequestRateManager → ℕ → List ThreadConfig → Type 0
IsSpread m request_count threads =
    (length threads ≡ determine_num_threads m)
    × (sum (map (λ c. c.num_sequences) threads) ≡ m.num_of_sequences)
    × (sum (map (λ c. c.num_requests) threads) ≡ request_count)
    × (map (λ c. c.seq_stat_index_offset) threads ≡ offsets 0 (map (λ c. c.num_sequences) threads))

length-configured :
    (sequences requests count i offset : ℕ) (cs : List ThreadConfig)
    → length (configure_sequences sequences requests count i offset cs) ≡ length cs
unfolding configure_sequences
length-configured sequences requests count i offset [] = refl
length-configured sequences requests count i offset (c ∷ cs) =
    ap suc
      (length-configured sequences requests count (suc i) (offset + share sequences count i) cs)

spread :
    (m : RequestRateManager) (request_count : ℕ) (threads : List ThreadConfig)
    → 0 < length threads
    → length threads ≡ determine_num_threads m
    → IsSpread m request_count
        (configure_sequences m.num_of_sequences request_count (length threads) 0 0 threads)
spread m request_count threads pos len =
    let (a, b, o) = configured_sums m.num_of_sequences request_count (length threads) 0 0 threads in
    (
      length-configured m.num_of_sequences request_count (length threads) 0 0 threads ∙ len,
      ap sum a ∙ sum-shares m.num_of_sequences (length threads) pos,
      ap sum b ∙ sum-shares request_count (length threads) pos,
      o ∙ ap (offsets 0) (sym a),
    )

-- A manager without threads that may have one configures as many as it determines: their sequences
-- and their requests add up to the totals, and their slots follow one another from slot 0 on.
pub configure_threads-IsSpread :
    (m : RequestRateManager) (request_count : ℕ)
    → m.threads_config ≡ []
    → 0 < determine_num_threads m
    → (m' : RequestRateManager) × (configure_threads request_count m ≡ some m')
      × IsSpread m request_count m'.threads_config
unfolding configure_threads
configure_threads-IsSpread m request_count empty pos =
    let threads = launch_threads (determine_num_threads m) [] in
    let len : length threads ≡ determine_num_threads m =
      omega (arith, launched (determine_num_threads m) []) in
    let some_thread : (length threads == 0) ≡ false = ground (arith, len) in
    let none_yet : (length m.threads_config == 0) ≡ true = ap (λ l. length l == 0) empty in
    (
      record m {
        threads_config =
            configure_sequences m.num_of_sequences request_count (length threads) 0 0 threads;
      },
      rw (none_yet, some_thread),
      spread m request_count threads (omega (arith, len)) len,
    )

-- Only the threads change, and there are as many as the manager determines.
pub configured_threads :
    (m : RequestRateManager) (request_count : ℕ)
    → m.threads_config ≡ []
    → 0 < determine_num_threads m
    → (cs : List ThreadConfig) × (configure_threads request_count m
        ≡ some (record m { threads_config = cs }))
      × (length cs ≡ determine_num_threads m)
unfolding configure_threads
configured_threads m request_count empty pos =
    let threads = launch_threads (determine_num_threads m) [] in
    let len : length threads ≡ determine_num_threads m =
      omega (arith, launched (determine_num_threads m) []) in
    let some_thread : (length threads == 0) ≡ false = ground (arith, len) in
    let none_yet : (length m.threads_config == 0) ≡ true = ap (λ l. length l == 0) empty in
    (
      configure_sequences m.num_of_sequences request_count (length threads) 0 0 threads,
      rw (none_yet, some_thread),
      length-configured m.num_of_sequences request_count (length threads) 0 0 threads ∙ len,
    )
