-- ===== src/Profiler/ServerStats/Durations.antt =====
-- The durations of an ensemble as sums over the models that are not composed themselves.
use perf_analyzer.Prelude.{
  ℕ, ◌+◌, ◌%◌, ◌<◌, ◌≡◌, refl, sym, ap, ◌∙◌, List, [], ◌∷◌, ◌++◌, map, some, sum, All, arith,
  u64_mod,
}
use native.Mathlib.Nat.{mod-lt, mod-eq_of_lt, mod-add-mod, add-mod-mod}
use perf_analyzer.Profiler.ServerStats.Means.{
  queue_average, compute_average, IsCounted, IsComputed, leaf_record, leaf_lem, Begins, cache_lem,
}
use perf_analyzer.Profiler.ServerStats.{
  Member, ServerSideStats, server_side_stats, ComposingModels, no_models, composing_model,
  EnsembleDurations, add_durations, get_total_ensemble_durations, add_composing_models,
}

-- The counters of the models at the leaves of the tree, below a model.
unfoldable mutual
  pub leaves : ServerSideStats → List (Member → ℕ)
  leaves (server_side_stats c parts) = leaves_of parts

  pub leaves_of : ComposingModels → List (Member → ℕ)
  leaves_of no_models = []
  leaves_of (composing_model id (server_side_stats c no_models) more) = c ∷ leaves_of more
  leaves_of (composing_model id (server_side_stats c (composing_model k s others)) more) =
      leaves (server_side_stats c (composing_model k s others)) ++ leaves_of more

  -- The counters of all models of the tree.
  pub models : ServerSideStats → List (Member → ℕ)
  models (server_side_stats c parts) = c ∷ models_of parts

  pub models_of : ComposingModels → List (Member → ℕ)
  models_of no_models = []
  models_of (composing_model id s more) = models s ++ models_of more

total : ((Member → ℕ) → ℕ) → List (Member → ℕ) → ℕ
total g cs = sum (map g cs)

total-append :
    (g : (Member → ℕ) → ℕ) (xs ys : List (Member → ℕ))
    → total g (xs ++ ys) ≡ total g xs + total g ys
unfolding total
total-append g [] ys = omega arith
total-append g (x ∷ xs) ys = let e = total-append g xs ys in omega (arith, e)

All-left : (P : (Member → ℕ) → Type 0) (xs ys : List (Member → ℕ)) → All P (xs ++ ys) → All P xs
All-left P [] ys a = tt
All-left P (x ∷ xs) ys (p, a) = (p, All-left P xs ys a)

All-right : (P : (Member → ℕ) → Type 0) (xs ys : List (Member → ℕ)) → All P (xs ++ ys) → All P ys
All-right P [] ys a = a
All-right P (x ∷ xs) ys (p, a) = All-right P xs ys a

-- Adding in 64 bits, one part after another.
added : (a b c m : ℕ) → ((a + b % m) % m + c) % m ≡ (a + (b + c)) % m
added a b c m =
    let e : a + b + c ≡ a + (b + c) = omega arith in
    mod-add-mod (a + b % m) m c
    ∙ ap (λ n. n % m) (move a (b % m) c)
    ∙ add-mod-mod (a + c) b m
    ∙ ap (λ n. n % m) (move_back a b c)
  where
    move : (a b c : ℕ) → a + b + c ≡ a + c + b
    move a b c = omega arith

    move_back : (a b c : ℕ) → a + c + b ≡ a + (b + c)
    move_back a b c = omega arith

abbrev Bounded : EnsembleDurations → Type 0
Bounded d = (d.total_queue_time_avg_us < u64_mod) × (d.total_compute_time_avg_us < u64_mod)

abbrev Adds : EnsembleDurations → List (Member → ℕ) → EnsembleDurations → Type 0
Adds d₀ cs d =
    (d.total_queue_time_avg_us ≡ (d₀.total_queue_time_avg_us + total queue_average cs) % u64_mod)
    × (d.total_compute_time_avg_us
        ≡ (d₀.total_compute_time_avg_us + total compute_average cs) % u64_mod)

add_durations-Bounded : (d e : EnsembleDurations) → Bounded (add_durations d e)
add_durations-Bounded d e =
    let bits : 0 < u64_mod = omega arith in
    (
      mod-lt (d.total_queue_time_avg_us + e.total_queue_time_avg_us) bits,
      mod-lt (d.total_compute_time_avg_us + e.total_compute_time_avg_us) bits,
    )

Adds-nothing : (d : EnsembleDurations) → Bounded d → Adds d [] d
unfolding total
Adds-nothing d (b, c) =
    let z : d.total_queue_time_avg_us + 0 ≡ d.total_queue_time_avg_us = omega arith in
    let y : d.total_compute_time_avg_us + 0 ≡ d.total_compute_time_avg_us = omega arith in
    (sym (ap (λ n. n % u64_mod) z ∙ mod-eq_of_lt b), sym (ap (λ n. n % u64_mod) y ∙ mod-eq_of_lt c))

Adds-leaf :
    (d₀ d : EnsembleDurations) (c : Member → ℕ) (cs : List (Member → ℕ))
    → Adds (add_durations d₀ (leaf_record c)) cs d
    → Adds d₀ (c ∷ cs) d
unfolding total leaf_record
Adds-leaf d₀ d c cs (q, k) = (
  q
      ∙ mod-add-mod (d₀.total_queue_time_avg_us + queue_average c) u64_mod
          (sum (map queue_average cs))
      ∙ ap (λ n. n % u64_mod)
          (assoc d₀.total_queue_time_avg_us (queue_average c) (sum (map queue_average cs))),
  k
      ∙ mod-add-mod (d₀.total_compute_time_avg_us + compute_average c) u64_mod
          (sum (map compute_average cs))
      ∙ ap (λ n. n % u64_mod)
          (assoc d₀.total_compute_time_avg_us (compute_average c) (sum (map compute_average cs))),
)
  where
    assoc : (a b c : ℕ) → a + b + c ≡ a + (b + c)
    assoc a b c = omega arith

Adds-nested :
    (d₀ d e z : EnsembleDurations) (xs ys : List (Member → ℕ))
    → z.total_queue_time_avg_us ≡ 0
    → z.total_compute_time_avg_us ≡ 0
    → Adds z xs e
    → Adds (add_durations d₀ e) ys d
    → Adds d₀ (xs ++ ys) d
Adds-nested d₀ d e z xs ys zq zk (eq, ek) (q, k) = (
  part d₀.total_queue_time_avg_us e.total_queue_time_avg_us z.total_queue_time_avg_us
      (total queue_average xs) (total queue_average ys) (total queue_average (xs ++ ys))
      d.total_queue_time_avg_us zq eq q (total-append queue_average xs ys),
  part d₀.total_compute_time_avg_us e.total_compute_time_avg_us z.total_compute_time_avg_us
      (total compute_average xs) (total compute_average ys) (total compute_average (xs ++ ys))
      d.total_compute_time_avg_us zk ek k (total-append compute_average xs ys),
)
  where
    part :
        (a b z x y xy d : ℕ)
        → z ≡ 0
        → b ≡ (z + x) % u64_mod
        → d ≡ ((a + b) % u64_mod + y) % u64_mod
        → xy ≡ x + y
        → d ≡ (a + xy) % u64_mod
    part a b z x y xy d zero_z eb ed exy =
        let zx : z + x ≡ x = omega arith in
        ed
        ∙ ap (λ n. ((a + n) % u64_mod + y) % u64_mod) (eb ∙ ap (λ n. n % u64_mod) zx)
        ∙ added a x y u64_mod
        ∙ ap (λ n. (a + n) % u64_mod) (sym exy)

mutual
  unfolding get_total_ensemble_durations add_composing_models leaves leaves_of models models_of
      Begins

  durations_lem :
      (s : ServerSideStats)
      → All IsCounted (models s)
      → All IsComputed (leaves s)
      → (d : EnsembleDurations) × (get_total_ensemble_durations s ≡ some d)
        × ((z : EnsembleDurations) × Begins z × Adds z (leaves s) d)
  durations_lem (server_side_stats c parts) (few, counted) computed =
      let (z, begins, (q, k)) = cache_lem c few in
      let (d, run, adds) = add_lem z parts (omega arith, omega arith) counted computed in
      (d, rw begins run, (z, (q, k), adds))

  add_lem :
      (d₀ : EnsembleDurations) (parts : ComposingModels)
      → Bounded d₀
      → All IsCounted (models_of parts)
      → All IsComputed (leaves_of parts)
      → (d : EnsembleDurations) × (add_composing_models d₀ parts ≡ some d)
        × Adds d₀ (leaves_of parts) d
  add_lem d₀ no_models bound counted computed = (d₀, refl, Adds-nothing d₀ bound)
  add_lem d₀ (composing_model id (server_side_stats c no_models) more) bound (few, counted)
        (a, computed) =
      let l = leaf_lem c few a in
      let (d, rest, adds) =
        add_lem (add_durations d₀ (leaf_record c)) more (add_durations-Bounded d₀ (leaf_record c))
          counted computed in
      (d, rw l rest, Adds-leaf d₀ d c (leaves_of more) adds)
  add_lem d₀ (composing_model id (server_side_stats c (composing_model k s others)) more) bound
        counted computed =
      let sub : ServerSideStats = server_side_stats c (composing_model k s others) in
      let (e, inner, (z, (q, t), adds)) =
        durations_lem (server_side_stats c (composing_model k s others))
          (All-left IsCounted (models sub) (models_of more) counted)
          (All-left IsComputed (leaves sub) (leaves_of more) computed) in
      let (d, rest, adds') =
        add_lem (add_durations d₀ e) more (add_durations-Bounded d₀ e)
          (All-right IsCounted (models sub) (models_of more) counted)
          (All-right IsComputed (leaves sub) (leaves_of more) computed) in
      (d, rw inner rest, Adds-nested d₀ d e z (leaves sub) (leaves_of more) q t adds adds')

zero_first : (z n d : ℕ) → z ≡ 0 → d ≡ (z + n) % u64_mod → d ≡ n % u64_mod
zero_first z n d e h = let p : z + n ≡ n = omega arith in h ∙ ap (λ k. k % u64_mod) p

-- If no model of the ensemble's tree has a count that wraps when it is multiplied by 1000, and each
-- model at a leaf has as many computed inputs, inferences and outputs and a time of computing that
-- does not wrap, then the durations of the ensemble are given: the time in queues, and the time of
-- computing, is the sum over the leaves of their means per request in microseconds (0 where there is
-- none), in 64 bits, however deep the ensembles are nested.
pub get_total_ensemble_durations_lem :
    (s : ServerSideStats)
    → All IsCounted (models s)
    → All IsComputed (leaves s)
    → (d : EnsembleDurations) × (get_total_ensemble_durations s ≡ some d)
      × (d.total_queue_time_avg_us ≡ sum (map queue_average (leaves s)) % u64_mod)
      × (d.total_compute_time_avg_us ≡ sum (map compute_average (leaves s)) % u64_mod)
unfolding total Begins
get_total_ensemble_durations_lem s counted computed =
    let (d, e, (z, (zq, zk), (q, k))) = durations_lem s counted computed in
    (
      d,
      e,
      zero_first z.total_queue_time_avg_us (sum (map queue_average (leaves s)))
          d.total_queue_time_avg_us zq q,
      zero_first z.total_compute_time_avg_us (sum (map compute_average (leaves s)))
          d.total_compute_time_avg_us zk k,
    )
