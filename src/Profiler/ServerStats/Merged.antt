-- ===== src/Profiler/ServerStats/Merged.antt =====
-- The sums of the merged statistics, at every model of the tree.
use perf_analyzer.Prelude.{
  ℕ, ◌+◌, ◌%◌, ◌<◌, ◌≡◌, refl, sym, ap, ◌∙◌, Bool, true, false, inl, inr, List, [], ◌∷◌, map, some,
  ◌==◌, ==_iff, if◌then◌else◌, >>=-eq-some, sum, arith, Bool-cases, add_u64, u64_mod,
}
use native.Mathlib.Nat.{mod-lt, mod-eq_of_lt, mod-add-mod}
use perf_analyzer.Profiler.ServerStats.{
  Member, ServerSideStats, server_side_stats, ComposingModels, no_models, composing_model, counters,
  composing_models_stat, size, no_counts, model_of, submodel, all_have_size, add_counters,
  merge_server_side_stats, merge_composing_models,
}

-- A counter of the model that a path of identifiers leads to; 0 where there is no such model.
abbrev pub counter_at : List ℕ → Member → ServerSideStats → ℕ
counter_at [] f s = counters s f
counter_at (id ∷ path) f s = counter_at path f (submodel id s)

unfoldable pub has_model : ℕ → ComposingModels → Bool
has_model id no_models = false
has_model id (composing_model k s more) = if id == k then true else has_model id more

-- The path leads to a model.
abbrev pub HasPath : List ℕ → ServerSideStats → Type 0
HasPath [] s = Unit
HasPath (id ∷ path) s =
    (has_model id (composing_models_stat s) ≡ true) × HasPath path (submodel id s)

add_counters_lem :
    (f : Member) (total : Member → ℕ) (ss : List ServerSideStats)
    → total f < u64_mod
    → add_counters total ss f ≡ (total f + sum (map (λ s. counters s f) ss)) % u64_mod
unfolding add_counters
add_counters_lem f total [] h =
    let z : total f + 0 ≡ total f = omega arith in sym (ap (λ n. n % u64_mod) z ∙ mod-eq_of_lt h)
add_counters_lem f total (s ∷ ss) h =
    let rest : ℕ = sum (map (λ s. counters s f) ss) in
    let positive : 0 < u64_mod = omega arith in
    let below : (total f + counters s f) % u64_mod < u64_mod =
      mod-lt (total f + counters s f) positive in
    let e : total f + counters s f + rest ≡ total f + (counters s f + rest) = omega arith in
    add_counters_lem f (λ f. add_u64 (total f) (counters s f)) ss below
    ∙ mod-add-mod (total f + counters s f) u64_mod rest
    ∙ ap (λ n. n % u64_mod) e

zero_plus : (n : ℕ) → 0 + n ≡ n
zero_plus n = omega arith

merge_lem :
    (s : ServerSideStats) (rest : List ServerSideStats) (m : ServerSideStats)
    → merge_server_side_stats s rest ≡ some m
    → (counters m ≡ add_counters no_counts (s ∷ rest))
      × (merge_composing_models (composing_models_stat s) rest ≡ some (composing_models_stat m))
unfolding merge_server_side_stats
merge_lem (server_side_stats c parts) rest m h =
    elim (Bool-cases (all_have_size (size parts) rest)) [
      | inr f ↦ let h' = rw f at h in cc
      | inl t ↦
          let h' = rw t at h in
          let (composing, merged, same) = >>=-eq-some (merge_composing_models parts rest) _ h' in
          let e : server_side_stats (add_counters no_counts (server_side_stats c parts ∷ rest))
                composing
              ≡ m =
            cc in
          (sym (ap counters e), merged ∙ ap (λ s. some (composing_models_stat s)) e)
    ]

composing_lem :
    (id : ℕ) (parts : ComposingModels) (rest : List ServerSideStats) (merged : ComposingModels)
    → merge_composing_models parts rest ≡ some merged
    → has_model id parts ≡ true
    → merge_server_side_stats (model_of id parts) (map (submodel id) rest)
      ≡ some (model_of id merged)
unfolding merge_composing_models has_model model_of
composing_lem id no_models rest merged h there = cc
composing_lem id (composing_model k s more) rest merged h there =
    let (m, first, h₁) = >>=-eq-some (merge_server_side_stats s (map (submodel k) rest)) _ h in
    let (others, later, same) = >>=-eq-some (merge_composing_models more rest) _ h₁ in
    let e : composing_model k m others ≡ merged = cc in
    elim (Bool-cases (id == k)) [
      | inl t ↦
          let key : id ≡ k = (==_iff id k).0 t in
          let found : model_of id merged ≡ m =
            ap (model_of id) (sym e) ∙ ap (λ b. if b then m else model_of id others) t in
          rw (t, found) (ap (λ j. merge_server_side_stats s (map (submodel j) rest)) key ∙ first)
      | inr n ↦
          let found : model_of id merged ≡ model_of id others =
            ap (model_of id) (sym e) ∙ ap (λ b. if b then m else model_of id others) n in
          let there' : has_model id more ≡ true =
            sym (ap (λ b. if b then true else has_model id more) n) ∙ there in
          rw (n, found) (composing_lem id more rest others later there')
    ]

map-counter_at :
    (id : ℕ) (path : List ℕ) (f : Member) (ss : List ServerSideStats)
    → map (counter_at path f) (map (submodel id) ss) ≡ map (counter_at (id ∷ path) f) ss
map-counter_at id path f [] = refl
map-counter_at id path f (s ∷ ss) =
    ap (λ l. counter_at path f (submodel id s) ∷ l) (map-counter_at id path f ss)

-- If the merge succeeds, then at the model itself and at every model that the first statistics have
-- among those it is composed of, however deep, each counter is the sum of the counters of all the
-- statistics at that model, in 64 bits.
pub merge_server_side_stats_lem :
    (path : List ℕ) (f : Member) (s : ServerSideStats) (rest : List ServerSideStats)
    (m : ServerSideStats)
    → merge_server_side_stats s rest ≡ some m
    → HasPath path s
    → counter_at path f m ≡ sum (map (counter_at path f) (s ∷ rest)) % u64_mod
merge_server_side_stats_lem [] f s rest m h there =
    let (totals, composing) = merge_lem s rest m h in
    let some_bits : 0 < u64_mod = omega arith in
    ap (λ c. c f) totals
    ∙ add_counters_lem f no_counts (s ∷ rest) some_bits
    ∙ ap (λ n. n % u64_mod) (zero_plus (sum (map (λ s. counters s f) (s ∷ rest))))
merge_server_side_stats_lem (id ∷ path) f s rest m h (has, there) =
    let (totals, composing) = merge_lem s rest m h in
    merge_server_side_stats_lem path f (submodel id s) (map (submodel id) rest) (submodel id m)
      (composing_lem id (composing_models_stat s) rest (composing_models_stat m) composing has)
      there
    ∙ ap (λ l. (counter_at path f (submodel id s) + sum l) % u64_mod)
        (map-counter_at id path f rest)
