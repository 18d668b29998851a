-- ===== src/Profiler/Search/Binary.antt =====
-- The binary search: it ends, and brackets the highest level that meets the threshold.
use perf_analyzer.Prelude.{
  ℕ, suc, ◌+◌, ◌*◌, ◌^◌, ◌≤◌, ◌<◌, ◌≡◌, refl, sym, ◌∙◌, ◌⊎◌, inl, inr, Bool, true, false, List, [],
  ◌∷◌, ◌||◌, not, some, u64_mod, arith, Bool-cases,
}
use perf_analyzer.Status.{Status, ok, err, is_ok}
use perf_analyzer.Profiler.Search.{Trial, SearchMode, binary_search, search_levels}
use perf_analyzer.Profiler.Search.Linear.{Passed}
use perf_analyzer.Profiler.Search.Bisection.{
  Failed, Stopped, Stopped-cons, PassedAt, FailedAt, Bracket, Bisected, binary_loop-Bisected,
}

low_test : (st : Status) (m : Bool) → not (is_ok st) || not m ≡ false → (st ≡ ok) × (m ≡ true)
low_test ok true e = (refl, refl)
low_test ok false e = ground arith
low_test (err c) m e = ground arith

high_test : (st : Status) (m : Bool) → not (is_ok st) || m ≡ false → (st ≡ ok) × (m ≡ false)
high_test ok true e = ground arith
high_test ok false e = (refl, refl)
high_test (err c) m e = ground arith

-- The first measurement of a search, or the second, ended it.
abbrev pub EndedAt : ℕ → ℕ → List Trial → Status → Type 0
EndedAt start stop ts status =
    ((t : Trial) × (ts ≡ t ∷ []) × (t.value ≡ start) × (status ≡ t.status) × (¬ Passed t))
    ⊎ ((t : Trial) × (u : Trial) × (ts ≡ t ∷ u ∷ [])
        × (t.value ≡ start)
        × Passed t
        × (u.value ≡ stop)
        × (status ≡ u.status)
        × (¬ Failed u))

-- What the caller sees of a binary search.
abbrev pub Outcome : ℕ → ℕ → ℕ → List Trial → Status → Type 0
Outcome start stop step ts status =
    EndedAt start stop ts status
    ⊎ Stopped ts status
    ⊎ ((status ≡ ok)
        × (good : ℕ) × (bad : ℕ) × (good ≤ bad)
        × (bad ≤ good + step)
        × PassedAt good ts
        × FailedAt bad ts)

widened :
    (start stop step : ℕ) (t u : Trial) (ts : List Trial) (status : Status)
    → t.value ≡ start
    → Passed t
    → u.value ≡ stop
    → Failed u
    → Bracket step start stop ts status
    → Outcome start stop step (t ∷ u ∷ ts) status
widened start stop step t u ts status first passed second failed (inl e) =
    inr (inl (Stopped-cons t (u ∷ ts) status (passed.0) (Stopped-cons u ts status (failed.0) e)))
widened start stop step t u ts status first passed second failed
      (inr (fine, g, b, gb, near, from, to)) =
    inr (
      inr (
        fine,
        g,
        b,
        gb,
        near,
        elim from [ inl e ↦ inl (first ∙ sym e, passed) | inr a ↦ inr (inr a) ],
        elim to [ inl e ↦ inr (inl (second ∙ sym e, failed)) | inr a ↦ inr (inr a) ],
      ))

-- With a step of at least 1, a start that is not above the end, and twice the end below 2 ^ 64, and
-- where a measurement is of the level that was asked for, the binary search over start to stop ends
-- within n bisections where stop - start is at most step times 2 ^ n. It ends at once, with the
-- status of the measurement, where the start does not pass (an error, or over the threshold) or
-- where the stop has an error or passes too. Otherwise the error of a later measurement, the first
-- that has one, ends it as its status and nothing is measured after it; or it succeeds, and leaves
-- two measured levels at most one step apart, the lower of which met the threshold and the upper
-- did not.
pub binary-Bracket :
    {S : Type 0} (profile : ℕ → S → Trial × S) (n start stop step : ℕ) (s : S)
    → ((v : ℕ) (u : S) → (profile v u).0.value ≡ v)
    → 0 < step
    → start ≤ stop
    → stop + stop < u64_mod
    → stop ≤ start + step * 2 ^ n
    → (r : Status × List Trial × S) × (search_levels profile
          (suc n)
          SearchMode.binary
          start
          stop
          step
          s
        ≡ some r)
      × Outcome start stop step r.1 r.0
unfolding search_levels binary_search Bisected
binary-Bracket profile n start stop step s faithful pos le fits enough =
    let (t, s₁) = profile start s in
    let (u, s₂) = profile stop s₁ in
    let first : t.value ≡ start = faithful start s in
    let second : u.value ≡ stop = faithful stop s₁ in
    elim (Bool-cases (not (is_ok t.status) || not t.meets_threshold)) [
      | inl out ↦
          ((t.status, t ∷ [], s₁), rw out, inl (inl (t, refl, first, refl, λ p. ground arith)))
      | inr in_ ↦ elim (Bool-cases (not (is_ok u.status) || u.meets_threshold)) [
        | inl out ↦ (
          (u.status, t ∷ u ∷ [], s₂),
          rw (in_, out),
          inl (
              inr (
                t,
                u,
                refl,
                first,
                low_test t.status t.meets_threshold in_,
                second,
                refl,
                λ p. ground arith,
              )),
        )
        | inr on ↦
            let (r, run, br) =
              binary_loop-Bisected profile faithful n step start stop s₂ pos le fits enough in
            (
              (r.0, t ∷ u ∷ r.1, r.2),
              rw (in_, on, run),
              widened start stop step t u r.1 r.0 first (low_test t.status t.meets_threshold in_)
                  second (high_test u.status u.meets_threshold on) br,
            )
      ]
    ]
