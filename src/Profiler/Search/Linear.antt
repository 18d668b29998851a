-- ===== src/Profiler/Search/Linear.antt =====
-- The linear search: it measures every level in turn, and ends.
use perf_analyzer.Prelude.{
  ℕ, zero, suc, ◌+◌, ◌≤◌, ◌<◌, ◌≡◌, ◌≢◌, refl, sym, ◌∙◌, inl, inr, Bool, true, false, List, [], ◌∷◌,
  ◌&&◌, not, some, leb, ◌==◌, if◌then◌else◌, add_u64, u64_mod, arith, Bool-cases,
}
use perf_analyzer.Status.{Status, ok, err, is_ok, stability_error}
use perf_analyzer.Profiler.Search.{Trial, no_limit, linear_loop, search_levels, SearchMode}

-- The search goes on after this measurement.
abbrev pub Passed : Trial → Type 0
Passed t = (t.status ≡ ok) × (t.meets_threshold ≡ true)

-- The measurements of a sweep from `current` to `stop`: one for each level in steps, the first
-- always, each later one after a measurement that passed. The sweep ends by a measurement that did
-- not pass, or because the next level lies beyond the end.
pub data Sweep (stop step : ℕ) : ℕ → List Trial → Type 0 where
  halt :
      {current : ℕ} (t : Trial) → t.value ≡ current → ¬ Passed t → Sweep stop step current (t ∷ [])
  last :
      {current : ℕ} (t : Trial)
      → t.value ≡ current
      → Passed t
      → stop < current + step
      → Sweep stop step current (t ∷ [])
  more :
      {current : ℕ} {ts : List Trial} (t : Trial)
      → t.value ≡ current
      → Passed t
      → current + step ≤ stop
      → Sweep stop step (current + step) ts
      → Sweep stop step current (t ∷ ts)

-- The status of a search: an error of its last measurement; a stability error if there was only
-- one, and it was not stable; success otherwise.
abbrev pub verdict : Bool → List Trial → Status
verdict single [] = ok
verdict single (t ∷ []) =
    if is_ok t.status
    then (if single && not t.is_stable then err stability_error else ok)
    else t.status
verdict single (t ∷ u ∷ ts) = verdict false (u ∷ ts)

verdict-sweep :
    (single : Bool) (t : Trial) {stop step current : ℕ} {ts : List Trial}
    → Sweep stop step current ts
    → verdict single (t ∷ ts) ≡ verdict false ts
verdict-sweep single t (halt u e p) = refl
verdict-sweep single t (last u e p h) = refl
verdict-sweep single t (more u e p h w) = refl

and_parts : {a b : Bool} → (a && b) ≡ true → (a ≡ true) × (b ≡ true)
and_parts {a} {b} h = ground arith

-- A sweep ends by a measurement after which the search does not go on.
stopped :
    (stop step current : ℕ) (t : Trial)
    → t.value ≡ current
    → t.status ≡ ok
    → (leb (current + step) stop && t.meets_threshold) ≡ false
    → Sweep stop step current (t ∷ [])
stopped stop step current t value good off = elim (Bool-cases t.meets_threshold) [
  | inl meets ↦ last t value (good, meets) (ground arith)
  | inr fails ↦ halt t value (λ p. ground arith)
]

pub ok_of_is_ok : (st : Status) → is_ok st ≡ true → st ≡ ok
ok_of_is_ok ok h = refl
ok_of_is_ok (err code) h = cc

module _ {S : Type 0} (profile : ℕ → S → Trial × S)
    (faithful : (v : ℕ) (s : S) → (profile v s).0.value ≡ v) where
  step_on :
      (fuel start stop step current : ℕ) (s : S) (t : Trial) (s' : S) (r : Status × List Trial × S)
      → profile current s ≡ (t, s')
      → add_u64 current step ≡ current + step
      → is_ok t.status ≡ true
      → leb (current + step) stop ≡ true
      → t.meets_threshold ≡ true
      → linear_loop profile fuel start stop step (current + step) s' ≡ some r
      → linear_loop profile (suc fuel) start stop step current s ≡ some (r.0, t ∷ r.1, r.2)
  unfolding linear_loop
  step_on fuel start stop step current s t s' r p sum good next meets run =
      rw (p, sum, good, next, meets, run)

  step_off :
      (fuel start stop step current : ℕ) (s : S) (t : Trial) (s' : S)
      → profile current s ≡ (t, s')
      → stop ≢ no_limit
      → add_u64 current step ≡ current + step
      → (add_u64 current step == add_u64 start step) ≡ (current == start)
      → is_ok t.status ≡ true
      → (leb (current + step) stop && t.meets_threshold) ≡ false
      → linear_loop profile (suc fuel) start stop step current s
        ≡ some (verdict (current == start) (t ∷ []), t ∷ [], s')
  unfolding linear_loop
  step_off fuel start stop step current s t s' p lim sum first good off =
      let bounded : (stop == no_limit) ≡ false = ground arith in
      rw (p, first, sum, bounded, good) (ground arith)

  -- The loop from `current` on ends, and has made a sweep.
  Outcome : ℕ → ℕ → ℕ → ℕ → ℕ → S → Type 0
  Outcome fuel start stop step current s =
      (r : Status × List Trial × S) × (linear_loop profile fuel start stop step current s ≡ some r)
      × Sweep stop step current r.1
      × (r.0 ≡ verdict (current == start) r.1)

  Outcome-more :
      (fuel start stop step current : ℕ) (s : S) (t : Trial) (s' : S)
      → profile current s ≡ (t, s')
      → t.value ≡ current
      → 0 < step
      → start ≤ current
      → current + step < u64_mod
      → is_ok t.status ≡ true
      → leb (current + step) stop ≡ true
      → t.meets_threshold ≡ true
      → Outcome fuel start stop step (current + step) s'
      → Outcome (suc fuel) start stop step current s
  unfolding Outcome
  Outcome-more fuel start stop step current s t s' p value pos le fits good next meets
        (r, run, sweep, status) =
      let later : (current + step == start) ≡ false = ground arith in
      (
        (r.0, t ∷ r.1, r.2),
        step_on fuel start stop step current s t s' r p (omega arith) good next meets run,
        more t value (ok_of_is_ok t.status good, meets) (ground arith) sweep,
        status ∙ rw later (sym (verdict-sweep (current == start) t sweep)),
      )

  Outcome-end :
      (fuel start stop step current : ℕ) (s : S) (t : Trial) (s' : S)
      → profile current s ≡ (t, s')
      → t.value ≡ current
      → stop ≢ no_limit
      → start ≤ current
      → current + step < u64_mod
      → is_ok t.status ≡ true
      → (leb (current + step) stop && t.meets_threshold) ≡ false
      → Outcome (suc fuel) start stop step current s
  unfolding Outcome
  Outcome-end fuel start stop step current s t s' p value lim le fits good off =
      let sum : add_u64 current step ≡ current + step = omega arith in
      let sum₀ : add_u64 start step ≡ start + step = omega arith in
      let first : (current + step == start + step) ≡ (current == start) = ground arith in
      (
        (verdict (current == start) (t ∷ []), t ∷ [], s'),
        step_off fuel start stop step current s t s' p lim sum (rw (sum, sum₀) first) good off,
        stopped stop step current t value (ok_of_is_ok t.status good) off,
        refl,
      )

  Outcome-error :
      (fuel start stop step current : ℕ) (s : S) (t : Trial) (s' : S)
      → profile current s ≡ (t, s')
      → t.value ≡ current
      → is_ok t.status ≡ false
      → Outcome (suc fuel) start stop step current s
  unfolding Outcome linear_loop
  Outcome-error fuel start stop step current s t s' p value bad =
      ((t.status, t ∷ [], s'), rw (p, bad), halt t value (λ q. ground arith), rw bad)

  linear_loop-Outcome :
      (fuel start stop step current : ℕ) (s : S)
      → stop ≢ no_limit
      → 0 < step
      → start ≤ current
      → stop + step < u64_mod
      → current + step < u64_mod
      → 0 < fuel
      → stop < current + fuel
      → Outcome fuel start stop step current s
  linear_loop-Outcome zero start stop step current s lim pos le f₁ f₂ some_ enough =
      absurd (omega arith)
  linear_loop-Outcome (suc fuel) start stop step current s lim pos le f₁ f₂ some_ enough =
      let (t, s') = profile current s in
      let value : t.value ≡ current = faithful current s in
      elim (Bool-cases (is_ok t.status)) [
        | inl good ↦ elim (Bool-cases (leb (current + step) stop && t.meets_threshold)) [
          | inl on ↦
              let (next, meets) = and_parts on in
              let le' : current + step ≤ stop = ground arith in
              Outcome-more fuel start stop step current s t s' refl value pos le f₂ good next meets
                (linear_loop-Outcome fuel start stop step (current + step) s' lim pos (omega arith)
                  f₁ (omega arith) (omega arith) (omega arith))
          | inr off ↦ Outcome-end fuel start stop step current s t s' refl value lim le f₂ good off
        ]
        | inr bad ↦ Outcome-error fuel start stop step current s t s' refl value bad
      ]

-- With a step of at least 1 and an end that is set and not reached by overflow, the linear search
-- ends within end + 1 - start measurements, and one at least. It measures start, start + step, ...
-- in turn, each after the one before was free of errors and met the threshold, and goes on until
-- one does not or the next level lies beyond the end. Its status is the error of the last
-- measurement, or the stability error where the only measurement was not stable, or success.
pub linear-Sweep :
    {S : Type 0} (profile : ℕ → S → Trial × S) (fuel start stop step : ℕ) (s : S)
    → ((v : ℕ) (u : S) → (profile v u).0.value ≡ v)
    → stop ≢ no_limit
    → 0 < step
    → stop + step < u64_mod
    → start + step < u64_mod
    → 0 < fuel
    → stop < start + fuel
    → (r : Status × List Trial × S) × (search_levels profile fuel SearchMode.linear start stop step
          s
        ≡ some r)
      × Sweep stop step start r.1
      × (r.0 ≡ verdict true r.1)
unfolding search_levels Outcome
linear-Sweep profile fuel start stop step s faithful lim pos f₁ f₂ some_ enough =
    let (r, run, sweep, status) =
      linear_loop-Outcome profile faithful fuel start stop step start s lim pos (omega arith) f₁ f₂
        some_ enough in
    let first : (start == start) ≡ true = ground arith in (r, run, sweep, rw first at status)
