-- ===== src/Profiler/Trials/Queue.antt =====
-- The queue of the trials' reports, bounded by the stability window, holds the last trials.
use perf_analyzer.Prelude.{
  ℕ, zero, suc, ◌+◌, ◌-◌, ◌≤◌, ◌<◌, ◌≡◌, ◌≢◌, refl, ap, ◌∙◌, Bool, true, false, not, ◌||◌, List, [],
  ◌∷◌, ◌++◌, map, ltb, ◌==◌, if◌then◌else◌, length, drop, arith, dec_lt, length-append, length-drop,
  u64_mod,
}
use perf_analyzer.Status.{Status, is_ok}
use perf_analyzer.Profiler.Trials.{
  Double, LoadStatus, Limits, World, Report, Trials, unhealthy, ended, determine_stability,
  is_done_profiling, push_bounded, push_load, after_trial, run_trials,
}

drop-append {ℓ} :
    {A : Type ℓ} (k : ℕ) (xs ys : List A) → k ≤ length xs → drop k xs ++ ys ≡ drop k (xs ++ ys)
drop-append zero xs ys h = refl
drop-append (suc k) [] ys h = absurd (omega arith)
drop-append (suc k) (x ∷ xs) ys h = drop-append k xs ys (omega arith)

drop-drop {ℓ} : {A : Type ℓ} (k : ℕ) (xs : List A) → drop 1 (drop k xs) ≡ drop (suc k) xs
drop-drop zero xs = refl
drop-drop (suc k) [] = refl
drop-drop (suc k) (x ∷ xs) = drop-drop k xs

drop-nil {ℓ} : {A : Type ℓ} (k : ℕ) → drop {A = A} k [] ≡ []
drop-nil zero = refl
drop-nil (suc k) = refl

pub drop-map {ℓ κ} :
    {A : Type ℓ} {B : Type κ} (f : A → B) (k : ℕ) (xs : List A)
    → drop k (map f xs) ≡ map f (drop k xs)
drop-map f zero xs = refl
drop-map f (suc k) [] = refl
drop-map f (suc k) (x ∷ xs) = drop-map f k xs

map-append {ℓ κ} :
    {A : Type ℓ} {B : Type κ} (f : A → B) (xs ys : List A) → map f (xs ++ ys) ≡ map f xs ++ map f ys
map-append f [] ys = refl
map-append f (x ∷ xs) ys = ap (λ l. f x ∷ l) (map-append f xs ys)

-- The last `window` of a list, or all of it.
abbrev pub last_of {ℓ} : {A : Type ℓ} → ℕ → List A → List A
last_of window h = drop (length h - window) h

push_bounded-last_of {ℓ} :
    {A : Type ℓ} (window : ℕ) (x : A) (h : List A)
    → push_bounded window x (last_of window h) ≡ last_of window (h ++ (x ∷ []))
unfolding push_bounded
push_bounded-last_of window x h =
    let more : length (h ++ (x ∷ [])) ≡ length h + 1 = length-append h (x ∷ []) in
    let k = length h - window in
    let pushed : drop k h ++ (x ∷ []) ≡ drop k (h ++ (x ∷ [])) =
      drop-append k h (x ∷ []) (omega arith) in
    let len : length (drop k (h ++ (x ∷ []))) ≡ length h + 1 - k =
      length-drop k (h ++ (x ∷ [])) ∙ ap (λ n. n - k) more in
    elim (dec_lt (length h) window) [
      | yes short ↦
          let t : ltb window (length h + 1 - k) ≡ false = ground arith in
          let same : k ≡ length (h ++ (x ∷ [])) - window = omega (arith, more) in
          rw (pushed, len, t) (ap (λ n. drop n (h ++ (x ∷ []))) same)
      | no full ↦
          let t : ltb window (length h + 1 - k) ≡ true = ground arith in
          let next : suc k ≡ length (h ++ (x ∷ [])) - window = omega (arith, more) in
          rw (pushed, len, t) (drop-drop k (h ++ (x ∷ [])) ∙ ap (λ n. drop n (h ++ (x ∷ []))) next)
    ]

after_trial-elim {κ} :
    {D S : Type 0} (P : Trials D S → Type κ) (bad counted done : Bool) {a b c d : Trials D S}
    → P a
    → (counted ≡ true → P b)
    → P c
    → P d
    → P (after_trial bad counted done a b c d)
unfolding after_trial
after_trial-elim P true counted done a b c d = a
after_trial-elim P false true done a b c d = b refl
after_trial-elim P false false true a b c d = c
after_trial-elim P false false false a b c d = d

counted_not : (n : ℕ) → not (n == 0) ≡ true → n ≢ 0
counted_not n h e = ground arith

module _ {D : Type 0} (double : Double D) where
  -- The throughput and the latency that the load status keeps of a trial.
  abbrev pub throughput : Report D → D
  throughput r = if is_ok r.status then r.infer_per_sec else double.zero_double

  abbrev pub stabilizing : Report D → ℕ
  stabilizing r = if is_ok r.status then r.stabilizing_latency_ns else u64_mod - 1

  abbrev pub loads : List (Report D) → LoadStatus D
  loads h = record { infer_per_sec = map throughput h; latencies = map stabilizing h }

  push_load-loads :
      (r : Report D) (h : List (Report D)) → push_load double r (loads h) ≡ loads (h ++ (r ∷ []))
  unfolding push_load
  push_load-loads r h = rw (map-append throughput h (r ∷ []), map-append stabilizing h (r ∷ []))

  -- An end of the loop after the trials `h`.
  unfoldable pub Ends : {S : Type 0} → Limits → ℕ → Trials D S → Type 0
  Ends limits request_count (unhealthy e b s) = Unit
  Ends limits request_count (ended stable queue load s) =
      (h : List (Report D)) × (queue ≡ last_of limits.stability_window h)
      × (load ≡ loads h)
      × (0 < length h)
      × (request_count ≡ 0 → stable ≡ determine_stability double limits (loads h) true)

  -- The queue and the load status after one more trial.
  Ends-next :
      {S : Type 0} (limits : Limits) (request_count : ℕ) (r : Report D) (stable : Bool)
      (h : List (Report D)) (s : S)
      → (request_count ≡ 0
          → stable ≡ determine_stability double limits (push_load double r (loads h)) true)
      → Ends limits request_count (
          ended stable
            (push_bounded limits.stability_window r (last_of limits.stability_window h))
            (push_load double r (loads h))
            s)
  unfolding Ends
  Ends-next limits request_count r stable h s e = (
    h ++ (r ∷ []),
    push_bounded-last_of limits.stability_window r h,
    push_load-loads r h,
    omega (arith, length-append h (r ∷ [])),
    λ z. e z ∙ ap (λ l. determine_stability double limits l true) (push_load-loads r h),
  )

  Ends-unhealthy :
      {S : Type 0} (limits : Limits) (request_count : ℕ) (e : Status) (b : Bool) (s : S)
      → Ends limits request_count (unhealthy e b s)
  unfolding Ends
  Ends-unhealthy limits request_count e b s = tt

  again :
      {S : Type 0} (world : World D S) (limits : Limits) (request_count left : ℕ) (stable : Bool)
      (r : Report D) (h : List (Report D)) (s : S)
      → Ends limits request_count (
          run_trials double world limits request_count left stable
            (last_of limits.stability_window (h ++ (r ∷ [])))
            (loads (h ++ (r ∷ [])))
            s)
      → Ends limits request_count (
          run_trials double world limits request_count left stable
            (push_bounded limits.stability_window r (last_of limits.stability_window h))
            (push_load double r (loads h))
            s)
  again world limits request_count left stable r h s e =
      rw (push_bounded-last_of limits.stability_window r h, push_load-loads r h) e

  run_trials-Ends :
      {S : Type 0} (world : World D S) (limits : Limits) (request_count left : ℕ)
      (was_stable : Bool) (h : List (Report D)) (s : S)
      → Ends limits request_count (
          run_trials double world limits request_count left was_stable
            (last_of limits.stability_window h)
            (loads h)
            s)
  unfolding run_trials
  run_trials-Ends world limits request_count zero was_stable h s =
      let (r, s₁) = world.measure s in
      let stable = determine_stability double limits (push_load double r (loads h)) true in
      let (ranks, s₂) = world.ranks_stable stable s₁ in
      after_trial-elim (Ends limits request_count) (not (is_ok (world.check_health s)))
        (not (request_count == 0)) true
        (Ends-unhealthy limits request_count (world.check_health s) was_stable s)
        (λ n.
          Ends-next limits request_count r true h s₁ (λ z. absurd (counted_not request_count n z)))
        (Ends-next limits request_count r stable h s₂ (λ z. refl))
        (Ends-next limits request_count r stable h s₂ (λ z. refl))
  run_trials-Ends world limits request_count (suc left) was_stable h s =
      let (r, s₁) = world.measure s in
      let stable = determine_stability double limits (push_load double r (loads h)) true in
      let (ranks, s₂) = world.ranks_stable stable s₁ in
      after_trial-elim (Ends limits request_count) (not (is_ok (world.check_health s)))
        (not (request_count == 0))
        (is_done_profiling limits (push_load double r (loads h)) ranks || world.early_exit s₂)
        (Ends-unhealthy limits request_count (world.check_health s) was_stable s)
        (λ n.
          Ends-next limits request_count r true h s₁ (λ z. absurd (counted_not request_count n z)))
        (Ends-next limits request_count r _ h _ (λ z. refl))
        (again world limits request_count left stable r h s₂
          (run_trials-Ends world limits request_count left stable (h ++ (r ∷ [])) s₂))

  pub from_start :
      {S : Type 0} (world : World D S) (limits : Limits) (request_count left : ℕ) (s : S)
      → Ends limits request_count
          (run_trials double world limits request_count left false [] (loads []) s)
  from_start world limits request_count left s =
      rw (drop-nil (0 - limits.stability_window)) at
        (run_trials-Ends world limits request_count left false [] s)
