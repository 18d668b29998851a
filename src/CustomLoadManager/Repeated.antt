-- ===== src/CustomLoadManager/Repeated.antt =====
-- The schedule that the intervals of a file give, which can be repeated.
pub mod Files
use perf_analyzer.Prelude.{
  ℕ, zero, suc, ◌+◌, ◌-◌, ◌*◌, ◌%◌, ◌≤◌, ◌<◌, ◌≡◌, ◌≢◌, ◌⊎◌, inl, inr, refl, sym, ap, ◌∙◌, subst,
  Bool, true, false, not, ◌||◌, List, [], ◌∷◌, ◌++◌, map, Option, none, some, ◌==◌, ==_iff, leb,
  if◌then◌else◌, ◌>>=◌, length, get_elem?, get_or, replicate, min, arith, dec_lt, Bool-cases,
  div_mod_unique,
}
use native.Mathlib.Nat.{mod-lt, mod-eq_of_lt}
use mathlib.Core.List.{append_assoc, append-nil}
use perf_analyzer.RateSchedule.{RateSchedule}
use perf_analyzer.RequestRateManager.{thread_ids_from, emplace_interval}
use perf_analyzer.RequestRateManager.Turns.{
  dealt_to, unused, Holds, get_elem?-thread_ids, length-thread_ids, next_index, emplace_lem,
}
use perf_analyzer.CustomRequestScheduleManager.{deal_timestamps}
use perf_analyzer.CustomRequestScheduleManager.Given.{Holds-dealt}
use perf_analyzer.CustomLoadManager.{fill}

-- The first `count` timestamps from `time` on: the intervals, from number `i` on, are walked round
-- and round.
abbrev pub stamps : List ℕ → ℕ → ℕ → ℕ → List ℕ
stamps intervals zero i time = []
stamps intervals (suc count) i time =
    let next = time + get_or intervals (i % length intervals) 0 in
    next ∷ stamps intervals count (suc i) next

-- The first number after `i` at which both lists are at their beginning.
abbrev pub IsNextStart : ℕ → ℕ → ℕ → ℕ → Type 0
IsNextStart n k i count =
    (0 < count)
    × ((i + count) % n ≡ 0)
    × ((i + count) % k ≡ 0)
    × ((j : ℕ) → 0 < j → j < count → (i + j) % n ≡ 0 → (i + j) % k ≡ 0 → count ≤ j)

get_or_lem : (xs : List ℕ) (i : ℕ) → i < length xs → get_elem? xs i ≡ some (get_or xs i 0)
get_or_lem [] i h = absurd (omega arith)
get_or_lem (x ∷ xs) zero h = refl
get_or_lem (x ∷ xs) (suc i) h = get_or_lem xs i (omega arith)

IsNextStart-later :
    (n k i count : ℕ)
    → (suc i % n ≡ 0 → suc i % k ≢ 0)
    → IsNextStart n k (suc i) count
    → IsNextStart n k i (suc count)
IsNextStart-later n k i count not_yet (pos, a, b, least) =
    let e : suc i + count ≡ i + suc count = omega arith in
    (omega arith, ap (λ j. j % n) (sym e) ∙ a, ap (λ j. j % k) (sym e) ∙ b, bound)
  where
    bound : (j : ℕ) → 0 < j → j < suc count → (i + j) % n ≡ 0 → (i + j) % k ≡ 0 → suc count ≤ j
    bound zero p l c d = absurd (omega arith)
    bound (suc zero) p l c d =
        let e : suc i ≡ i + 1 = omega arith in
        absurd (not_yet (ap (λ j. j % n) e ∙ c) (ap (λ j. j % k) e ∙ d))
    bound (suc (suc j)) p l c d =
        let e : suc i + suc j ≡ i + suc (suc j) = omega arith in
        let h =
          least (suc j) (omega arith) (omega arith) (ap (λ j. j % n) e ∙ c)
            (ap (λ j. j % k) e ∙ d) in
        omega (arith, h)

IsNextStart-one : (n k i : ℕ) → suc i % n ≡ 0 → suc i % k ≡ 0 → IsNextStart n k i 1
IsNextStart-one n k i a b =
    let e : i + 1 ≡ suc i = omega arith in
    (omega arith, ap (λ j. j % n) e ∙ a, ap (λ j. j % k) e ∙ b, λ j p l c d. omega arith)

not_zero : (a : ℕ) → (a == 0) ≡ false → a ≢ 0
not_zero a h e = let t = (==_iff a 0).1 e in cc

module _ (threads ids : ℕ) (intervals : List ℕ) (pos : 0 < threads) (some_id : 0 < ids)
    (some_interval : 0 < length intervals) where
  abbrev Fills : ℕ → ℕ → ℕ → List RateSchedule → Type 0
  Fills fuel i time ss =
      (count : ℕ) × IsNextStart ids (length intervals) i count
      × (count ≤ fuel)
      × (fill fuel (thread_ids_from threads 0 ids) intervals (i % ids) (i % length intervals) time
            ss
          ≡ deal_timestamps (thread_ids_from threads 0 ids) (stamps intervals count i time)
              (i % ids) ss)

  abbrev time_after : ℕ → ℕ → ℕ
  time_after i time = time + get_or intervals (i % length intervals) 0

  got_interval :
      (i : ℕ)
      → get_elem? intervals (i % length intervals)
        ≡ some (get_or intervals (i % length intervals) 0)
  got_interval i = get_or_lem intervals (i % length intervals) (mod-lt i some_interval)

  got_id : (i : ℕ) → get_elem? (thread_ids_from threads 0 ids) (i % ids) ≡ some (i % ids % threads)
  got_id i =
      let z : 0 + i % ids ≡ i % ids = omega arith in
      get_elem?-thread_ids threads 0 ids (i % ids) (mod-lt i some_id)
      ∙ ap (λ k. some (k % threads)) z

  Fills-one :
      (fuel i time : ℕ) (ss ss' : List RateSchedule)
      → emplace_interval (i % ids % threads) (time_after i time) ss ≡ some ss'
      → suc i % ids ≡ 0
      → suc i % length intervals ≡ 0
      → Fills (suc fuel) i time ss
  unfolding fill deal_timestamps
  Fills-one fuel i time ss ss' emplaced a b =
      let gap = got_interval i in
      let id = got_id i in
      let len = length-thread_ids threads 0 ids in
      let next = next_index i ids some_id ∙ a in
      let next' = next_index i (length intervals) some_interval ∙ b in
      (
        1,
        IsNextStart-one ids (length intervals) i a b,
        omega arith,
        rw (gap, id, emplaced, len, next, next'),
      )

  Fills-later :
      (fuel i time : ℕ) (ss ss' : List RateSchedule)
      → emplace_interval (i % ids % threads) (time_after i time) ss ≡ some ss'
      → (not (suc i % ids == 0) || not (suc i % length intervals == 0)) ≡ true
      → (suc i % ids ≡ 0 → suc i % length intervals ≢ 0)
      → Fills fuel (suc i) (time_after i time) ss'
      → Fills (suc fuel) i time ss
  unfolding fill deal_timestamps
  Fills-later fuel i time ss ss' emplaced t not_yet (count, next_start, bound, same) =
      let gap = got_interval i in
      let id = got_id i in
      let len = length-thread_ids threads 0 ids in
      let next = next_index i ids some_id in
      let next' = next_index i (length intervals) some_interval in
      (
        suc count,
        IsNextStart-later ids (length intervals) i count not_yet next_start,
        omega (arith, bound),
        rw (gap, id, emplaced, len, next, next', t) same,
      )

  further :
      (i m : ℕ)
      → i < m
      → m % ids ≡ 0
      → m % length intervals ≡ 0
      → (suc i % ids ≡ 0 → suc i % length intervals ≢ 0)
      → suc i < m
  further i m h a b not_yet = elim (dec_lt (suc i) m) [
    | yes l ↦ l
    | no n ↦
        let e : m ≡ suc i = omega arith in
        absurd
          (not_yet (ap (λ j. j % ids) (sym e) ∙ a) (ap (λ j. j % length intervals) (sym e) ∙ b))
  ]

  fill_lem :
      (fuel i time : ℕ) (f : ℕ → List ℕ) (ss : List RateSchedule) (m : ℕ)
      → Holds threads f ss
      → i < m
      → m ≤ i + fuel
      → m % ids ≡ 0
      → m % length intervals ≡ 0
      → Fills fuel i time ss
  fill_lem zero i time f ss m holds after bound a b = absurd (omega arith)
  fill_lem (suc fuel) i time f ss m holds after bound a b =
      let time' = time_after i time in
      let w = i % ids % threads in
      let (ss', emplaced, holds') = emplace_lem threads w time' f ss (mod-lt (i % ids) pos) holds in
      let go_on : (suc i % ids ≡ 0 → suc i % length intervals ≢ 0) → Fills fuel (suc i) time' ss' =
        λ not_yet.
          let next = further i m after a b not_yet in
          fill_lem fuel (suc i) time' (λ t. f t ++ (if t == w then time' ∷ [] else [])) ss' m holds'
            next (omega arith) a b in
      elim (Bool-cases (suc i % ids == 0)) [
        | inr n ↦
            let not_yet : suc i % ids ≡ 0 → suc i % length intervals ≢ 0 =
              λ e. absurd (not_zero (suc i % ids) n e) in
            Fills-later fuel i time ss ss' emplaced
              (ap (λ c. not c || not (suc i % length intervals == 0)) n) not_yet (go_on not_yet)
        | inl y ↦ elim (Bool-cases (suc i % length intervals == 0)) [
          | inr n ↦
              let not_yet : suc i % ids ≡ 0 → suc i % length intervals ≢ 0 =
                λ e. not_zero (suc i % length intervals) n in
              Fills-later fuel i time ss ss' emplaced
                (ap (λ c. not c || not (suc i % length intervals == 0)) y ∙ ap not n) not_yet
                (go_on not_yet)
          | inl z ↦
              Fills-one fuel i time ss ss' emplaced ((==_iff (suc i % ids) 0).0 y)
                ((==_iff (suc i % length intervals) 0).0 z)
        ]
      ]

  -- From the beginning, as many rounds as the product of the lengths are enough.
  pub filled_lem :
      (f : ℕ → List ℕ) (ss : List RateSchedule)
      → Holds threads f ss
      → (count : ℕ) × IsNextStart ids (length intervals) 0 count
        × (count ≤ ids * length intervals)
        × (fill (ids * length intervals) (thread_ids_from threads 0 ids) intervals 0 0 0 ss
            ≡ deal_timestamps (thread_ids_from threads 0 ids) (stamps intervals count 0 0) 0 ss)
  filled_lem f ss holds =
      let k = length intervals in
      let (d, m_ids) = div_mod_unique 0 k ids some_id in
      let (d', m_k) = div_mod_unique 0 ids k some_interval in
      let e : 0 + k * ids ≡ ids * k = grind arith in
      let z : 0 + ids * k ≡ ids * k = omega arith in
      let some_round : 0 < ids * k = grind arith in
      let a : ids * k % ids ≡ 0 = ap (λ j. j % ids) (sym e) ∙ m_ids in
      let b : ids * k % k ≡ 0 = ap (λ j. j % k) (sym z) ∙ m_k in
      let (count, next, bound, same) =
        fill_lem (ids * k) 0 0 f ss (ids * k) holds some_round (omega arith) a b in
      let i_zero : 0 % ids ≡ 0 = mod-eq_of_lt some_id in
      let j_zero : 0 % k ≡ 0 = mod-eq_of_lt some_interval in
      (count, next, bound, rw (i_zero, j_zero) at same)
