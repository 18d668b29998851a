-- ===== src/RequestRateManager/Arrivals.antt =====
-- The loop that deals the times of the drawn intervals.
use perf_analyzer.Prelude.{
  ℕ, zero, suc, ◌+◌, ◌%◌, ◌≤◌, ◌<◌, ◌≡◌, inl, inr, sym, ap, ◌∙◌, Bool, true, false, not, ◌||◌, List,
  [], ◌∷◌, ◌++◌, some, ltb, ◌==◌, if◌then◌else◌, length, get_elem?, take, sum, arith, Bool-cases,
}
use native.Mathlib.Nat.{mod-lt, mod-eq_of_lt}
use mathlib.Core.List.{append_assoc, append-nil}
use perf_analyzer.RateSchedule.{RateSchedule}
use perf_analyzer.RequestRateManager.{thread_ids_from, emplace_interval, deal}
use perf_analyzer.RequestRateManager.Turns.{
  dealt_to, unused, Holds, get_elem?-thread_ids, length-thread_ids, next_index, emplace_lem,
}

-- The times of the requests: each interval after the one before it.
abbrev pub arrivals : List ℕ → ℕ → List ℕ
arrivals [] time = []
arrivals (gap ∷ gaps) time = (time + gap) ∷ arrivals gaps (time + gap)

-- After `count` of the intervals, from id number `i` and from `time` on, the ids are at their
-- beginning and the duration is reached; before that they were not both.
abbrev pub IsFirstEnd : ℕ → ℕ → List ℕ → ℕ → ℕ → ℕ → Type 0
IsFirstEnd ids duration gaps i time count =
    (count ≤ length gaps)
    × ((i + count) % ids ≡ 0)
    × (duration ≤ time + sum (take count gaps))
    × ((j : ℕ) → j < count → (i + j) % ids ≡ 0 → time + sum (take j gaps) < duration)

IsFirstEnd-now :
    (ids duration : ℕ) (gaps : List ℕ) (i time : ℕ)
    → i % ids ≡ 0
    → duration ≤ time
    → IsFirstEnd ids duration gaps i time 0
IsFirstEnd-now ids duration gaps i time a l =
    let z : i + 0 ≡ i = omega arith in
    (omega arith, ap (λ k. k % ids) z ∙ a, omega arith, λ j h. absurd (omega arith))

IsFirstEnd-later :
    (ids duration gap : ℕ) (gaps : List ℕ) (i time count : ℕ)
    → (i % ids ≡ 0 → time < duration)
    → IsFirstEnd ids duration gaps (suc i) (time + gap) count
    → IsFirstEnd ids duration (gap ∷ gaps) i time (suc count)
IsFirstEnd-later ids duration gap gaps i time count not_yet (bound, a, l, before) =
    let e : suc i + count ≡ i + suc count = omega arith in
    (omega (arith, bound), ap (λ k. k % ids) (sym e) ∙ a, omega (arith, l), earlier)
  where
    earlier :
        (j : ℕ) → j < suc count → (i + j) % ids ≡ 0 → time + sum (take j (gap ∷ gaps)) < duration
    earlier zero h b =
        let z : i ≡ i + 0 = omega arith in
        let l = not_yet (ap (λ k. k % ids) z ∙ b) in omega (arith, l)
    earlier (suc j) h b =
        let e : suc i + j ≡ i + suc j = omega arith in
        let l = before j (omega arith) (ap (λ k. k % ids) e ∙ b) in omega (arith, l)

module _ (threads ids duration : ℕ) (pos : 0 < threads) (some_id : 0 < ids) where
  abbrev Deals : List ℕ → ℕ → ℕ → (ℕ → List ℕ) → List RateSchedule → Type 0
  Deals gaps i time f ss =
      (count : ℕ) × (ss' : List RateSchedule) × (deal (thread_ids_from threads 0 ids) duration gaps
          time (i % ids) ss
        ≡ some ss')
      × IsFirstEnd ids duration gaps i time count
      × Holds threads (λ t. f t ++ dealt_to t threads ids i (arrivals (take count gaps) time)) ss'

  abbrev goes_on : ℕ → ℕ → Bool
  goes_on i time = ltb time duration || not (i % ids % length (thread_ids_from threads 0 ids) == 0)

  own_index : (i : ℕ) → i % ids % length (thread_ids_from threads 0 ids) ≡ i % ids
  own_index i =
      ap (λ n. i % ids % n) (length-thread_ids threads 0 ids) ∙ mod-eq_of_lt (mod-lt i some_id)

  ended_now :
      (gaps : List ℕ) (i time : ℕ) (f : ℕ → List ℕ) (ss : List RateSchedule)
      → goes_on i time ≡ false
      → Holds threads f ss
      → deal (thread_ids_from threads 0 ids) duration gaps time (i % ids) ss ≡ some ss
      → Deals gaps i time f ss
  ended_now gaps i time f ss over (len, at) same =
      let index = own_index i in
      let l : duration ≤ time = ground arith in
      let a : i % ids ≡ 0 = ground arith in
      (
        0,
        ss,
        same,
        IsFirstEnd-now ids duration gaps i time a l,
        (len, λ t h. at t h ∙ ap (λ l. some (unused l)) (sym (append-nil (f t)))),
      )

  at_end : (i time : ℕ) → (i + 0) % ids ≡ 0 → duration ≤ time + 0 → goes_on i time ≡ false
  at_end i time a l =
      let index = own_index i in
      let z : i + 0 ≡ i = omega arith in
      let b : i % ids ≡ 0 = ap (λ k. k % ids) (sym z) ∙ a in ground (arith, index, b)

  stopped_early : (i time : ℕ) → goes_on i time ≡ true → i % ids ≡ 0 → time < duration
  stopped_early i time t a = let index = own_index i in ground (arith, index)

  dealt_later :
      (gap : ℕ) (gaps : List ℕ) (i time : ℕ) (f : ℕ → List ℕ) (ss ss' : List RateSchedule)
      → goes_on i time ≡ true
      → emplace_interval (i % ids % threads) (time + gap) ss ≡ some ss'
      → Deals gaps
          (suc i)
          (time + gap)
          (λ t. f t ++ (if t == i % ids % threads then (time + gap) ∷ [] else []))
          ss'
      → Deals (gap ∷ gaps) i time f ss
  unfolding deal
  dealt_later gap gaps i time f ss ss' t emplaced (count, ss'', same, first_end, (len, at)) =
      let z : 0 + i % ids ≡ i % ids = omega arith in
      let id : get_elem? (thread_ids_from threads 0 ids) (i % ids) ≡ some (i % ids % threads) =
        get_elem?-thread_ids threads 0 ids (i % ids) (mod-lt i some_id)
        ∙ ap (λ k. some (k % threads)) z in
      let next : suc (i % ids) % length (thread_ids_from threads 0 ids) ≡ suc i % ids =
        ap (λ n. suc (i % ids) % n) (length-thread_ids threads 0 ids) ∙ next_index i ids some_id in
      (
        suc count,
        ss'',
        rw (t, id, emplaced, next) same,
        IsFirstEnd-later ids duration gap gaps i time count (stopped_early i time t) first_end,
        (
          len,
          λ u h.
              at u h
              ∙ ap (λ l. some (unused l))
                  (append_assoc (f u) (if u == i % ids % threads then (time + gap) ∷ [] else [])
                    (dealt_to u threads ids (suc i) (arrivals (take count gaps) (time + gap)))),
        ),
      )

  pub deal_lem :
      (gaps : List ℕ) (i time : ℕ) (f : ℕ → List ℕ) (ss : List RateSchedule) (m : ℕ)
      → Holds threads f ss
      → m ≤ length gaps
      → (i + m) % ids ≡ 0
      → duration ≤ time + sum (take m gaps)
      → Deals gaps i time f ss
  unfolding deal
  deal_lem [] i time f ss zero holds bound a l =
      let o = at_end i time a l in ended_now [] i time f ss o holds (rw o)
  deal_lem [] i time f ss (suc m) holds bound a l = absurd (omega arith)
  deal_lem (gap ∷ gaps) i time f ss zero holds bound a l =
      let o = at_end i time a l in ended_now (gap ∷ gaps) i time f ss o holds (rw o)
  deal_lem (gap ∷ gaps) i time f ss (suc m) holds bound a l = elim (Bool-cases (goes_on i time)) [
    | inr o ↦ ended_now (gap ∷ gaps) i time f ss o holds (rw o)
    | inl t ↦
        let w = i % ids % threads in
        let (ss', emplaced, holds') =
          emplace_lem threads w (time + gap) f ss (mod-lt (i % ids) pos) holds in
        let e : suc i + m ≡ i + suc m = omega arith in
        dealt_later gap gaps i time f ss ss' t emplaced (
          deal_lem gaps (suc i) (time + gap)
            (λ t. f t ++ (if t == w then (time + gap) ∷ [] else [])) ss' m holds' (omega arith)
            (ap (λ k. k % ids) e ∙ a) (omega arith))
  ]
