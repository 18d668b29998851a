-- ===== src/RateSchedule/Timeline.antt =====
-- The timestamps of a schedule are its intervals, played over and over.
use perf_analyzer.Prelude.{
  ℕ, zero, suc, ◌+◌, ◌*◌, ◌/◌, ◌%◌, ◌≤◌, ◌<◌, ◌≡◌, refl, inl, inr, List, Option, some, length,
  get_elem?, get_elem?-lt, ap, ◌∙◌, div_mod_unique, leb, ◌>>=◌, arith, Bool-cases,
}
use native.Mathlib.Nat.{le-div_iff_mul-le, div-mul-le_self, mod-add-div, le_trans}
use perf_analyzer.Prelude.{dec_lt}
use perf_analyzer.RateSchedule.{RateSchedule, next}

-- The schedule has been asked n times.
pub record IsAt (s : RateSchedule) (n : ℕ) : Type 0 where
  pub asked : s.index + s.rounds * length s.intervals ≡ n
  pub inside : s.index < length s.intervals

-- The n-th timestamp, counted from 0.
abbrev pub timestamp : RateSchedule → ℕ → Option ℕ
timestamp s n = do
  interval ← get_elem? s.intervals (n % length s.intervals)
  some (interval + s.duration * (n / length s.intervals))

abbrev pub next_many : ℕ → RateSchedule → Option (ℕ × RateSchedule)
next_many zero s = next s
next_many (suc n) s = do (_, s') ← next s; next_many n s'

next-IsAt :
    (s : RateSchedule) (n : ℕ)
    → IsAt s n
    → (t : ℕ) × (s' : RateSchedule) × (next s ≡ some (t, s'))
      × IsAt s' (suc n)
      × (s'.intervals ≡ s.intervals)
      × (s'.duration ≡ s.duration)
unfolding next
next-IsAt s n at =
    let (interval, e) = get_elem?-lt s.intervals s.index at.inside in
    let t : ℕ = interval + s.duration * s.rounds in
    elim (Bool-cases (leb (length s.intervals) (s.index + 1))) [
      | inl wrap ↦ (
        t,
        record s { rounds = s.rounds + 1; index = 0 },
        ground arith,
        record { asked = grind arith; inside = ground arith },
        refl,
        refl,
      )
      | inr more ↦ (
        t,
        record s { index = s.index + 1 },
        ground arith,
        record { asked = ground arith; inside = ground arith },
        refl,
        refl,
      )
    ]

timestamp_lem : (s : RateSchedule) (n : ℕ) → IsAt s n → (next s >>= λ r. some r.0) ≡ timestamp s n
unfolding next
timestamp_lem s n at =
    let unique = div_mod_unique s.index s.rounds (length s.intervals) at.inside in
    let q : n / length s.intervals ≡ s.rounds = rw (← at.asked) (unique.0) in
    let r : n % length s.intervals ≡ s.index = rw (← at.asked) (unique.1) in
    rw (q, r) (ground arith)

next_many_from :
    (n k : ℕ) (s : RateSchedule)
    → IsAt s k
    → (next_many n s >>= λ r. some r.0) ≡ timestamp s (k + n)
next_many_from zero k s at = timestamp_lem s k at ∙ ap (timestamp s) (omega arith)
next_many_from (suc n) k s at =
    let (t, s', e, at', intervals, duration) = next-IsAt s k at in
    let same : timestamp s' (suc k + n) ≡ timestamp s (suc k + n) = rw (intervals, duration) in
    rw e (next_many_from n (suc k) s' at' ∙ same ∙ ap (timestamp s) (omega arith))

-- A fresh schedule with at least one interval never runs out: asked for the n-th time (from 0), it
-- returns its interval number n modulo the number of intervals, moved by one duration for each
-- full round before.
pub next_many_lem :
    (n : ℕ) (s : RateSchedule)
    → 0 < length s.intervals
    → s.index ≡ 0
    → s.rounds ≡ 0
    → (next_many n s >>= λ r. some r.0) ≡ timestamp s n
next_many_lem n s pos i r =
    next_many_from n 0 s (record { asked = rw (i, r) (omega arith); inside = omega arith })
    ∙ ap (timestamp s) (omega arith)

abbrev pub IsSorted : List ℕ → Type 0
IsSorted xs = (i j a b : ℕ) → i ≤ j → get_elem? xs i ≡ some a → get_elem? xs j ≡ some b → a ≤ b

abbrev pub IsBounded : ℕ → List ℕ → Type 0
IsBounded top xs = (i a : ℕ) → get_elem? xs i ≡ some a → a ≤ top

timestamp-eq_some :
    (s : RateSchedule) (n : ℕ) {t : ℕ}
    → timestamp s n ≡ some t
    → (a : ℕ) × (get_elem? s.intervals (n % length s.intervals) ≡ some a)
      × (a + s.duration * (n / length s.intervals) ≡ t)
timestamp-eq_some s n h = ground arith

-- Where the intervals are in order and none exceeds the duration, the timestamps never go back.
pub timestamp_mono :
    (s : RateSchedule) (n m : ℕ) {t u : ℕ}
    → IsSorted s.intervals
    → IsBounded s.duration s.intervals
    → 0 < length s.intervals
    → n ≤ m
    → timestamp s n ≡ some t
    → timestamp s m ≡ some u
    → t ≤ u
timestamp_mono s n m sorted bounded pos h et eu =
    let (a, ga, ea) = timestamp-eq_some s n et in
    let (b, gb, eb) = timestamp-eq_some s m eu in
    let k = length s.intervals in
    let le : n / k ≤ m / k = (le-div_iff_mul-le pos).1 (le_trans (div-mul-le_self n k) h) in
    elim (dec_lt (n / k) (m / k)) [
      | yes lt ↦ grind (arith, bounded (n % k) a ga)
      | no same ↦
          let quotients : n / k ≡ m / k = omega arith in
          let remainders : n % k ≤ m % k = grind (arith, mod-add-div n k, mod-add-div m k) in
          let ordered : a ≤ b = sorted (n % k) (m % k) a b remainders ga gb in grind arith
    ]
