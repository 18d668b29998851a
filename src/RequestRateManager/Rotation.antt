-- ===== src/RequestRateManager/Rotation.antt =====
-- A list of timestamps that is dealt to the workers in the order of the thread ids.
use perf_analyzer.Prelude.{
  ℕ, zero, suc, ◌+◌, ◌%◌, ◌≤◌, ◌<◌, ◌≡◌, refl, sym, ap, ◌∙◌, subst, List, [], ◌∷◌, map, some, ◌==◌,
  ==_iff, if◌then◌else◌, length, get_elem?, length-map, length-append, max, arith,
}
use mathlib.Core.Option.{some-injective}
use perf_analyzer.RateSchedule.{RateSchedule}
use perf_analyzer.RequestRateManager.{back, longest, with_duration, set_schedule_durations}
use perf_analyzer.RequestRateManager.Turns.{dealt_to, unused, Holds}

-- The schedules with their duration.
abbrev pub lasting : ℕ → List ℕ → RateSchedule
lasting duration intervals = record {
  intervals = intervals;
  duration = duration;
  rounds = 0;
  index = 0;
}

back-some : {A : Type 0} (xs : List A) → 0 < length xs → (x : A) × (back xs ≡ some x)
unfolding back
back-some [] h = absurd (omega arith)
back-some (x ∷ []) h = (x, refl)
back-some (x ∷ y ∷ ys) h = back-some (y ∷ ys) (omega arith)

abbrev EndsBy : ℕ → RateSchedule → Type 0
EndsBy d s = (e : ℕ) → back s.intervals ≡ some e → e ≤ d

longest_lem :
    (d₀ : ℕ) (ss : List RateSchedule)
    → ((t : ℕ)
        → t < length ss
        → (s : RateSchedule) × (get_elem? ss t ≡ some s) × (0 < length s.intervals))
    → (d : ℕ) × (longest d₀ ss ≡ some d)
      × (d₀ ≤ d)
      × ((t : ℕ) (s : RateSchedule) → get_elem? ss t ≡ some s → EndsBy d s)
unfolding longest
longest_lem d₀ [] h = (d₀, refl, omega arith, λ t s e. cc)
longest_lem d₀ (s ∷ ss) h =
    let (s', same, filled) = h 0 (omega arith) in
    let own : s' ≡ s = cc in
    let (e, last) = back-some s.intervals (subst (λ s. 0 < length s.intervals) own filled) in
    let (d, found, more, below) = longest_lem (max e d₀) ss (λ t l. h (suc t) (omega arith)) in
    (d, rw last found, omega (arith, more), ends s ss e d last (omega (arith, more)) below)
  where
    ends :
        (s : RateSchedule) (ss : List RateSchedule) (e d : ℕ)
        → back s.intervals ≡ some e
        → e ≤ d
        → ((t : ℕ) (s : RateSchedule) → get_elem? ss t ≡ some s → EndsBy d s)
        → (t : ℕ) (s' : RateSchedule) → get_elem? (s ∷ ss) t ≡ some s'
        → EndsBy d s'
    ends s ss e d last l below zero s' at =
        λ e' last'. let same : s ≡ s' = cc in let eq : e ≡ e' = cc in omega (arith, l, eq)
    ends s ss e d last l below (suc t) s' at = below t s' at

get_elem?-map :
    (f : RateSchedule → RateSchedule) (ss : List RateSchedule) (t : ℕ) {s : RateSchedule}
    → get_elem? ss t ≡ some s
    → get_elem? (map f ss) t ≡ some (f s)
get_elem?-map f [] t h = cc
get_elem?-map f (s' ∷ ss) zero h = let e = some-injective _ _ h in ap (λ s. some (f s)) e
get_elem?-map f (s' ∷ ss) (suc t) h = get_elem?-map f ss t h

back_last :
    (s : RateSchedule) (ss : List RateSchedule)
    → (r : RateSchedule) × (back (s ∷ ss) ≡ some r) × (get_elem? (s ∷ ss) (length ss) ≡ some r)
unfolding back
back_last s [] = (s, refl, refl)
back_last s (r ∷ rs) = back_last r rs

-- The workers have these timestamps, and a schedule as long as the latest of their last ones.
abbrev pub Lasts : ℕ → (ℕ → List ℕ) → List RateSchedule → Type 0
Lasts threads f ss =
    (length ss ≡ threads)
    × (d : ℕ) × ((t : ℕ)
        → t < threads
        → (get_elem? ss t ≡ some (lasting d (f t))) × EndsBy d (lasting d (f t)))

pub durations_lem :
    (threads : ℕ) (f : ℕ → List ℕ) (ss : List RateSchedule)
    → 0 < threads
    → ((t : ℕ) → t < threads → 0 < length (f t))
    → Holds threads f ss
    → (ss' : List RateSchedule) × (set_schedule_durations ss ≡ some ss') × Lasts threads f ss'
unfolding set_schedule_durations
durations_lem threads f [] pos filled (len, at) = absurd (omega (arith, len))
durations_lem threads f (s ∷ ss) pos filled (len, at) =
    let (r, back_is, r_at) = back_last s ss in
    let h : length ss < threads = omega (arith, len) in
    let same : unused (f (length ss)) ≡ r = some-injective _ _ (sym (at (length ss) h) ∙ r_at) in
    let (z, last) =
      back-some r.intervals
        (subst (λ (s : RateSchedule). 0 < length s.intervals) same (filled (length ss) h)) in
    let (d, found, more, below) =
      longest_lem z (s ∷ ss)
        (λ t l. let h : t < threads = omega (arith, len) in (unused (f t), at t h, filled t h)) in
    (
      map (with_duration d) (s ∷ ss),
      rw (back_is, last, found),
      (
        length-map (s ∷ ss) (with_duration d) ∙ len,
        d,
        λ t h.
            (get_elem?-map (with_duration d) (s ∷ ss) t (at t h), below t (unused (f t)) (at t h)),
      ),
    )

-- As long as there are not fewer ids than workers, nor fewer timestamps, every worker has some.
pub dealt_to-some :
    (t threads ids i : ℕ) (xs : List ℕ) (k : ℕ)
    → k < length xs
    → (i + k) % ids % threads ≡ t
    → 0 < length (dealt_to t threads ids i xs)
dealt_to-some t threads ids i [] k h e = absurd (omega arith)
dealt_to-some t threads ids i (x ∷ xs) zero h e =
    let z : i + 0 ≡ i = omega arith in
    let y = (==_iff t (i % ids % threads)).1 (sym e ∙ ap (λ j. j % ids % threads) z) in
    rw y (omega arith)
dealt_to-some t threads ids i (x ∷ xs) (suc k) h e =
    let s : suc i + k ≡ i + suc k = omega arith in
    let rest =
      dealt_to-some t threads ids (suc i) xs k (omega arith) (ap (λ j. j % ids % threads) s ∙ e) in
    let a =
      length-append (if t == i % ids % threads then x ∷ [] else [])
        (dealt_to t threads ids (suc i) xs) in
    omega (arith, rest, a)
