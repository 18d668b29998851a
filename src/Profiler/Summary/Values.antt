-- ===== src/Profiler/Summary/Values.antt =====
-- The set of percentiles, the latencies at them, and the average of latencies.
use perf_analyzer.Prelude.{
  ℕ, zero, suc, ◌+◌, ◌*◌, ◌/◌, ◌≤◌, ◌<◌, ◌≡◌, ◌≢◌, refl, sym, ap, ◌∙◌, subst, Bool-cases, inl, inr,
  get_or, true, false, List, [], ◌∷◌, some, ltb, ◌==◌, ==_iff, length, get_elem?, sum, All, arith,
  dec_lt, add_u64, u64_mod,
}
use native.Mathlib.Nat.{mod-eq_of_lt, le-div_iff_mul-le, div-le_of_le-mul}
use perf_analyzer.Profiler.Window.Sorted.{Sorted}
use perf_analyzer.Profiler.Summary.{accumulate, emplace, percentile_values, find_percentile}

-- The greatest of the numbers that ascend strictly.
abbrev pub Ascending : List ℕ → Type 0
Ascending [] = Unit
Ascending (x ∷ xs) = All (λ y. x < y) xs × Ascending xs

pub emplace-All : (P : ℕ → Type 0) (p : ℕ) (qs : List ℕ) → P p → All P qs → All P (emplace p qs)
unfolding emplace
emplace-All P p [] h a = (h, tt)
emplace-All P p (q ∷ qs) h (k, a) = elim (dec_lt p q) [
  | yes l ↦ let t : ltb p q ≡ true = ground arith in rw t (h, (k, a))
  | no n ↦
      let t : ltb p q ≡ false = ground arith in
      elim (Bool-cases (p == q)) [
        | inl e ↦ rw (t, e) (k, a)
        | inr e ↦ rw (t, e) (k, emplace-All P p qs h a)
      ]
]

All-less : (x y : ℕ) (ys : List ℕ) → x < y → All (λ z. y < z) ys → All (λ z. x < z) ys
All-less x y [] h a = tt
All-less x y (z ∷ zs) h (k, a) = (omega arith, All-less x y zs h a)

pub emplace-Ascending : (p : ℕ) (qs : List ℕ) → Ascending qs → Ascending (emplace p qs)
unfolding emplace
emplace-Ascending p [] a = (tt, tt)
emplace-Ascending p (q ∷ qs) (k, a) = elim (dec_lt p q) [
  | yes l ↦ let t : ltb p q ≡ true = ground arith in rw t ((l, All-less p q qs l k), (k, a))
  | no n ↦
      let t : ltb p q ≡ false = ground arith in
      elim (Bool-cases (p == q)) [
        | inl e ↦ rw (t, e) (k, a)
        | inr e ↦
            let ne : p ≢ q = λ h. let y = (==_iff p q).1 h in cc in
            rw (t, e) (emplace-All (λ y. q < y) p qs (omega arith) k, emplace-Ascending p qs a)
      ]
]

-- The percentiles with their latencies, where all are in range.
abbrev pub valued : (ℕ → ℕ) → List ℕ → List (ℕ × ℕ)
valued f [] = []
valued f (p ∷ ps) = (p, f p) ∷ valued f ps

pub find_valued :
    (f : ℕ → ℕ) (p : ℕ) (qs : List ℕ) → find_percentile p (valued f (emplace p qs)) ≡ some (f p)
unfolding emplace find_percentile
find_valued f p [] = let t : (p == p) ≡ true = ground arith in rw t
find_valued f p (q ∷ qs) = elim (dec_lt p q) [
  | yes l ↦
      let t : ltb p q ≡ true = ground arith in let u : (p == p) ≡ true = ground arith in rw (t, u)
  | no n ↦
      let t : ltb p q ≡ false = ground arith in
      elim (Bool-cases (p == q)) [
        | inl e ↦ let h = (==_iff p q).0 e in rw (t, e, e) (ap (λ r. some (f r)) (sym h))
        | inr e ↦ rw (t, e, e) (find_valued f p qs)
      ]
]

-- Percentiles and latencies ascend together.
abbrev pub Ascends : List (ℕ × ℕ) → Type 0
Ascends [] = Unit
Ascends (x ∷ xs) = All (λ y. (x.0 < y.0) × (x.1 ≤ y.1)) xs × Ascends xs

valued-All :
    (f : ℕ → ℕ) (p bound : ℕ) (qs : List ℕ)
    → ((q : ℕ) → p < q → q ≤ bound → f p ≤ f q)
    → All (λ q. p < q) qs
    → All (λ q. q ≤ bound) qs
    → All (λ (y : ℕ × ℕ). (p < y.0) × (f p ≤ y.1)) (valued f qs)
valued-All f p bound [] mono a b = tt
valued-All f p bound (q ∷ qs) mono (l, a) (m, b) =
    ((l, mono q l m), valued-All f p bound qs mono a b)

pub valued-Ascends :
    (f : ℕ → ℕ) (bound : ℕ) (ps : List ℕ)
    → ((p q : ℕ) → p < q → q ≤ bound → f p ≤ f q)
    → Ascending ps
    → All (λ p. p ≤ bound) ps
    → Ascends (valued f ps)
valued-Ascends f bound [] mono a b = tt
valued-Ascends f bound (p ∷ ps) mono (l, a) (m, b) =
    (valued-All f p bound ps (λ q. mono p q) l b, valued-Ascends f bound ps mono a b)

pub get_or-Sorted :
    (xs : List ℕ) (i j : ℕ) → Sorted xs → i ≤ j → j < length xs → get_or xs i 0 ≤ get_or xs j 0
get_or-Sorted [] i j s l h = absurd (omega arith)
get_or-Sorted (x ∷ xs) zero zero s l h = omega arith
get_or-Sorted (x ∷ xs) zero (suc j) (a, s) l h = first xs j a (omega arith)
  where
    first : (xs : List ℕ) (j : ℕ) → All (λ y. x ≤ y) xs → j < length xs → x ≤ get_or xs j 0
    first [] j a h = absurd (omega arith)
    first (y ∷ ys) zero (k, a) h = k
    first (y ∷ ys) (suc j) (k, a) h = first ys j a (omega arith)
get_or-Sorted (x ∷ xs) (suc i) zero s l h = absurd (omega arith)
get_or-Sorted (x ∷ xs) (suc i) (suc j) (a, s) l h =
    get_or-Sorted xs i j s (omega arith) (omega arith)

pub get_elem?-get_or : (xs : List ℕ) (i : ℕ) → i < length xs → get_elem? xs i ≡ some (get_or xs i 0)
get_elem?-get_or [] i h = absurd (omega arith)
get_elem?-get_or (x ∷ xs) zero h = refl
get_elem?-get_or (x ∷ xs) (suc i) h = get_elem?-get_or xs i (omega arith)

pub percentile_values_lem :
    (index : ℕ → ℕ → ℕ) (latencies ps : List ℕ) (bound : ℕ)
    → ((p : ℕ) → p ≤ bound → index p (length latencies) < length latencies)
    → All (λ p. p ≤ bound) ps
    → percentile_values index latencies ps
      ≡ some (valued (λ p. get_or latencies (index p (length latencies)) 0) ps)
unfolding percentile_values
percentile_values_lem index latencies [] bound inside a = refl
percentile_values_lem index latencies (p ∷ ps) bound inside (l, a) =
    let e = get_elem?-get_or latencies (index p (length latencies)) (inside p l) in
    rw (e, percentile_values_lem index latencies ps bound inside a)

-- The average lies between bounds of the latencies.
pub quotient_between :
    (lo hi n s : ℕ) → 0 < n → lo * n ≤ s → s ≤ hi * n → (lo ≤ s / n) × (s / n ≤ hi)
quotient_between lo hi n s pos below above =
    let e : hi * n ≡ n * hi = grind arith in
    ((le-div_iff_mul-le pos).1 below, div-le_of_le-mul n (subst (λ k. s ≤ k) e above))

pub sum_between :
    (lo hi : ℕ) (xs : List ℕ)
    → All (λ x. lo ≤ x) xs
    → All (λ x. x ≤ hi) xs
    → (lo * length xs ≤ sum xs) × (sum xs ≤ hi * length xs)
sum_between lo hi [] a b = (omega arith, omega arith)
sum_between lo hi (x ∷ xs) (l, a) (m, b) =
    let (below, above) = sum_between lo hi xs a b in
    let e : lo * suc (length xs) ≡ lo * length xs + lo = grind arith in
    let f : hi * suc (length xs) ≡ hi * length xs + hi = grind arith in
    (omega (arith, below, e), omega (arith, above, f))

pub accumulate_lem :
    (total : ℕ) (xs : List ℕ) → total + sum xs < u64_mod → accumulate total xs ≡ total + sum xs
unfolding accumulate
accumulate_lem total [] h = omega arith
accumulate_lem total (x ∷ xs) h =
    let e : add_u64 total x ≡ total + x = mod-eq_of_lt (omega arith) in
    let l : total + x + sum xs < u64_mod = omega arith in
    let a : total + x + sum xs ≡ total + (x + sum xs) = omega arith in
    ap (λ t. accumulate t xs) e ∙ accumulate_lem (total + x) xs l ∙ a
