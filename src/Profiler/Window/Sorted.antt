-- ===== src/Profiler/Window/Sorted.antt =====
-- The sort of the latencies.
use perf_analyzer.Prelude.{
  sum, ℕ, suc, ◌+◌, ◌≤◌, ◌≡◌, refl, true, false, List, [], ◌∷◌, leb, length, All, dec_lt, arith,
  count,
}
use perf_analyzer.Profiler.Window.{insert, sort}

abbrev pub Sorted : List ℕ → Type 0
Sorted [] = Unit
Sorted (x ∷ xs) = All (λ y. x ≤ y) xs × Sorted xs

pub insert-All : (P : ℕ → Type 0) (x : ℕ) (xs : List ℕ) → P x → All P xs → All P (insert x xs)
unfolding insert
insert-All P x [] p a = (p, tt)
insert-All P x (y ∷ ys) p (q, a) = elim (dec_lt y x) [
  | yes l ↦ let t : leb x y ≡ false = ground arith in rw t (q, insert-All P x ys p a)
  | no l ↦ let t : leb x y ≡ true = ground arith in rw t (p, (q, a))
]

All-weaken : (x y : ℕ) (ys : List ℕ) → x ≤ y → All (λ z. y ≤ z) ys → All (λ z. x ≤ z) ys
All-weaken x y [] h a = tt
All-weaken x y (z ∷ zs) h (b, a) = (omega arith, All-weaken x y zs h a)

insert-Sorted : (x : ℕ) (xs : List ℕ) → Sorted xs → Sorted (insert x xs)
unfolding insert
insert-Sorted x [] s = (tt, tt)
insert-Sorted x (y ∷ ys) (a, s) = elim (dec_lt y x) [
  | yes l ↦
      let t : leb x y ≡ false = ground arith in
      rw t (insert-All (λ z. y ≤ z) x ys (omega arith) a, insert-Sorted x ys s)
  | no l ↦
      let t : leb x y ≡ true = ground arith in
      rw t ((omega arith, All-weaken x y ys (omega arith) a), (a, s))
]

pub sort-Sorted : (xs : List ℕ) → Sorted (sort xs)
unfolding sort
sort-Sorted [] = tt
sort-Sorted (x ∷ xs) = insert-Sorted x (sort xs) (sort-Sorted xs)

count-insert : (n x : ℕ) (xs : List ℕ) → count n (insert x xs) ≡ count n (x ∷ xs)
unfolding insert
count-insert n x [] = refl
count-insert n x (y ∷ ys) = elim (dec_lt y x) [
  | yes l ↦ let t : leb x y ≡ false = ground arith in rw t (omega (arith, count-insert n x ys))
  | no l ↦ let t : leb x y ≡ true = ground arith in rw t
]

pub count-sort : (n : ℕ) (xs : List ℕ) → count n (sort xs) ≡ count n xs
unfolding sort
count-sort n [] = refl
count-sort n (x ∷ xs) = omega (arith, count-insert n x (sort xs), count-sort n xs)

length-insert : (x : ℕ) (xs : List ℕ) → length (insert x xs) ≡ suc (length xs)
unfolding insert
length-insert x [] = refl
length-insert x (y ∷ ys) = elim (dec_lt y x) [
  | yes l ↦ let t : leb x y ≡ false = ground arith in rw t (omega (arith, length-insert x ys))
  | no l ↦ let t : leb x y ≡ true = ground arith in rw t
]

pub length-sort : (xs : List ℕ) → length (sort xs) ≡ length xs
unfolding sort
length-sort [] = refl
length-sort (x ∷ xs) = omega (arith, length-insert x (sort xs), length-sort xs)

pub sort-All : (P : ℕ → Type 0) (xs : List ℕ) → All P xs → All P (sort xs)
unfolding sort
sort-All P [] a = tt
sort-All P (x ∷ xs) (p, a) = insert-All P x (sort xs) p (sort-All P xs a)

sum-insert : (x : ℕ) (xs : List ℕ) → sum (insert x xs) ≡ x + sum xs
unfolding insert
sum-insert x [] = refl
sum-insert x (y ∷ ys) = elim (dec_lt y x) [
  | yes l ↦ let t : leb x y ≡ false = ground arith in rw t (omega (arith, sum-insert x ys))
  | no l ↦ let t : leb x y ≡ true = ground arith in rw t
]

pub sum-sort : (xs : List ℕ) → sum (sort xs) ≡ sum xs
unfolding sort
sum-sort [] = refl
sum-sort (x ∷ xs) = omega (arith, sum-insert x (sort xs), sum-sort xs)
