-- ===== src/LoadSplit/Totals.antt =====
-- The parts add up, differ by one at most, and divide the slots among the threads.
use perf_analyzer.Prelude.{
  ℕ, zero, suc, ◌+◌, ◌*◌, ◌/◌, ◌%◌, ◌≤◌, ◌<◌, ◌≡◌, refl, ap, List, [], ◌∷◌, some, length, get_elem?,
  sum, min, arith, dec_lt, ◌==◌, leb,
}
use native.Mathlib.Nat.{mod-add-div, mod-lt, mod-eq_of_lt, div-eq_of_lt, le-div_iff_mul-le}
use perf_analyzer.LoadSplit.{share, shares, offsets}

-- The sum of the parts of threads i to i + count - 1.
sum-shares_from :
    (total threads count i : ℕ)
    → sum (shares total threads i count) + min i (total % threads)
      ≡ count * (total / threads) + min (i + count) (total % threads)
unfolding shares share
sum-shares_from total threads zero i = omega arith
sum-shares_from total threads (suc count) i =
    ground (arith, sum-shares_from total threads count (suc i))

pub length-shares : (total threads i count : ℕ) → length (shares total threads i count) ≡ count
unfolding shares
length-shares total threads i zero = refl
length-shares total threads i (suc count) = ap suc (length-shares total threads (suc i) count)

-- The parts of all threads add up to the total: nothing is lost or added.
pub sum-shares : (total threads : ℕ) → 0 < threads → sum (shares total threads 0 threads) ≡ total
sum-shares total threads pos =
    omega
      (arith, sum-shares_from total threads threads 0, mod-add-div total threads, mod-lt total pos)

-- No two threads differ by more than one, and earlier threads have no less.
pub share_balanced :
    (total threads i j : ℕ)
    → i ≤ j
    → (share total threads j ≤ share total threads i)
      × (share total threads i ≤ share total threads j + 1)
unfolding share
share_balanced total threads i j h = ground arith

-- Slot `slot` belongs to part number k.
pub record Owns (parts : List ℕ) (from slot k : ℕ) : Type 0 where
  pub first : ℕ
  pub size : ℕ
  pub begins : get_elem? (offsets from parts) k ≡ some first
  pub sized : get_elem? parts k ≡ some size
  pub above : first ≤ slot
  pub below : slot < first + size

-- Every slot from the first offset on, up to the sum of the parts, has an owner.
pub slot_owned :
    (parts : List ℕ) (from slot : ℕ)
    → from ≤ slot
    → slot < from + sum parts
    → (k : ℕ) × Owns parts from slot k
unfolding offsets
slot_owned [] from slot h h' = absurd (omega arith)
slot_owned (part ∷ parts) from slot h h' = elim (dec_lt slot (from + part)) [
  | yes here ↦ (
    0,
    record { first = from; size = part; begins = refl; sized = refl; above = h; below = here },
  )
  | no later ↦
      let (k, o) = slot_owned parts (from + part) slot (omega arith) (omega arith) in
      (
        suc k,
        record {
          first = o.first;
          size = o.size;
          begins = o.begins;
          sized = o.sized;
          above = o.above;
          below = o.below;
        },
      )
]

offsets_above :
    (parts : List ℕ) (from k : ℕ) {first : ℕ}
    → get_elem? (offsets from parts) k ≡ some first
    → from ≤ first
unfolding offsets
offsets_above [] from k h = cc
offsets_above (part ∷ parts) from zero h = ground arith
offsets_above (part ∷ parts) from (suc k) h = omega (arith, offsets_above parts (from + part) k h)

Owns-tail :
    (part : ℕ) (parts : List ℕ) (from slot k : ℕ)
    → Owns (part ∷ parts) from slot (suc k)
    → Owns parts (from + part) slot k
unfolding offsets
Owns-tail part parts from slot k o = record {
  first = o.first;
  size = o.size;
  begins = o.begins;
  sized = o.sized;
  above = o.above;
  below = o.below;
}

-- A slot of the first part is in no later one.
first_only :
    (part : ℕ) (parts : List ℕ) (from slot k : ℕ)
    → Owns (part ∷ parts) from slot 0
    → Owns (part ∷ parts) from slot (suc k)
    → ⊥
unfolding offsets
first_only part parts from slot k o o' =
    ground
      (arith, o.begins, o.sized, o.below, o'.above, offsets_above parts (from + part) k o'.begins)

-- And no slot has two.
pub owner_unique :
    (parts : List ℕ) (from slot k l : ℕ) → Owns parts from slot k → Owns parts from slot l → k ≡ l
owner_unique [] from slot k l o o' = cc (o.sized)
owner_unique (part ∷ parts) from slot zero zero o o' = refl
owner_unique (part ∷ parts) from slot zero (suc l) o o' =
    absurd (first_only part parts from slot l o o')
owner_unique (part ∷ parts) from slot (suc k) zero o o' =
    absurd (first_only part parts from slot k o' o)
owner_unique (part ∷ parts) from slot (suc k) (suc l) o o' = ap suc (
    owner_unique parts (from + part) slot k l (Owns-tail part parts from slot k o)
      (Owns-tail part parts from slot l o'))

-- A thread gets nothing exactly when there is not enough for those before it and itself.
pub share-zero : (total threads i : ℕ) → i < threads → (share total threads i == 0) ≡ leb total i
unfolding share
share-zero total threads i h = elim (dec_lt total threads) [
  | yes few ↦ rw (div-eq_of_lt few, mod-eq_of_lt few) (ground arith)
  | no many ↦
      let one : 1 ≤ total / threads =
        (le-div_iff_mul-le {k = threads} {x = 1} (omega arith)).1 (omega arith) in
      ground arith
]
