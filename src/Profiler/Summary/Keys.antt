-- ===== src/Profiler/Summary/Keys.antt =====
-- The percentiles that a summary lists.
use perf_analyzer.Prelude.{
  ℕ, ◌≡◌, sym, ap, ◌⊎◌, inl, inr, Bool-cases, ==_iff, List, [], ◌∷◌, Option, none, some, ltb, ◌==◌,
  arith,
}
use perf_analyzer.Profiler.Summary.{default_percentiles, emplace, percentiles_for}
use perf_analyzer.Profiler.Summary.Values.{valued}

-- The percentiles to report: four fixed ones, and the user's.
abbrev pub Wanted : Option ℕ → ℕ → Type 0
Wanted percentile p = (p ≡ 50) ⊎ (p ≡ 90) ⊎ (p ≡ 95) ⊎ (p ≡ 99) ⊎ (percentile ≡ some p)

abbrev pub HasKey : ℕ → List (ℕ × ℕ) → Type 0
HasKey p [] = ⊥
HasKey p (y ∷ ys) = (y.0 ≡ p) ⊎ HasKey p ys

abbrev In : ℕ → List ℕ → Type 0
In p [] = ⊥
In p (q ∷ qs) = (q ≡ p) ⊎ In p qs

HasKey-valued : (f : ℕ → ℕ) (p : ℕ) (qs : List ℕ) → In p qs → HasKey p (valued f qs)
HasKey-valued f p [] h = h
HasKey-valued f p (q ∷ qs) (inl e) = inl e
HasKey-valued f p (q ∷ qs) (inr h) = inr (HasKey-valued f p qs h)

valued-In : (f : ℕ → ℕ) (p : ℕ) (qs : List ℕ) → HasKey p (valued f qs) → In p qs
valued-In f p [] h = h
valued-In f p (q ∷ qs) (inl e) = inl e
valued-In f p (q ∷ qs) (inr h) = inr (valued-In f p qs h)

In-later :
    (p q x : ℕ) (xs : List ℕ)
    → ((p ≡ q) ⊎ In p xs → In p (emplace q xs))
    → (p ≡ q) ⊎ In p (x ∷ xs)
    → In p (x ∷ emplace q xs)
In-later p q x xs rest (inl f) = inr (rest (inl f))
In-later p q x xs rest (inr (inl f)) = inl f
In-later p q x xs rest (inr (inr k)) = inr (rest (inr k))

emplace-In : (p q : ℕ) (qs : List ℕ) → (p ≡ q) ⊎ In p qs → In p (emplace q qs)
unfolding emplace
emplace-In p q [] (inl e) = inl (sym e)
emplace-In p q [] (inr h) = absurd h
emplace-In p q (x ∷ xs) h = elim (Bool-cases (ltb q x)) [
  | inl l ↦ rw l (elim h [ inl e ↦ inl (sym e) | inr k ↦ inr k ])
  | inr l ↦ elim (Bool-cases (q == x)) [
    | inl e ↦ rw (l, e) (elim h [ inl f ↦ inl (omega (arith, (==_iff q x).0 e)) | inr k ↦ k ])
    | inr e ↦ rw (l, e) (In-later p q x xs (emplace-In p q xs) h)
  ]
]

In-first : (p q : ℕ) (xs : List ℕ) → In p (q ∷ xs) → (p ≡ q) ⊎ In p xs
In-first p q xs (inl e) = inl (sym e)
In-first p q xs (inr k) = inr k

later-In :
    (p q x : ℕ) (xs : List ℕ)
    → (In p (emplace q xs) → (p ≡ q) ⊎ In p xs)
    → In p (x ∷ emplace q xs)
    → (p ≡ q) ⊎ In p (x ∷ xs)
later-In p q x xs rest (inl e) = inr (inl e)
later-In p q x xs rest (inr k) = elim (rest k) [ inl e ↦ inl e | inr m ↦ inr (inr m) ]

In-emplace : (p q : ℕ) (qs : List ℕ) → In p (emplace q qs) → (p ≡ q) ⊎ In p qs
unfolding emplace
In-emplace p q [] (inl e) = inl (sym e)
In-emplace p q [] (inr h) = absurd h
In-emplace p q (x ∷ xs) h = elim (Bool-cases (ltb q x)) [
  | inl l ↦ In-first p q (x ∷ xs) (rw l at h)
  | inr l ↦ elim (Bool-cases (q == x)) [
    | inl e ↦ inr (rw (l, e) at h)
    | inr e ↦ later-In p q x xs (In-emplace p q xs) (rw (l, e) at h)
  ]
]

default-In : (p : ℕ) → (p ≡ 50) ⊎ (p ≡ 90) ⊎ (p ≡ 95) ⊎ (p ≡ 99) → In p default_percentiles
default-In p (inl e) = inl (sym e)
default-In p (inr (inl e)) = inr (inl (sym e))
default-In p (inr (inr (inl e))) = inr (inr (inl (sym e)))
default-In p (inr (inr (inr e))) = inr (inr (inr (inl (sym e))))

In-default : (p : ℕ) (percentile : Option ℕ) → In p default_percentiles → Wanted percentile p
In-default p percentile (inl e) = inl (sym e)
In-default p percentile (inr (inl e)) = inr (inl (sym e))
In-default p percentile (inr (inr (inl e))) = inr (inr (inl (sym e)))
In-default p percentile (inr (inr (inr (inl e)))) = inr (inr (inr (inl (sym e))))
In-default p percentile (inr (inr (inr (inr h)))) = absurd h

Wanted-In :
    (percentile : Option ℕ) (p : ℕ) → Wanted percentile p → In p (percentiles_for percentile)
unfolding percentiles_for
Wanted-In none p (inl e) = default-In p (inl e)
Wanted-In none p (inr (inl e)) = default-In p (inr (inl e))
Wanted-In none p (inr (inr (inl e))) = default-In p (inr (inr (inl e)))
Wanted-In none p (inr (inr (inr (inl e)))) = default-In p (inr (inr (inr e)))
Wanted-In none p (inr (inr (inr (inr e)))) = absurd (ground arith)
Wanted-In (some q) p (inl e) = emplace-In p q default_percentiles (inr (default-In p (inl e)))
Wanted-In (some q) p (inr (inl e)) =
    emplace-In p q default_percentiles (inr (default-In p (inr (inl e))))
Wanted-In (some q) p (inr (inr (inl e))) =
    emplace-In p q default_percentiles (inr (default-In p (inr (inr (inl e)))))
Wanted-In (some q) p (inr (inr (inr (inl e)))) =
    emplace-In p q default_percentiles (inr (default-In p (inr (inr (inr e)))))
Wanted-In (some q) p (inr (inr (inr (inr e)))) =
    let f : q ≡ p = cc in emplace-In p q default_percentiles (inl (sym f))

In-Wanted :
    (percentile : Option ℕ) (p : ℕ) → In p (percentiles_for percentile) → Wanted percentile p
unfolding percentiles_for
In-Wanted none p h = In-default p none h
In-Wanted (some q) p h = elim (In-emplace p q default_percentiles h) [
  | inl e ↦ inr (inr (inr (inr (ap some (sym e)))))
  | inr k ↦ In-default p (some q) k
]

pub Wanted-valued :
    (f : ℕ → ℕ) (percentile : Option ℕ) (p : ℕ)
    → Wanted percentile p
    → HasKey p (valued f (percentiles_for percentile))
Wanted-valued f percentile p w = HasKey-valued f p _ (Wanted-In percentile p w)

pub valued-Wanted :
    (f : ℕ → ℕ) (percentile : Option ℕ) (p : ℕ)
    → HasKey p (valued f (percentiles_for percentile))
    → Wanted percentile p
valued-Wanted f percentile p k = In-Wanted percentile p (valued-In f p _ k)
