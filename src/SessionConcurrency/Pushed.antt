-- ===== src/SessionConcurrency/Pushed.antt =====
-- One payload more in the map of sessions.
use perf_analyzer.Prelude.{
  ℕ, suc, ◌+◌, ◌<◌, ◌≡◌, ◌≢◌, ◌⊎◌, inl, inr, refl, sym, ap, ◌∙◌, true, false, ◌&&◌, List, [], ◌∷◌,
  ◌++◌, map, ◌==◌, ==_iff, if◌then◌else◌, length, All, arith, Bool-cases, count, count-append,
  concat, length-append,
}
use mathlib.Core.List.{append-nil}
use perf_analyzer.SessionConcurrency.{same_id, push_payload, dataset_of}

-- The indices, counted from `i`, at which a session id stands.
abbrev pub positions : List ℕ → ℕ → List (List ℕ) → List ℕ
positions key i [] = []
positions key i (id ∷ ids) = (if same_id key id then i ∷ [] else []) ++ positions key (suc i) ids

abbrev pub Sessions : Type 0
Sessions = List (List ℕ × List ℕ)

abbrev pub key_of : List ℕ × List ℕ → List ℕ
key_of (key, dataset) = key

abbrev pub payloads_of : List ℕ → Sessions → List ℕ
payloads_of key [] = []
payloads_of key ((k, d) ∷ rest) = if same_id key k then d else payloads_of key rest

same_id-cases :
    (xs ys : List ℕ) → ((xs ≡ ys) × (same_id xs ys ≡ true)) ⊎ ((xs ≢ ys) × (same_id xs ys ≡ false))
unfolding same_id
same_id-cases [] [] = inl (refl, refl)
same_id-cases [] (y ∷ ys) = inr ((λ e. cc), refl)
same_id-cases (x ∷ xs) [] = inr ((λ e. cc), refl)
same_id-cases (x ∷ xs) (y ∷ ys) = elim (Bool-cases (x == y)) [
  | inl t ↦
      let e : x ≡ y = (==_iff x y).0 t in
      elim (same_id-cases xs ys) [
        | inl (es, ts) ↦ inl (cc, ap (λ b. b && same_id xs ys) t ∙ ts)
        | inr (n, f) ↦ inr ((λ h. n cc), ap (λ b. b && same_id xs ys) t ∙ f)
      ]
  | inr f ↦
      inr (
        (λ h. let e : x ≡ y = cc in let t = (==_iff x y).1 e in cc),
        ap (λ b. b && same_id xs ys) f,
      )
]

pub same_id_self : (xs : List ℕ) → same_id xs xs ≡ true
same_id_self xs = elim (same_id-cases xs xs) [ inl (e, t) ↦ t | inr (n, f) ↦ absurd (n refl) ]

pub different : {xs ys : List ℕ} → xs ≢ ys → same_id xs ys ≡ false
different {xs} {ys} n = elim (same_id-cases xs ys) [ inl (e, t) ↦ absurd (n e) | inr (m, f) ↦ f ]

pub payloads_of-push :
    (key id : List ℕ) (i : ℕ) (m : Sessions)
    → payloads_of key (push_payload id i m)
      ≡ payloads_of key m ++ (if same_id key id then i ∷ [] else [])
unfolding push_payload
payloads_of-push key id i [] = refl
payloads_of-push key id i ((k, d) ∷ rest) = elim (same_id-cases id k) [
  | inl (e, t) ↦ elim (Bool-cases (same_id key k)) [
    | inl s ↦ let u : same_id key id ≡ true = ap (same_id key) e ∙ s in rw (t, s, u)
    | inr s ↦
        let u : same_id key id ≡ false = ap (same_id key) e ∙ s in
        rw (t, s, u) (sym (append-nil (payloads_of key rest)))
  ]
  | inr (n, f) ↦ elim (same_id-cases key k) [
    | inl (e, s) ↦
        let u : same_id key id ≡ false = different (λ h. n (sym h ∙ e)) in
        rw (f, s, u) (sym (append-nil d))
    | inr (m, s) ↦ rw (f, s) (payloads_of-push key id i rest)
  ]
]

abbrev pub Distinct : Sessions → Type 0
Distinct [] = Unit
Distinct ((k, d) ∷ rest) = All (λ g. k ≢ key_of g) rest × Distinct rest

push-other :
    (k id : List ℕ) (i : ℕ) (m : Sessions)
    → k ≢ id
    → All (λ g. k ≢ key_of g) m
    → All (λ g. k ≢ key_of g) (push_payload id i m)
unfolding push_payload
push-other k id i [] n a = (n, tt)
push-other k id i ((k', d) ∷ rest) n (p, a) = elim (Bool-cases (same_id id k')) [
  | inl t ↦ rw t (p, a)
  | inr f ↦ rw f (p, push-other k id i rest n a)
]

pub push-Distinct :
    (id : List ℕ) (i : ℕ) (m : Sessions) → Distinct m → Distinct (push_payload id i m)
unfolding push_payload
push-Distinct id i [] u = (tt, tt)
push-Distinct id i ((k, d) ∷ rest) (a, u) = elim (same_id-cases id k) [
  | inl (e, t) ↦ rw t (a, u)
  | inr (n, f) ↦ rw f (push-other k id i rest (λ e. n (sym e)) a, push-Distinct id i rest u)
]

abbrev pub Filled : List ℕ × List ℕ → Type 0
Filled g = 0 < length (dataset_of g)

pub push-Filled :
    (id : List ℕ) (i : ℕ) (m : Sessions) → All Filled m → All Filled (push_payload id i m)
unfolding push_payload
push-Filled id i [] a = (omega arith, tt)
push-Filled id i ((k, d) ∷ rest) (p, a) = elim (Bool-cases (same_id id k)) [
  | inl t ↦ rw t (omega (arith, length-append d (i ∷ [])), a)
  | inr f ↦ rw f (p, push-Filled id i rest a)
]

pub count-push :
    (n : ℕ) (id : List ℕ) (i : ℕ) (m : Sessions)
    → count n (concat (map dataset_of (push_payload id i m)))
      ≡ (if n == i then 1 else 0) + count n (concat (map dataset_of m))
unfolding push_payload
count-push n id i [] = refl
count-push n id i ((k, d) ∷ rest) = elim (Bool-cases (same_id id k)) [
  | inl t ↦ rw t (
      omega (
        arith,
        count-append n (d ++ (i ∷ [])) (concat (map dataset_of rest)),
        count-append n d (i ∷ []),
        count-append n d (concat (map dataset_of rest)),
      ))
  | inr f ↦ rw f (
      omega (
        arith,
        count-append n d (concat (map dataset_of (push_payload id i rest))),
        count-push n id i rest,
        count-append n d (concat (map dataset_of rest)),
      ))
]
