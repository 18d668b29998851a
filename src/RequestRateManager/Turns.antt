-- ===== src/RequestRateManager/Turns.antt =====
-- One timestamp more for the worker whose turn it is.
use perf_analyzer.Prelude.{
  ℕ, zero, suc, ◌+◌, ◌*◌, ◌%◌, ◌<◌, ◌≡◌, ◌≢◌, inl, inr, refl, sym, ap, ◌∙◌, subst, List, [], ◌∷◌,
  ◌++◌, some, ◌==◌, ==_iff, if◌then◌else◌, length, get_elem?, set, length-set, get_elem?-set_self,
  get_elem?-set_ne, arith, Bool-cases, div_mod_unique,
}
use native.Mathlib.Nat.{mod-eq_of_lt}
use mathlib.Core.List.{append-nil}
use perf_analyzer.RateSchedule.{RateSchedule}
use perf_analyzer.RequestRateManager.{thread_ids_from, emplace_interval}
use perf_analyzer.RequestRateManager.Dealt.{div_mod_suc}

-- Of the timestamps, which have the indices from `i` on, those of worker `t`: the ids of the threads
-- are walked round and round, and id number k belongs to worker k % threads.
abbrev pub dealt_to : ℕ → ℕ → ℕ → ℕ → List ℕ → List ℕ
dealt_to t threads ids i [] = []
dealt_to t threads ids i (x ∷ xs) =
    (if t == i % ids % threads then x ∷ [] else []) ++ dealt_to t threads ids (suc i) xs

-- A schedule that was not yet used.
abbrev pub unused : List ℕ → RateSchedule
unused intervals = record { intervals = intervals; duration = 0; rounds = 0; index = 0 }

abbrev pub Holds : ℕ → (ℕ → List ℕ) → List RateSchedule → Type 0
Holds threads f ss =
    (length ss ≡ threads) × ((t : ℕ) → t < threads → get_elem? ss t ≡ some (unused (f t)))

pub get_elem?-thread_ids :
    (threads i n j : ℕ)
    → j < n
    → get_elem? (thread_ids_from threads i n) j ≡ some ((i + j) % threads)
unfolding thread_ids_from
get_elem?-thread_ids threads i zero j h = absurd (omega arith)
get_elem?-thread_ids threads i (suc n) zero h =
    let e : i ≡ i + 0 = omega arith in ap (λ k. some (k % threads)) e
get_elem?-thread_ids threads i (suc n) (suc j) h =
    let e : suc i + j ≡ i + suc j = omega arith in
    get_elem?-thread_ids threads (suc i) n j (omega arith) ∙ ap (λ k. some (k % threads)) e

pub length-thread_ids : (threads i n : ℕ) → length (thread_ids_from threads i n) ≡ n
unfolding thread_ids_from
length-thread_ids threads i zero = refl
length-thread_ids threads i (suc n) = ap suc (length-thread_ids threads (suc i) n)

-- Going round, the next index is the index of the next number.
pub next_index : (i n : ℕ) → 0 < n → suc (i % n) % n ≡ suc i % n
next_index i n pos = elim (div_mod_suc i n pos) [
  | inl (m, d, less) ↦ mod-eq_of_lt less ∙ sym m
  | inr (m, d, full) ↦
      let z : 0 % n ≡ 0 = mod-eq_of_lt pos in
      let (e, f) = div_mod_unique 0 1 n pos in
      let g : suc (i % n) ≡ 0 + 1 * n = omega (arith, full) in ap (λ k. k % n) g ∙ f ∙ sym m
]

pub emplace_lem :
    (threads w x : ℕ) (f : ℕ → List ℕ) (ss : List RateSchedule)
    → w < threads
    → Holds threads f ss
    → (ss' : List RateSchedule) × (emplace_interval w x ss ≡ some ss')
      × Holds threads (λ t. f t ++ (if t == w then x ∷ [] else [])) ss'
unfolding emplace_interval
emplace_lem threads w x f ss h (len, at) =
    let s : RateSchedule = unused (f w ++ (x ∷ [])) in
    let own : (t : ℕ)
        → t < threads
        → get_elem? (set ss w s) t ≡ some (unused (f t ++ (if t == w then x ∷ [] else []))) =
      λ t l. elim (Bool-cases (t == w)) [
        | inl y ↦
            let e : t ≡ w = (==_iff t w).0 y in
            let p : get_elem? (set ss w s) w ≡ some s =
              get_elem?-set_self ss w s (omega (arith, len)) in
            subst (λ k. get_elem? (set ss w s) k ≡ some (unused (f k ++ (x ∷ [])))) (sym e) p
            ∙ ap (λ b. some (unused (f t ++ (if b then x ∷ [] else [])))) (sym y)
        | inr n ↦
            let ne : w ≢ t = λ e. let y = (==_iff t w).1 (sym e) in cc in
            get_elem?-set_ne ss s ne
            ∙ at t l
            ∙ ap (λ k. some (unused k)) (sym (append-nil (f t)))
            ∙ ap (λ b. some (unused (f t ++ (if b then x ∷ [] else [])))) (sym n)
      ] in
    (set ss w s, rw (at w h), (length-set ss w s ∙ len, own))
