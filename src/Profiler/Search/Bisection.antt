-- ===== src/Profiler/Search/Bisection.antt =====
-- The bisection ends, and keeps a level known to be good below one known to be bad.
use perf_analyzer.Prelude.{
  ℕ, zero, suc, ◌+◌, ◌-◌, ◌*◌, ◌^◌, ◌/◌, ◌≤◌, ◌<◌, ◌≡◌, ◌≢◌, refl, sym, ◌∙◌, ◌⊎◌, inl, inr, Bool,
  true, false, List, [], ◌∷◌, some, ltb, if◌then◌else◌, add_u64, sub_u64, u64_mod, arith,
  Bool-cases, dec_lt,
}
use native.Mathlib.Nat.{pow-suc}
use perf_analyzer.Status.{Status, ok, is_ok}
use perf_analyzer.Profiler.Search.{Trial, binary_loop}
use perf_analyzer.Profiler.Search.Linear.{Passed, ok_of_is_ok}

-- Free of errors, and over the threshold.
abbrev pub Failed : Trial → Type 0
Failed t = (t.status ≡ ok) × (t.meets_threshold ≡ false)

abbrev pub Any : (Trial → Type 0) → List Trial → Type 0
Any P [] = ⊥
Any P (t ∷ ts) = P t ⊎ Any P ts

abbrev pub PassedAt : ℕ → List Trial → Type 0
PassedAt v = Any (λ t. (t.value ≡ v) × Passed t)

abbrev pub FailedAt : ℕ → List Trial → Type 0
FailedAt v = Any (λ t. (t.value ≡ v) × Failed t)

-- The last measurement had an error, which is the status; the ones before it had none.
abbrev pub Stopped : List Trial → Status → Type 0
Stopped [] status = ⊥
Stopped (t ∷ []) status = (t.status ≢ ok) × (status ≡ t.status)
Stopped (t ∷ u ∷ ts) status = (t.status ≡ ok) × Stopped (u ∷ ts) status

pub Stopped-cons :
    (t : Trial) (ts : List Trial) (status : Status)
    → t.status ≡ ok
    → Stopped ts status
    → Stopped (t ∷ ts) status
Stopped-cons t [] status fine h = absurd h
Stopped-cons t (u ∷ ts) status fine h = (fine, h)

-- What the measurements say of a search that began with a good level `lo` and a bad level `hi`:
-- the error of a measurement stopped it, or the best level known to be good and the least known to be bad are at most
-- one step apart.
abbrev pub Bracket : ℕ → ℕ → ℕ → List Trial → Status → Type 0
Bracket step lo hi ts status =
    Stopped ts status
    ⊎ ((status ≡ ok)
        × (good : ℕ) × (bad : ℕ) × (good ≤ bad)
        × (bad ≤ good + step)
        × ((good ≡ lo) ⊎ PassedAt good ts)
        × ((bad ≡ hi) ⊎ FailedAt bad ts))

middle : (lo hi : ℕ) → lo ≤ hi → hi + hi < u64_mod → add_u64 hi lo / 2 ≡ (hi + lo) / 2
middle lo hi h f = omega arith

doubling : (step n : ℕ) → step * 2 ^ suc n ≡ 2 * (step * 2 ^ n)
doubling step n = rw pow-suc (omega arith)

module _ {S : Type 0} (profile : ℕ → S → Trial × S)
    (faithful : (v : ℕ) (s : S) → (profile v s).0.value ≡ v) where
  unfoldable pub Bisected : ℕ → ℕ → ℕ → ℕ → S → Type 0
  Bisected fuel step lo hi s =
      (r : Status × List Trial × S) × (binary_loop profile fuel step lo hi s ≡ some r)
      × Bracket step lo hi r.1 r.0

  loop_on :
      (fuel step lo hi : ℕ) (s : S) (t : Trial) (s' : S) (r : Status × List Trial × S) (b : Bool)
      → profile ((hi + lo) / 2) s ≡ (t, s')
      → add_u64 hi lo / 2 ≡ (hi + lo) / 2
      → ltb step (sub_u64 hi lo) ≡ true
      → is_ok t.status ≡ true
      → t.meets_threshold ≡ b
      → binary_loop profile fuel step
          (if b then (hi + lo) / 2 else lo)
          (if b then hi else (hi + lo) / 2)
          s'
        ≡ some r
      → binary_loop profile (suc fuel) step lo hi s ≡ some (r.0, t ∷ r.1, r.2)
  unfolding binary_loop
  loop_on fuel step lo hi s t s' r b p mid wide good meets run = rw (wide, mid, p, good, meets, run)

  Bisected-up :
      (fuel step lo hi : ℕ) (s : S) (t : Trial) (s' : S)
      → profile ((hi + lo) / 2) s ≡ (t, s')
      → t.value ≡ (hi + lo) / 2
      → lo ≤ hi
      → hi + hi < u64_mod
      → step < hi - lo
      → t.status ≡ ok
      → t.meets_threshold ≡ true
      → Bisected fuel step ((hi + lo) / 2) hi s'
      → Bisected (suc fuel) step lo hi s
  unfolding Bisected
  Bisected-up fuel step lo hi s t s' p value le fits wide good meets (r, run, inl e) = (
    (r.0, t ∷ r.1, r.2),
    loop_on fuel step lo hi s t s' r true p (middle lo hi le fits) (ground arith) (rw good) meets
        run,
    inl (Stopped-cons t r.1 r.0 good e),
  )
  Bisected-up fuel step lo hi s t s' p value le fits wide good meets
        (r, run, inr (fine, g, b, gb, near, from, to)) =
      (
        (r.0, t ∷ r.1, r.2),
        loop_on fuel step lo hi s t s' r true p (middle lo hi le fits) (ground arith) (rw good)
            meets run,
        inr (
          fine,
          g,
          b,
          gb,
          near,
          elim from [ inl e ↦ inr (inl (value ∙ sym e, (good, meets))) | inr a ↦ inr (inr a) ],
          elim to [ inl e ↦ inl e | inr a ↦ inr (inr a) ],
        ),
      )

  Bisected-down :
      (fuel step lo hi : ℕ) (s : S) (t : Trial) (s' : S)
      → profile ((hi + lo) / 2) s ≡ (t, s')
      → t.value ≡ (hi + lo) / 2
      → lo ≤ hi
      → hi + hi < u64_mod
      → step < hi - lo
      → t.status ≡ ok
      → t.meets_threshold ≡ false
      → Bisected fuel step lo ((hi + lo) / 2) s'
      → Bisected (suc fuel) step lo hi s
  unfolding Bisected
  Bisected-down fuel step lo hi s t s' p value le fits wide good meets (r, run, inl e) = (
    (r.0, t ∷ r.1, r.2),
    loop_on fuel step lo hi s t s' r false p (middle lo hi le fits) (ground arith) (rw good) meets
        run,
    inl (Stopped-cons t r.1 r.0 good e),
  )
  Bisected-down fuel step lo hi s t s' p value le fits wide good meets
        (r, run, inr (fine, g, b, gb, near, from, to)) =
      (
        (r.0, t ∷ r.1, r.2),
        loop_on fuel step lo hi s t s' r false p (middle lo hi le fits) (ground arith) (rw good)
            meets run,
        inr (
          fine,
          g,
          b,
          gb,
          near,
          elim from [ inl e ↦ inl e | inr a ↦ inr (inr a) ],
          elim to [ inl e ↦ inr (inl (value ∙ sym e, (good, meets))) | inr a ↦ inr (inr a) ],
        ),
      )

  -- The bracket is narrow enough, or the measurement has an error.
  Bisected-narrow :
      (fuel step lo hi : ℕ) (s : S)
      → lo ≤ hi
      → hi < u64_mod
      → hi ≤ lo + step
      → Bisected (suc fuel) step lo hi s
  unfolding Bisected binary_loop
  Bisected-narrow fuel step lo hi s le fits narrow =
      let stop : ltb step (sub_u64 hi lo) ≡ false = ground arith in
      ((ok, [], s), rw stop, inr (refl, lo, hi, le, narrow, inl refl, inl refl))

  Bisected-error :
      (fuel step lo hi : ℕ) (s : S) (t : Trial) (s' : S)
      → profile ((hi + lo) / 2) s ≡ (t, s')
      → lo ≤ hi
      → hi + hi < u64_mod
      → step < hi - lo
      → is_ok t.status ≡ false
      → Bisected (suc fuel) step lo hi s
  unfolding Bisected binary_loop
  Bisected-error fuel step lo hi s t s' p le fits wide bad =
      let on : ltb step (sub_u64 hi lo) ≡ true = ground arith in
      ((t.status, t ∷ [], s'), rw (on, middle lo hi le fits, p, bad), inl (λ e. ground arith, refl))

  pub binary_loop-Bisected :
      (fuel step lo hi : ℕ) (s : S)
      → 0 < step
      → lo ≤ hi
      → hi + hi < u64_mod
      → hi ≤ lo + step * 2 ^ fuel
      → Bisected (suc fuel) step lo hi s
  binary_loop-Bisected zero step lo hi s pos le fits enough =
      Bisected-narrow 0 step lo hi s le (omega arith) (omega arith)
  binary_loop-Bisected (suc fuel) step lo hi s pos le fits enough =
      let mid = (hi + lo) / 2 in
      let double : step * 2 ^ suc fuel ≡ 2 * (step * 2 ^ fuel) = doubling step fuel in
      let (t, s') = profile mid s in
      let value : t.value ≡ mid = faithful mid s in
      elim (dec_lt step (hi - lo)) [
        | no narrow ↦ Bisected-narrow (suc fuel) step lo hi s le (omega arith) (omega arith)
        | yes wide ↦ elim (Bool-cases (is_ok t.status)) [
          | inr bad ↦ Bisected-error (suc fuel) step lo hi s t s' refl le fits wide bad
          | inl good ↦ elim (Bool-cases t.meets_threshold) [
            | inl meets ↦
                Bisected-up (suc fuel) step lo hi s t s' refl value le fits wide
                  (ok_of_is_ok t.status good) meets
                  (binary_loop-Bisected fuel step mid hi s' pos (omega arith) fits
                    (omega (arith, double)))
            | inr meets ↦
                Bisected-down (suc fuel) step lo hi s t s' refl value le fits wide
                  (ok_of_is_ok t.status good) meets
                  (binary_loop-Bisected fuel step lo mid s' pos (omega arith) (omega arith)
                    (omega (arith, double)))
          ]
        ]
      ]
