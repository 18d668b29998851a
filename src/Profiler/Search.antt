-- ===== src/Profiler/Search.antt =====
-- The search over concurrency levels: the template InferenceProfiler::Profile at size_t
-- (src/inference_profiler.h). One measurement, `Profile(value, …)`, is a parameter: it takes the
-- level and the state of everything else and returns its status, the two flags and the new state.
-- The loops run on fuel; `none` means that it ran out. Beside the code's result the model returns
-- the measurements in their order.
pub mod Linear
pub mod Bisection
pub mod Binary
pub mod ZeroStep
use perf_analyzer.Prelude.{
  ℕ, zero, suc, ◌+◌, ◌/◌, Bool, true, false, ◌&&◌, ◌||◌, not, List, [], ◌∷◌, ◌++◌, Option, none,
  some, ltb, leb, ◌==◌, if◌then◌else◌, ◌>>=◌, add_u64, sub_u64,
}
use perf_analyzer.Status.{Status, ok, err, is_ok, stability_error}

pub record Trial : Type 0 where
  pub value : ℕ
  pub status : Status
  pub meets_threshold : Bool
  pub is_stable : Bool

abbrev pub no_limit : ℕ
no_limit = 0

pub data SearchMode : Type 0 where
  linear binary : SearchMode

module _ {S : Type 0} (profile : ℕ → S → Trial × S) where
  -- `do … while` from `current` on.
  pub linear_loop : ℕ → ℕ → ℕ → ℕ → ℕ → S → Option (Status × List Trial × S)
  linear_loop zero start stop step current s = none
  linear_loop (suc fuel) start stop step current s =
      let (t, s') = profile current s in
      let next = add_u64 current step in
      let more : Option (Status × List Trial × S) =
        (linear_loop fuel start stop step next s' >>= λ r. some (r.0, t ∷ r.1, r.2)) in
      let final : Status =
        (if next == add_u64 start step && not t.is_stable then err stability_error else ok) in
      if not (is_ok t.status)
      then some (t.status, t ∷ [], s')
      else (if (leb next stop || stop == no_limit) && t.meets_threshold
          then more
          else some (final, t ∷ [], s'))

  -- The bisection between `this_start` and `this_end`.
  pub binary_loop : ℕ → ℕ → ℕ → ℕ → S → Option (Status × List Trial × S)
  binary_loop zero step this_start this_end s = none
  binary_loop (suc fuel) step this_start this_end s =
      let current = add_u64 this_end this_start / 2 in
      let (t, s') = profile current s in
      let more : Option (Status × List Trial × S) =
        (binary_loop fuel step (if t.meets_threshold then current else this_start)
            (if t.meets_threshold then this_end else current) s'
          >>= λ r. some (r.0, t ∷ r.1, r.2)) in
      if ltb step (sub_u64 this_end this_start)
      then (if is_ok t.status then more else some (t.status, t ∷ [], s'))
      else some (ok, [], s)

  pub binary_search : ℕ → ℕ → ℕ → ℕ → S → Option (Status × List Trial × S)
  unfolding binary_loop
  binary_search fuel start stop step s =
      let (t, s₁) = profile start s in
      let (u, s₂) = profile stop s₁ in
      let rest : Option (Status × List Trial × S) =
        (binary_loop fuel step start stop s₂ >>= λ r. some (r.0, t ∷ u ∷ r.1, r.2)) in
      if not (is_ok t.status) || not t.meets_threshold
      then some (t.status, t ∷ [], s₁)
      else (if not (is_ok u.status) || u.meets_threshold
          then some (u.status, t ∷ u ∷ [], s₂)
          else rest)

  unfoldable pub search_levels : ℕ → SearchMode → ℕ → ℕ → ℕ → S → Option (Status × List Trial × S)
  unfolding linear_loop binary_search
  search_levels fuel SearchMode.linear start stop step s = linear_loop fuel start stop step start s
  search_levels fuel SearchMode.binary start stop step s = binary_search fuel start stop step s
