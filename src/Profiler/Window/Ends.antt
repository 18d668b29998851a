-- ===== src/Profiler/Window/Ends.antt =====
-- When a request ends.
use perf_analyzer.Prelude.{
  ℕ, zero, suc, ltb, ◌-◌, ◌<◌, ◌≡◌, refl, ap, ◌∙◌, Bool, true, false, not, List, [], ◌∷◌, Option,
  none, some, if◌then◌else◌, length, get_elem?, arith,
}
use perf_analyzer.Profiler.Window.{RequestRecord, request_end, last, but_last, one_if}

-- The last of so many timestamps.
abbrev pub last_of : ℕ → List ℕ → Option ℕ
last_of zero ts = none
last_of (suc n) ts = get_elem? ts n

-- When a request ends: at the last of its responses that are not null, the null one being the last
-- in the list; never, where there is none.
abbrev pub end_of : RequestRecord → Option ℕ
end_of r =
    last_of (length r.response_timestamps - one_if r.has_null_last_response) r.response_timestamps

last_of-length : (x : ℕ) (xs : List ℕ) → some (last (x ∷ xs)) ≡ last_of (suc (length xs)) (x ∷ xs)
last_of-length x [] = refl
last_of-length x (y ∷ ys) = last_of-length y ys

last_of-but_last :
    (x y : ℕ) (xs : List ℕ)
    → some (last (but_last (x ∷ y ∷ xs))) ≡ last_of (suc (length xs)) (x ∷ y ∷ xs)
last_of-but_last x y [] = refl
last_of-but_last x y (z ∷ zs) = last_of-but_last y z zs

end_by_list :
    (null : Bool) (ts : List ℕ)
    → 0 < length ts
    → (if not null
        then some (last ts)
        else (if ltb 1 (length ts) then some (last (but_last ts)) else none))
      ≡ last_of (length ts - one_if null) ts
end_by_list null [] h = absurd (omega arith)
end_by_list false (x ∷ xs) h =
    let n : suc (length xs) ≡ suc (length xs) - 0 = omega arith in
    last_of-length x xs ∙ ap (λ k. last_of k (x ∷ xs)) n
end_by_list true (x ∷ []) h = refl
end_by_list true (x ∷ y ∷ xs) h =
    let l : ltb 1 (suc (suc (length xs))) ≡ true = ground arith in
    let n : suc (length xs) ≡ suc (suc (length xs)) - 1 = omega arith in
    rw l (last_of-but_last x y xs ∙ ap (λ k. last_of k (x ∷ y ∷ xs)) n)

-- A null last response stands in the list of the responses.
abbrev pub IsAnswered : RequestRecord → Type 0
IsAnswered r = 0 < length r.response_timestamps

pub request_end-end_of : (r : RequestRecord) → IsAnswered r → request_end r ≡ end_of r
unfolding request_end
request_end-end_of r h = end_by_list r.has_null_last_response r.response_timestamps h
