-- ===== src/AsyncContext/Recorded.antt =====
-- A request with several responses is recorded once, with all of them.
use perf_analyzer.Prelude.{
  ℕ, suc, ◌<◌, ◌≡◌, refl, sym, ap, ◌∙◌, ◌||◌, if◌then◌else◌, map, subst, Bool, true, false, List,
  [], ◌∷◌, ◌++◌, none, some, ◌==◌, arith, ℕ_discrete,
}
use perf_analyzer.Status.{ok}
use perf_analyzer.Profiler.Window.{RequestRecord}
use perf_analyzer.AsyncContext.{
  AsyncContext, Response, find_request, put_request, erase_request, u32_mod, register_request,
  finish, responded, received, async_callback,
}

find-put :
    (id : ℕ) (q : RequestRecord) (m : List (ℕ × RequestRecord))
    → find_request id (put_request id q m) ≡ some q
unfolding find_request put_request
find-put id q [] = let e : (id == id) ≡ true = ground arith in rw e
find-put id q ((k, old) ∷ rest) = elim (ℕ_discrete id k) [
  | yes y ↦ let e : (id == k) ≡ true = ground arith in rw (e, e)
  | no n ↦ let e : (id == k) ≡ false = ground arith in rw (e, e, find-put id q rest)
]

-- No second entry is behind the request's.
abbrev IsOnce : ℕ → List (ℕ × RequestRecord) → Type 0
IsOnce id m = find_request id (erase_request id m) ≡ none

IsOnce-new : (id : ℕ) (m : List (ℕ × RequestRecord)) → find_request id m ≡ none → IsOnce id m
unfolding find_request erase_request
IsOnce-new id [] h = refl
IsOnce-new id ((k, old) ∷ rest) h = elim (ℕ_discrete id k) [
  | yes y ↦ let e : (id == k) ≡ true = ground arith in let f = rw e at h in cc
  | no n ↦
      let e : (id == k) ≡ false = ground arith in
      let f : find_request id rest ≡ none = rw e at h in rw (e, e) (IsOnce-new id rest f)
]

IsOnce-put :
    (id : ℕ) (q : RequestRecord) (m : List (ℕ × RequestRecord))
    → IsOnce id m
    → IsOnce id (put_request id q m)
unfolding find_request erase_request put_request
IsOnce-put id q [] h = let e : (id == id) ≡ true = ground arith in rw e
IsOnce-put id q ((k, old) ∷ rest) h = elim (ℕ_discrete id k) [
  | yes y ↦
      let e : (id == k) ≡ true = ground arith in
      let f : find_request id rest ≡ none = rw e at h in rw (e, e) f
  | no n ↦
      let e : (id == k) ≡ false = ground arith in
      let f : IsOnce id rest = rw (e, e) at h in rw (e, e, e) (IsOnce-put id q rest f)
]

-- A response without an error, null or not, at a time; it is the last one or not.
abbrev pub answer : ℕ → Bool → Bool × ℕ → Response
answer id is_final (is_null, now) = record {
  request_status = ok;
  id_status = ok;
  id = id;
  null_status = ok;
  is_null = is_null;
  final_status = ok;
  is_final = is_final;
  outputs_status = ok;
  now = now;
}

abbrev pub answers : ℕ → List (Bool × ℕ) → AsyncContext → AsyncContext
answers id [] c = c
answers id (a ∷ rest) c = answers id rest (async_callback (answer id false a) c)

-- Whether one of the responses is null.
abbrev pub some_null : List (Bool × ℕ) → Bool
some_null [] = false
some_null (a ∷ rest) = a.0 || some_null rest

-- A record with more responses.
abbrev pub with_answers : RequestRecord → List (Bool × ℕ) → RequestRecord
with_answers q xs = record q {
  response_timestamps = q.response_timestamps ++ map (λ a. a.1) xs;
  has_null_last_response = q.has_null_last_response || some_null xs;
}

-- What has become of a context: the records, the ongoing requests and the request's entry.
abbrev Waits : ℕ → RequestRecord → List RequestRecord → ℕ → AsyncContext → Type 0
Waits id q records ongoing c =
    (c.cb_status ≡ ok)
    × (find_request id c.async_req_map ≡ some q)
    × IsOnce id c.async_req_map
    × (c.request_records ≡ records)
    × (c.total_ongoing_requests ≡ ongoing)

abbrev pub IsRecorded : ℕ → RequestRecord → List RequestRecord → ℕ → AsyncContext → Type 0
IsRecorded id q records ongoing c =
    (c.cb_status ≡ ok)
    × (find_request id c.async_req_map ≡ none)
    × (c.request_records ≡ records ++ (q ∷ []))
    × (c.total_ongoing_requests ≡ ongoing)
    × (c.num_responses ≡ 0)
    × (c.has_received_final_response ≡ true)

Waits-answer :
    (id : ℕ) (a : Bool × ℕ) (q : RequestRecord) (records : List RequestRecord) (ongoing : ℕ)
    (c : AsyncContext)
    → Waits id q records ongoing c
    → Waits id
        (responded (answer id false a) q)
        records
        ongoing
        (async_callback (answer id false a) c)
unfolding async_callback received finish
Waits-answer id a q records ongoing c (status, here, once, recs, total) =
    rw (status, here)
      (
        refl,
        find-put id (responded (answer id false a) q) c.async_req_map,
        IsOnce-put id (responded (answer id false a) q) c.async_req_map once,
        recs,
        total,
      )

IsRecorded-answer :
    (id : ℕ) (a : Bool × ℕ) (q : RequestRecord) (records : List RequestRecord) (ongoing : ℕ)
    (c : AsyncContext)
    → suc ongoing < u32_mod
    → Waits id q records (suc ongoing) c
    → IsRecorded id
        (responded (answer id true a) q)
        records
        ongoing
        (async_callback (answer id true a) c)
unfolding async_callback received finish
IsRecorded-answer id a q records ongoing c fits (status, here, once, recs, total) =
    rw (status, here)
      (
        refl,
        IsOnce-put id (responded (answer id true a) q) c.async_req_map once,
        ap (λ l. l ++ (responded (answer id true a) q ∷ [])) recs,
        omega (arith, total),
        refl,
        refl,
      )

append_nil {ℓ} : {A : Type ℓ} (xs : List A) → xs ++ [] ≡ xs
append_nil [] = refl
append_nil (x ∷ xs) = ap (λ l. x ∷ l) (append_nil xs)

append_snoc {ℓ} : {A : Type ℓ} (xs ys : List A) (x : A) → (xs ++ (x ∷ [])) ++ ys ≡ xs ++ (x ∷ ys)
append_snoc [] ys x = refl
append_snoc (z ∷ zs) ys x = ap (λ l. z ∷ l) (append_snoc zs ys x)

or_later : (h a rest : Bool) → (if a then true else h) || rest ≡ h || (a || rest)
or_later true true rest = refl
or_later true false rest = refl
or_later false true rest = refl
or_later false false rest = refl

or_false : (b : Bool) → b || false ≡ b
or_false true = refl
or_false false = refl

with_answers-none : (q : RequestRecord) → with_answers q [] ≡ q
with_answers-none q =
    ap
      (λ ts. record q {
        response_timestamps = ts;
        has_null_last_response = q.has_null_last_response || false;
      })
      (append_nil q.response_timestamps)
    ∙ ap (λ b. record q { has_null_last_response = b }) (or_false q.has_null_last_response)

with_answers-responded :
    (id : ℕ) (is_final : Bool) (q : RequestRecord) (a : Bool × ℕ) (rest : List (Bool × ℕ))
    → with_answers (responded (answer id is_final a) q) rest ≡ with_answers q (a ∷ rest)
with_answers-responded id is_final q a rest =
    ap
      (λ ts. record q {
        response_timestamps = ts;
        has_null_last_response = (if a.0 then true else q.has_null_last_response) || some_null rest;
      })
      (append_snoc q.response_timestamps (map (λ b. b.1) rest) a.1)
    ∙ ap
        (λ b. record q {
          response_timestamps = q.response_timestamps ++ map (λ b. b.1) (a ∷ rest);
          has_null_last_response = b;
        })
        (or_later q.has_null_last_response a.0 (some_null rest))

answers-IsRecorded :
    (id : ℕ) (xs : List (Bool × ℕ)) (a : Bool × ℕ) (q : RequestRecord)
    (records : List RequestRecord) (ongoing : ℕ) (c : AsyncContext)
    → suc ongoing < u32_mod
    → Waits id q records (suc ongoing) c
    → IsRecorded id
        (with_answers q (xs ++ (a ∷ [])))
        records
        ongoing
        (async_callback (answer id true a) (answers id xs c))
answers-IsRecorded id [] a q records ongoing c fits w =
    subst (λ p. IsRecorded id p records ongoing (async_callback (answer id true a) c))
      (sym (with_answers-none (responded (answer id true a) q))
        ∙ with_answers-responded id true q a [])
      (IsRecorded-answer id a q records ongoing c fits w)
answers-IsRecorded id (b ∷ rest) a q records ongoing c fits w =
    subst
      (λ p.
        IsRecorded id p records ongoing
          (async_callback (answer id true a) (answers id (b ∷ rest) c)))
      (with_answers-responded id false q b (rest ++ (a ∷ [])))
      (answers-IsRecorded id rest a (responded (answer id false b) q) records ongoing
        (async_callback (answer id false b) c) fits (Waits-answer id b q records (suc ongoing) c w))

-- A request as it is sent.
abbrev pub sent_request : ℕ → Bool → Bool → ℕ → RequestRecord
sent_request start sequence_end delayed sequence_id = record {
  start_time = start;
  response_timestamps = [];
  sequence_end = sequence_end;
  delayed = delayed;
  sequence_id = sequence_id;
  has_null_last_response = false;
}

register_request-Waits :
    (id start : ℕ) (sequence_end delayed : Bool) (sequence_id : ℕ) (c : AsyncContext)
    → c.cb_status ≡ ok
    → find_request id c.async_req_map ≡ none
    → suc c.total_ongoing_requests < u32_mod
    → Waits id
        (sent_request start sequence_end delayed sequence_id)
        c.request_records
        (suc c.total_ongoing_requests)
        (register_request id start sequence_end delayed sequence_id c)
unfolding register_request
register_request-Waits id start sequence_end delayed sequence_id c fine new fits =
    let q = sent_request start sequence_end delayed sequence_id in
    rw new (
      fine,
      find-put id q c.async_req_map,
      IsOnce-put id q c.async_req_map (IsOnce-new id c.async_req_map new),
      refl,
      omega arith,
    )

-- On a context without an error, where fewer requests than 2 ^ 32 - 1 are ongoing, a request under an
-- id that none waits under, whose responses come without an error, null or not, any number of them
-- before the last, is recorded exactly once, with the times of all its responses in their order,
-- and marked where one of them is null. Afterwards none waits under its id, no request more is
-- ongoing than before it was sent, and the count of responses is 0 again.
pub async_callback-IsRecorded :
    (id start : ℕ) (sequence_end delayed : Bool) (sequence_id : ℕ) (xs : List (Bool × ℕ))
    (a : Bool × ℕ) (c : AsyncContext)
    → c.cb_status ≡ ok
    → find_request id c.async_req_map ≡ none
    → suc c.total_ongoing_requests < u32_mod
    → IsRecorded id
        (with_answers (sent_request start sequence_end delayed sequence_id) (xs ++ (a ∷ [])))
        c.request_records
        c.total_ongoing_requests
        (async_callback
          (answer id true a)
          (answers id xs (register_request id start sequence_end delayed sequence_id c)))
async_callback-IsRecorded id start sequence_end delayed sequence_id xs a c fine new fits =
    answers-IsRecorded id xs a (sent_request start sequence_end delayed sequence_id)
      c.request_records c.total_ongoing_requests
      (register_request id start sequence_end delayed sequence_id c) fits
      (register_request-Waits id start sequence_end delayed sequence_id c fine new fits)
