-- ===== src/SequenceManager/Lifecycle/Course.antt =====
-- One sequence from its first request to its last.
use perf_analyzer.Prelude.{
  ℕ, zero, suc, ◌≡◌, ◌≢◌, ◌+◌, ◌%◌, ◌<◌, refl, sym, ap, ◌∙◌, inl, inr, Bool, true, false, List, [],
  ◌∷◌, Option, none, some, arith, get_elem?, ◌>>=◌, if◌then◌else◌, ◌==◌, u64_mod, sub_u64,
  Option-cases, Bool-cases, get_elem?-set_self, lt_of_get_elem?,
}
use perf_analyzer.SequenceManager.{
  SequenceStatus, SequenceManager, Draws, Settings, status_at, put_status, fill_status,
  init_new_sequence, set_infer_sequence_options, get_random_sequence_length, get_next_seq_id,
}
use perf_analyzer.SequenceManager.Lookup.{init_new_sequence-Renewed}
use perf_analyzer.SequenceManager.Lifecycle.{
  Issued, issue, issue_running, issue_from, issued_of, IsSupplied, options_of, with_remaining,
}

-- The requests that a sequence of `total` queries under one id makes, from the one numbered k on:
-- the first alone starts the sequence, the last alone ends it, and they play the steps of the
-- stream in turn, from its first step on.
abbrev pub request : Bool → ℕ → ℕ → ℕ → ℕ → ℕ → Issued
request json id stream steps total k = record {
  options = record { sequence_start = k == 0; sequence_id = id; sequence_end = k + 1 == total };
  step = if json then some (stream, k % steps) else none;
  sequence_id = id;
}

abbrev pub course : Bool → ℕ → ℕ → ℕ → ℕ → ℕ → ℕ → List Issued
course json id stream steps total k zero = []
course json id stream steps total k (suc left) =
    request json id stream steps total k ∷ course json id stream steps total (suc k) left

module _ (d : Draws) (i : ℕ) where
  unfoldable pub issue_many : ℕ → SequenceManager → Option (List Issued × SequenceManager)
  issue_many zero m = some ([], m)
  issue_many (suc n) m = do
    (m', issued) ← issue d m i
    (rest, m'') ← issue_many n m'
    some (issued ∷ rest, m'')

abbrev course_of : Draws → SequenceManager → SequenceStatus → ℕ → ℕ → ℕ → List Issued
course_of d m s =
    course m.using_json_data s.seq_id s.data_stream_id (d.total_steps s.data_stream_id)

issued_of_course :
    (d : Draws) (m : SequenceManager) (s : SequenceStatus) (start : Bool) (total k n : ℕ)
    → start ≡ (k == 0)
    → k + suc n ≡ total
    → total < u64_mod
    → (m.using_json_data ≡ true → s.sequence_length ≡ total)
    → issued_of d m s start n
      ≡ request m.using_json_data s.seq_id s.data_stream_id (d.total_steps s.data_stream_id) total k
issued_of_course d m s start total k n first e fits len =
    let last : (suc n == 1) ≡ (k + 1 == total) = ground arith in
    elim (Bool-cases m.using_json_data) [
      | inl j ↦
          let played : sub_u64 s.sequence_length (suc n) ≡ k = omega (arith, len j) in
          rw (first, j, played, last)
      | inr j ↦ rw (first, j, last)
    ]

issue_many_running :
    (d : Draws) (i : ℕ) (n total k : ℕ) (m : SequenceManager) (s : SequenceStatus)
    → status_at m i ≡ some s
    → s.remaining_queries ≡ n
    → 0 < k
    → k + n ≡ total
    → total < u64_mod
    → IsSupplied d m s
    → (m.using_json_data ≡ true → s.sequence_length ≡ total)
    → (m' : SequenceManager) × (issue_many d i n m ≡ some (course_of d m s total k n, m'))
      × (status_at m' i ≡ some (with_remaining s 0))
unfolding issue_many
issue_many_running d i zero total k m s at r pos e fits supplied len = (m, refl, ground arith)
issue_many_running d i (suc n) total k m s at r pos e fits supplied len =
    let m₁ : SequenceManager = put_status m i (with_remaining s n) in
    let at₁ : status_at m₁ i ≡ some (with_remaining s n) =
      get_elem?-set_self m.sequence_statuses i _ (lt_of_get_elem? _ _ at) in
    let (m', rest, idle) =
      issue_many_running d i n total (suc k) m₁ (with_remaining s n) at₁ refl (omega arith)
        (omega arith) fits supplied len in
    let step = issue_running d m i s n at r (omega arith) supplied in
    let head = issued_of_course d m s false total k n (ground arith) e fits len in
    (m', rw (step, rest) (ap (λ h. some (h ∷ course_of d m s total (suc k) n, m')) head), idle)

-- The length that a sequence started with these draws has.
abbrev pub started_length : Draws → Settings → ℕ
started_length d c =
    let varied = get_random_sequence_length c.base_length d.random_offset in
    if c.using_json_data
    then (if c.sequence_length_specified then varied else d.total_steps d.new_data_stream_id)
    else (if varied == 0 then 1 else varied)

fill_status_lem :
    (d : Draws) (c : Settings) (s : SequenceStatus)
    → ((fill_status d c s).remaining_queries ≡ started_length d c)
      × (c.using_json_data ≡ true → (fill_status d c s).sequence_length ≡ started_length d c)
      × (c.using_json_data ≡ true → (fill_status d c s).data_stream_id ≡ d.new_data_stream_id)
unfolding fill_status
fill_status_lem d c s = (ground arith, (λ j. ground arith), λ j. ground arith)

init_new_sequence_total :
    (d : Draws) (m : SequenceManager) (i : ℕ) (s : SequenceStatus)
    → status_at m i ≡ some s
    → m.sequence_id_range ≢ 0
    → (m' : SequenceManager) × (init_new_sequence d m i ≡ some m')
unfolding init_new_sequence get_next_seq_id
init_new_sequence_total d m i s at h = elim (Option-cases (init_new_sequence d m i)) [
  | inl e ↦ absurd (ground arith)
  | inr r ↦ r
]

options_start :
    (d : Draws) (m m' : SequenceManager) (i : ℕ) (s s' : SequenceStatus) (n : ℕ)
    → status_at m i ≡ some s
    → s.remaining_queries ≡ 0
    → init_new_sequence d m i ≡ some m'
    → status_at m' i ≡ some s'
    → s'.remaining_queries ≡ suc n
    → set_infer_sequence_options d m i ≡ some (m', options_of s' true n)
unfolding set_infer_sequence_options
options_start d m m' i s s' n at idle init at' r = rw (at) (ground arith)

-- A slot that holds a sequence which is just started.
record Started (d : Draws) (m : SequenceManager) (i : ℕ) : Type 0 where
  next : SequenceManager
  slot : SequenceStatus
  init : init_new_sequence d m i ≡ some next
  at : status_at next i ≡ some slot
  json : next.using_json_data ≡ m.using_json_data
  length_ : slot.remaining_queries ≡ started_length d m.settings
  played : m.using_json_data ≡ true → slot.sequence_length ≡ started_length d m.settings
  stream : m.using_json_data ≡ true → slot.data_stream_id ≡ d.new_data_stream_id

start_slot :
    (d : Draws) (m : SequenceManager) (i : ℕ) (s : SequenceStatus)
    → status_at m i ≡ some s
    → m.sequence_id_range ≢ 0
    → Started d m i
start_slot d m i s at h =
    let (m', e) = init_new_sequence_total d m i s at h in
    let r = init_new_sequence-Renewed d m i e in
    let v : SequenceStatus = record (r.old) { seq_id = r.id } in
    let (len, played, stream) = fill_status_lem d m.settings v in
    record {
      next = m';
      slot = fill_status d m.settings v;
      init = e;
      at =
          ap (λ ss. get_elem? ss i) (r.statuses)
          ∙ get_elem?-set_self m.sequence_statuses i _ (lt_of_get_elem? _ _ at);
      json = ap (λ (c : Settings). c.using_json_data) (r.settings);
      length_ = len;
      played = played;
      stream = stream;
    }

-- What a whole sequence of `total` requests leaves and has sent.
abbrev pub IsPlayed : Draws → SequenceManager → ℕ → ℕ → Type 0
IsPlayed d m i total =
    (id : ℕ) × (stream : ℕ) × (m' : SequenceManager) × (s' : SequenceStatus) × (issue_many d i total
        m
      ≡ some (course m.using_json_data id stream (d.total_steps stream) total 0 total, m'))
    × (m.using_json_data ≡ true → stream ≡ d.new_data_stream_id)
    × (status_at m' i ≡ some s')
    × (s'.seq_id ≡ id)
    × (s'.remaining_queries ≡ 0)

play :
    (d : Draws) (m : SequenceManager) (i : ℕ) (s : SequenceStatus) (total : ℕ)
    → status_at m i ≡ some s
    → s.remaining_queries ≡ 0
    → Started d m i
    → started_length d m.settings ≡ total
    → 0 < total
    → total < u64_mod
    → (m.using_json_data ≡ true → d.total_steps d.new_data_stream_id ≢ 0)
    → IsPlayed d m i total
unfolding issue_many
play d m i s zero at idle st e pos fits supplied = absurd (omega arith)
play d m i s (suc n) at idle st e pos fits supplied =
    let v = st.slot in
    let opts = options_start d m st.next i s v n at idle st.init st.at (st.length_ ∙ e) in
    let ready : IsSupplied d st.next v =
      λ j. rw (st.stream (sym st.json ∙ j)) (supplied (sym st.json ∙ j)) in
    let played : st.next.using_json_data ≡ true → v.sequence_length ≡ suc n =
      λ j. st.played (sym st.json ∙ j) ∙ e in
    let first = issue_from d m st.next i v true n opts st.at (st.length_ ∙ e) fits ready in
    let head = issued_of_course d st.next v true (suc n) 0 n refl (omega arith) fits played in
    let at₁ =
      get_elem?-set_self (st.next).sequence_statuses i (with_remaining v n)
        (lt_of_get_elem? _ _ st.at) in
    let (m', rest, final) =
      issue_many_running d i n (suc n) 1 (put_status st.next i (with_remaining v n))
        (with_remaining v n) at₁ refl (omega arith) (omega arith) fits ready played in
    (
      v.seq_id,
      v.data_stream_id,
      m',
      with_remaining v 0,
      rw (first, rest, head, st.json),
      st.stream,
      final,
      refl,
      refl,
    )

-- From an idle slot, with a length L between 1 and 2^64 - 1 (and, for JSON data, a stream that is
-- not empty), L requests on the slot are exactly one sequence: they carry one id, the first alone
-- is marked as the start and the last alone as the end, JSON data is played from the first step of
-- the drawn stream on, and the slot is idle again.
pub issue_many-course :
    (d : Draws) (m : SequenceManager) (i : ℕ) (s : SequenceStatus)
    → status_at m i ≡ some s
    → s.remaining_queries ≡ 0
    → m.sequence_id_range ≢ 0
    → 0 < started_length d m.settings
    → started_length d m.settings < u64_mod
    → (m.using_json_data ≡ true → d.total_steps d.new_data_stream_id ≢ 0)
    → IsPlayed d m i (started_length d m.settings)
issue_many-course d m i s at idle range pos fits supplied =
    play d m i s (started_length d m.settings) at idle (start_slot d m i s at range) refl pos fits
      supplied
