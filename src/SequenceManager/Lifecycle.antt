-- ===== src/SequenceManager/Lifecycle.antt =====
-- The part of InferContext's SendSequenceInferRequest, UpdateSeqJsonData and
-- CompleteOngoingSequence (src/infer_context.cc) that works on the sequence manager, and the course
-- of one sequence.
pub mod Course
use perf_analyzer.Prelude.{
  ℕ, zero, suc, ◌≡◌, ◌≢◌, ◌+◌, ◌-◌, ◌%◌, ◌<◌, ◌≤◌, refl, sym, ap, ◌∙◌, ◌⊎◌, inl, inr, Bool, true,
  false, not, ◌&&◌, List, [], ◌∷◌, ◌++◌, Option, none, some, arith, get_elem?, set, length,
  replicate, ◌>>=◌, >>=-eq-some, if◌then◌else◌, ◌==◌, u64_mod, sub_u64, ℕ_discrete, Option-cases,
  Bool-cases, get_elem?-set_self, lt_of_get_elem?,
}
use perf_analyzer.SequenceManager.{
  SequenceStatus, SequenceManager, Draws, Settings, SequenceOptions, status_at, put_status,
  fill_status, init_new_sequence, set_infer_sequence_options, set_remaining_queries,
  decrement_remaining_queries, get_sequence_id, get_remaining_queries, get_next_seq_id,
}

-- The stream and the step of the dataset that UpdateSeqJsonData asks for. The step goes into an int:
-- a stream is taken to have fewer than 2 ^ 31 steps, so that nothing is lost.
unfoldable pub seq_step : Draws → SequenceManager → ℕ → Option (ℕ × ℕ)
seq_step d m i = do
  s ← status_at m i
  let total_steps = d.total_steps s.data_stream_id
  let played = sub_u64 s.sequence_length s.remaining_queries
  if total_steps == 0 then none else some (s.data_stream_id, played % total_steps)

pub record Issued : Type 0 where
  pub options : SequenceOptions
  -- The data that the request sends, where it comes from a JSON dataset.
  pub step : Option (ℕ × ℕ)
  pub sequence_id : ℕ

abbrev json_step : Draws → SequenceManager → ℕ → Option (Option (ℕ × ℕ))
json_step d m i =
    if m.using_json_data then (seq_step d m i >>= λ step. some (some step)) else some none

-- The calls that one request of a sequence makes, in their order, once it is made.
unfoldable pub issue : Draws → SequenceManager → ℕ → Option (SequenceManager × Issued)
issue d m i = do
  (m', options) ← set_infer_sequence_options d m i
  step ← json_step d m' i
  m'' ← decrement_remaining_queries m' i
  id ← get_sequence_id m'' i
  some (m'', record { options = options; step = step; sequence_id = id })

-- Nothing is sent, and nothing changed, after an early exit or while the context is paused.
unfoldable pub send_sequence_infer_request :
    Bool → Bool → Draws → SequenceManager → ℕ → Option (SequenceManager × Option Issued)
unfolding issue
send_sequence_infer_request early_exit execute d m i =
    if not early_exit && execute
    then (issue d m i >>= λ r. some (r.0, some r.1))
    else some (m, none)

-- `none` in the pair: nothing was left to complete.
unfoldable pub complete_ongoing :
    Draws → SequenceManager → ℕ → Option (SequenceManager × Option Issued)
complete_ongoing d m i = do
  remaining ← get_remaining_queries m i
  if remaining == 0 then some (m, none) else do
    m' ← set_remaining_queries m i 1
    (m'', issued) ← issue d m' i
    some (m'', some issued)

-- A slot has data for its requests: its stream is not empty.
abbrev pub IsSupplied : Draws → SequenceManager → SequenceStatus → Type 0
IsSupplied d m s = m.using_json_data ≡ true → d.total_steps s.data_stream_id ≢ 0

abbrev pub with_remaining : SequenceStatus → ℕ → SequenceStatus
with_remaining s n = record s { remaining_queries = n }

-- The data of the request that leaves `n` requests of the sequence.
abbrev pub step_of : Draws → SequenceManager → SequenceStatus → ℕ → Option (ℕ × ℕ)
step_of d m s n =
    if m.using_json_data
    then some (s.data_stream_id, sub_u64 s.sequence_length (suc n) % d.total_steps s.data_stream_id)
    else none

abbrev pub issued_of : Draws → SequenceManager → SequenceStatus → Bool → ℕ → Issued
issued_of d m s start n = record {
  options = record { sequence_start = start; sequence_id = s.seq_id; sequence_end = suc n == 1 };
  step = step_of d m s n;
  sequence_id = s.seq_id;
}

json_step_lem :
    (d : Draws) (m : SequenceManager) (i : ℕ) (s : SequenceStatus) (n : ℕ)
    → status_at m i ≡ some s
    → s.remaining_queries ≡ suc n
    → IsSupplied d m s
    → json_step d m i ≡ some (step_of d m s n)
unfolding seq_step
json_step_lem d m i s n at r supplied = elim (Bool-cases m.using_json_data) [
  | inl j ↦ ground (arith, supplied j)
  | inr j ↦ ground arith
]

decrement_lem :
    (m : SequenceManager) (i : ℕ) (s : SequenceStatus) (n : ℕ)
    → status_at m i ≡ some s
    → s.remaining_queries ≡ suc n
    → suc n < u64_mod
    → decrement_remaining_queries m i ≡ some (put_status m i (with_remaining s n))
unfolding decrement_remaining_queries
decrement_lem m i s n at r fits =
    let e : sub_u64 s.remaining_queries 1 ≡ n = omega arith in rw (at, e)

abbrev pub options_of : SequenceStatus → Bool → ℕ → SequenceOptions
options_of s start n = record {
  sequence_start = start;
  sequence_id = s.seq_id;
  sequence_end = suc n == 1;
}

pub issue_from :
    (d : Draws) (m m' : SequenceManager) (i : ℕ) (s : SequenceStatus) (start : Bool) (n : ℕ)
    → set_infer_sequence_options d m i ≡ some (m', options_of s start n)
    → status_at m' i ≡ some s
    → s.remaining_queries ≡ suc n
    → suc n < u64_mod
    → IsSupplied d m' s
    → issue d m i ≡ some (put_status m' i (with_remaining s n), issued_of d m' s start n)
unfolding issue get_sequence_id
issue_from d m m' i s start n opts at r fits supplied =
    let w : status_at (put_status m' i (with_remaining s n)) i ≡ some (with_remaining s n) =
      get_elem?-set_self m'.sequence_statuses i _ (lt_of_get_elem? _ _ at) in
    rw (opts, json_step_lem d m' i s n at r supplied, decrement_lem m' i s n at r fits, w)

options_running :
    (d : Draws) (m : SequenceManager) (i : ℕ) (s : SequenceStatus) (n : ℕ)
    → status_at m i ≡ some s
    → s.remaining_queries ≡ suc n
    → set_infer_sequence_options d m i ≡ some (m, options_of s false n)
unfolding set_infer_sequence_options
options_running d m i s n at r = rw (at) (ground arith)

-- A request of a sequence that is under way.
pub issue_running :
    (d : Draws) (m : SequenceManager) (i : ℕ) (s : SequenceStatus) (n : ℕ)
    → status_at m i ≡ some s
    → s.remaining_queries ≡ suc n
    → suc n < u64_mod
    → IsSupplied d m s
    → issue d m i ≡ some (put_status m i (with_remaining s n), issued_of d m s false n)
issue_running d m i s n at r fits supplied =
    issue_from d m m i s false n (options_running d m i s n at r) at r fits supplied
