-- ===== src/SequenceManager.antt =====
-- The sequence manager: src/sequence_manager.cc and .h, src/sequence_status.h.
-- A slot of `sequence_statuses` is one sequence that a worker keeps going. `none` is an access out
-- of range (the exception of `at`, undefined behaviour of `[]`) or a division by a zero range. The
-- random draws are an argument: the offset that GetRandomSequenceLength computes from rand(), and
-- the stream that the uniform distribution picks. Lengths are taken to fit an int, as
-- GetRandomSequenceLength casts them.
pub mod Lookup
pub mod Ids
pub mod Lifecycle
use perf_analyzer.Prelude.{
  ℕ, zero, suc, ◌%◌, Bool, true, false, ◌||◌, List, [], ◌∷◌, Option, none, some, ◌==◌, length,
  get_elem?, set, replicate, if◌then◌else◌, ◌>>=◌, ℤ, add_u64, sub_u64, add_signed_u64,
  sum_nonpositive,
}
use mathlib.Core.Option

pub record SequenceStatus : Type 0 where
  pub seq_id : ℕ
  pub data_stream_id : ℕ
  pub remaining_queries : ℕ
  pub sequence_length : ℕ

pub record Settings : Type 0 where
  pub start_sequence_id : ℕ
  pub sequence_id_range : ℕ
  pub base_length : ℕ
  pub sequence_length_specified : Bool
  pub using_json_data : Bool

pub record SequenceManager : Type 0 where
  pub settings : Settings
  pub open settings use *
  pub sequence_statuses : List SequenceStatus
  pub curr_seq_id : ℕ

-- The parts of the random state, and DataLoader::GetTotalSteps, that a call uses.
pub record Draws : Type 0 where
  pub random_offset : ℤ
  pub new_data_stream_id : ℕ
  pub total_steps : ℕ → ℕ

pub record SequenceOptions : Type 0 where
  pub sequence_start : Bool
  pub sequence_id : ℕ
  pub sequence_end : Bool

unfoldable pub new_status : SequenceStatus
new_status = record { seq_id = 0; data_stream_id = 0; remaining_queries = 0; sequence_length = 0 }

unfoldable pub init_sequence_statuses : ℕ → SequenceManager → SequenceManager
unfolding new_status
init_sequence_statuses num_sequence_statuses m = record m {
  sequence_statuses = replicate num_sequence_statuses new_status;
}

abbrev pub status_at : SequenceManager → ℕ → Option SequenceStatus
status_at m i = get_elem? m.sequence_statuses i

abbrev pub put_status : SequenceManager → ℕ → SequenceStatus → SequenceManager
put_status m i s = record m { sequence_statuses = set m.sequence_statuses i s }

unfoldable pub get_sequence_id : SequenceManager → ℕ → Option ℕ
get_sequence_id m i = do s ← status_at m i; some s.seq_id

unfoldable pub get_data_stream_id : SequenceManager → ℕ → Option ℕ
get_data_stream_id m i = do s ← status_at m i; some s.data_stream_id

unfoldable pub get_remaining_queries : SequenceManager → ℕ → Option ℕ
get_remaining_queries m i = do s ← status_at m i; some s.remaining_queries

unfoldable pub get_sequence_length : SequenceManager → ℕ → Option ℕ
get_sequence_length m i = do s ← status_at m i; some s.sequence_length

unfoldable pub set_remaining_queries : SequenceManager → ℕ → ℕ → Option SequenceManager
set_remaining_queries m i remaining_queries = do
  s ← status_at m i
  some (put_status m i (record s { remaining_queries = remaining_queries }))

unfoldable pub decrement_remaining_queries : SequenceManager → ℕ → Option SequenceManager
decrement_remaining_queries m i = do
  s ← status_at m i
  some (put_status m i (record s { remaining_queries = sub_u64 s.remaining_queries 1 }))

unfoldable pub get_num_sequence_statuses : SequenceManager → ℕ
get_num_sequence_statuses m = length m.sequence_statuses

-- `sequence_length_ + random_offset`, or 1 where that is not positive.
unfoldable pub get_random_sequence_length : ℕ → ℤ → ℕ
get_random_sequence_length length_ offset =
    if sum_nonpositive length_ offset then 1 else add_signed_u64 length_ offset

-- The loop of GetNextSeqId: does some slot hold this id?
unfoldable pub in_use : ℕ → List SequenceStatus → Bool
in_use id [] = false
in_use id (s ∷ ss) = id == s.seq_id || in_use id ss

unfoldable pub candidate_id : SequenceManager → ℕ
candidate_id m = add_u64 (m.curr_seq_id % m.sequence_id_range) m.start_sequence_id

unfoldable pub get_next_seq_id : SequenceManager → ℕ → Option (ℕ × SequenceManager)
get_next_seq_id m i = do
  s ← status_at m i
  let next = (if in_use (candidate_id m) m.sequence_statuses then s.seq_id else candidate_id m)
  let m' : SequenceManager = record m { curr_seq_id = add_u64 m.curr_seq_id 1 }
  if m.sequence_id_range == 0 then none else some (next, m')

-- What InitNewSequence writes to the slot after its id.
unfoldable pub fill_status : Draws → Settings → SequenceStatus → SequenceStatus
unfolding get_random_sequence_length
fill_status d c s =
    let varied = get_random_sequence_length c.base_length d.random_offset in
    let steps = d.total_steps d.new_data_stream_id in
    let new_length = (if c.sequence_length_specified then varied else steps) in
    if c.using_json_data
    then record s {
      data_stream_id = d.new_data_stream_id;
      sequence_length = new_length;
      remaining_queries = new_length;
    }
    else record s { remaining_queries = if varied == 0 then 1 else varied }

unfoldable pub init_new_sequence : Draws → SequenceManager → ℕ → Option SequenceManager
init_new_sequence d m i = do
  s ← status_at m i
  (next, m') ← get_next_seq_id m i
  some (put_status m' i (fill_status d m.settings (record s { seq_id = next })))

unfoldable pub set_infer_sequence_options :
    Draws → SequenceManager → ℕ → Option (SequenceManager × SequenceOptions)
set_infer_sequence_options d m i = do
  s ← status_at m i
  let start = s.remaining_queries == 0
  m' ← (if start then init_new_sequence d m i else some m)
  s' ← status_at m' i
  some (
    m',
    record {
      sequence_start = start;
      sequence_id = s'.seq_id;
      sequence_end = s'.remaining_queries == 1;
    },
  )
