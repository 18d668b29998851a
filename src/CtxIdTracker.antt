-- ===== src/CtxIdTracker.antt =====
-- The context id trackers: src/base_queue_ctx_id_tracker.h, src/fifo_ctx_id_tracker.h,
-- src/concurrency_ctx_id_tracker.h, src/rand_ctx_id_tracker.h and src/ctx_id_tracker_factory.h.
-- The queue's front is the head of the list. The random tracker draws from a distribution that is
-- an argument; its state is the bound that `reset` gives.
pub mod Cycle
use perf_analyzer.Prelude.{
  ℕ, zero, suc, ◌-◌, Bool, true, false, ◌&&◌, List, [], ◌∷◌, ◌++◌, Option, none, some, length, ltb,
  if◌then◌else◌,
}

-- BaseQueueCtxIdTracker::free_ctx_ids_.
pub record QueueTracker : Type 0 where
  pub free_ctx_ids : List ℕ

unfoldable pub clear : QueueTracker → QueueTracker
clear t = record t { free_ctx_ids = [] }

unfoldable pub restore : QueueTracker → ℕ → QueueTracker
restore t id = record t { free_ctx_ids = t.free_ctx_ids ++ id ∷ [] }

unfoldable pub is_available : QueueTracker → Bool
is_available t = ltb 0 (length t.free_ctx_ids)

take_front : List ℕ → Option (ℕ × QueueTracker)
take_front [] = none
take_front (id ∷ rest) = some (id, record { free_ctx_ids = rest })

-- `none` is the exception "free ctx id list is empty".
unfoldable pub get : QueueTracker → Option (ℕ × QueueTracker)
unfolding take_front is_available
get t = if is_available t then take_front t.free_ctx_ids else none

-- for (i = from; count more rounds; ++i) push(i)
push_range : ℕ → ℕ → QueueTracker → QueueTracker
unfolding restore
push_range from zero t = t
push_range from (suc count) t = push_range (suc from) count (restore t from)

push_zeros : ℕ → QueueTracker → QueueTracker
unfolding restore
push_zeros zero t = t
push_zeros (suc count) t = push_zeros count (restore t 0)

-- FifoCtxIdTracker::Reset and ConcurrencyCtxIdTracker::Reset.
unfoldable pub fifo_reset : ℕ → QueueTracker → QueueTracker
unfolding push_range clear
fifo_reset count t = push_range 0 count (clear t)

unfoldable pub concurrency_reset : ℕ → QueueTracker → QueueTracker
unfolding push_zeros clear
concurrency_reset count t = push_zeros count (clear t)

pub data Tracker : Type 0 where
  fifo : QueueTracker → Tracker
  concurrency : QueueTracker → Tracker
  -- The upper end of the distribution, which `Reset` sets to count - 1.
  rand : ℕ → Tracker

abbrev empty_queue : QueueTracker
empty_queue = record { free_ctx_ids = [] }

-- The default-constructed distribution of the random tracker spans all of uint64_t.
unfoldable pub create_tracker : Bool → Bool → Bool → Tracker
create_tracker is_concurrency is_sequence_model serial_sequences =
    if is_concurrency
    then (if is_sequence_model then fifo empty_queue else concurrency empty_queue)
    else (if is_sequence_model && serial_sequences
        then fifo empty_queue
        else rand 18446744073709551615)
