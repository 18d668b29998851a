-- ===== src/Examples/Sequences.antt =====
-- Runs of the sequence manager and the context id trackers.
use perf_analyzer.Prelude.{
  ℕ, ◌<◌, ◌≡◌, ◌≢◌, u64_mod, inr, refl, true, [], ◌∷◌, some, arith, pos, replicate, zero, suc,
  get_elem?,
}
use perf_analyzer.CtxIdTracker.{QueueTracker, fifo_reset, concurrency_reset}
use perf_analyzer.CtxIdTracker.Cycle.{range_from, rounds, reset_contents, rounds_cycle}
use perf_analyzer.SequenceManager.{
  SequenceStatus, Settings, SequenceManager, Draws, init_new_sequence, in_use, candidate_id,
  get_next_seq_id, fill_status, get_random_sequence_length,
}
use perf_analyzer.SequenceManager.Ids.{IsDistinct, init_new_sequence-IsDistinct}
use perf_analyzer.SequenceManager.Lifecycle.Course.{IsPlayed, started_length, issue_many-course}

abbrev three_ids : QueueTracker
three_ids = record { free_ctx_ids = 4 ∷ 1 ∷ 9 ∷ [] }

reset_contents_example :
    ((fifo_reset 3 three_ids).free_ctx_ids ≡ range_from 0 3)
    × ((concurrency_reset 3 three_ids).free_ctx_ids ≡ replicate 3 0)
reset_contents_example = reset_contents 3 three_ids

rounds_cycle_example : rounds 3 three_ids ≡ some (4 ∷ 1 ∷ 9 ∷ [], three_ids)
rounds_cycle_example = rounds_cycle three_ids

abbrev draws : Draws
draws = record { random_offset = pos 0; new_data_stream_id = 0; total_steps = λ stream. 2 }

abbrev settings : Settings
settings = record {
  start_sequence_id = 10;
  sequence_id_range = 2;
  base_length = 3;
  sequence_length_specified = true;
  using_json_data = true;
}

abbrev idle_slot : SequenceStatus
idle_slot = record { seq_id = 0; data_stream_id = 0; remaining_queries = 0; sequence_length = 0 }

abbrev idle_manager : SequenceManager
idle_manager = record {
  settings = settings;
  sequence_statuses = idle_slot ∷ idle_slot ∷ [];
  curr_seq_id = 0;
}

two_ne : ◌≢◌ {A = ℕ} 2 0
two_ne e = ground arith

started_three : started_length draws settings ≡ 3
unfolding get_random_sequence_length
started_three = refl

three_pos : 0 < started_length draws settings
three_pos = omega (arith, started_three)

three_fits : started_length draws settings < u64_mod
three_fits = omega (arith, started_three)

issue_many-course_example : IsPlayed draws idle_manager 1 (started_length draws settings)
issue_many-course_example =
    issue_many-course draws idle_manager 1 idle_slot refl refl two_ne three_pos three_fits
      (λ j. two_ne)

-- Slot 1 after its sequence has started.
abbrev started : SequenceManager
started = record {
  settings = settings;
  sequence_statuses =
      idle_slot
      ∷ record { seq_id = 10; data_stream_id = 0; remaining_queries = 3; sequence_length = 3 }
      ∷ [];
  curr_seq_id = 1;
}

starts : init_new_sequence draws idle_manager 1 ≡ some started
unfolding init_new_sequence get_next_seq_id fill_status in_use candidate_id
starts = refl

idle_id :
    (i : ℕ) (s : SequenceStatus)
    → get_elem? idle_manager.sequence_statuses i ≡ some s
    → s.seq_id ≡ 0
idle_id zero s e = ground arith
idle_id (suc zero) s e = ground arith
idle_id (suc (suc i)) s e = ground arith

idle-IsDistinct : IsDistinct idle_manager.sequence_statuses
idle-IsDistinct i j s t at_i at_j same = inr (idle_id i s at_i)

init_new_sequence-IsDistinct_example : IsDistinct started.sequence_statuses
init_new_sequence-IsDistinct_example =
    init_new_sequence-IsDistinct draws idle_manager 1 starts idle-IsDistinct
