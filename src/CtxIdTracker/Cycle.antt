-- ===== src/CtxIdTracker/Cycle.antt =====
-- The queue trackers hand out the ids in a fixed cycle, and never lose one.
use perf_analyzer.Prelude.{
  ℕ, zero, suc, ◌≡◌, ◌↔◌, sym, ap, ◌∙◌, true, List, [], ◌∷◌, ◌++◌, Option, some, arith, length,
  replicate, ◌>>=◌,
}
use perf_analyzer.CtxIdTracker.{
  QueueTracker, clear, restore, is_available, get, fifo_reset, concurrency_reset, push_range,
  push_zeros,
}
use mathlib.Core.List.{append_assoc, append-nil}

abbrev pub range_from : ℕ → ℕ → List ℕ
range_from from zero = []
range_from from (suc count) = from ∷ range_from (suc from) count

push_range_lem :
    (count from : ℕ) (t : QueueTracker)
    → (push_range from count t).free_ctx_ids ≡ t.free_ctx_ids ++ range_from from count
unfolding push_range
push_range_lem zero from t = sym (append-nil t.free_ctx_ids)
push_range_lem (suc count) from t =
    push_range_lem count (suc from) (restore t from)
    ∙ append_assoc t.free_ctx_ids (from ∷ []) (range_from (suc from) count)

push_zeros_lem :
    (count : ℕ) (t : QueueTracker)
    → (push_zeros count t).free_ctx_ids ≡ t.free_ctx_ids ++ replicate count 0
unfolding push_zeros
push_zeros_lem zero t = sym (append-nil t.free_ctx_ids)
push_zeros_lem (suc count) t =
    push_zeros_lem count (restore t 0) ∙ append_assoc t.free_ctx_ids (0 ∷ []) (replicate count 0)

-- Whatever was in the queue, a reset to `count` leaves the ids 0 to count - 1 in order in the
-- FIFO tracker, and `count` zeros in the concurrency tracker.
pub reset_contents :
    (count : ℕ) (t : QueueTracker)
    → ((fifo_reset count t).free_ctx_ids ≡ range_from 0 count)
      × ((concurrency_reset count t).free_ctx_ids ≡ replicate count 0)
unfolding fifo_reset concurrency_reset
reset_contents count t = (push_range_lem count 0 (clear t), push_zeros_lem count (clear t))

-- A worker's round on a synchronous context: take an id, and give it back.
abbrev pub take_and_restore : QueueTracker → Option (ℕ × QueueTracker)
take_and_restore t = do (id, t') ← get t; some (id, restore t' id)

abbrev pub rounds : ℕ → QueueTracker → Option (List ℕ × QueueTracker)
rounds zero t = some ([], t)
rounds (suc n) t = do (id, t') ← take_and_restore t; (ids, t'') ← rounds n t'; some (id ∷ ids, t'')

abbrev queue : List ℕ → QueueTracker
queue ids = record { free_ctx_ids = ids }

front_to_back :
    (x : ℕ) (xs : List ℕ) → take_and_restore (queue (x ∷ xs)) ≡ some (x, queue (xs ++ x ∷ []))
unfolding get restore
front_to_back x xs = ground arith

rounds-append :
    (xs ys : List ℕ) → rounds (length xs) (queue (xs ++ ys)) ≡ some (xs, queue (ys ++ xs))
rounds-append [] ys = rw append-nil
rounds-append (x ∷ xs) ys = rw (
  front_to_back x (xs ++ ys),
  append_assoc xs ys (x ∷ []),
  rounds-append xs (ys ++ x ∷ []),
  append_assoc ys (x ∷ []) xs,
)

-- On a synchronous worker, as many rounds as there are queued ids use each of them once, in the
-- order of the queue, and leave the tracker as it was: no id is lost or favoured.
pub rounds_cycle : (t : QueueTracker) → rounds (length t.free_ctx_ids) t ≡ some (t.free_ctx_ids, t)
rounds_cycle t =
    ap (λ ids. rounds (length t.free_ctx_ids) (queue ids)) (sym (append-nil t.free_ctx_ids))
    ∙ rounds-append t.free_ctx_ids []

get-is_available_at :
    (ids : List ℕ)
    → (is_available (queue ids) ≡ true) ↔ ((r : ℕ × QueueTracker) × (get (queue ids) ≡ some r))
unfolding get is_available
get-is_available_at [] = ((λ h. cc), λ r. absurd (cc r.1))
get-is_available_at (id ∷ ids) = ((λ h. ((id, queue ids), ground arith)), λ r. ground arith)

-- An id can be taken exactly when one is available; otherwise `get` throws.
pub get-is_available :
    (t : QueueTracker) → (is_available t ≡ true) ↔ ((r : ℕ × QueueTracker) × (get t ≡ some r))
get-is_available t = get-is_available_at t.free_ctx_ids
