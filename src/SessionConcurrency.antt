-- ===== src/SessionConcurrency.antt =====
-- SessionConcurrencyManager and PayloadDatasetManager
-- (src/session_concurrency/session_concurrency_manager.cc, payload_dataset_manager.cc). The dataset
-- is what the data loader holds: one list of payloads per stream. `none` is an exception. Of a
-- request's record the model keeps the index of its payload; the request is sent and answered in one
-- step. The text of a payload, into which the history of the chat is put, is left out; what RapidJSON
-- and the client backend make of it is an argument, which stands with the payload.
pub mod Pushed
pub mod Grouped
pub mod Threads
use perf_analyzer.Prelude.{
  ℕ, zero, suc, ◌+◌, ◌≡◌, Bool, true, false, not, ◌&&◌, List, [], ◌∷◌, ◌++◌, map, Option, none,
  some, ltb, ◌==◌, if◌then◌else◌, ◌>>=◌, length, get_elem?, replicate,
}

-- What becomes of a request of a payload: a response comes; or the payload's JSON or the sending is an
-- exception; or no response comes.
pub data Sending : Type 0 where
  answered refused unanswered : Sending

-- What GetInputData gives for the inputs of one payload, and what becomes of its request. A delay may
-- be there without data.
pub record Payload : Type 0 where
  pub payload : Option (List ℕ)
  pub session_id : Option (List ℕ)
  pub delay : Option (Option ℕ)
  pub outcome : Sending

unfoldable pub same_id : List ℕ → List ℕ → Bool
same_id [] [] = true
same_id [] (b ∷ bs) = false
same_id (x ∷ xs) [] = false
same_id (x ∷ xs) (y ∷ ys) = (x == y) && same_id xs ys

-- session_id_to_dataset_map[session_id].push_back(dataset_index).
unfoldable pub push_payload : List ℕ → ℕ → List (List ℕ × List ℕ) → List (List ℕ × List ℕ)
unfolding same_id
push_payload session_id dataset_index [] = (session_id, dataset_index ∷ []) ∷ []
push_payload session_id dataset_index ((key, dataset) ∷ rest) =
    if same_id session_id key
    then (key, dataset ++ (dataset_index ∷ [])) ∷ rest
    else (key, dataset) ∷ push_payload session_id dataset_index rest

-- The loop of CreateSessionIdToPayloadsMap, from `dataset_index` on.
unfoldable pub create_session_id_to_payloads_map :
    ℕ → List Payload → List (List ℕ × List ℕ) → Option (List (List ℕ × List ℕ))
unfolding push_payload
create_session_id_to_payloads_map dataset_index [] sessions = some sessions
create_session_id_to_payloads_map dataset_index (p ∷ ps) sessions = p.session_id >>= λ session_id.
    create_session_id_to_payloads_map (suc dataset_index) ps
      (push_payload session_id dataset_index sessions)

abbrev pub dataset_of : List ℕ × List ℕ → List ℕ
dataset_of (key, dataset) = dataset

-- `order` is the order in which the unordered map is walked.
unfoldable pub group_payloads_by_session :
    (List (List ℕ × List ℕ) → List (List ℕ × List ℕ)) → List (List Payload) → Option (List (List ℕ))
unfolding create_session_id_to_payloads_map
group_payloads_by_session order [] = none
group_payloads_by_session order (p ∷ q ∷ ps) = none
group_payloads_by_session order (payloads ∷ []) =
    create_session_id_to_payloads_map 0 payloads [] >>= λ sessions.
    some (map dataset_of (order sessions))

-- What a thread of ProcessSessionsUntilComplete does next: it takes a session, or it sends the
-- payloads that are left of its session, or it has ended.
pub data Activity : Type 0 where
  fetching : Activity
  sending : List ℕ → Activity
  ended : Activity

pub record Worker : Type 0 where
  pub activity : Activity
  pub request_records : List ℕ

pub record SessionConcurrencyManager : Type 0 where
  pub session_concurrency : ℕ
  pub next_session_index : ℕ
  pub threads : List Worker

-- The inputs that RecordRequestInputs reads.
unfoldable pub record_request_inputs : Payload → Option {0} Unit
record_request_inputs p = do
  payload ← p.payload
  session_id ← p.session_id
  delay ← p.delay
  some tt

-- A missing delay is an exception.
unfoldable pub get_and_wait_for_delay : Payload → Option {0} Unit
get_and_wait_for_delay p = do delay ← p.delay; delay_ms ← delay; some tt

unfoldable pub after_request : Payload → List ℕ → Option Activity
unfolding get_and_wait_for_delay
after_request p [] = some fetching
after_request p (q ∷ rest) = get_and_wait_for_delay p >>= λ waited. some (sending (q ∷ rest))

-- SendRequest and WaitForResponse. `none` is the exception of a request that is refused, which ends
-- the program; and a wait without an end, after which the thread makes no step.
unfoldable pub wait_for_response : Sending → Option {0} Unit
wait_for_response answered = some tt
wait_for_response refused = none
wait_for_response unanswered = none

-- The next request of a session, of the payload `index`, and the wait that follows it.
unfoldable pub send_one : List Payload → ℕ → List ℕ → Worker → Option Worker
unfolding record_request_inputs wait_for_response after_request
send_one payloads index rest w = do
  p ← get_elem? payloads index
  recorded ← record_request_inputs p
  responded ← wait_for_response p.outcome
  activity ← after_request p rest
  some (record { activity = activity; request_records = w.request_records ++ (index ∷ []) })

unfoldable pub take_session : Option (List ℕ) → Worker → Worker
take_session none w = record w { activity = ended }
take_session (some one_session_payloads) w = record w { activity = sending one_session_payloads }

-- One step of a thread, with the shared next_session_index_. A thread that has ended makes none.
unfoldable pub step_at : List Payload → List (List ℕ) → ℕ → Activity → Worker → Option (ℕ × Worker)
unfolding send_one take_session
step_at payloads sessions next fetching w =
    some (suc next, take_session (get_elem? sessions next) w)
step_at payloads sessions next (sending []) w = some (next, record w { activity = fetching })
step_at payloads sessions next (sending (index ∷ rest)) w =
    send_one payloads index rest w >>= λ sent. some (next, sent)
step_at payloads sessions next ended w = none

abbrev pub worker_step : List Payload → List (List ℕ) → ℕ → Worker → Option (ℕ × Worker)
worker_step payloads sessions next w = step_at payloads sessions next w.activity w

abbrev pub new_worker : Worker
new_worker = record { activity = fetching; request_records = [] }

-- MakeAndWaitForThreads, up to the point where the threads run. The vector of their records is filled
-- with the threads, so that one test stands for the two that it is empty.
unfoldable pub make_threads :
    List (List ℕ) → SessionConcurrencyManager → Option SessionConcurrencyManager
make_threads sessions m =
    if not (length m.threads == 0)
    then none
    else (if ltb (length sessions) m.session_concurrency
        then none
        else some (record m { threads = replicate m.session_concurrency new_worker }))

unfoldable pub get_request_records : List Worker → List ℕ
get_request_records [] = []
get_request_records (w ∷ ws) = w.request_records ++ get_request_records ws
