-- ===== src/AsyncContext.antt =====
-- The asynchronous requests of an InferContext (src/infer_context.cc): what SendRequest registers and
-- what AsyncCallbackFuncImpl does at a response. The lock makes each one step. What the client
-- backend says of a response is an argument, and so is the status of the comparison of its outputs;
-- the outputs themselves, and the callbacks of the worker that follow, are left out. A request id
-- is a number.
pub mod Recorded
use perf_analyzer.Prelude.{
  ℕ, zero, suc, ◌+◌, ◌-◌, ◌%◌, ◌≡◌, refl, Bool, true, false, not, ◌&&◌, ◌||◌, List, [], ◌∷◌, ◌++◌,
  Option, none, some, ◌==◌, if◌then◌else◌,
}
use perf_analyzer.Status.{Status, ok, err, is_ok}
use perf_analyzer.Profiler.Window.{RequestRecord}

pub record AsyncContext : Type 0 where
  pub cb_status : Status
  pub async_req_map : List (ℕ × RequestRecord)
  pub request_records : List RequestRecord
  pub num_responses : ℕ
  pub has_received_final_response : Bool
  pub total_ongoing_requests : ℕ

-- What the backend's result says.
pub record Response : Type 0 where
  pub request_status : Status
  pub id_status : Status
  pub id : ℕ
  pub null_status : Status
  pub is_null : Bool
  pub final_status : Status
  pub is_final : Bool
  pub outputs_status : Status
  pub now : ℕ

unfoldable pub find_request : ℕ → List (ℕ × RequestRecord) → Option RequestRecord
find_request id [] = none
find_request id ((k, q) ∷ rest) = if id == k then some q else find_request id rest

unfoldable pub put_request : ℕ → RequestRecord → List (ℕ × RequestRecord) → List (ℕ × RequestRecord)
put_request id q [] = (id, q) ∷ []
put_request id q ((k, old) ∷ rest) =
    if id == k then (k, q) ∷ rest else (k, old) ∷ put_request id q rest

unfoldable pub erase_request : ℕ → List (ℕ × RequestRecord) → List (ℕ × RequestRecord)
erase_request id [] = []
erase_request id ((k, q) ∷ rest) = if id == k then rest else (k, q) ∷ erase_request id rest

-- The counter of ongoing requests has 32 bits.
abbrev pub u32_mod : ℕ
u32_mod = 4294967296

abbrev pub timestamps_of : Option RequestRecord → List ℕ
timestamps_of none = []
timestamps_of (some q) = q.response_timestamps

abbrev pub null_of : Option RequestRecord → Bool
null_of none = false
null_of (some q) = q.has_null_last_response

-- The asynchronous part of SendRequest: an entry that is there keeps its responses.
unfoldable pub register_request : ℕ → ℕ → Bool → Bool → ℕ → AsyncContext → AsyncContext
unfolding find_request put_request
register_request id now sequence_end delayed sequence_id c =
    let old = find_request id c.async_req_map in
    let q : RequestRecord = record {
      start_time = now;
      response_timestamps = timestamps_of old;
      sequence_end = sequence_end;
      delayed = delayed;
      sequence_id = sequence_id;
      has_null_last_response = null_of old;
    } in
    record c {
      async_req_map = put_request id q c.async_req_map;
      total_ongoing_requests = (c.total_ongoing_requests + 1) % u32_mod;
    }

-- The end of the callback.
unfoldable pub finish : Bool → AsyncContext → AsyncContext
finish is_final_response c =
    if is_final_response
    then record c {
      total_ongoing_requests = (c.total_ongoing_requests + u32_mod - 1) % u32_mod;
      num_responses = 0;
    }
    else c

-- The record of the request with this response.
abbrev pub responded : Response → RequestRecord → RequestRecord
responded r q = record q {
  response_timestamps = q.response_timestamps ++ (r.now ∷ []);
  has_null_last_response = if r.is_null then true else q.has_null_last_response;
}

-- A request that is not in the map counts as final.
unfoldable pub received : Response → Option RequestRecord → AsyncContext → AsyncContext
unfolding finish put_request erase_request
received r none c = finish true c
received r (some q) c =
    let c' = record c {
      cb_status = r.final_status;
      async_req_map = put_request r.id (responded r q) c.async_req_map;
      num_responses = suc c.num_responses;
    } in
    let recorded = record c' {
      cb_status = r.outputs_status;
      async_req_map = erase_request r.id c'.async_req_map;
      request_records = c.request_records ++ (responded r q ∷ []);
      has_received_final_response = true;
    } in
    if not (is_ok r.null_status)
    then record c { cb_status = r.null_status }
    else (if not (is_ok r.final_status)
        then c'
        else (if r.is_final then finish true recorded else finish false c'))

unfoldable pub async_callback : Response → AsyncContext → AsyncContext
unfolding received finish find_request
async_callback r c =
    if not (is_ok c.cb_status)
    then finish true c
    else (if not (is_ok r.request_status)
        then finish true (record c { cb_status = r.request_status })
        else received r (find_request r.id c.async_req_map) (record c { cb_status = r.id_status }))
