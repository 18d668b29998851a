-- ===== src/Examples/Callbacks.antt =====
-- Runs of the asynchronous requests.
use perf_analyzer.Prelude.{◌++◌, ◌≡◌, refl, true, false, [], ◌∷◌, none, arith}
use perf_analyzer.Status.{ok}
use perf_analyzer.AsyncContext.{AsyncContext, find_request, register_request, async_callback}
use perf_analyzer.AsyncContext.Recorded.{
  answer, answers, IsRecorded, sent_request, with_answers, async_callback-IsRecorded,
}

abbrev context : AsyncContext
context = record {
  cb_status = ok;
  async_req_map = (8, sent_request 1 true false 0) ∷ [];
  request_records = [];
  num_responses = 0;
  has_received_final_response = false;
  total_ongoing_requests = 1;
}

no_nine : find_request 9 context.async_req_map ≡ none
unfolding find_request
no_nine = refl

async_callback-IsRecorded_example :
    IsRecorded 9
      (with_answers
        (sent_request 5 true false 0)
        (((false, 6) ∷ (false, 7) ∷ []) ++ ((true, 9) ∷ [])))
      []
      1
      (async_callback
        (answer 9 true (true, 9))
        (answers 9 ((false, 6) ∷ (false, 7) ∷ []) (register_request 9 5 true false 0 context)))
async_callback-IsRecorded_example =
    async_callback-IsRecorded 9 5 true false 0 ((false, 6) ∷ (false, 7) ∷ []) (true, 9) context refl
      no_nine (omega arith)
