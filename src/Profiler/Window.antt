-- ===== src/Profiler/Window.antt =====
-- ValidLatencyMeasurement (src/inference_profiler.cc): the requests that a measurement window takes
-- from the profiler's records. Times are nanoseconds. Counts of records do not pass a size_t.
pub mod Ends
pub mod Partition
pub mod Sorted
use perf_analyzer.Prelude.{
  ℕ, zero, suc, ◌+◌, ◌-◌, ◌≤◌, ◌<◌, ◌≡◌, refl, Bool, true, false, not, ◌&&◌, ◌||◌, List, [], ◌∷◌,
  ◌++◌, Option, none, some, ltb, leb, ◌==◌, if◌then◌else◌, length, get_elem?,
}

-- The fields of RequestRecord that the profiler reads, and the id that tells the records apart.
pub record RequestRecord : Type 0 where
  pub start_time : ℕ
  pub response_timestamps : List ℕ
  pub sequence_end : Bool
  pub delayed : Bool
  pub sequence_id : ℕ
  pub has_null_last_response : Bool

-- The last element. On no element the code reads past the list; a record is made when its first
-- response comes.
abbrev pub last : List ℕ → ℕ
last [] = 0
last (x ∷ []) = x
last (x ∷ y ∷ xs) = last (y ∷ xs)

-- All but the last element.
abbrev pub but_last : List ℕ → List ℕ
but_last [] = []
but_last (x ∷ []) = []
but_last (x ∷ y ∷ xs) = x ∷ but_last (y ∷ xs)

-- request_end_ns, or none for a request whose only response is the null one.
unfoldable pub request_end : RequestRecord → Option ℕ
request_end r =
    if not r.has_null_last_response
    then some (last r.response_timestamps)
    else (if ltb 1 (length r.response_timestamps)
        then some (last (but_last r.response_timestamps))
        else none)

pub record Measured : Type 0 where
  pub valid_latencies : List ℕ
  pub valid_sequence_count : ℕ
  pub delayed_request_count : ℕ
  pub response_count : ℕ
  pub erase_indices : List ℕ

abbrev pub one_if : Bool → ℕ
one_if true = 1
one_if false = 0

-- The body of the loop at index `i`, where the request's end is known or not.
unfoldable pub take_record : ℕ → ℕ → ℕ → RequestRecord → Option ℕ → Measured → Measured
take_record first second i r none m = record m { erase_indices = m.erase_indices ++ (i ∷ []) }
take_record first second i r (some end) m =
    if leb r.start_time end && (leb first end && leb end second)
    then record {
      valid_latencies = m.valid_latencies ++ ((end - r.start_time) ∷ []);
      valid_sequence_count = m.valid_sequence_count + one_if r.sequence_end;
      delayed_request_count = m.delayed_request_count + one_if r.delayed;
      response_count =
          m.response_count + length r.response_timestamps - one_if r.has_null_last_response;
      erase_indices = m.erase_indices ++ (i ∷ []);
    }
    else m

-- The loop, from index `i` on.
unfoldable pub scan : ℕ → ℕ → ℕ → List RequestRecord → Measured → Measured
unfolding take_record request_end
scan first second i [] m = m
scan first second i (r ∷ rs) m =
    scan first second (suc i) rs (take_record first second i r (request_end r) m)

abbrev pub found : Option RequestRecord → List RequestRecord → List RequestRecord
found none rest = rest
found (some r) rest = r ∷ rest

-- valid_requests: the records at the indices, in their order.
unfoldable pub pick : List RequestRecord → List ℕ → List RequestRecord
pick rs [] = []
pick rs (i ∷ is) = found (get_elem? rs i) (pick rs is)

unfoldable pub erase_at : ℕ → List RequestRecord → List RequestRecord
erase_at i [] = []
erase_at zero (r ∷ rs) = rs
erase_at (suc i) (r ∷ rs) = r ∷ erase_at i rs

-- The erasures, the last index first.
unfoldable pub erase_backwards : List ℕ → List RequestRecord → List RequestRecord
unfolding erase_at
erase_backwards [] rs = rs
erase_backwards (i ∷ is) rs = erase_at i (erase_backwards is rs)

-- std::sort, as insertion.
unfoldable pub insert : ℕ → List ℕ → List ℕ
insert x [] = x ∷ []
insert x (y ∷ ys) = if leb x y then x ∷ y ∷ ys else y ∷ insert x ys

unfoldable pub sort : List ℕ → List ℕ
unfolding insert
sort [] = []
sort (x ∷ xs) = insert x (sort xs)

-- The counts, with the latencies sorted; the valid requests; the records that stay. The code resets
-- all of the counts but delayed_request_count, which its caller passes.
unfoldable pub valid_latency_measurement :
    ℕ → ℕ → ℕ → List RequestRecord → Measured × List RequestRecord × List RequestRecord
unfolding scan pick erase_backwards sort
valid_latency_measurement first second delayed_request_count all_request_records =
    let m = scan first second 0 all_request_records (record {
      valid_latencies = [];
      valid_sequence_count = 0;
      delayed_request_count = delayed_request_count;
      response_count = 0;
      erase_indices = [];
    }) in
    (
      record m { valid_latencies = sort m.valid_latencies },
      pick all_request_records m.erase_indices,
      erase_backwards m.erase_indices all_request_records,
    )
