-- ===== src/CommandLine.antt =====
-- CLParser::VerifyOptions (src/command_line_parser.cc): the checks of the options once they are
-- parsed, and the options that it corrects. `none` is the exception of Usage. A string is the list
-- of its bytes. Request rates are doubles, whose type and tests are parameters. The checks follow
-- the source in groups: the tests of a group are those that lead to Usage, in their order, and then
-- come its corrections, which no test of the same group reads.
pub mod Checks
pub mod Accepted
use perf_analyzer.Prelude.{
  ℕ, zero, suc, ◌+◌, ◌≡◌, refl, Bool, true, false, not, ◌&&◌, ◌||◌, List, [], ◌∷◌, ◌++◌, Option,
  none, some, ltb, leb, ◌==◌, if◌then◌else◌, ◌>>=◌, max, length, ℤ, pos, negsuc,
}
use perf_analyzer.PeriodicConcurrencyManager.{Range}
use perf_analyzer.Profiler.Search.{no_limit}

pub data InferenceLoadMode : Type 0 where
  no_mode concurrency request_rate custom_intervals periodic_concurrency session_concurrency
        fixed_schedule :
      InferenceLoadMode

-- An enumeration's values are numbers, by which they are compared.
abbrev pub mode_value : InferenceLoadMode → ℕ
mode_value no_mode = 0
mode_value concurrency = 1
mode_value request_rate = 2
mode_value custom_intervals = 3
mode_value periodic_concurrency = 4
mode_value session_concurrency = 5
mode_value fixed_schedule = 6

pub data BackendKind : Type 0 where
  triton tensorflow_serving torchserve triton_c_api openai dynamic_grpc : BackendKind

abbrev pub kind_value : BackendKind → ℕ
kind_value triton = 0
kind_value tensorflow_serving = 1
kind_value torchserve = 2
kind_value triton_c_api = 3
kind_value openai = 4
kind_value dynamic_grpc = 5

pub data ProtocolType : Type 0 where
  http grpc unknown : ProtocolType

abbrev pub protocol_value : ProtocolType → ℕ
protocol_value http = 0
protocol_value grpc = 1
protocol_value unknown = 2

-- The fields that VerifyOptions reads or writes. The search mode is its number too: 0 is linear, 1 binary and 2 none. The shared memory type is
-- whether there is any.
pub record Parameters (D : Type 0) : Type 0 where
  pub model_name : List ℕ
  pub kind : BackendKind
  pub concurrency_range : Range
  pub periodic_concurrency_range : Range
  pub rate_start : D
  pub rate_end : D
  pub rate_step : D
  pub protocol : ProtocolType
  pub streaming : Bool
  pub using_grpc_compression : Bool
  pub sequence_length_variation : D
  pub start_sequence_id : ℕ
  pub percentile : ℤ
  pub zero_input : Bool
  pub user_data : List (List ℕ)
  pub async : Bool
  pub forced_sync : Bool
  pub inference_load_mode : InferenceLoadMode
  pub profile_export_file : List ℕ
  pub max_threads : ℕ
  pub num_request_parameters : ℕ
  pub is_mpi_run : Bool
  pub latency_threshold_ms : ℕ
  pub search_mode : ℕ
  pub warmup_request_count : ℕ
  pub request_count : ℕ
  pub using_batch_size : Bool
  pub batch_size : ℤ
  pub triton_server_path : List ℕ
  pub model_repository_path : List ℕ
  pub uses_shared_memory : Bool
  pub endpoint : List ℕ
  pub should_collect_metrics : Bool
  pub metrics_url_specified : Bool
  pub metrics_interval_ms_specified : Bool
  pub url : List ℕ
  pub metrics_url : List ℕ

-- The tests on doubles; `as_size` is the conversion to int and on to size_t.
pub record Rates (D : Type 0) : Type 0 where
  pub not_positive : D → Bool
  pub negative : D → Bool
  pub is_one : D → Bool
  pub is_zero : D → Bool
  pub lt : D → D → Bool
  pub as_size : D → ℕ

abbrev pub is_empty {ℓ} : {A : Type ℓ} → List A → Bool
is_empty [] = true
is_empty (x ∷ xs) = false

abbrev pub percentile_refused : ℤ → Bool
percentile_refused (pos n) = ltb 99 n || ltb n 1
percentile_refused (negsuc zero) = false
percentile_refused (negsuc (suc n)) = true

abbrev pub is_one_int : ℤ → Bool
is_one_int (pos n) = n == 1
is_one_int (negsuc n) = false

abbrev pub any_of : List Bool → Bool
any_of [] = false
any_of (b ∷ bs) = b || any_of bs

-- Usage where some test holds, and the corrected options otherwise.
unfoldable pub usage_if {ℓ} : {A : Type ℓ} → List Bool → A → Option A
usage_if tests p = if any_of tests then none else some p
