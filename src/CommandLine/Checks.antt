-- ===== src/CommandLine/Checks.antt =====
-- The checks of VerifyOptions (src/command_line_parser.cc), group by group.
use perf_analyzer.Prelude.{
  ℕ, Bool, not, ◌&&◌, ◌||◌, List, [], ◌∷◌, ◌++◌, Option, none, some, ltb, ◌==◌, if◌then◌else◌,
  ◌>>=◌, max, pos,
}
use perf_analyzer.Profiler.Search.{no_limit}
use perf_analyzer.CommandLine.{
  mode_value, kind_value, grpc, unknown, protocol_value, Parameters, Rates, is_empty,
  percentile_refused, is_one_int, usage_if,
}

module _ {D : Type 0} (rates : Rates D) where
  unfoldable pub basic_tests : Parameters D → List Bool
  basic_tests p =
      (is_empty p.model_name && not (kind_value p.kind == 5))
      ∷ (p.concurrency_range.start == 0)
      ∷ rates.not_positive p.rate_start
      ∷ (protocol_value p.protocol == 2)
      ∷ (p.streaming && (not (protocol_value p.protocol == 1) && not (kind_value p.kind == 3)))
      ∷ (p.using_grpc_compression && not (protocol_value p.protocol == 1))
      ∷ rates.negative p.sequence_length_variation
      ∷ percentile_refused p.percentile
      ∷ (p.zero_input && not (is_empty p.user_data))
      ∷ (p.async && p.forced_sync)
      ∷ []

  unfoldable pub verify_basics : Parameters D → Option (Parameters D)
  unfolding basic_tests
  verify_basics p =
      usage_if (basic_tests p) (record p {
        start_sequence_id = if p.start_sequence_id == 0 then 1 else p.start_sequence_id;
      })

  unfoldable pub periodic_tests : Parameters D → List Bool
  periodic_tests p =
      let periodic = mode_value p.inference_load_mode == 4 in
      (periodic && not p.streaming) ∷ (periodic && is_empty p.profile_export_file) ∷ []

  unfoldable pub correct_periodic : Parameters D → Parameters D
  correct_periodic p =
      let range = p.periodic_concurrency_range in
      if mode_value p.inference_load_mode == 4
      then (if range.end == no_limit
          then record p { periodic_concurrency_range = record range { end = p.max_threads } }
          else record p { max_threads = max p.max_threads range.end })
      else p

  unfoldable pub verify_periodic : Parameters D → Option (Parameters D)
  unfolding periodic_tests correct_periodic
  verify_periodic p = usage_if (periodic_tests p) (correct_periodic p)

  unfoldable pub search_tests : Parameters D → List Bool
  search_tests p =
      let unlimited = p.concurrency_range.end == no_limit || rates.is_zero p.rate_end in
      let binary = p.search_mode == 1 in
      (not (p.num_request_parameters == 0) && not (protocol_value p.protocol == 1))
      ∷ (mode_value p.inference_load_mode == 2
          && (p.is_mpi_run && (not (rates.is_one p.rate_end) || not (rates.is_one p.rate_step))))
      ∷ (mode_value p.inference_load_mode == 1
          && (p.is_mpi_run
              && (not (p.concurrency_range.end == 1) || not (p.concurrency_range.step == 1))))
      ∷ (unlimited && p.latency_threshold_ms == no_limit)
      ∷ (unlimited && binary)
      ∷ (binary && p.latency_threshold_ms == no_limit)
      ∷ ((ltb p.concurrency_range.end p.concurrency_range.start || rates.lt p.rate_end p.rate_start)
          && binary)
      ∷ []

  unfoldable pub verify_search : Parameters D → Option (Parameters D)
  unfolding search_tests
  verify_search p = usage_if (search_tests p) p

  unfoldable pub count_tests : Parameters D → List Bool
  count_tests p =
      let warmup = not (p.warmup_request_count == 0) in
      let counted = not (p.request_count == 0) in
      let by_concurrency = mode_value p.inference_load_mode == 1 in
      let by_rate = mode_value p.inference_load_mode == 2 in
      let levels = ltb p.concurrency_range.start p.concurrency_range.end in
      let many_rates = rates.lt p.rate_start p.rate_end in
      (warmup && (by_concurrency && levels))
      ∷ (warmup && (by_rate && many_rates))
      ∷ (counted && (by_concurrency && ltb p.request_count p.concurrency_range.start))
      ∷ (counted && (by_concurrency && levels))
      ∷ (counted && (by_rate && ltb p.request_count (rates.as_size p.rate_start)))
      ∷ (counted && (by_rate && many_rates))
      ∷ []

  unfoldable pub verify_counts : Parameters D → Option (Parameters D)
  unfolding count_tests
  verify_counts p = usage_if (count_tests p) p

  unfoldable pub backend_tests : Parameters D → List Bool
  backend_tests p =
      let tfs = kind_value p.kind == 1 in
      let c_api = kind_value p.kind == 3 in
      (tfs && not (protocol_value p.protocol == 1))
      ∷ (tfs && p.streaming)
      ∷ (tfs && p.async)
      ∷ (kind_value p.kind == 2 && is_empty p.user_data)
      ∷ (c_api && is_empty p.triton_server_path)
      ∷ (c_api && is_empty p.model_repository_path)
      ∷ (c_api && (p.async && (p.streaming && p.uses_shared_memory)))
      ∷ []

  unfoldable pub correct_backend : Parameters D → Parameters D
  correct_backend p = record p {
    batch_size = if kind_value p.kind == 1 && not p.using_batch_size then pos 0 else p.batch_size;
    protocol = if kind_value p.kind == 3 then unknown else p.protocol;
  }

  unfoldable pub verify_backend : Parameters D → Option (Parameters D)
  unfolding backend_tests correct_backend
  verify_backend p = usage_if (backend_tests p) (correct_backend p)

  unfoldable pub service_tests : Parameters D → List Bool
  service_tests p =
      let openai_kind = kind_value p.kind == 4 in
      let dynamic = kind_value p.kind == 5 in
      (openai_kind && is_empty p.user_data)
      ∷ (openai_kind && is_empty p.endpoint)
      ∷ (openai_kind && not p.async)
      ∷ (openai_kind && not (is_one_int p.batch_size))
      ∷ (dynamic && p.async)
      ∷ (dynamic && is_empty p.user_data)
      ∷ (p.should_collect_metrics && not (kind_value p.kind == 0))
      ∷ (p.metrics_url_specified && not p.should_collect_metrics)
      ∷ (p.metrics_interval_ms_specified && not p.should_collect_metrics)
      ∷ (mode_value p.inference_load_mode == 5 && not openai_kind)
      ∷ []

  -- The part before the first ':' (58), if there is one.
  unfoldable pub host_of : List ℕ → Option (List ℕ)
  host_of [] = none
  host_of (c ∷ cs) = if c == 58 then some [] else (host_of cs >>= λ host. some (c ∷ host))

  -- ":8002/metrics"
  abbrev pub metrics_suffix : List ℕ
  metrics_suffix = 58 ∷ 56 ∷ 48 ∷ 48 ∷ 50 ∷ 47 ∷ 109 ∷ 101 ∷ 116 ∷ 114 ∷ 105 ∷ 99 ∷ 115 ∷ []

  abbrev pub url_or : List ℕ → Option (List ℕ) → List ℕ
  url_or old none = old
  url_or old (some host) = host ++ metrics_suffix

  unfoldable pub correct_service : Parameters D → Parameters D
  unfolding host_of
  correct_service p = record p {
    protocol = if kind_value p.kind == 5 then grpc else p.protocol;
    metrics_url =
        if p.should_collect_metrics && not p.metrics_url_specified
        then url_or p.metrics_url (host_of p.url)
        else p.metrics_url;
  }

  unfoldable pub verify_service : Parameters D → Option (Parameters D)
  unfolding service_tests correct_service
  verify_service p = usage_if (service_tests p) (correct_service p)

  unfoldable pub verify_options : Parameters D → Option (Parameters D)
  unfolding verify_basics verify_periodic verify_search verify_counts verify_backend verify_service
  verify_options p = verify_basics p >>= λ p₁. verify_periodic p₁ >>= λ p₂.
      verify_search p₂ >>= λ p₃.
      verify_counts p₃ >>= λ p₄. verify_backend p₄ >>= λ p₅. verify_service p₅
