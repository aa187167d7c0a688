-- ===== src/QueryRouter.antt =====
-- src/core/query_router.cpp: the turn of the nodes, the cache of responses and the metrics. Its header is
-- not in the repository; the fields are those that it names. What returns a constant or its argument and
-- changes nothing is left out.
pub mod Turns
use dann.Prelude.{
  ℕ, ◌%◌, Bool, true, false, not, ◌||◌, Option, none, some, List, [], ◌∷◌, ◌++◌, length, get_or,
  drop, ◌==◌, if◌then◌else◌, ℤ,
}
use dann.Dict.{Text, text_key, find, assign}
use dann.Types.{Float, InternalSearchResult}
use dann.Config.{text}
use dann.Metrics.{Double, DoubleOps}
use dann.Averages.{counted, running_average}

pub record QueryRequest : Type 0 where
  pub query_vector : List Float
  pub k : ℤ

pub record QueryResponse : Type 0 where
  pub success : Bool
  pub error_message : Text
  pub results : List InternalSearchResult
  pub query_time_ms : ℕ

pub record QueryMetrics : Type 0 where
  pub total_queries : ℕ
  pub successful_queries : ℕ
  pub failed_queries : ℕ
  pub avg_response_time_ms : Double

abbrev pub no_queries : QueryMetrics
no_queries = record {
  total_queries = 0;
  successful_queries = 0;
  failed_queries = 0;
  avg_response_time_ms = 0;
}

-- `counter` is the static counter of round_robin_strategy. The node manager is not used.
pub record QueryRouter : Type 0 where
  pub load_balance_strategy : Text
  pub caching_enabled : Bool
  pub query_cache : List (Text × QueryResponse)
  pub metrics : QueryMetrics
  pub running : Bool
  pub counter : ℕ

-- What the static counter shows at the time is given.
unfoldable pub new_query_router : ℕ → QueryRouter
new_query_router counter = record {
  load_balance_strategy = text "round_robin";
  caching_enabled = false;
  query_cache = [];
  metrics = no_queries;
  running = false;
  counter = counter;
}

abbrev pub answer : Bool → QueryResponse
answer success = record { success = success; error_message = []; results = []; query_time_ms = 0 }

unfoldable pub set_load_balance_strategy : Text → QueryRouter → QueryRouter
set_load_balance_strategy strategy s = record s { load_balance_strategy = strategy }

unfoldable pub enable_caching : Bool → QueryRouter → QueryRouter
enable_caching enable s = record s { caching_enabled = enable }

unfoldable pub reset_metrics : QueryRouter → QueryRouter
reset_metrics s = record s { metrics = no_queries }

unfoldable pub start_worker_pool : QueryRouter → QueryRouter
start_worker_pool s = record s { running = true }

unfoldable pub stop_worker_pool : QueryRouter → QueryRouter
stop_worker_pool s = record s { running = false }

unfoldable pub round_robin_strategy : List Text → QueryRouter → QueryRouter × Text
round_robin_strategy candidates s =
    (record s { counter = counted s.counter }, get_or candidates (s.counter % length candidates) [])

-- Whatever the strategy that is set.
unfoldable pub select_node : List Text → QueryRouter → QueryRouter × Text
unfolding round_robin_strategy
select_node candidates s =
    if length candidates == 0 then (s, []) else round_robin_strategy candidates s

-- A response that failed gives its error message to the merged one, the last of them remaining.
unfoldable pub merge_into : QueryResponse → List QueryResponse → QueryResponse
merge_into merged [] = merged
merge_into merged (response ∷ responses) =
    merge_into
      (record merged {
        results = merged.results ++ response.results;
        success = if response.success then merged.success else false;
        error_message = if response.success then merged.error_message else response.error_message;
      })
      responses

unfoldable pub merge_results : List QueryResponse → QueryResponse
unfolding merge_into
merge_results responses = merge_into (answer true) responses

unfoldable pub merge_search_results : List (List InternalSearchResult) → List InternalSearchResult
merge_search_results [] = []
merge_search_results (found ∷ result_sets) = found ++ merge_search_results result_sets

-- std::to_string of a float and of an int are parameters.
module _ (show_float : Float → Text) (show_int : ℤ → Text) where
  unfoldable pub key_floats : List Float → Text
  key_floats [] = []
  key_floats (value ∷ query_vector) = show_float value ++ 44 ∷ key_floats query_vector

  unfoldable pub generate_cache_key : List Float → ℤ → Text
  unfolding key_floats
  generate_cache_key query_vector k = show_int k ++ 58 ∷ key_floats query_vector

  unfoldable pub get_cached_result : List Float → ℤ → QueryRouter → QueryResponse
  unfolding generate_cache_key
  get_cached_result query_vector k s =
      elim (find (generate_cache_key query_vector k) s.query_cache) [
        | none ↦ answer false
        | some response ↦ response
      ]

  unfoldable pub cache_result : List Float → ℤ → QueryResponse → QueryRouter → QueryRouter
  unfolding generate_cache_key
  cache_result query_vector k response s = record s {
    query_cache = assign (generate_cache_key query_vector k) response s.query_cache;
  }

  module _ (doubles : DoubleOps) where
    unfoldable pub count_query : ℕ → QueryMetrics → QueryMetrics
    count_query elapsed_ms metrics =
        let total = counted metrics.total_queries in
        record metrics {
          total_queries = total;
          successful_queries = counted metrics.successful_queries;
          avg_response_time_ms =
              running_average doubles metrics.avg_response_time_ms total
                (doubles.of_count elapsed_ms);
        }

    -- The response to a query that is not answered from the cache.
    unfoldable pub run_query : ℕ → QueryRequest → QueryRouter → QueryRouter × QueryResponse
    unfolding count_query cache_result
    run_query elapsed_ms request s =
        let response = record (answer true) { query_time_ms = elapsed_ms } in
        let t = record s { metrics = count_query elapsed_ms s.metrics } in
        (
          if s.caching_enabled then cache_result request.query_vector request.k response t else t,
          response,
        )

    unfoldable pub execute_query : ℕ → QueryRequest → QueryRouter → QueryRouter × QueryResponse
    unfolding get_cached_result run_query
    execute_query elapsed_ms request s =
        let cached = get_cached_result request.query_vector request.k s in
        let hit = cached.success || not (length cached.error_message == 0) in
        if (if s.caching_enabled then hit else false)
        then (s, cached)
        else run_query elapsed_ms request s

    -- A query for each of the nodes, one after the other, each of which runs here; `elapsed` has the
    -- times.
    unfoldable pub parallel_query :
        List ℕ → QueryRequest → List Text → QueryRouter → QueryRouter × List QueryResponse
    unfolding execute_query
    parallel_query elapsed request [] s = (s, [])
    parallel_query elapsed request (node ∷ target_nodes) s =
        let first = execute_query (get_or elapsed 0 0) request s in
        let rest = parallel_query (drop 1 elapsed) request target_nodes first.0 in
        (rest.0, first.1 ∷ rest.1)
