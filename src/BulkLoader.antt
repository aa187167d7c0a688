-- ===== src/BulkLoader.antt =====
-- src/core/bulk_loader.cpp: loads of vectors into an index, and their metrics. The headers of this file
-- are not in the repository; the fields are those that it names. What returns a constant and changes
-- nothing is left out.
pub mod Loads
use mathlib.Core.Option
use dann.Prelude.{
  ℕ, ◌+◌, ◌/◌, ◌%◌, Bool, true, false, ◌&&◌, not, ltb, Option, none, some, List, ◌++◌, length, ◌==◌,
  if◌then◌else◌, ℤ, size_mod,
}
use dann.Dict.{Text}
use dann.Types.{Float}
use dann.Config.{text}
use dann.Metrics.{Double, DoubleOps}
use dann.Averages.{counted, running_average}
use dann.VectorIndex.{FaissOps, VectorIndex, add_vectors_bulk}

pub record BulkLoadRequest : Type 0 where
  pub vectors : List Float
  pub ids : List ℤ
  pub batch_size : ℤ

pub record LoadMetrics : Type 0 where
  pub total_loads : ℕ
  pub successful_loads : ℕ
  pub failed_loads : ℕ
  pub avg_load_time_ms : Double
  pub total_vectors_loaded : ℕ
  pub avg_vectors_per_second : Double

abbrev pub no_loads : LoadMetrics
no_loads = record {
  total_loads = 0;
  successful_loads = 0;
  failed_loads = 0;
  avg_load_time_ms = 0;
  total_vectors_loaded = 0;
  avg_vectors_per_second = 0;
}

-- Without an index the pointer is null.
pub record BulkLoader (F : Type 0) : Type 0 where
  pub index : Option (VectorIndex F)
  pub batch_size : ℕ
  pub max_concurrent_loads : ℕ
  pub retry_attempts : ℕ
  pub error_handling_strategy : Text
  pub running : Bool
  pub metrics : LoadMetrics

unfoldable pub new_bulk_loader : {F : Type 0} → Option (VectorIndex F) → BulkLoader F
new_bulk_loader index = record {
  index = index;
  batch_size = 1000;
  max_concurrent_loads = 1;
  retry_attempts = 0;
  error_handling_strategy = text "fail_fast";
  running = false;
  metrics = no_loads;
}

module _ {F : Type 0} where
  unfoldable pub reset_metrics : BulkLoader F → BulkLoader F
  reset_metrics s = record s { metrics = no_loads }

  unfoldable pub set_batch_size : ℕ → BulkLoader F → BulkLoader F
  set_batch_size batch_size s = record s { batch_size = batch_size }

  unfoldable pub set_max_concurrent_loads : ℕ → BulkLoader F → BulkLoader F
  set_max_concurrent_loads max_loads s = record s { max_concurrent_loads = max_loads }

  unfoldable pub set_retry_attempts : ℕ → BulkLoader F → BulkLoader F
  set_retry_attempts retry_attempts s = record s { retry_attempts = retry_attempts }

  unfoldable pub set_error_handling_strategy : Text → BulkLoader F → BulkLoader F
  set_error_handling_strategy strategy s = record s { error_handling_strategy = strategy }

  unfoldable pub start_worker_pool : BulkLoader F → BulkLoader F
  start_worker_pool s = record s { running = true }

  unfoldable pub stop_worker_pool : BulkLoader F → BulkLoader F
  stop_worker_pool s = record s { running = false }

  unfoldable pub validate_vectors : Option (VectorIndex F) → List Float → List ℤ → Bool
  validate_vectors none vectors ids = false
  validate_vectors (some x) vectors ids =
      not (length vectors == 0)
      && (not (length ids == 0)
          && ((length vectors % x.dimension == 0) && (length vectors / x.dimension == length ids)))

-- std::to_string is a parameter.
unfoldable pub generate_load_id : (ℕ → Text) → ℕ → ℕ × Text
generate_load_id to_string counter = (counted counter, text "load_" ++ to_string counter)

-- A load is timed in whole milliseconds; `rate` is the number of vectors over the milliseconds / 1000.0.
module _ (doubles : DoubleOps) (rate : ℕ → ℕ → Double) where
  unfoldable pub after_success : ℕ → ℕ → LoadMetrics → LoadMetrics
  after_success ids elapsed_ms metrics =
      let successful = counted metrics.successful_loads in
      record metrics {
        total_loads = counted metrics.total_loads;
        successful_loads = successful;
        total_vectors_loaded = (metrics.total_vectors_loaded + ids) % size_mod;
        avg_load_time_ms =
            running_average doubles metrics.avg_load_time_ms successful
              (doubles.of_count elapsed_ms);
        avg_vectors_per_second =
            if ltb 0 elapsed_ms then rate ids elapsed_ms else metrics.avg_vectors_per_second;
      }

  unfoldable pub after_failure : LoadMetrics → LoadMetrics
  after_failure metrics = record metrics {
    total_loads = counted metrics.total_loads;
    failed_loads = counted metrics.failed_loads;
  }

  module _ {F W : Type 0} (ops : FaissOps F W) where
    unfoldable pub after_load : ℕ → ℕ → BulkLoader F → VectorIndex F × Bool → BulkLoader F × Bool
    unfolding after_success after_failure
    after_load ids elapsed_ms s (x, ok) = (
      record s {
        index = some x;
        metrics = if ok then after_success ids elapsed_ms s.metrics else after_failure s.metrics;
      },
      ok,
    )

    abbrev load_into :
        (ℕ → ℕ)
        → ℕ
        → BulkLoadRequest
        → BulkLoader F
        → Option (VectorIndex F)
        → Option (BulkLoader F × Bool)
    load_into now elapsed_ms request s none = none
    load_into now elapsed_ms request s (some x) =
        Option.map (after_load (length request.ids) elapsed_ms s)
          (add_vectors_bulk ops now request.batch_size request.vectors request.ids x)

    -- The clock's readings in the index and the time of the load are given. The batch size is that of
    -- the request.
    unfoldable pub load_vectors_sync :
        (ℕ → ℕ) → ℕ → BulkLoadRequest → BulkLoader F → Option (BulkLoader F × Bool)
    unfolding validate_vectors after_load after_failure
    load_vectors_sync now elapsed_ms request s =
        if validate_vectors s.index request.vectors request.ids
        then load_into now elapsed_ms request s s.index
        else some (record s { metrics = after_failure s.metrics }, false)
